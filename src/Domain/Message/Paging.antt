-- ===== src/Domain/Message/Paging.antt =====
-- Pages of a list: `paginate`.
use openim_sdk_core_rust.Base.{
  ℕ, zero, suc, ◌+◌, ◌-◌, ◌*◌, ◌^◌, ◌≤◌, ◌<◌, min, ◌≡◌, refl, sym, ap, ◌∙◌, List, [], ◌∷◌, ◌++◌,
  arith, length, take, drop, length-take, length-drop,
}
use openim_sdk_core_rust.Base.Int.{pos, pos_part}
use openim_sdk_core_rust.Types.{Pagination, normalized}
use openim_sdk_core_rust.Domain.Message.Service.{paginate, saturating_mul}

take-nil : {T : Type 0} (n : ℕ) → ◌≡◌ {A = List T} (take n []) []
take-nil zero = refl
take-nil (suc n) = refl

take-plus : {T : Type 0} (a b : ℕ) (xs : List T) → take (a + b) xs ≡ take a xs ++ take b (drop a xs)
take-plus zero b xs = ap (λ n. take n xs) (omega arith)
take-plus (suc a) b [] = take-nil (suc a + b) ∙ sym (take-nil b)
take-plus (suc a) b (x ∷ xs) =
    let moved : suc a + b ≡ suc (a + b) = omega arith in
    ap (λ n. take n (x ∷ xs)) moved ∙ ap (λ ys. x ∷ ys) (take-plus a b xs)

-- the first pages of a size, one after the other
abbrev pub pages : {T : Type 0} → ℕ → ℕ → List T → List T
pages zero size items = []
pages (suc k) size items =
    pages k size items ++ paginate items (record { page_number = pos k; show_number = pos size })

-- Reading a list page by page loses nothing and repeats nothing: the first k pages of one positive
-- size, put together, are the first k times size items in their order, as long as that many fits
-- a `usize`.
pub pages-take :
    {T : Type 0} (k size : ℕ) (items : List T)
    → 0 < size
    → k * size < 2 ^ 64
    → pages k size items ≡ take (k * size) items
unfolding paginate normalized
pages-take zero size items positive fits =
    let none_left : 0 ≡ 0 * size = omega arith in ap (λ n. take n items) none_left
pages-take (suc k) size items positive fits =
    let before : k * size < 2 ^ 64 = omega arith in
    let last : min (k * size) (2 ^ 64 - 1) ≡ k * size = omega arith in
    let page : paginate items (record { page_number = pos k; show_number = pos size })
        ≡ take size (drop (k * size) items) =
      ground (arith, last) in
    ap (λ ys. pages k size items ++ ys) page
    ∙ ap (λ ys. ys ++ take size (drop (k * size) items)) (pages-take k size items positive before)
    ∙ sym (take-plus (k * size) size items)
    ∙ ap (λ n. take n items) (omega arith)

-- A page never holds more than its size, nor more than the list; sizes that are not positive count
-- as 200.
pub length-paginate :
    {T : Type 0} (items : List T) (p : Pagination)
    → (length (paginate items p) ≤ pos_part (normalized p).show_number)
      × (length (paginate items p) ≤ length items)
unfolding paginate
length-paginate items p =
    let page = normalized p in
    let start = saturating_mul (pos_part page.page_number) (pos_part page.show_number) in
    let taken = length-take (pos_part page.show_number) (drop start items) in
    let left = length-drop start items in (omega (arith, taken), omega (arith, taken, left))

-- ===== src/Base/Sort.antt =====
-- `slice::sort_by`: a stable sort by a comparison, as an insertion sort.
use mathlib.Core.List.Perm
use mathlib.Core.List.{Perm}
use openim_sdk_core_rust.Base.{
  Ordering, ◌≡◌, ◌≢◌, refl, ◌⊎◌, inl, inr, List, [], ◌∷◌, arith, All, All-imp,
}
use openim_sdk_core_rust.Base.Text.{swap}

-- `then_with`: the second comparison is read where the first says "equal"
abbrev pub then_with : Ordering → Ordering → Ordering
then_with Ordering.lt o = Ordering.lt
then_with Ordering.eq o = o
then_with Ordering.gt o = Ordering.gt

module _ {ℓ} {A : Type ℓ} (cmp : A → A → Ordering) where
  -- before the first element that is not smaller
  unfoldable pub insert_by : A → List A → List A
  insert_by x [] = x ∷ []
  insert_by x (y ∷ ys) =
      let rest = y ∷ insert_by x ys in elim (cmp x y) [ Ordering.gt ↦ rest | _ ↦ x ∷ y ∷ ys ]

  unfoldable pub sort_by : List A → List A
  unfolding insert_by
  sort_by [] = []
  sort_by (x ∷ xs) = insert_by x (sort_by xs)

  abbrev pub NotAfter : A → A → Type 0
  NotAfter x y = cmp x y ≢ Ordering.gt

  -- no element stands before a smaller one
  abbrev pub IsSorted : List A → Type 0
  IsSorted [] = Unit
  IsSorted (x ∷ xs) = All (NotAfter x) xs × IsSorted xs

  -- a total preorder
  pub record IsOrder : Type ℓ where
    pub swapped : (a b : A) → cmp b a ≡ swap (cmp a b)
    pub trans : (a b c : A) → NotAfter a b → NotAfter b c → NotAfter a c

pub Ordering-cases : (o : Ordering) → (o ≡ Ordering.gt) ⊎ (o ≢ Ordering.gt)
Ordering-cases Ordering.lt = inr (ground arith)
Ordering-cases Ordering.eq = inr (ground arith)
Ordering-cases Ordering.gt = inl refl

swap_of_gt : (o : Ordering) → o ≡ Ordering.gt → swap o ≢ Ordering.gt
swap_of_gt Ordering.gt h = ground arith
swap_of_gt o h = ground arith

module _ {ℓ} {A : Type ℓ} (cmp : A → A → Ordering) where
  insert_by_before :
      (x y : A) (ys : List A) → NotAfter cmp x y → insert_by cmp x (y ∷ ys) ≡ x ∷ y ∷ ys
  unfolding insert_by
  insert_by_before x y ys h = ground arith

  insert_by_after :
      (x y : A) (ys : List A)
      → cmp x y ≡ Ordering.gt
      → insert_by cmp x (y ∷ ys) ≡ y ∷ insert_by cmp x ys
  unfolding insert_by
  insert_by_after x y ys h = ground arith

  insert_by-perm : (x : A) (ys : List A) → Perm (insert_by cmp x ys) (x ∷ ys)
  unfolding insert_by
  insert_by-perm x [] = Perm.refl (x ∷ [])
  insert_by-perm x (y ∷ ys) = elim (Ordering-cases (cmp x y)) [
    | inl after ↦
        rw (insert_by_after x y ys after)
          (Perm.trans (Perm.cons y (insert_by-perm x ys)) (Perm.swap x y ys))
    | inr before ↦ rw (insert_by_before x y ys before) (Perm.refl (x ∷ y ∷ ys))
  ]

  pub sort_by-perm : (xs : List A) → Perm (sort_by cmp xs) xs
  unfolding sort_by
  sort_by-perm [] = Perm.refl []
  sort_by-perm (x ∷ xs) =
      Perm.trans (insert_by-perm x (sort_by cmp xs)) (Perm.cons x (sort_by-perm xs))

  All-insert_by :
      (P : A → Type 0) (x : A) (ys : List A) → P x → All P ys → All P (insert_by cmp x ys)
  unfolding insert_by
  All-insert_by P x [] p h = (p, tt)
  All-insert_by P x (y ∷ ys) p h = elim (Ordering-cases (cmp x y)) [
    | inl after ↦ rw (insert_by_after x y ys after) (h.0, All-insert_by P x ys p h.1)
    | inr before ↦ rw (insert_by_before x y ys before) (p, h)
  ]

  module _ (order : IsOrder cmp) where
    insert_by-IsSorted : (x : A) (ys : List A) → IsSorted cmp ys → IsSorted cmp (insert_by cmp x ys)
    unfolding insert_by
    insert_by-IsSorted x [] s = (tt, tt)
    insert_by-IsSorted x (y ∷ ys) s = elim (Ordering-cases (cmp x y)) [
      | inl after ↦ rw (insert_by_after x y ys after) (
        All-insert_by (NotAfter cmp y) x ys (rw (order.swapped x y) (swap_of_gt _ after)) s.0,
        insert_by-IsSorted x ys s.1,
      )
      | inr before ↦ rw (insert_by_before x y ys before) (
        (before, All-imp (NotAfter cmp y) (NotAfter cmp x) (λ z. order.trans x y z before) ys s.0),
        s,
      )
    ]

    pub sort_by-IsSorted : (xs : List A) → IsSorted cmp (sort_by cmp xs)
    unfolding sort_by
    sort_by-IsSorted [] = tt
    sort_by-IsSorted (x ∷ xs) = insert_by-IsSorted x (sort_by cmp xs) (sort_by-IsSorted xs)

  -- what holds of every element holds of every element of the sorted list
  pub All-sort_by : (P : A → Type 0) (xs : List A) → All P xs → All P (sort_by cmp xs)
  unfolding sort_by
  All-sort_by P [] h = tt
  All-sort_by P (x ∷ xs) h = All-insert_by P x (sort_by cmp xs) h.0 (All-sort_by P xs h.1)

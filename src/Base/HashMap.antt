-- ===== src/Base/HashMap.antt =====
-- The standard library's maps as association lists: at most one entry for a key, in the order in
-- which the map hands its entries out. `remove` and `retain` keep the order of what stays.
use openim_sdk_core_rust.Base.{
  ◌≡◌, refl, ap, Bool, not, Option, none, some, List, [], ◌∷◌, map, arith, is_some, Bool-cases, inl,
  inr, filter, All, if◌then◌else◌,
}
use openim_sdk_core_rust.Base.Keys.{Eq, ◌==◌}

abbrev pub HashMap {ℓ} : Type ℓ → Type ℓ → Type ℓ
HashMap K V = List (K × V)

module _ {ℓ} {K V : Type ℓ} ⦃e : Eq K⦄ where
  unfoldable pub get : K → HashMap K V → Option V
  get k [] = none
  get k ((j, v) ∷ m) = if j == k then some v else get k m

  unfoldable pub insert : K → V → HashMap K V → HashMap K V
  insert k v [] = (k, v) ∷ []
  insert k v ((j, w) ∷ m) = if j == k then (k, v) ∷ m else (j, w) ∷ insert k v m

  unfoldable pub remove : K → HashMap K V → HashMap K V
  remove k = filter (λ p. not (p.0 == k))

  abbrev pub contains_key : K → HashMap K V → Bool
  contains_key k m = is_some (get k m)

  -- no key has two entries
  abbrev pub IsDistinct : HashMap K V → Type ℓ
  IsDistinct [] = Unit
  IsDistinct ((k, v) ∷ m) = (get k m ≡ none) × IsDistinct m

module _ {ℓ} {K V : Type ℓ} where
  abbrev pub values : HashMap K V → List V
  values = map (λ p. p.1)

  -- `retain`, by a test on the key
  unfoldable pub retain : (K → Bool) → HashMap K V → HashMap K V
  retain keep = filter (λ p. keep p.0)

module _ {ℓ} {K V : Type ℓ} ⦃e : Eq K⦄ where
  pub get-insert :
      (k j : K) (v : V) (m : HashMap K V)
      → get j (insert k v m) ≡ (if k == j then some v else get j m)
  unfolding get insert
  get-insert k j v [] = refl
  get-insert k j v ((i, w) ∷ m) =
      ground (arith, e.beq_iff k j, e.beq_iff i k, e.beq_iff i j, get-insert k j v m)

  pub get-remove :
      (k j : K) (m : HashMap K V) → get j (remove k m) ≡ (if k == j then none else get j m)
  unfolding get remove
  get-remove k j [] = ground arith
  get-remove k j ((i, w) ∷ m) =
      ground (arith, e.beq_iff k j, e.beq_iff i k, e.beq_iff i j, get-remove k j m)

  pub get-retain :
      (keep : K → Bool) (j : K) (m : HashMap K V)
      → get j (retain keep m) ≡ (if keep j then get j m else none)
  unfolding get retain
  get-retain keep j [] = ground arith
  get-retain keep j ((i, w) ∷ m) = elim (Bool-cases (i == j)) [
    | inl same ↦ ground (arith, ap keep ((e.beq_iff i j).0 same), get-retain keep j m)
    | inr other ↦ ground (arith, get-retain keep j m)
  ]

  pub insert-IsDistinct :
      (k : K) (v : V) (m : HashMap K V) → IsDistinct m → IsDistinct (insert k v m)
  unfolding insert get
  insert-IsDistinct k v [] d = (refl, tt)
  insert-IsDistinct k v ((i, w) ∷ m) d =
      ground (arith, e.beq_iff i k, e.beq_iff k i, get-insert k i v m, insert-IsDistinct k v m d.1)

  pub remove-IsDistinct : (k : K) (m : HashMap K V) → IsDistinct m → IsDistinct (remove k m)
  unfolding remove
  remove-IsDistinct k [] d = tt
  remove-IsDistinct k ((i, w) ∷ m) d = ground (arith, get-remove k i m, remove-IsDistinct k m d.1)

  pub retain-IsDistinct :
      (keep : K → Bool) (m : HashMap K V) → IsDistinct m → IsDistinct (retain keep m)
  unfolding retain
  retain-IsDistinct keep [] d = tt
  retain-IsDistinct keep ((i, w) ∷ m) d =
      ground (arith, get-retain keep i m, retain-IsDistinct keep m d.1)

  -- what holds of every entry holds of the value that a key finds
  pub All-get {κ} :
      (P : K → V → Type κ) (m : HashMap K V) (k : K) {v : V}
      → All (λ p. P p.0 p.1) m
      → get k m ≡ some v
      → P k v
  unfolding get
  All-get P [] k h q = cc
  All-get P ((j, w) ∷ m) k h q = elim (Bool-cases (j == k)) [
    | inl same ↦ ground (arith, (e.beq_iff j k).0 same)
    | inr other ↦ All-get P m k h.1 (ground arith)
  ]

  pub All-insert {κ} :
      (P : K → V → Type κ) (k : K) (v : V) (m : HashMap K V)
      → P k v
      → All (λ p. P p.0 p.1) m
      → All (λ p. P p.0 p.1) (insert k v m)
  unfolding insert
  All-insert P k v [] p h = (p, tt)
  All-insert P k v ((j, w) ∷ m) p h = elim (Bool-cases (j == k)) [
    | inl same ↦ rw same (p, h.1)
    | inr other ↦ rw other (h.0, All-insert P k v m p h.1)
  ]

module _ {ℓ} {A : Type ℓ} where
  pub All-filter {κ} :
      (P : A → Type κ) (p : A → Bool) (xs : List A) → All P xs → All P (filter p xs)
  All-filter P p [] h = h
  All-filter P p (x ∷ xs) h = elim (Bool-cases (p x)) [
    | inl yes_ ↦ rw yes_ (h.0, All-filter P p xs h.1)
    | inr no_ ↦ rw no_ (All-filter P p xs h.1)
  ]

-- ===== src/Base/HashSet.antt =====
-- The standard library's sets of keys, as lists without repetition, and `contains` of a slice.
use openim_sdk_core_rust.Base.{
  ◌≡◌, refl, Bool, ◌||◌, List, [], ◌∷◌, ◌++◌, arith, Bool-cases, inl, inr, any, if◌then◌else◌,
}
use openim_sdk_core_rust.Base.Keys.{Eq, ◌==◌}

module _ {ℓ} {K : Type ℓ} ⦃e : Eq K⦄ where
  abbrev pub contains : List K → K → Bool
  contains xs k = any (λ x. x == k) xs

  unfoldable pub insert : K → List K → List K
  insert k s = if contains s k then s else k ∷ s

  unfoldable pub from_list : List K → List K
  unfolding insert
  from_list [] = []
  from_list (x ∷ xs) = insert x (from_list xs)

  pub contains-insert : (k j : K) (s : List K) → contains (insert k s) j ≡ (k == j || contains s j)
  unfolding insert
  contains-insert k j s = elim (Bool-cases (contains s k)) [
    | inl old ↦ rw old (elim (Bool-cases (k == j)) [
      | inl same ↦ ground (arith, (e.beq_iff k j).0 same)
      | inr other ↦ rw other
    ])
    | inr new ↦ rw new
  ]

  pub contains-from_list : (xs : List K) (j : K) → contains (from_list xs) j ≡ contains xs j
  unfolding from_list
  contains-from_list [] j = refl
  contains-from_list (x ∷ xs) j =
      ground (arith, contains-insert x j (from_list xs), contains-from_list xs j)

  pub contains-append :
      (xs ys : List K) (j : K) → contains (xs ++ ys) j ≡ (contains xs j || contains ys j)
  contains-append [] ys j = refl
  contains-append (x ∷ xs) ys j = ground (arith, contains-append xs ys j)

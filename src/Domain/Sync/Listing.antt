-- ===== src/Domain/Sync/Listing.antt =====
-- The list that a service diffs against the server's: the values of its map that are in scope,
-- sorted. It says, of each identifier, what the map says of the key.
use openim_sdk_core_rust.Base.{
  Ordering, ◌≡◌, ◌≢◌, refl, ap, ◌∙◌, inl, inr, Bool, true, false, none, some, List, [], ◌∷◌, arith,
  All, filter, Bool-cases,
}
use openim_sdk_core_rust.Base.Keys.{Eq, ◌==◌}
use openim_sdk_core_rust.Base.HashMap
use openim_sdk_core_rust.Base.HashMap.{HashMap, IsDistinct, values, All-insert, All-filter}
use openim_sdk_core_rust.Base.Sort.{insert_by, sort_by, All-sort_by}
use openim_sdk_core_rust.Sync.Diff.Reference.{last_by}
use openim_sdk_core_rust.Domain.Sync.Mirror.{IsDistinctBy}

-- no key has two entries, and each stands under its own key
pub record IsKeyed {K V : Type 0} ⦃e : Eq K⦄ (key_of : V → K) (m : HashMap K V) : Type 0 where
  pub distinct : IsDistinct m
  pub keyed : All (λ p. p.0 ≡ key_of p.1) m

module _ {K V : Type 0} ⦃e : Eq K⦄ (key_of : V → K) where
  pub empty-IsKeyed : IsKeyed key_of []
  empty-IsKeyed = record { distinct = tt; keyed = tt }

  pub insert-IsKeyed :
      (v : V) (m : HashMap K V) → IsKeyed key_of m → IsKeyed key_of (HashMap.insert (key_of v) v m)
  insert-IsKeyed v m h = record {
    distinct = HashMap.insert-IsDistinct (key_of v) v m h.distinct;
    keyed = All-insert (λ k w. k ≡ key_of w) (key_of v) v m refl h.keyed;
  }

  pub remove-IsKeyed :
      (k : K) (m : HashMap K V) → IsKeyed key_of m → IsKeyed key_of (HashMap.remove k m)
  unfolding HashMap.remove
  remove-IsKeyed k m h = record {
    distinct = HashMap.remove-IsDistinct k m h.distinct;
    keyed = All-filter (λ p. p.0 ≡ key_of p.1) _ m h.keyed;
  }

  -- an entry that is found has the key it is found under
  pub key_of-get :
      (k : K) (m : HashMap K V) {v : V} → IsKeyed key_of m → HashMap.get k m ≡ some v → k ≡ key_of v
  key_of-get k m h found = HashMap.All-get (λ j w. j ≡ key_of w) m k h.keyed found

module _ {T I K : Type 0} ⦃ei : Eq I⦄ ⦃ek : Eq K⦄ (id_of : T → I) (key_of : T → K) (make : I → K)
    (scope : T → Bool) (cmp : T → T → Ordering) where
  -- the values in scope are those whose key is made from an identifier
  pub record IsScoping : Type 0 where
    pub make_inj : (i j : I) → (make i == make j) ≡ (i == j)
    pub within : (v : T) → scope v ≡ true → key_of v ≡ make (id_of v)
    pub outside : (v : T) → scope v ≡ false → (i : I) → key_of v ≢ make i

  last_by-insert_by :
      (x : T) (ys : List T) (i : I)
      → All (λ y. (id_of x == id_of y) ≡ false) ys
      → last_by id_of i (insert_by cmp x ys) ≡ last_by id_of i (x ∷ ys)
  unfolding insert_by last_by
  last_by-insert_by x [] i apart = refl
  last_by-insert_by x (y ∷ ys) i apart = ground (
    arith,
    last_by-insert_by x ys i apart.1,
    ei.beq_iff (id_of x) i,
    ei.beq_iff (id_of y) i,
    ei.beq_iff (id_of x) (id_of y),
  )

  last_by-sort_by :
      (xs : List T) (i : I)
      → IsDistinctBy id_of xs
      → last_by id_of i (sort_by cmp xs) ≡ last_by id_of i xs
  unfolding sort_by last_by
  last_by-sort_by [] i distinct = refl
  last_by-sort_by (x ∷ xs) i distinct =
      last_by-insert_by x (sort_by cmp xs) i
        (All-sort_by cmp (λ y. (id_of x == id_of y) ≡ false) xs distinct.0)
      ∙ ground (arith, last_by-sort_by xs i distinct.1)

  module _ (scoping : IsScoping) where
    key-eq :
        (v : T) (k : K) (i : I) → scope v ≡ true → k ≡ key_of v → (k == make i) ≡ (id_of v == i)
    key-eq v k i inside keyed =
        ap (λ j. j == make i) (keyed ∙ scoping.within v inside) ∙ scoping.make_inj (id_of v) i

    apart-values :
        (x : T) (k : K) (m : HashMap K T)
        → scope x ≡ true
        → k ≡ key_of x
        → HashMap.get k m ≡ none
        → All (λ p. p.0 ≡ key_of p.1) m
        → All (λ y. (id_of x == id_of y) ≡ false) (filter scope (values m))
    unfolding HashMap.get
    apart-values x k [] inside keyed fresh all = tt
    apart-values x k ((j, v) ∷ m) inside keyed fresh all =
        let below : HashMap.get k m ≡ none = ground arith in
        let rest = apart-values x k m inside keyed below all.1 in
        elim (Bool-cases (scope v)) [
          | inl in_ ↦ rw in_ (
            ground (
              arith,
              ei.beq_iff (id_of x) (id_of v),
              ek.beq_iff j k,
              scoping.within v in_,
              scoping.within x inside,
            ),
            rest,
          )
          | inr out ↦ rw out rest
        ]

    last_by-values :
        (m : HashMap K T) (i : I)
        → IsDistinct m
        → All (λ p. p.0 ≡ key_of p.1) m
        → last_by id_of i (filter scope (values m)) ≡ HashMap.get (make i) m
    unfolding last_by HashMap.get
    last_by-values [] i distinct all = refl
    last_by-values ((k, v) ∷ m) i distinct all =
        let rest = last_by-values m i distinct.1 all.1 in
        elim (Bool-cases (scope v)) [
          | inl in_ ↦ rw in_ (ground (arith, rest, key-eq v k i in_ all.0, ek.beq_iff k (make i)))
          | inr out ↦ rw out (ground (arith, rest, scoping.outside v out i, ek.beq_iff k (make i)))
        ]

    values-IsDistinctBy :
        (m : HashMap K T)
        → IsDistinct m
        → All (λ p. p.0 ≡ key_of p.1) m
        → IsDistinctBy id_of (filter scope (values m))
    values-IsDistinctBy [] distinct all = tt
    values-IsDistinctBy ((k, v) ∷ m) distinct all =
        let rest = values-IsDistinctBy m distinct.1 all.1 in
        elim (Bool-cases (scope v)) [
          | inl in_ ↦ rw in_ (apart-values v k m in_ all.0 distinct.0 all.1, rest)
          | inr out ↦ rw out rest
        ]

    abbrev pub listing : HashMap K T → List T
    listing m = sort_by cmp (filter scope (values m))

    -- the listing says of an identifier what the map says of its key
    pub last_by-listing :
        (m : HashMap K T) (i : I)
        → IsKeyed key_of m
        → last_by id_of i (listing m) ≡ HashMap.get (make i) m
    last_by-listing m i h =
        last_by-sort_by (filter scope (values m)) i (values-IsDistinctBy m h.distinct h.keyed)
        ∙ last_by-values m i h.distinct h.keyed

    in_scope : (xs : List T) → All (λ v. key_of v ≡ make (id_of v)) (filter scope xs)
    in_scope [] = tt
    in_scope (x ∷ xs) = elim (Bool-cases (scope x)) [
      | inl in_ ↦ rw in_ (scoping.within x in_, in_scope xs)
      | inr out ↦ rw out (in_scope xs)
    ]

    -- everything listed is in scope
    pub listing_in_scope : (m : HashMap K T) → All (λ v. key_of v ≡ make (id_of v)) (listing m)
    listing_in_scope m =
        All-sort_by cmp (λ v. key_of v ≡ make (id_of v)) (filter scope (values m))
          (in_scope (values m))

-- ===== src/Domain/Sync/Mirror.antt =====
-- Why a diff applied to the store it was taken from makes the store a copy of the server's list:
-- the reads of the store after the actions of the server, and after the deletions.
use mathlib.Core.Path.{fun_ext}
use openim_sdk_core_rust.Base.{
  ◌≡◌, ◌≢◌, refl, ap, ◌∙◌, inl, inr, Bool, true, false, not, ◌&&◌, Option, none, some, List, [],
  ◌∷◌, arith, is_some, All, any, filter, Bool-cases, Option-cases,
}
use openim_sdk_core_rust.Base.Keys.{Eq, ◌==◌}
use openim_sdk_core_rust.Sync.Diff.{DiffOptions}
use openim_sdk_core_rust.Sync.Diff.Reference.{met, last_by, has_key, server_action, server_actions}
use openim_sdk_core_rust.Domain.Sync.Effects.{stored, effects, effects-append}

-- no two items have one identifier
abbrev pub IsDistinctBy : {T I : Type 0} ⦃e : Eq I⦄ → (T → I) → List T → Type 0
IsDistinctBy id_of [] = Unit
IsDistinctBy id_of (x ∷ xs) = All (λ y. (id_of x == id_of y) ≡ false) xs × IsDistinctBy id_of xs

module _ {T I K : Type 0} ⦃ei : Eq I⦄ ⦃ek : Eq K⦄ (id_of : T → I) (key_of : T → K) (make : I → K)
    (equal : T → T → Bool) (options : DiffOptions) where
  -- within the scope of a synchronisation an identifier and a key say the same
  pub record IsKeying : Type 0 where
    pub make_inj : (i j : I) → (make i == make j) ≡ (i == j)
    pub equal_sound : (a b : T) → equal a b ≡ true → a ≡ b

  abbrev pub InScope : T → Type 0
  InScope v = key_of v ≡ make (id_of v)

  pub has_key-last_by : (i : I) (xs : List T) → has_key id_of i xs ≡ is_some (last_by id_of i xs)
  unfolding last_by
  has_key-last_by i [] = refl
  has_key-last_by i (x ∷ xs) = ground (arith, has_key-last_by i xs)

  module _ (keying : IsKeying) where
    -- the identifier and the key of an item in scope
    key-eq : (v : T) (i : I) → InScope v → (key_of v == make i) ≡ (id_of v == i)
    key-eq v i scoped = ap (λ k. k == make i) scoped ∙ keying.make_inj (id_of v) i

    module _ (local : List T) where
      -- the store has, for each of the items, what the local list has
      abbrev pub Agrees : (K → Option T) → List T → Type 0
      Agrees f = All (λ s. f (key_of s) ≡ last_by id_of (id_of s) local)

      server_action-stored :
          (s : T) (f : K → Option T)
          → f (key_of s) ≡ last_by id_of (id_of s) local
          → effects key_of (server_action id_of equal options local s) f ≡ stored key_of s f
      unfolding effects server_action met
      server_action-stored s f agrees = fun_ext (λ k.
          elim (Option-cases (last_by id_of (id_of s) local)) [
            | inl absent ↦ ground arith
            | inr (l, present) ↦ elim (Bool-cases (key_of s == k)) [
              | inl same ↦
                  ground (arith, ap f ((ek.beq_iff (key_of s) k).0 same), keying.equal_sound s l)
              | inr other ↦ ground arith
            ]
          ])

      Agrees-stored :
          (s : T) (f : K → Option T) (rest : List T)
          → InScope s
          → All (λ y. (id_of s == id_of y) ≡ false) rest
          → All InScope rest
          → Agrees f rest
          → Agrees (stored key_of s f) rest
      Agrees-stored s f [] scoped apart scopes agrees = tt
      Agrees-stored s f (y ∷ rest) scoped apart scopes agrees = (
        ground (arith, key-eq s (id_of y) scoped),
        Agrees-stored s f rest scoped apart.1 scopes.1 agrees.1,
      )

      pub server_actions-read :
          (server : List T) (f : K → Option T) (i : I)
          → All InScope server
          → IsDistinctBy id_of server
          → Agrees f server
          → effects key_of (server_actions id_of equal options local server) f (make i)
            ≡ (elim (last_by id_of i server) [ none ↦ f (make i) | some x ↦ some x ])
      unfolding effects server_actions last_by
      server_actions-read [] f i scopes distinct agrees = refl
      server_actions-read (s ∷ rest) f i scopes distinct agrees =
          let apart = Agrees-stored s f rest scopes.0 distinct.0 scopes.1 agrees.1 in
          rw
            (
              effects-append key_of (server_action id_of equal options local s)
                  (server_actions id_of equal options local rest) f,
              server_action-stored s f agrees.0,
            )
            (ground (
              arith,
              server_actions-read rest (stored key_of s f) i scopes.1 distinct.1 apart,
              key-eq s i scopes.0,
            ))

      pub server_actions-frame :
          (server : List T) (f : K → Option T) (k : K)
          → ((i : I) → k ≢ make i)
          → All InScope server
          → IsDistinctBy id_of server
          → Agrees f server
          → effects key_of (server_actions id_of equal options local server) f k ≡ f k
      unfolding effects server_actions
      server_actions-frame [] f k outside scopes distinct agrees = refl
      server_actions-frame (s ∷ rest) f k outside scopes distinct agrees =
          let apart = Agrees-stored s f rest scopes.0 distinct.0 scopes.1 agrees.1 in
          rw
            (
              effects-append key_of (server_action id_of equal options local s)
                  (server_actions id_of equal options local rest) f,
              server_action-stored s f agrees.0,
            )
            (ground (
              arith,
              server_actions-frame rest (stored key_of s f) k outside scopes.1 distinct.1 apart,
              ek.beq_iff (key_of s) k,
              outside (id_of s),
            ))

    pub any-filter :
        (server local : List T) (i : I)
        → All InScope local
        → any (λ l. key_of l == make i) (filter (λ l. not (has_key id_of (id_of l) server)) local)
          ≡ (has_key id_of i local && not (has_key id_of i server))
    any-filter server [] i scopes = refl
    any-filter server (l ∷ rest) i scopes = elim (Bool-cases (id_of l == i)) [
      | inl same ↦
          let there = ap (λ j. has_key id_of j server) ((ei.beq_iff (id_of l) i).0 same) in
          ground (arith, there, any-filter server rest i scopes.1, key-eq l i scopes.0)
      | inr other ↦ ground (arith, any-filter server rest i scopes.1, key-eq l i scopes.0)
    ]

    pub any-outside :
        (xs : List T) (k : K)
        → ((i : I) → k ≢ make i)
        → All InScope xs
        → any (λ l. key_of l == k) xs ≡ false
    any-outside [] k outside scopes = refl
    any-outside (x ∷ xs) k outside scopes =
        ground
          (arith, ek.beq_iff (key_of x) k, outside (id_of x), any-outside xs k outside scopes.1)

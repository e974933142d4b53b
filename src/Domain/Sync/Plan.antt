-- ===== src/Domain/Sync/Plan.antt =====
-- Why a diff applied to the store that it was taken from makes the store a copy of the server's
-- list: the statement that the services instantiate.
use openim_sdk_core_rust.Base.{
  ◌≡◌, ◌≢◌, ap, ◌∙◌, inl, inr, Bool, not, Option, none, some, List, [], ◌∷◌, map, arith, All,
  All-append, filter, length, Bool-cases, Option-cases, if◌then◌else◌,
}
use openim_sdk_core_rust.Base.HashMap.{All-filter}
use openim_sdk_core_rust.Base.Keys.{Eq}
use openim_sdk_core_rust.Errors.{ok}
use openim_sdk_core_rust.Action.{Action}
use openim_sdk_core_rust.Sync.Diff.{SyncAction, DiffOptions}
use openim_sdk_core_rust.Sync.Diff.Reference.{
  met, last_by, has_key, server_action, server_actions, deletions, diff_actions,
}
use openim_sdk_core_rust.Domain.{DomainSyncSummary, empty_summary, total}
use openim_sdk_core_rust.Domain.Sync.Mirror.{
  IsDistinctBy, IsKeying, InScope, Agrees, has_key-last_by, server_actions-read,
  server_actions-frame, any-filter, any-outside,
}
use openim_sdk_core_rust.Domain.Sync.{apply_actions}
use openim_sdk_core_rust.Domain.Sync.Effects.{
  effects, effects-append, effects-delete, IsStore, MayApply, apply_actions-effects,
}

module _ {T I : Type 0} ⦃e : Eq I⦄ (id_of : T → I) (equal : T → T → Bool) (options : DiffOptions)
    (Discardable : T → Type 0) where
  abbrev Applicable : List (SyncAction T) → Type 0
  Applicable = All (MayApply Discardable)

  met-Applicable : (s l : T) → Applicable (met (equal s l) options.include_unchanged s l)
  unfolding met
  met-Applicable s l = elim (Bool-cases (equal s l)) [
    | inl same ↦ elim (Bool-cases options.include_unchanged) [
      | inl listed ↦ rw (same, listed) (tt, tt)
      | inr left_out ↦ rw (same, left_out) tt
    ]
    | inr other ↦ rw other (tt, tt)
  ]

  server_action-Applicable :
      (local : List T) (s : T) → Applicable (server_action id_of equal options local s)
  unfolding server_action
  server_action-Applicable local s = elim (Option-cases (last_by id_of (id_of s) local)) [
    | inl absent ↦ rw (absent, server_action) (tt, tt)
    | inr (l, present) ↦ rw (present, server_action) (met-Applicable s l)
  ]

  server_actions-Applicable :
      (local server : List T) → Applicable (server_actions id_of equal options local server)
  unfolding server_actions
  server_actions-Applicable local [] = tt
  server_actions-Applicable local (s ∷ rest) =
      All-append (MayApply Discardable) (server_action id_of equal options local s)
        (server_actions id_of equal options local rest) (server_action-Applicable local s)
        (server_actions-Applicable local rest)

  delete-Applicable : (xs : List T) → All Discardable xs → Applicable (map SyncAction.delete xs)
  delete-Applicable [] h = tt
  delete-Applicable (x ∷ xs) h = (h.0, delete-Applicable xs h.1)

  deletions-Applicable :
      (local server : List T)
      → All Discardable local
      → Applicable (deletions id_of equal options local server)
  unfolding deletions
  deletions-Applicable local server h = elim (Bool-cases options.skip_deletion) [
    | inl skip ↦ rw skip tt
    | inr keep ↦ rw keep (
        delete-Applicable _
          (All-filter Discardable (λ l. not (has_key id_of (id_of l) server)) local h))
  ]

  pub diff_actions-Applicable :
      (local server : List T)
      → All Discardable local
      → Applicable (diff_actions id_of equal options local server)
  unfolding diff_actions
  diff_actions-Applicable local server h =
      All-append (MayApply Discardable) (server_actions id_of equal options local server)
        (deletions id_of equal options local server) (server_actions-Applicable local server)
        (deletions-Applicable local server h)

module _ {T I K : Type 0} ⦃ei : Eq I⦄ ⦃ek : Eq K⦄ (id_of : T → I) (key_of : T → K) (make : I → K)
    (equal : T → T → Bool) (options : DiffOptions)
    (keying : IsKeying id_of key_of make equal options) (local server : List T)
    (f : K → Option T) where
  abbrev Scoped : List T → Type 0
  Scoped = All (InScope id_of key_of make equal options)

  Agrees-of :
      (xs : List T)
      → Scoped xs
      → ((j : I) → f (make j) ≡ last_by id_of j local)
      → Agrees id_of key_of make equal options keying local f xs
  Agrees-of [] scoped agrees = tt
  Agrees-of (x ∷ xs) scoped agrees =
      (ap f scoped.0 ∙ agrees (id_of x), Agrees-of xs scoped.1 agrees)

  -- after the whole plan, at an identifier
  pub diff_actions-read :
      (i : I)
      → Scoped local
      → Scoped server
      → IsDistinctBy id_of server
      → ((j : I) → f (make j) ≡ last_by id_of j local)
      → effects key_of (diff_actions id_of equal options local server) f (make i)
        ≡ (elim (last_by id_of i server) [
          | none ↦ if options.skip_deletion then f (make i) else none
          | some x ↦ some x
        ])
  unfolding diff_actions effects
  diff_actions-read i scoped scopes distinct agrees =
      let gone = filter (λ l. not (has_key id_of (id_of l) server)) local in
      let asked = server_actions id_of equal options local server in
      ground (
        arith,
        server_actions-read id_of key_of make equal options keying local server f i scopes distinct
            (Agrees-of server scopes agrees),
        effects-append key_of asked (map SyncAction.delete gone) f,
        effects-append key_of asked [] f,
        effects-delete key_of gone (effects key_of asked f) (make i),
        any-filter id_of key_of make equal options keying server local i scoped,
        has_key-last_by id_of key_of make equal options i server,
        has_key-last_by id_of key_of make equal options i local,
        agrees i,
      )

  -- after the whole plan, outside its scope
  pub diff_actions-frame :
      (k : K)
      → ((i : I) → k ≢ make i)
      → Scoped local
      → Scoped server
      → IsDistinctBy id_of server
      → ((j : I) → f (make j) ≡ last_by id_of j local)
      → effects key_of (diff_actions id_of equal options local server) f k ≡ f k
  unfolding diff_actions effects
  diff_actions-frame k outside scoped scopes distinct agrees =
      let gone = filter (λ l. not (has_key id_of (id_of l) server)) local in
      let asked = server_actions id_of equal options local server in
      ground (
        arith,
        server_actions-frame id_of key_of make equal options keying local server f k outside scopes
            distinct (Agrees-of server scopes agrees),
        effects-append key_of asked (map SyncAction.delete gone) f,
        effects-append key_of asked [] f,
        effects-delete key_of gone (effects key_of asked f) k,
        any-outside id_of key_of make equal options keying gone k outside (
            All-filter (InScope id_of key_of make equal options)
              (λ l. not (has_key id_of (id_of l) server)) local scoped),
      )

module _ {T S I K : Type 0} ⦃ei : Eq I⦄ ⦃ek : Eq K⦄ (id_of : T → I) (key_of : T → K) (make : I → K)
    (equal : T → T → Bool) (options : DiffOptions)
    (keying : IsKeying id_of key_of make equal options) (Discardable : T → Type 0)
    (store : T → S → S) (discard : T → Action S (Unit {0})) (look : S → K → Option T)
    (laws : IsStore key_of Discardable store discard look) where
  -- Let the local items be what the store has in scope. Then the loop over the diff's plan ends
  -- well; the store has then, for each identifier, the server's item, or nothing (or what it had,
  -- if deletions are skipped), and outside the scope what it had. Every action was counted.
  pub apply_actions-mirrors :
      (local server : List T) (s : S)
      → All (InScope id_of key_of make equal options) local
      → All (InScope id_of key_of make equal options) server
      → IsDistinctBy id_of server
      → All Discardable local
      → ((i : I) → look s (make i) ≡ last_by id_of i local)
      → (summary : DomainSyncSummary) × (t : S) × (apply_actions store discard
            (diff_actions id_of equal options local server)
            empty_summary
            s
          ≡ (ok summary, t))
        × (total summary ≡ length (diff_actions id_of equal options local server))
        × ((i : I)
            → look t (make i) ≡ (elim (last_by id_of i server) [
              | none ↦ if options.skip_deletion then look s (make i) else none
              | some x ↦ some x
            ]))
        × ((k : K) → ((i : I) → k ≢ make i) → look t k ≡ look s k)
  apply_actions-mirrors local server s scoped scopes distinct gone agrees =
      let plan = diff_actions id_of equal options local server in
      let (summary, t, done, counted, seen) =
        apply_actions-effects key_of Discardable store discard look laws plan empty_summary s
          (diff_actions-Applicable id_of equal options Discardable local server gone) in
      (
        summary,
        t,
        done,
        omega arith,
        λ i.
            ap (λ f. f (make i)) seen
            ∙ diff_actions-read id_of key_of make equal options keying local server (look s) i
                scoped scopes distinct agrees,
        λ k outside.
            ap (λ f. f k) seen
            ∙ diff_actions-frame id_of key_of make equal options keying local server (look s) k
                outside scoped scopes distinct agrees,
      )

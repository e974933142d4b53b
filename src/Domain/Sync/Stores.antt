-- ===== src/Domain/Sync/Stores.antt =====
-- What a plan stores comes from the server's list, and with deletions skipped it discards nothing.
use openim_sdk_core_rust.Base.{
  ◌≡◌, refl, inl, inr, Bool, true, List, [], ◌∷◌, All, All-append, Bool-cases, Option-cases,
}
use openim_sdk_core_rust.Base.Keys.{Eq}
use openim_sdk_core_rust.Action.{Action}
use openim_sdk_core_rust.Sync.Diff.{SyncAction, DiffOptions}
use openim_sdk_core_rust.Sync.Diff.Reference.{
  met, last_by, server_action, server_actions, deletions, diff_actions,
}
use openim_sdk_core_rust.Domain.{DomainSyncSummary, summarize_action}
use openim_sdk_core_rust.Domain.Sync.{apply_action, apply_actions}

module _ {T : Type 0} (Q : T → Type 0) where
  -- an action that stores only what satisfies the predicate, and discards nothing
  abbrev pub MayStore : SyncAction T → Type 0
  MayStore (SyncAction.insert v) = Q v
  MayStore (SyncAction.update v _) = Q v
  MayStore (SyncAction.delete _) = ⊥
  MayStore (SyncAction.unchanged _ _) = Unit

  module _ {I : Type 0} ⦃e : Eq I⦄ (id_of : T → I) (equal : T → T → Bool)
      (options : DiffOptions) where
    met-MayStore : (s l : T) → Q s → All MayStore (met (equal s l) options.include_unchanged s l)
    unfolding met
    met-MayStore s l h = elim (Bool-cases (equal s l)) [
      | inl same ↦ elim (Bool-cases options.include_unchanged) [
        | inl listed ↦ rw (same, listed) (tt, tt)
        | inr left_out ↦ rw (same, left_out) tt
      ]
      | inr other ↦ rw other (h, tt)
    ]

    server_action-MayStore :
        (local : List T) (s : T) → Q s → All MayStore (server_action id_of equal options local s)
    unfolding server_action
    server_action-MayStore local s h = elim (Option-cases (last_by id_of (id_of s) local)) [
      | inl absent ↦ rw (absent, server_action) (h, tt)
      | inr (l, present) ↦ rw (present, server_action) (met-MayStore s l h)
    ]

    server_actions-MayStore :
        (local server : List T)
        → All Q server
        → All MayStore (server_actions id_of equal options local server)
    unfolding server_actions
    server_actions-MayStore local [] h = tt
    server_actions-MayStore local (s ∷ rest) h =
        All-append MayStore (server_action id_of equal options local s)
          (server_actions id_of equal options local rest) (server_action-MayStore local s h.0)
          (server_actions-MayStore local rest h.1)

    pub diff_actions-MayStore :
        (local server : List T)
        → options.skip_deletion ≡ true
        → All Q server
        → All MayStore (diff_actions id_of equal options local server)
    unfolding diff_actions deletions
    diff_actions-MayStore local server skip h = rw skip (
        All-append MayStore (server_actions id_of equal options local server) []
          (server_actions-MayStore local server h) tt)

  module _ {S : Type 0} (store : T → S → S) (discard : T → Action S (Unit {0})) where
    -- a plan that discards nothing does not depend on what discarding is
    pub apply_actions-discard :
        (other : T → Action S (Unit {0})) (actions : List (SyncAction T))
        (summary : DomainSyncSummary) (s : S)
        → All MayStore actions
        → apply_actions store discard actions summary s
          ≡ apply_actions store other actions summary s
    unfolding apply_actions apply_action
    apply_actions-discard other [] summary s h = refl
    apply_actions-discard other (SyncAction.insert v ∷ rest) summary s h =
        apply_actions-discard other rest (summarize_action summary (SyncAction.insert v))
          (store v s) h.1
    apply_actions-discard other (SyncAction.update v l ∷ rest) summary s h =
        apply_actions-discard other rest (summarize_action summary (SyncAction.update v l))
          (store v s) h.1
    apply_actions-discard other (SyncAction.delete v ∷ rest) summary s h = absurd h.0
    apply_actions-discard other (SyncAction.unchanged v l ∷ rest) summary s h =
        apply_actions-discard other rest (summarize_action summary (SyncAction.unchanged v l)) s h.1

    pub apply_actions-stores {ν} :
        (P : S → Type ν)
        → ((v : T) (s : S) → Q v → P s → P (store v s))
        → (actions : List (SyncAction T)) (summary : DomainSyncSummary) (s : S)
        → All MayStore actions
        → P s
        → P (apply_actions store discard actions summary s).1
    unfolding apply_actions apply_action
    apply_actions-stores P stores [] summary s h p = p
    apply_actions-stores P stores (SyncAction.insert v ∷ rest) summary s h p =
        apply_actions-stores P stores rest (summarize_action summary (SyncAction.insert v))
          (store v s) h.1 (stores v s h.0 p)
    apply_actions-stores P stores (SyncAction.update v l ∷ rest) summary s h p =
        apply_actions-stores P stores rest (summarize_action summary (SyncAction.update v l))
          (store v s) h.1 (stores v s h.0 p)
    apply_actions-stores P stores (SyncAction.delete v ∷ rest) summary s h p = absurd h.0
    apply_actions-stores P stores (SyncAction.unchanged v l ∷ rest) summary s h p =
        apply_actions-stores P stores rest (summarize_action summary (SyncAction.unchanged v l)) s
          h.1 p

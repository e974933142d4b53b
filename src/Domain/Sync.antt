-- ===== src/Domain/Sync.antt =====
-- The loop that each service's `sync_*` method runs over a plan: it counts every action, stores what
-- is inserted or updated, and discards what is deleted.
pub mod Effects
pub mod Mirror
pub mod Plan
pub mod Listing
pub mod Owned
pub mod Stores
use openim_sdk_core_rust.Base.{Bool, List, [], ◌∷◌}
use openim_sdk_core_rust.Base.Keys.{Eq}
use openim_sdk_core_rust.Errors.{ok}
use openim_sdk_core_rust.Action.{Action, ◌>>=◌, ◌>>◌, pure, modify, lift}
use openim_sdk_core_rust.Sync.Diff.{SyncAction, DiffOptions, diff_by}
use openim_sdk_core_rust.Domain.{DomainSyncSummary, empty_summary, summarize_action}

module _ {T S : Type 0} (store : T → S → S) (discard : T → Action S (Unit {0})) where
  -- the `match` of the loop's body
  unfoldable pub apply_action : SyncAction T → Action S (Unit {0})
  apply_action (SyncAction.insert server) = modify (store server)
  apply_action (SyncAction.update server _) = modify (store server)
  apply_action (SyncAction.delete local) = discard local
  apply_action (SyncAction.unchanged _ _) = pure tt

  unfoldable pub apply_actions :
      List (SyncAction T) → DomainSyncSummary → Action S DomainSyncSummary
  apply_actions [] summary = pure summary
  apply_actions (action ∷ rest) summary =
      apply_action action >> apply_actions rest (summarize_action summary action)

-- From `diff_by` to the end of the loop, as every `sync_*` method has it.
module _ {T S K : Type 0} ⦃e : Eq K⦄ (key : T → K) (equal : T → T → Bool) (options : DiffOptions)
    (store : T → S → S) (discard : T → Action S (Unit {0})) where
  unfoldable pub sync_items : List T → List T → Action S DomainSyncSummary
  sync_items server local = do
    plan ← lift (diff_by key equal server local options)
    apply_actions store discard plan.actions empty_summary

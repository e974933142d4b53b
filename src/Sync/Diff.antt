-- ===== src/Sync/Diff.antt =====
-- crates/openim-sync/src/lib.rs: `SyncState`, `SyncAction`, `SyncPlan`, `DiffOptions`, `diff_by`.
pub mod Reference
pub mod Equivalence
use openim_sdk_core_rust.Base.{
  ℕ, zero, suc, ◌≡◌, Bool, true, false, not, Option, none, some, List, [], ◌∷◌, ◌++◌, map,
  get_elem?, is_empty, if◌then◌else◌,
}
use openim_sdk_core_rust.Base.Keys.{Eq, ◌==◌}
use openim_sdk_core_rust.Base.HashMap
use openim_sdk_core_rust.Base.HashMap.{HashMap}
use openim_sdk_core_rust.Base.HashSet
use openim_sdk_core_rust.Base.HashSet.{contains}
use openim_sdk_core_rust.Errors.{Result, ok, err, panic, ◌>>=◌, or_panic}

pub data SyncState : Type 0 where
  unchanged insert update delete : SyncState

pub data SyncAction (T : Type 0) : Type 0 where
  unchanged : (server local : T) → SyncAction T
  insert : (server : T) → SyncAction T
  update : (server local : T) → SyncAction T
  delete : (local : T) → SyncAction T

abbrev pub state : {T : Type 0} → SyncAction T → SyncState
state (SyncAction.unchanged _ _) = SyncState.unchanged
state (SyncAction.insert _) = SyncState.insert
state (SyncAction.update _ _) = SyncState.update
state (SyncAction.delete _) = SyncState.delete

pub record SyncPlan (T : Type 0) : Type 0 where
  pub actions : List (SyncAction T)

abbrev pub plan_is_empty : {T : Type 0} → SyncPlan T → Bool
plan_is_empty p = is_empty p.actions

abbrev pub action_states : {T : Type 0} → SyncPlan T → List SyncState
action_states p = map state p.actions

pub record DiffOptions : Type 0 where
  pub skip_deletion : Bool
  pub include_unchanged : Bool

abbrev pub default_options : DiffOptions
default_options = record { skip_deletion = false; include_unchanged = true }

module _ {T K : Type 0} ⦃e : Eq K⦄ (key : T → K) (equal : T → T → Bool) where
  -- the loop that fills `local_by_key`; `idx` counts as `enumerate` does
  unfoldable pub index_local : ℕ → List T → HashMap K ℕ → HashMap K ℕ
  index_local idx [] m = m
  index_local idx (item ∷ items) m = index_local (suc idx) items (HashMap.insert (key item) idx m)

  -- the branch of the loop for a server item that has a local one
  unfoldable pub compare_items : DiffOptions → T → T → List (SyncAction T)
  compare_items options server_item local_item =
      if equal server_item local_item
      then (if options.include_unchanged
          then SyncAction.unchanged server_item local_item ∷ []
          else [])
      else SyncAction.update server_item local_item ∷ []

  module _ (options : DiffOptions) (local : List T) (local_by_key : HashMap K ℕ) where
    -- the loop over the server's items: `consumed` and `actions` as it leaves them
    unfoldable pub visit_server :
        List T → List K → List (SyncAction T) → Result (List K × List (SyncAction T))
    unfolding compare_items
    visit_server [] consumed actions = ok (consumed, actions)
    visit_server (server_item ∷ rest) consumed actions =
        elim (HashMap.get (key server_item) local_by_key) [
          | none ↦ visit_server rest consumed (actions ++ SyncAction.insert server_item ∷ [])
          | some local_idx ↦ do
            local_item ← or_panic (get_elem? local local_idx)
            visit_server rest (HashSet.insert (key server_item) consumed)
                (actions ++ compare_items options server_item local_item)
        ]

  -- the loop that deletes what no server item has consumed
  unfoldable pub visit_local : List K → List T → List (SyncAction T) → List (SyncAction T)
  visit_local consumed [] actions = actions
  visit_local consumed (local_item ∷ rest) actions = visit_local consumed rest (
      if contains consumed (key local_item)
      then actions
      else actions ++ SyncAction.delete local_item ∷ [])

  unfoldable pub diff_by : List T → List T → DiffOptions → Result (SyncPlan T)
  unfolding index_local visit_server visit_local
  diff_by server local options = do
    (consumed, actions) ← visit_server options local (index_local 0 local []) server [] []
    ok (record {
      actions = if options.skip_deletion then actions else visit_local consumed local actions;
    })

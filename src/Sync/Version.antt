-- ===== src/Sync/Version.antt =====
-- crates/openim-sync/src/lib.rs: `VersionDelta`, `VersionDecision`, `plan_version_sync`, `delete_ids`.
pub mod Merge
pub mod Decision
use openim_sdk_core_rust.Base.{
  ℕ, ◌+◌, ◌%◌, ◌^◌, String, Bool, true, false, not, ◌||◌, Option, none, some, List, [], ◌∷◌, ◌++◌,
  arith, leb, ◌==◌, is_empty, filter, filter_map, if◌then◌else◌,
}
use openim_sdk_core_rust.Base.Keys.{string_eq}
use openim_sdk_core_rust.Base.Keys
use openim_sdk_core_rust.Base.HashMap
use openim_sdk_core_rust.Base.HashMap.{HashMap}
use openim_sdk_core_rust.Base.HashSet
use openim_sdk_core_rust.Base.HashSet.{contains}
use openim_sdk_core_rust.Types.{VersionState}

pub record VersionDelta (T : Type 0) : Type 0 where
  pub version_id : String
  pub version : ℕ
  pub full : Bool
  pub delete_ids : List String
  pub updates : List T
  pub inserts : List T
  pub id_order_changed : Bool

unfoldable pub has_changes : {T : Type 0} → VersionDelta T → Bool
has_changes d =
    d.full
    || not (is_empty d.delete_ids)
    || not (is_empty d.updates)
    || not (is_empty d.inserts)
    || d.id_order_changed

pub data VersionDecision (T : Type 0) : Type 0 where
  noop : VersionDecision T
  full : VersionDecision T
  incremental : (server_items : List T) (next_state : VersionState) → VersionDecision T

unfoldable pub delete_ids : List String → List String → List String
delete_ids ids deletes =
    if is_empty deletes
    then ids
    else (let set = HashSet.from_list deletes in filter (λ id. not (contains set id)) ids)

-- `items.remove(id)` for each deleted id
unfoldable pub remove_all : {T : Type 0} → List String → HashMap String T → HashMap String T
remove_all [] items = items
remove_all (id ∷ ids) items = remove_all ids (HashMap.remove id items)

module _ {T : Type 0} (key : T → String) where
  -- `items.insert(key(item), item)` for each local item
  unfoldable pub collect : List T → HashMap String T → HashMap String T
  collect [] items = items
  collect (x ∷ xs) items = collect xs (HashMap.insert (key x) x items)

  -- the loop over `updates` and then `inserts`
  unfoldable pub merge_items :
      List T → List String → HashMap String T → List String × HashMap String T
  merge_items [] uid_list items = (uid_list, items)
  merge_items (x ∷ xs) uid_list items =
      merge_items xs (if contains uid_list (key x) then uid_list else uid_list ++ key x ∷ [])
        (HashMap.insert (key x) x items)

  unfoldable pub reorder : VersionDelta T → Option (List String) → List String → List String
  reorder delta refreshed uid_list =
      if delta.id_order_changed
      then (elim refreshed [ none ↦ uid_list | some ids ↦ ids ])
      else uid_list

  -- what is planned for the immediate successor of the local version
  unfoldable pub increment :
      VersionState → List T → VersionDelta T → Option (List String) → VersionDecision T
  unfolding collect merge_items reorder remove_all
  increment local_state local_items delta refreshed =
      let (merged, items) =
        merge_items (delta.updates ++ delta.inserts)
          (delete_ids local_state.uid_list delta.delete_ids)
          (remove_all delta.delete_ids (collect local_items [])) in
      let uid_list = reorder delta refreshed merged in
      VersionDecision.incremental (filter_map (λ id. HashMap.get id items) uid_list)
        (record { version_id = delta.version_id; version = delta.version; uid_list = uid_list })

  -- versions are `u64`, so `local_state.version + 1` is taken modulo 2 ^ 64
  unfoldable pub plan_version_sync :
      VersionState → List T → VersionDelta T → Option (List String) → VersionDecision T
  plan_version_sync local_state local_items delta refreshed =
      if not (has_changes delta)
      then VersionDecision.noop
      else if delta.full || not (Keys.◌==◌ delta.version_id local_state.version_id)
      then VersionDecision.full
      else if leb delta.version local_state.version
      then VersionDecision.noop
      else if not (delta.version == (local_state.version + 1) % 2 ^ 64)
      then VersionDecision.full
      else increment local_state local_items delta refreshed

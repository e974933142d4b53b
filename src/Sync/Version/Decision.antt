-- ===== src/Sync/Version/Decision.antt =====
-- When `plan_version_sync` plans what.
use text.Mathlib.TextEquality.{eq_iff}
use openim_sdk_core_rust.Base.{◌+◌, ◌^◌, ◌<◌, ◌≡◌, String, true, false, Option, List, arith}
use openim_sdk_core_rust.Types.{VersionState}
use openim_sdk_core_rust.Sync.Version.{
  VersionDelta, VersionDecision, has_changes, increment, plan_version_sync,
}

module _ {T : Type 0} (key : T → String) (local_state : VersionState) (local_items : List T)
    (delta : VersionDelta T) (refreshed : Option (List String)) where
  -- An increment is planned only for a delta with changes, on the same version line, whose version
  -- is the true successor of the local one: among 64-bit versions the addition never wraps.
  pub incremental_successor :
      {items : List T} {next : VersionState}
      → delta.version < 2 ^ 64
      → plan_version_sync key local_state local_items delta refreshed
        ≡ VersionDecision.incremental items next
      → (next.version ≡ local_state.version + 1)
        × (next.version ≡ delta.version)
        × (next.version_id ≡ local_state.version_id)
        × (has_changes delta ≡ true)
        × (delta.full ≡ false)
  unfolding plan_version_sync increment
  incremental_successor bound h = grind (arith, eq_iff delta.version_id local_state.version_id)

  -- Planned again from the state that an increment leaves, the same delta is no change: a delta
  -- is applied at most once, whatever the items and the refreshed ids are.
  pub incremental_once :
      {items : List T} {next : VersionState} (items' : List T) (refreshed' : Option (List String))
      → plan_version_sync key local_state local_items delta refreshed
        ≡ VersionDecision.incremental items next
      → plan_version_sync key next items' delta refreshed' ≡ VersionDecision.noop
  unfolding plan_version_sync increment
  incremental_once {next} items' refreshed' h = grind (
    arith,
    eq_iff delta.version_id local_state.version_id,
    eq_iff delta.version_id next.version_id,
  )

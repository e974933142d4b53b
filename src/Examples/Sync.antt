-- ===== src/Examples/Sync.antt =====
-- The theorems about crates/openim-sync/src/lib.rs and crates/openim-types/src/lib.rs at small
-- inputs.
use openim_sdk_core_rust.Base.{
  ℕ, String, Bool, true, false, none, [], ◌∷◌, ◌≡◌, ◌+◌, refl, arith, filter_map, ◌&&◌, ◌||◌, not,
}
use openim_sdk_core_rust.Base.Keys.{Eq, nat_eq, string_eq}
use openim_sdk_core_rust.Base.HashSet.{contains}
use openim_sdk_core_rust.Base.HashMap
use openim_sdk_core_rust.Base.HashSet
use openim_sdk_core_rust.Errors.{ok}
use openim_sdk_core_rust.Types.{VersionState, status_enum}
use openim_sdk_core_rust.Sync.Diff.{diff_by, default_options}
use openim_sdk_core_rust.Sync.Diff.Reference.{diff_actions}
use openim_sdk_core_rust.Sync.Diff.Equivalence.{diff_by-eq-diff_actions}
use openim_sdk_core_rust.Sync.Version.{
  VersionDelta, VersionDecision, has_changes, increment, plan_version_sync, collect, merge_items,
  reorder, remove_all, delete_ids,
}
use openim_sdk_core_rust.Sync.Version.Decision.{incremental_successor, incremental_once}
use openim_sdk_core_rust.Sync.Version.Merge.{merged, incremental_items, incremental_ids}

abbrev parity : ℕ → ℕ → Bool
parity a b = Eq.beq nat_eq a b

diff_by-eq-diff_actions_example :
    diff_by (λ n. n) parity (1 ∷ 3 ∷ []) (1 ∷ 2 ∷ []) default_options
    ≡ ok (record {
      actions = diff_actions (λ n. n) parity default_options (1 ∷ 2 ∷ []) (1 ∷ 3 ∷ []);
    })
diff_by-eq-diff_actions_example =
    diff_by-eq-diff_actions (λ n. n) parity default_options (1 ∷ 2 ∷ []) (1 ∷ 3 ∷ [])

abbrev known : VersionState
known = record { version_id = "v"; version = 3; uid_list = "a" ∷ "b" ∷ [] }

abbrev delta : VersionDelta String
delta = record {
  version_id = "v";
  version = 4;
  full = false;
  delete_ids = "a" ∷ [];
  updates = [];
  inserts = "c" ∷ [];
  id_order_changed = false;
}

abbrev after_delta : VersionState
after_delta = record { version_id = "v"; version = 4; uid_list = "b" ∷ "c" ∷ [] }

abbrev id_of : String → String
id_of s = s

planned :
    plan_version_sync id_of known ("a" ∷ "b" ∷ []) delta none
    ≡ VersionDecision.incremental ("b" ∷ "c" ∷ []) after_delta
unfolding plan_version_sync has_changes increment collect merge_items reorder remove_all delete_ids
    HashMap.get HashMap.insert HashMap.remove HashSet.from_list
planned = refl

incremental_successor_example :
    (after_delta.version ≡ known.version + 1)
    × (after_delta.version ≡ delta.version)
    × (after_delta.version_id ≡ known.version_id)
    × (has_changes delta ≡ true)
    × (delta.full ≡ false)
incremental_successor_example =
    incremental_successor id_of known ("a" ∷ "b" ∷ []) delta none (omega arith) planned

incremental_once_example : plan_version_sync id_of after_delta [] delta none ≡ VersionDecision.noop
incremental_once_example = incremental_once id_of known ("a" ∷ "b" ∷ []) delta none [] none planned

incremental_items_example :
    ("b" ∷ "c" ∷ []) ≡ filter_map (merged id_of ("a" ∷ "b" ∷ []) delta) after_delta.uid_list
incremental_items_example = incremental_items id_of known ("a" ∷ "b" ∷ []) delta none planned

incremental_ids_example :
    contains after_delta.uid_list "c"
    ≡ (contains known.uid_list "c" && not (contains delta.delete_ids "c") || true)
incremental_ids_example = incremental_ids id_of known ("a" ∷ "b" ∷ []) delta none "c" refl planned

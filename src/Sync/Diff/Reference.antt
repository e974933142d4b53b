-- ===== src/Sync/Diff/Reference.antt =====
-- `diff_by` without its hash map and hash set: what each item of either list contributes.
use openim_sdk_core_rust.Base.{
  Bool, true, false, not, Option, none, some, List, [], ◌∷◌, ◌++◌, map, any, filter, if◌then◌else◌,
}
use openim_sdk_core_rust.Base.Keys.{Eq, ◌==◌}
use openim_sdk_core_rust.Sync.Diff.{SyncAction, DiffOptions}

-- what two items of one key ask for, by whether they are equal and whether the actions that change
-- nothing are asked for
unfoldable pub met : {T : Type 0} → Bool → Bool → T → T → List (SyncAction T)
met true true server local = SyncAction.unchanged server local ∷ []
met true false server local = []
met false told server local = SyncAction.update server local ∷ []

module _ {T K : Type 0} ⦃e : Eq K⦄ (key : T → K) where
  -- the last item with the key
  unfoldable pub last_by : K → List T → Option T
  last_by id [] = none
  last_by id (x ∷ xs) = elim (last_by id xs) [
    | none ↦ if key x == id then some x else none
    | some y ↦ some y
  ]

  -- some item has the key
  abbrev pub has_key : K → List T → Bool
  has_key id = any (λ x. key x == id)

  module _ (equal : T → T → Bool) (options : DiffOptions) (local : List T) where
    -- what an item of the server asks for, given the local items
    unfoldable pub server_action : T → List (SyncAction T)
    unfolding last_by
    server_action s = elim (last_by (key s) local) [
      | none ↦ SyncAction.insert s ∷ []
      | some l ↦ met (equal s l) options.include_unchanged s l
    ]

    unfoldable pub server_actions : List T → List (SyncAction T)
    unfolding server_action
    server_actions [] = []
    server_actions (s ∷ rest) = server_action s ++ server_actions rest

    -- the local items whose key no item of the server has
    unfoldable pub deletions : List T → List (SyncAction T)
    deletions server =
        if options.skip_deletion
        then []
        else map SyncAction.delete (filter (λ l. not (has_key (key l) server)) local)

    unfoldable pub diff_actions : List T → List (SyncAction T)
    unfolding server_actions deletions
    diff_actions server = server_actions server ++ deletions server

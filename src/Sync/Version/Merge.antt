-- ===== src/Sync/Version/Merge.antt =====
-- What an increment keeps, adds and removes, without the hash map.
use openim_sdk_core_rust.Base.{
  ◌≡◌, refl, sym, ap, ◌∙◌, String, Bool, true, false, not, ◌&&◌, ◌||◌, Option, none, some, List, [],
  ◌∷◌, ◌++◌, arith, filter, filter_map, Bool-cases, inl, inr, if◌then◌else◌,
}
use mathlib.Core.Path.{fun_ext}
use openim_sdk_core_rust.Base.Keys.{string_eq, ◌==◌}
use openim_sdk_core_rust.Base.HashMap
use openim_sdk_core_rust.Base.HashMap.{HashMap}
use openim_sdk_core_rust.Base.HashSet
use openim_sdk_core_rust.Base.HashSet.{contains}
use openim_sdk_core_rust.Types.{VersionState}
use openim_sdk_core_rust.Sync.Diff.Reference.{last_by, has_key}
use openim_sdk_core_rust.Sync.Version.{
  VersionDelta, VersionDecision, delete_ids, remove_all, collect, merge_items, reorder, increment,
  plan_version_sync,
}

contains-filter :
    (p : String → Bool) (ids : List String) (id : String)
    → contains (filter p ids) id ≡ (contains ids id && p id)
contains-filter p [] id = refl
contains-filter p (x ∷ xs) id = elim (Bool-cases (x == id)) [
  | inl same ↦
      let e = (string_eq.beq_iff x id).0 same in ground (arith, contains-filter p xs id, ap p e)
  | inr other ↦ ground (arith, contains-filter p xs id)
]

contains-delete_ids :
    (ids deletes : List String) (id : String)
    → contains (delete_ids ids deletes) id ≡ (contains ids id && not (contains deletes id))
unfolding delete_ids
contains-delete_ids ids [] id = ground arith
contains-delete_ids ids (d ∷ deletes) id =
    rw (contains-filter (λ x. not (contains (HashSet.from_list (d ∷ deletes)) x)) ids id)
      (rw (HashSet.contains-from_list (d ∷ deletes) id))

get-remove_all :
    {T : Type 0} (ids : List String) (items : HashMap String T) (id : String)
    → HashMap.get id (remove_all ids items)
      ≡ (if contains ids id then none else HashMap.get id items)
unfolding remove_all
get-remove_all [] items id = refl
get-remove_all (x ∷ xs) items id =
    ground (arith, get-remove_all xs (HashMap.remove x items) id, HashMap.get-remove x id items)

module _ {T : Type 0} (key : T → String) where
  get-collect :
      (xs : List T) (items : HashMap String T) (id : String)
      → HashMap.get id (collect key xs items)
        ≡ (elim (last_by key id xs) [ none ↦ HashMap.get id items | some x ↦ some x ])
  unfolding collect last_by
  get-collect [] items id = refl
  get-collect (x ∷ xs) items id = ground (
    arith,
    get-collect xs (HashMap.insert (key x) x items) id,
    HashMap.get-insert (key x) id x items,
  )

  get-merge_items :
      (xs : List T) (uid_list : List String) (items : HashMap String T) (id : String)
      → HashMap.get id (merge_items key xs uid_list items).1
        ≡ (elim (last_by key id xs) [ none ↦ HashMap.get id items | some x ↦ some x ])
  unfolding merge_items last_by
  get-merge_items [] uid_list items id = refl
  get-merge_items (x ∷ xs) uid_list items id = ground (
    arith,
    get-merge_items xs (if contains uid_list (key x) then uid_list else uid_list ++ key x ∷ [])
        (HashMap.insert (key x) x items) id,
    HashMap.get-insert (key x) id x items,
  )

  contains-merge_items :
      (xs : List T) (uid_list : List String) (items : HashMap String T) (id : String)
      → contains (merge_items key xs uid_list items).0 id
        ≡ (contains uid_list id || has_key key id xs)
  unfolding merge_items
  contains-merge_items [] uid_list items id = ground arith
  contains-merge_items (x ∷ xs) uid_list items id = elim (Bool-cases (contains uid_list (key x))) [
    | inl old ↦ elim (Bool-cases (key x == id)) [
      | inl same ↦
          let listed : contains uid_list id ≡ true =
            ap (contains uid_list) (sym ((string_eq.beq_iff (key x) id).0 same)) ∙ old in
          ground (arith, contains-merge_items xs uid_list (HashMap.insert (key x) x items) id)
      | inr other ↦
          ground (arith, contains-merge_items xs uid_list (HashMap.insert (key x) x items) id)
    ]
    | inr new ↦ ground (
      arith,
      contains-merge_items xs (uid_list ++ key x ∷ []) (HashMap.insert (key x) x items) id,
      HashSet.contains-append uid_list (key x ∷ []) id,
    )
  ]

  -- what an identifier stands for after a delta: the last updated or inserted item that has it,
  -- or else the local one, unless it was deleted
  pub merged : List T → VersionDelta T → String → Option T
  merged local_items delta id = elim (last_by key id (delta.updates ++ delta.inserts)) [
    | none ↦ if contains delta.delete_ids id then none else last_by key id local_items
    | some x ↦ some x
  ]

  module _ (local_state : VersionState) (local_items : List T) (delta : VersionDelta T)
      (refreshed : Option (List String)) where
    increment_of_plan :
        {items : List T} {next : VersionState}
        → plan_version_sync key local_state local_items delta refreshed
          ≡ VersionDecision.incremental items next
        → increment key local_state local_items delta refreshed
          ≡ VersionDecision.incremental items next
    unfolding plan_version_sync
    increment_of_plan h = ground arith

    get-merged :
        (uid_list : List String) (id : String)
        → HashMap.get id
            (merge_items key
              (delta.updates ++ delta.inserts)
              uid_list
              (remove_all delta.delete_ids (collect key local_items []))).1
          ≡ merged local_items delta id
    unfolding merged HashMap.get
    get-merged uid_list id = ground (
      arith,
      get-merge_items (delta.updates ++ delta.inserts) uid_list
          (remove_all delta.delete_ids (collect key local_items [])) id,
      get-remove_all delta.delete_ids (collect key local_items []) id,
      get-collect local_items [] id,
    )

    -- the new identifier list
    new_ids : List String
    new_ids =
        reorder key delta refreshed
          (merge_items key (delta.updates ++ delta.inserts)
            (delete_ids local_state.uid_list delta.delete_ids)
            (remove_all delta.delete_ids (collect key local_items []))).0

    increment-merged :
        increment key local_state local_items delta refreshed
        ≡ VersionDecision.incremental
            (filter_map (merged local_items delta) new_ids)
            (record { version_id = delta.version_id; version = delta.version; uid_list = new_ids })
    unfolding increment new_ids
    increment-merged =
        ap
          (λ f.
            VersionDecision.incremental (filter_map f new_ids) (record {
              version_id = delta.version_id;
              version = delta.version;
              uid_list = new_ids;
            }))
          (fun_ext (get-merged (delete_ids local_state.uid_list delta.delete_ids)))

    -- The items of an increment are, in the order of the new identifier list, what each identifier
    -- stands for after the delta.
    pub incremental_items :
        {items : List T} {next : VersionState}
        → plan_version_sync key local_state local_items delta refreshed
          ≡ VersionDecision.incremental items next
        → items ≡ filter_map (merged local_items delta) next.uid_list
    incremental_items h = ground (arith, increment-merged, increment_of_plan h)

    -- Unless the order was refreshed, the new list holds exactly the old identifiers that were not
    -- deleted and those of the updated and inserted items.
    pub incremental_ids :
        {items : List T} {next : VersionState} (id : String)
        → delta.id_order_changed ≡ false
        → plan_version_sync key local_state local_items delta refreshed
          ≡ VersionDecision.incremental items next
        → contains next.uid_list id ≡ (
            contains local_state.uid_list id && not (contains delta.delete_ids id)
            || has_key key id (delta.updates ++ delta.inserts))
    unfolding increment reorder
    incremental_ids id same h = grind (
      arith,
      increment_of_plan h,
      contains-merge_items (delta.updates ++ delta.inserts)
          (delete_ids local_state.uid_list delta.delete_ids)
          (remove_all delta.delete_ids (collect key local_items [])) id,
      contains-delete_ids local_state.uid_list delta.delete_ids id,
    )

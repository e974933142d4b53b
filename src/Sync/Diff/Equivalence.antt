-- ===== src/Sync/Diff/Equivalence.antt =====
-- `diff_by`, with its map of indices and its set of consumed keys, computes the reference.
use openim_sdk_core_rust.Base.{
  ℕ, suc, ◌+◌, ◌≡◌, ◌≢◌, refl, sym, ap, ◌∙◌, ◌⊎◌, inl, inr, Bool, not, ◌||◌, none, some, List, [],
  ◌∷◌, ◌++◌, map, arith, All, All-imp, filter, get_elem?, Bool-cases, Option-cases,
}
use mathlib.Core.List.{append-nil, append_assoc}
use openim_sdk_core_rust.Base.Keys.{Eq, ◌==◌, beq_refl}
use openim_sdk_core_rust.Base.HashMap
use openim_sdk_core_rust.Base.HashMap.{HashMap}
use openim_sdk_core_rust.Base.HashSet
use openim_sdk_core_rust.Base.HashSet.{contains}
use openim_sdk_core_rust.Errors.{ok}
use openim_sdk_core_rust.Sync.Diff.{
  SyncAction, DiffOptions, compare_items, index_local, visit_server, visit_local, diff_by,
}
use openim_sdk_core_rust.Sync.Diff.Reference.{
  met, last_by, has_key, server_action, server_actions, diff_actions,
}

module _ {T K : Type 0} ⦃e : Eq K⦄ (key : T → K) (equal : T → T → Bool) where
  -- the index kept for a key is the position of the last item that has it
  index_found :
      (id : K) (i : ℕ) (items : List T) (m : HashMap K ℕ)
      → ((HashMap.get id (index_local key equal i items m) ≡ HashMap.get id m)
          × (last_by key id items ≡ none))
        ⊎ ((k : ℕ) × (x : T) × (HashMap.get id (index_local key equal i items m) ≡ some (i + k))
            × (get_elem? items k ≡ some x)
            × (last_by key id items ≡ some x))
  unfolding index_local last_by
  index_found id i [] m = inl (refl, refl)
  index_found id i (x ∷ xs) m = elim (index_found id (suc i) xs (HashMap.insert (key x) i m)) [
    | inl (unset, absent) ↦ elim (Bool-cases (key x == id)) [
      | inl same ↦ inr (0, x, ground (arith, HashMap.get-insert (key x) id i m), refl, ground arith)
      | inr other ↦ inl (ground (arith, HashMap.get-insert (key x) id i m), ground arith)
    ]
    | inr (k, y, found, at, last) ↦ inr (suc k, y, rw found (ap some (omega arith)), at, rw last)
  ]

  last_by-cons :
      (x : T) (id : K) (items : List T)
      → last_by key id items ≢ none
      → last_by key id (x ∷ items) ≢ none
  unfolding last_by
  last_by-cons x id items h = ground arith

  last_by-ne-none : (items : List T) → All (λ l. last_by key (key l) items ≢ none) items
  unfolding last_by
  last_by-ne-none [] = tt
  last_by-ne-none (x ∷ xs) = (
    ground (arith, beq_refl (key x)),
    All-imp (λ l. last_by key (key l) xs ≢ none) (λ l. last_by key (key l) (x ∷ xs) ≢ none)
        (λ l. last_by-cons x (key l) xs) xs (last_by-ne-none xs),
  )

  module _ (options : DiffOptions) (local : List T) where
    -- the set of consumed keys as the loop over the server's items leaves it
    consume : List T → List K → List K
    consume [] consumed = consumed
    consume (s ∷ rest) consumed = consume rest (elim (last_by key (key s) local) [
      | none ↦ consumed
      | some _ ↦ HashSet.insert (key s) consumed
    ])

    compare_items-eq :
        (s l : T)
        → compare_items key equal options s l ≡ met (equal s l) options.include_unchanged s l
    unfolding compare_items met
    compare_items-eq s l = ground arith

    visit_server-eq :
        (server : List T) (consumed : List K) (actions : List (SyncAction T))
        → visit_server key equal options local
            (index_local key equal 0 local [])
            server
            consumed
            actions
          ≡ ok (consume server consumed, actions ++ server_actions key equal options local server)
    unfolding visit_server server_actions server_action consume HashMap.get
    visit_server-eq [] consumed actions = rw append-nil
    visit_server-eq (s ∷ rest) consumed actions = elim (index_found (key s) 0 local []) [
      | inl (unset, absent) ↦
          let asked : List (SyncAction T) = SyncAction.insert s ∷ [] in
          ground (
            arith,
            visit_server-eq rest consumed (actions ++ asked),
            append_assoc actions asked (server_actions key equal options local rest),
          )
      | inr (k, l, found, at, last) ↦
          let asked = compare_items key equal options s l in
          let meant = compare_items-eq s l in
          ground (
            arith,
            visit_server-eq rest (HashSet.insert (key s) consumed) (actions ++ asked),
            append_assoc actions asked (server_actions key equal options local rest),
          )
    ]

    contains-consume :
        (server : List T) (consumed : List K) (id : K)
        → last_by key id local ≢ none
        → contains (consume server consumed) id ≡ (contains consumed id || has_key key id server)
    unfolding consume
    contains-consume [] consumed id h = ground arith
    contains-consume (s ∷ rest) consumed id h = elim (Option-cases (last_by key (key s) local)) [
      | inl absent ↦ elim (Bool-cases (key s == id)) [
        | inl same ↦
            absurd
              (h (ap (λ i. last_by key i local) (sym ((e.beq_iff (key s) id).0 same)) ∙ absent))
        | inr other ↦ rw (absent, other) (contains-consume rest consumed id h)
      ]
      | inr (l, present) ↦ ground (
        arith,
        contains-consume rest (HashSet.insert (key s) consumed) id h,
        HashSet.contains-insert (key s) id consumed,
      )
    ]

    visit_local-eq :
        (consumed : List K) (items : List T) (actions : List (SyncAction T))
        → visit_local key equal consumed items actions
          ≡ actions ++ map SyncAction.delete (filter (λ l. not (contains consumed (key l))) items)
    unfolding visit_local
    visit_local-eq consumed [] actions = rw append-nil
    visit_local-eq consumed (l ∷ rest) actions = elim (Bool-cases (contains consumed (key l))) [
      | inl kept ↦ rw (kept, visit_local-eq consumed rest actions)
      | inr gone ↦
          rw
            (gone, visit_local-eq consumed rest (actions ++ SyncAction.delete l ∷ []), append_assoc)
    ]

    filter-consume :
        (server items : List T)
        → All (λ l. last_by key (key l) local ≢ none) items
        → filter (λ l. not (contains (consume server []) (key l))) items
          ≡ filter (λ l. not (has_key key (key l) server)) items
    filter-consume server [] h = refl
    filter-consume server (l ∷ rest) h =
        rw (contains-consume server [] (key l) h.0, filter-consume server rest h.1)

    -- On every input `diff_by` returns a plan, and it is the reference's. For each item of the
    -- server, in order, it has an insertion where no local item has its key; else, against the last
    -- local item that has it, an update where the two are not equal, and where they are equal the
    -- action `unchanged` if the options include these, and nothing if not. Then, unless the options
    -- skip deletions, it has the deletion of each local item whose key the server lacks, in order.
    pub diff_by-eq-diff_actions :
        (server : List T)
        → diff_by key equal server local options
          ≡ ok (record { actions = diff_actions key equal options local server })
    unfolding diff_by diff_actions
    diff_by-eq-diff_actions server =
        let asked = server_actions key equal options local server in
        ground (
          arith,
          visit_server-eq server [] [],
          visit_local-eq (consume server []) local asked,
          filter-consume server local (last_by-ne-none local),
          append-nil asked,
        )

-- ===== src/Domain/Sync/Owned.antt =====
-- Maps whose keys are pairs, an owner and a name below it: friends, blacklists, members,
-- conversations and messages are kept so, and are synchronised one owner at a time.
use openim_sdk_core_rust.Base.{
  String, Ordering, ◌≡◌, ◌≢◌, refl, sym, ap, Bool, true, none, some, List, [], ◌∷◌, arith, All,
  All-imp, filter, length, if◌then◌else◌,
}
use openim_sdk_core_rust.Base.Keys.{◌==◌, string_eq, pair_eq}
use openim_sdk_core_rust.Base.HashMap
use openim_sdk_core_rust.Base.HashMap.{HashMap, values}
use openim_sdk_core_rust.Base.Sort.{sort_by}
use openim_sdk_core_rust.Errors.{ok}
use openim_sdk_core_rust.Action.{Action, modify}
use openim_sdk_core_rust.Sync.Diff.{DiffOptions}
use openim_sdk_core_rust.Sync.Diff.Equivalence.{diff_by-eq-diff_actions}
use openim_sdk_core_rust.Sync.Diff.Reference.{last_by, diff_actions}
use openim_sdk_core_rust.Domain.{DomainSyncSummary, empty_summary, total}
use openim_sdk_core_rust.Domain.Sync.{sync_items}
use openim_sdk_core_rust.Domain.Sync.Effects.{IsStore, apply_actions-keeps, apply_actions-effects}
use openim_sdk_core_rust.Domain.Sync.Listing.{
  IsKeyed, insert-IsKeyed, remove-IsKeyed, IsScoping, last_by-listing, listing_in_scope,
}
use openim_sdk_core_rust.Domain.Sync.Stores.{apply_actions-discard, diff_actions-MayStore}
use openim_sdk_core_rust.Domain.Sync.Mirror.{IsDistinctBy}
use openim_sdk_core_rust.Domain.Sync.Plan.{diff_actions-Applicable, apply_actions-mirrors}

module _ {T : Type 0} (owner_of name_of : T → String) where
  abbrev pub pair_key : T → String × String
  pair_key v = (owner_of v, name_of v)

  abbrev pub Store : Type 0
  Store = HashMap (String × String) T

  -- the store and the discard of the loop, on the map itself
  abbrev pub put : T → Store → Store
  put v = HashMap.insert (pair_key v) v

  abbrev pub drop : T → Action Store (Unit {0})
  drop v = modify (HashMap.remove (pair_key v))

  -- the values of one owner, sorted
  abbrev pub owned : (T → T → Ordering) → String → Store → List T
  owned cmp owner m = sort_by cmp (filter (λ v. owner_of v == owner) (values m))

  make_inj : (owner i j : String) → (◌==◌ {A = String × String} (owner, i) (owner, j)) ≡ (i == j)
  make_inj owner i j = ground (arith, string_eq.beq_iff owner owner)

  put-drop-IsStore : IsStore pair_key (λ _. Unit {0}) put drop (λ m k. HashMap.get k m)
  put-drop-IsStore = record {
    look-store = λ v s k. HashMap.get-insert (pair_key v) k v s;
    look-discard =
        λ v s _. (HashMap.remove (pair_key v) s, refl, λ k. HashMap.get-remove (pair_key v) k s);
  }

  scoping :
      (cmp : T → T → Ordering) (owner : String)
      → IsScoping name_of pair_key (λ i. (owner, i)) (λ v. owner_of v == owner) cmp
  scoping cmp owner = record {
    make_inj = make_inj owner;
    within = λ v inside. ap (λ o. (o, name_of v)) ((string_eq.beq_iff (owner_of v) owner).0 inside);
    outside = λ v out i. λ same. ground (arith, string_eq.beq_iff (owner_of v) owner);
  }

  module _ (cmp : T → T → Ordering) (equal : T → T → Bool)
      (equal_sound : (a b : T) → equal a b ≡ true → a ≡ b) (options : DiffOptions)
      (owner : String) where
    units : (xs : List T) → All (λ _. Unit {0}) xs
    units [] = tt
    units (x ∷ xs) = (tt, units xs)

    owners-InScope :
        (xs : List T)
        → All (λ v. owner_of v ≡ owner) xs
        → All (λ v. pair_key v ≡ (owner, name_of v)) xs
    owners-InScope xs h =
        All-imp (λ v. owner_of v ≡ owner) (λ v. pair_key v ≡ (owner, name_of v))
          (λ v e. ap (λ o. (o, name_of v)) e) xs h

    -- Synchronising one owner's values ends well, makes the map agree with the server's list on
    -- that owner, and leaves the other owners' values alone.
    pub sync_items-mirrors :
        (server : List T) (m : Store)
        → IsKeyed pair_key m
        → All (λ v. owner_of v ≡ owner) server
        → IsDistinctBy name_of server
        → (summary : DomainSyncSummary) × (t : Store) × (sync_items name_of equal options put drop
              server
              (owned cmp owner m)
              m
            ≡ (ok summary, t))
          × (total summary ≡ length (diff_actions name_of equal options (owned cmp owner m) server))
          × ((i : String)
              → HashMap.get (owner, i) t ≡ (elim (last_by name_of i server) [
                | none ↦ if options.skip_deletion then HashMap.get (owner, i) m else none
                | some x ↦ some x
              ]))
          × ((o i : String) → o ≢ owner → HashMap.get (o, i) t ≡ HashMap.get (o, i) m)
    unfolding sync_items
    sync_items-mirrors server m keyed owners distinct =
        let local = owned cmp owner m in
        let (summary, t, done, counted, reads, frame) =
          apply_actions-mirrors name_of pair_key (λ i. (owner, i)) equal options
            (record { make_inj = make_inj owner; equal_sound = equal_sound }) (λ _. Unit {0}) put
            drop (λ s k. HashMap.get k s) put-drop-IsStore local server m
            (listing_in_scope name_of pair_key (λ i. (owner, i)) _ cmp (scoping cmp owner) m)
            (owners-InScope server owners) distinct (units local)
            (λ i. sym (
              last_by-listing name_of pair_key (λ j. (owner, j)) _ cmp (scoping cmp owner) m i
                keyed)) in
        (
          summary,
          t,
          rw (diff_by-eq-diff_actions name_of equal options local server) done,
          counted,
          reads,
          λ o i other. frame (o, i) (λ j same. other (ap (λ p. p.0) same)),
        )

    pub sync_items-IsKeyed :
        (server local : List T) (m : Store)
        → IsKeyed pair_key m
        → IsKeyed pair_key (sync_items name_of equal options put drop server local m).1
    unfolding sync_items
    sync_items-IsKeyed server local m keyed =
        rw (diff_by-eq-diff_actions name_of equal options local server) (
          apply_actions-keeps put drop (IsKeyed pair_key) (insert-IsKeyed pair_key)
            (λ v. remove-IsKeyed pair_key (pair_key v))
            (diff_actions name_of equal options local server) empty_summary m keyed)

    -- the synchronisation of a map never fails
    pub sync_items_total :
        (server local : List T) (m : Store)
        → (summary : DomainSyncSummary) × (t : Store) × (sync_items name_of equal options put drop
              server local m
            ≡ (ok summary, t))
    unfolding sync_items
    sync_items_total server local m =
        let plan = diff_actions name_of equal options local server in
        let (summary, t, done, _, _) =
          apply_actions-effects pair_key (λ _. Unit {0}) put drop (λ s k. HashMap.get k s)
            put-drop-IsStore plan empty_summary m
            (diff_actions-Applicable name_of equal options (λ _. Unit {0}) local server
              (units local)) in
        (summary, t, rw (diff_by-eq-diff_actions name_of equal options local server) done)

    -- with deletions skipped, what discarding would be does not matter
    pub sync_items-discard :
        (other : T → Action Store (Unit {0})) (server local : List T) (m : Store)
        → options.skip_deletion ≡ true
        → sync_items name_of equal options put other server local m
          ≡ sync_items name_of equal options put drop server local m
    unfolding sync_items
    sync_items-discard other server local m skip =
        rw (diff_by-eq-diff_actions name_of equal options local server) (
          apply_actions-discard (λ _. Unit {0}) put other drop
            (diff_actions name_of equal options local server) empty_summary m
            (diff_actions-MayStore (λ _. Unit {0}) name_of equal options local server skip
              (units server)))

-- ===== src/Domain/Relation/Blacklist.antt =====
-- What the blacklist of one owner is after a synchronisation.
use openim_sdk_core_rust.Base.{
  String, true, false, List, ◌≡◌, ◌≢◌, ◌⊎◌, refl, ap, ◌∙◌, inl, arith, All, All-imp, length,
}
use openim_sdk_core_rust.Base.Keys.{string_eq, pair_eq}
use openim_sdk_core_rust.Base.HashMap
use openim_sdk_core_rust.Base.HashMap.{HashMap}
use openim_sdk_core_rust.Base.Text.{is_empty}
use openim_sdk_core_rust.Errors.{Result, ok, is_ok, each, ◌>>◌}
use openim_sdk_core_rust.Sync.Diff.{default_options}
use openim_sdk_core_rust.Sync.Diff.Reference.{last_by, diff_actions}
use openim_sdk_core_rust.Domain.{DomainSyncSummary, total}
use openim_sdk_core_rust.Domain.Equality.{equal, equal_iff}
use openim_sdk_core_rust.Domain.Sync.Listing.{IsKeyed}
use openim_sdk_core_rust.Domain.Sync.Mirror.{IsDistinctBy}
use openim_sdk_core_rust.Domain.Sync.Owned.{sync_items-mirrors, sync_items_total, owned, put, drop}
use openim_sdk_core_rust.Domain.Sync.{sync_items}
use openim_sdk_core_rust.Action.{Action, lift-ok, lift-IsAtomic}
use openim_sdk_core_rust.Domain.Relation.{
  BlacklistInfo, BlacklistInfo_discrete, RelationService, black_key, by_blocked, ensure_pair,
  ensure_owner, ensure_user_id, on_blacklist, sync_blacklist, all_blacklist,
}
use openim_sdk_core_rust.Domain.Relation.Checks.{IsOwnedBy, owner_checks}

pub black_equal_sound : (a b : BlacklistInfo) → equal BlacklistInfo_discrete a b ≡ true → a ≡ b
black_equal_sound a b = (equal_iff BlacklistInfo_discrete a b).0

abbrev pub IsBlockedBy : String → BlacklistInfo → Type 0
IsBlockedBy = IsOwnedBy BlacklistInfo.owner_user_id BlacklistInfo.blocked_user_id

abbrev sync_map :
    String
    → List BlacklistInfo
    → RelationService
    → Action (HashMap (String × String) BlacklistInfo) DomainSyncSummary
sync_map owner server s =
    sync_items BlacklistInfo.blocked_user_id (equal BlacklistInfo_discrete) default_options
      (put BlacklistInfo.owner_user_id BlacklistInfo.blocked_user_id)
      (drop BlacklistInfo.owner_user_id BlacklistInfo.blocked_user_id) server
      (owned BlacklistInfo.owner_user_id BlacklistInfo.blocked_user_id by_blocked owner s.blacklist)

abbrev checks : String → List BlacklistInfo → Result (Unit {0})
checks owner = each (λ black.
    ensure_owner owner black.owner_user_id >> ensure_pair black.owner_user_id black.blocked_user_id)

-- past the checks, `sync_blacklist` is the synchronisation of the map
accepted :
    (owner : String) (server : List BlacklistInfo) (s : RelationService)
    → is_empty owner ≡ false
    → checks owner server ≡ ok tt
    → sync_blacklist owner server s ≡ on_blacklist (sync_map owner server s) s
unfolding sync_blacklist all_blacklist
accepted owner server s there passed =
    lift-ok (ensure_user_id owner "owner_user_id") _ s (ground (arith, there))
    ∙ lift-ok (checks owner server) _ s passed
    ∙ lift-ok (all_blacklist owner s) _ s (ground (arith, there))

-- For an owner with an identifier, a server list of entries of that owner, each with an identifier
-- and no two with the same one, and a service whose blacklist stands under its keys:
-- `sync_blacklist` succeeds; a read of an entry of the owner then finds exactly what the server sent,
-- the entries of other owners and the friends are as before, and every action was counted.
pub sync_blacklist-mirrors :
    (owner : String) (server : List BlacklistInfo) (s : RelationService)
    → is_empty owner ≡ false
    → All (IsBlockedBy owner) server
    → IsDistinctBy BlacklistInfo.blocked_user_id server
    → IsKeyed black_key s.blacklist
    → (summary : DomainSyncSummary) × (t : RelationService) × (sync_blacklist owner server s
        ≡ (ok summary, t))
      × (total summary
          ≡ length (
              diff_actions BlacklistInfo.blocked_user_id
                (equal BlacklistInfo_discrete)
                default_options
                (owned BlacklistInfo.owner_user_id BlacklistInfo.blocked_user_id by_blocked owner
                  s.blacklist)
                server))
      × ((i : String)
          → HashMap.get (owner, i) t.blacklist ≡ last_by BlacklistInfo.blocked_user_id i server)
      × ((o i : String)
          → o ≢ owner
          → HashMap.get (o, i) t.blacklist ≡ HashMap.get (o, i) s.blacklist)
      × (t.friends ≡ s.friends)
sync_blacklist-mirrors owner server s there blocked distinct keyed =
    let (summary, m, done, counted, reads, frame) =
      sync_items-mirrors BlacklistInfo.owner_user_id BlacklistInfo.blocked_user_id by_blocked
        (equal BlacklistInfo_discrete) black_equal_sound default_options owner server s.blacklist
        keyed
        (All-imp (IsBlockedBy owner) (λ f. f.owner_user_id ≡ owner) (λ f h. h.0) server blocked)
        distinct in
    (
      summary,
      record s { blacklist = m },
      accepted owner server s there (
            owner_checks BlacklistInfo.owner_user_id BlacklistInfo.blocked_user_id owner server
              there blocked)
          ∙ ap (λ p. (p.0, record s { blacklist = p.1 })) done,
      counted,
      λ i. ground (arith, reads i),
      frame,
      refl,
    )

-- `sync_blacklist` succeeds or leaves the service as it was: whatever list the server sends, an error
-- comes before the first write.
pub sync_blacklist_all_or_nothing :
    (owner : String) (server : List BlacklistInfo) (s : RelationService)
    → (is_ok (sync_blacklist owner server s).0 ≡ true) ⊎ ((sync_blacklist owner server s).1 ≡ s)
unfolding sync_blacklist all_blacklist
sync_blacklist_all_or_nothing owner server s =
    lift-IsAtomic (ensure_user_id owner "owner_user_id") _ s (λ _ _.
      lift-IsAtomic (checks owner server) _ s (λ _ _.
        lift-IsAtomic (all_blacklist owner s) _ s (λ local _.
          let (summary, t, done) =
            sync_items_total BlacklistInfo.owner_user_id BlacklistInfo.blocked_user_id by_blocked
              (equal BlacklistInfo_discrete) black_equal_sound default_options owner server local
              s.blacklist in
          inl (ap (λ p. is_ok p.0) done))))

-- ===== src/Domain/Relation/Friends.antt =====
-- What the friend list of one owner is after each operation.
use openim_sdk_core_rust.Base.{
  String, true, false, List, none, some, ◌≡◌, ◌≢◌, ◌⊎◌, refl, ap, ◌∙◌, inl, arith, All, All-imp,
  if◌then◌else◌, length,
}
use openim_sdk_core_rust.Base.Keys.{◌==◌, string_eq, pair_eq}
use openim_sdk_core_rust.Base.HashMap
use openim_sdk_core_rust.Base.HashMap.{HashMap}
use openim_sdk_core_rust.Base.Text.{is_empty}
use openim_sdk_core_rust.Errors.{Result, ok, is_ok, each, ◌>>◌}
use openim_sdk_core_rust.Sync.Diff.{default_options}
use openim_sdk_core_rust.Sync.Diff.Reference.{last_by, diff_actions}
use openim_sdk_core_rust.Domain.{DomainSyncSummary, total}
use openim_sdk_core_rust.Domain.Equality.{equal, equal_iff}
use openim_sdk_core_rust.Domain.Sync.Listing.{IsKeyed}
use openim_sdk_core_rust.Domain.Sync.Mirror.{IsDistinctBy}
use openim_sdk_core_rust.Domain.Sync.Owned.{sync_items-mirrors, sync_items_total, owned, put, drop}
use openim_sdk_core_rust.Domain.Sync.{sync_items}
use openim_sdk_core_rust.Action.{Action, lift-ok, lift-IsAtomic}
use openim_sdk_core_rust.Domain.Relation.{
  FriendInfo, FriendInfo_discrete, RelationService, friend_key, by_friend, ensure_pair,
  ensure_owner, ensure_user_id, on_friends, sync_friends, all_friends, upsert_friend, delete_friend,
  get_friend,
}
use openim_sdk_core_rust.Domain.Relation.Checks.{IsOwnedBy, owner_checks}

pub friend_equal_sound : (a b : FriendInfo) → equal FriendInfo_discrete a b ≡ true → a ≡ b
friend_equal_sound a b = (equal_iff FriendInfo_discrete a b).0

abbrev pub IsFriendOf : String → FriendInfo → Type 0
IsFriendOf = IsOwnedBy FriendInfo.owner_user_id FriendInfo.friend_user_id

abbrev sync_map :
    String
    → List FriendInfo
    → RelationService
    → Action (HashMap (String × String) FriendInfo) DomainSyncSummary
sync_map owner server s =
    sync_items FriendInfo.friend_user_id (equal FriendInfo_discrete) default_options
      (put FriendInfo.owner_user_id FriendInfo.friend_user_id)
      (drop FriendInfo.owner_user_id FriendInfo.friend_user_id) server
      (owned FriendInfo.owner_user_id FriendInfo.friend_user_id by_friend owner s.friends)

abbrev checks : String → List FriendInfo → Result (Unit {0})
checks owner = each (λ friend.
    ensure_owner owner friend.owner_user_id
    >> ensure_pair friend.owner_user_id friend.friend_user_id)

-- past the checks, `sync_friends` is the synchronisation of the map
accepted :
    (owner : String) (server : List FriendInfo) (s : RelationService)
    → is_empty owner ≡ false
    → checks owner server ≡ ok tt
    → sync_friends owner server s ≡ on_friends (sync_map owner server s) s
unfolding sync_friends all_friends
accepted owner server s there passed =
    lift-ok (ensure_user_id owner "owner_user_id") _ s (ground (arith, there))
    ∙ lift-ok (checks owner server) _ s passed
    ∙ lift-ok (all_friends owner s) _ s (ground (arith, there))

-- For an owner with an identifier, a server list of friends of that owner, each with an identifier
-- and no two with the same one, and a service whose friends stand under their keys:
-- `sync_friends` succeeds; a read of a friend of the owner then finds exactly what the server sent,
-- the friends of other owners and the blacklist are as before, and every action was counted.
pub sync_friends-mirrors :
    (owner : String) (server : List FriendInfo) (s : RelationService)
    → is_empty owner ≡ false
    → All (IsFriendOf owner) server
    → IsDistinctBy FriendInfo.friend_user_id server
    → IsKeyed friend_key s.friends
    → (summary : DomainSyncSummary) × (t : RelationService) × (sync_friends owner server s
        ≡ (ok summary, t))
      × (total summary
          ≡ length (
              diff_actions FriendInfo.friend_user_id
                (equal FriendInfo_discrete)
                default_options
                (owned FriendInfo.owner_user_id FriendInfo.friend_user_id by_friend owner s.friends)
                server))
      × ((i : String)
          → HashMap.get (owner, i) t.friends ≡ last_by FriendInfo.friend_user_id i server)
      × ((o i : String) → o ≢ owner → HashMap.get (o, i) t.friends ≡ HashMap.get (o, i) s.friends)
      × (t.blacklist ≡ s.blacklist)
sync_friends-mirrors owner server s there friends distinct keyed =
    let (summary, m, done, counted, reads, frame) =
      sync_items-mirrors FriendInfo.owner_user_id FriendInfo.friend_user_id by_friend
        (equal FriendInfo_discrete) friend_equal_sound default_options owner server s.friends keyed
        (All-imp (IsFriendOf owner) (λ f. f.owner_user_id ≡ owner) (λ f h. h.0) server friends)
        distinct in
    (
      summary,
      record s { friends = m },
      accepted owner server s there (
            owner_checks FriendInfo.owner_user_id FriendInfo.friend_user_id owner server there
              friends)
          ∙ ap (λ p. (p.0, record s { friends = p.1 })) done,
      counted,
      λ i. ground (arith, reads i),
      frame,
      refl,
    )

-- `sync_friends` succeeds or leaves the service as it was: whatever list the server sends, an error
-- comes before the first write.
pub sync_friends_all_or_nothing :
    (owner : String) (server : List FriendInfo) (s : RelationService)
    → (is_ok (sync_friends owner server s).0 ≡ true) ⊎ ((sync_friends owner server s).1 ≡ s)
unfolding sync_friends all_friends
sync_friends_all_or_nothing owner server s =
    lift-IsAtomic (ensure_user_id owner "owner_user_id") _ s (λ _ _.
      lift-IsAtomic (checks owner server) _ s (λ _ _.
        lift-IsAtomic (all_friends owner s) _ s (λ local _.
          let (summary, t, done) =
            sync_items_total FriendInfo.owner_user_id FriendInfo.friend_user_id by_friend
              (equal FriendInfo_discrete) friend_equal_sound default_options owner server local
              s.friends in
          inl (ap (λ p. is_ok p.0) done))))

-- Upserting a friend that the checks accept: a read of any pair then finds the new friend under its
-- own pair and what was there under every other.
pub get_friend-upsert_friend :
    (friend : FriendInfo) (owner name : String) (s : RelationService)
    → ensure_pair friend.owner_user_id friend.friend_user_id ≡ ok tt
    → ensure_pair owner name ≡ ok tt
    → get_friend owner name (upsert_friend friend s).1
      ≡ (if friend_key friend == (owner, name) then ok (some friend) else get_friend owner name s)
unfolding get_friend upsert_friend
get_friend-upsert_friend friend owner name s valid asked =
    ground
      (arith, valid, asked, HashMap.get-insert (friend_key friend) (owner, name) friend s.friends)

-- Deleting a friend by a valid pair: a read of any pair then finds nothing under that pair and what
-- was there under every other.
pub get_friend-delete_friend :
    (owner' name' owner name : String) (s : RelationService)
    → ensure_pair owner' name' ≡ ok tt
    → ensure_pair owner name ≡ ok tt
    → get_friend owner name (delete_friend owner' name' s).1 ≡ (
        if ◌==◌ {A = String × String} (owner', name') (owner, name)
        then ok none
        else get_friend owner name s)
unfolding get_friend delete_friend
get_friend-delete_friend owner' name' owner name s valid asked =
    ground (arith, valid, asked, HashMap.get-remove (owner', name') (owner, name) s.friends)

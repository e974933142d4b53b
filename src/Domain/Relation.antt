-- ===== src/Domain/Relation.antt =====
-- crates/openim-domain/src/relation.rs: friends and blacklists, each kept per owner.
pub mod Checks
pub mod Friends
pub mod Blacklist
pub mod Reachable
use native.Mathlib.Decide.{ℕ_discrete}
use Prim.Native.String.{◌++◌, compare}
use openim_sdk_core_rust.Base.{
  ℕ, String, Ordering, Bool, List, [], ◌∷◌, Option, none, some, if◌then◌else◌, not, filter,
}
use openim_sdk_core_rust.Base.Int.{ℤ}
use openim_sdk_core_rust.Base.Keys.{Eq, ◌==◌, string_eq, pair_eq}
use openim_sdk_core_rust.Base.HashMap
use openim_sdk_core_rust.Base.HashMap.{HashMap, values}
use openim_sdk_core_rust.Base.Sort.{sort_by}
use openim_sdk_core_rust.Base.Text.{is_empty}
use openim_sdk_core_rust.Errors.{Result, ok, err, args, ensure_not_empty, each, ◌>>◌ as ◌>>?◌}
use openim_sdk_core_rust.Action
use openim_sdk_core_rust.Action.{Action, lift, query, modify, ◌>>=◌, ◌>>◌}
use openim_sdk_core_rust.Sync.Diff.{default_options}
use openim_sdk_core_rust.Domain.{DomainSyncSummary}
use openim_sdk_core_rust.Domain.Equality.{String_discrete, ℤ_discrete, equal}
use openim_sdk_core_rust.Domain.Sync.{sync_items}
use openim_sdk_core_rust.Domain.Sync.Owned.{owned, put, drop}

pub record FriendInfo : Type 0 where
  pub owner_user_id : String
  pub friend_user_id : String
  pub nickname : String
  pub remark : String
  pub face_url : String
  pub updated_at : ℤ

pub record BlacklistInfo : Type 0 where
  pub owner_user_id : String
  pub blocked_user_id : String
  pub nickname : String
  pub face_url : String
  pub updated_at : ℤ

unfoldable pub FriendInfo_discrete : Discrete FriendInfo
FriendInfo_discrete = hlevel (ℕ_discrete, String_discrete, ℤ_discrete)

unfoldable pub BlacklistInfo_discrete : Discrete BlacklistInfo
BlacklistInfo_discrete = hlevel (ℕ_discrete, String_discrete, ℤ_discrete)

pub record RelationService : Type 0 where
  pub friends : HashMap (String × String) FriendInfo
  pub blacklist : HashMap (String × String) BlacklistInfo

abbrev pub new_service : RelationService
new_service = record { friends = []; blacklist = [] }

abbrev pub ensure_user_id : String → String → Result (Unit {0})
ensure_user_id = ensure_not_empty

abbrev pub ensure_pair : String → String → Result (Unit {0})
ensure_pair owner_user_id target_user_id =
    ensure_user_id owner_user_id "owner_user_id" >>? ensure_user_id target_user_id "target_user_id"

abbrev pub ensure_owner : String → String → Result (Unit {0})
ensure_owner expected actual =
    if not (expected == actual) then err (args "server item owner_user_id mismatch") else ok tt

abbrev pub friend_key : FriendInfo → String × String
friend_key friend = (friend.owner_user_id, friend.friend_user_id)

abbrev pub black_key : BlacklistInfo → String × String
black_key black = (black.owner_user_id, black.blocked_user_id)

-- a step on one of the two maps
module _ {A : Type 0} where
  abbrev pub on_friends : Action (HashMap (String × String) FriendInfo) A → Action RelationService A
  on_friends m s = ((m s.friends).0, record s { friends = (m s.friends).1 })

  abbrev pub on_blacklist :
      Action (HashMap (String × String) BlacklistInfo) A → Action RelationService A
  on_blacklist m s = ((m s.blacklist).0, record s { blacklist = (m s.blacklist).1 })

unfoldable pub upsert_friend : FriendInfo → Action RelationService (Unit {0})
upsert_friend friend = do
  lift (ensure_pair friend.owner_user_id friend.friend_user_id)
  on_friends (modify (HashMap.insert (friend_key friend) friend))

unfoldable pub delete_friend : String → String → Action RelationService (Unit {0})
delete_friend owner_user_id friend_user_id = do
  lift (ensure_pair owner_user_id friend_user_id)
  on_friends (modify (HashMap.remove (owner_user_id, friend_user_id)))

unfoldable pub get_friend : String → String → RelationService → Result (Option FriendInfo)
get_friend owner_user_id friend_user_id s =
    ensure_pair owner_user_id friend_user_id
    >>? ok (HashMap.get (owner_user_id, friend_user_id) s.friends)

abbrev pub by_friend : FriendInfo → FriendInfo → Ordering
by_friend left right = compare left.friend_user_id right.friend_user_id

unfoldable pub all_friends : String → RelationService → Result (List FriendInfo)
all_friends owner_user_id s =
    ensure_user_id owner_user_id "owner_user_id"
    >>? ok (
        sort_by by_friend
          (filter (λ friend. friend.owner_user_id == owner_user_id) (values s.friends)))

unfoldable pub sync_friends : String → List FriendInfo → Action RelationService DomainSyncSummary
sync_friends owner_user_id server_friends = do
  lift (ensure_user_id owner_user_id "owner_user_id")
  lift (
      each
        (λ friend.
          ensure_owner owner_user_id friend.owner_user_id
          >>? ensure_pair friend.owner_user_id friend.friend_user_id)
        server_friends)
  local_friends ← query (all_friends owner_user_id)
  on_friends (
      sync_items FriendInfo.friend_user_id (equal FriendInfo_discrete) default_options
        (put FriendInfo.owner_user_id FriendInfo.friend_user_id)
        (drop FriendInfo.owner_user_id FriendInfo.friend_user_id) server_friends local_friends)

unfoldable pub upsert_blacklist : BlacklistInfo → Action RelationService (Unit {0})
upsert_blacklist black = do
  lift (ensure_pair black.owner_user_id black.blocked_user_id)
  on_blacklist (modify (HashMap.insert (black_key black) black))

unfoldable pub delete_blacklist : String → String → Action RelationService (Unit {0})
delete_blacklist owner_user_id blocked_user_id = do
  lift (ensure_pair owner_user_id blocked_user_id)
  on_blacklist (modify (HashMap.remove (owner_user_id, blocked_user_id)))

abbrev pub by_blocked : BlacklistInfo → BlacklistInfo → Ordering
by_blocked left right = compare left.blocked_user_id right.blocked_user_id

unfoldable pub all_blacklist : String → RelationService → Result (List BlacklistInfo)
all_blacklist owner_user_id s =
    ensure_user_id owner_user_id "owner_user_id"
    >>? ok (
        sort_by by_blocked
          (filter (λ black. black.owner_user_id == owner_user_id) (values s.blacklist)))

unfoldable pub sync_blacklist :
    String → List BlacklistInfo → Action RelationService DomainSyncSummary
sync_blacklist owner_user_id server_blacklist = do
  lift (ensure_user_id owner_user_id "owner_user_id")
  lift (
      each
        (λ black.
          ensure_owner owner_user_id black.owner_user_id
          >>? ensure_pair black.owner_user_id black.blocked_user_id)
        server_blacklist)
  local_blacklist ← query (all_blacklist owner_user_id)
  on_blacklist (
      sync_items BlacklistInfo.blocked_user_id (equal BlacklistInfo_discrete) default_options
        (put BlacklistInfo.owner_user_id BlacklistInfo.blocked_user_id)
        (drop BlacklistInfo.owner_user_id BlacklistInfo.blocked_user_id) server_blacklist
        local_blacklist)

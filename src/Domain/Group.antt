-- ===== src/Domain/Group.antt =====
-- crates/openim-domain/src/group.rs: groups and their members.
pub mod Members
use native.Mathlib.Decide.{ℕ_discrete}
use Prim.Native.String.{compare}
use openim_sdk_core_rust.Base.{
  ℕ, String, Ordering, Bool, List, [], ◌∷◌, Option, none, some, if◌then◌else◌, not, filter,
}
use openim_sdk_core_rust.Base.Int.{ℤ}
use openim_sdk_core_rust.Base.Keys.{◌==◌, string_eq, pair_eq}
use openim_sdk_core_rust.Base.HashMap
use openim_sdk_core_rust.Base.HashMap.{HashMap, values}
use openim_sdk_core_rust.Base.Sort.{sort_by}
use openim_sdk_core_rust.Errors.{Result, ok, err, args, ensure_not_empty, each, ◌>>◌ as ◌>>?◌}
use openim_sdk_core_rust.Action.{Action, lift, gets, query, modify, ◌>>=◌, ◌>>◌}
use openim_sdk_core_rust.Sync.Diff.{default_options}
use openim_sdk_core_rust.Domain.{DomainSyncSummary}
use openim_sdk_core_rust.Domain.Equality.{String_discrete, ℤ_discrete, equal}
use openim_sdk_core_rust.Domain.Sync.{sync_items}
use openim_sdk_core_rust.Domain.Sync.Owned.{put, drop}

-- `member_count` is a `u32` that is only stored
pub record GroupInfo : Type 0 where
  pub group_id : String
  pub group_name : String
  pub face_url : String
  pub owner_user_id : String
  pub member_count : ℕ
  pub updated_at : ℤ

pub record GroupMemberInfo : Type 0 where
  pub group_id : String
  pub user_id : String
  pub nickname : String
  pub face_url : String
  pub role_level : ℤ
  pub join_time : ℤ

unfoldable pub GroupInfo_discrete : Discrete GroupInfo
GroupInfo_discrete = hlevel (ℕ_discrete, String_discrete, ℤ_discrete)

unfoldable pub GroupMemberInfo_discrete : Discrete GroupMemberInfo
GroupMemberInfo_discrete = hlevel (String_discrete, ℤ_discrete)

pub record GroupService : Type 0 where
  pub groups : HashMap String GroupInfo
  pub members : HashMap (String × String) GroupMemberInfo

abbrev pub new_service : GroupService
new_service = record { groups = []; members = [] }

abbrev pub ensure_id : String → String → Result (Unit {0})
ensure_id = ensure_not_empty

abbrev pub ensure_pair : String → String → Result (Unit {0})
ensure_pair group_id user_id = ensure_id group_id "group_id" >>? ensure_id user_id "user_id"

abbrev pub member_key : GroupMemberInfo → String × String
member_key member = (member.group_id, member.user_id)

abbrev pub store_group : GroupInfo → GroupService → GroupService
store_group group s = record s { groups = HashMap.insert group.group_id group s.groups }

unfoldable pub upsert_group : GroupInfo → Action GroupService (Unit {0})
upsert_group group = do lift (ensure_id group.group_id "group_id"); modify (store_group group)

unfoldable pub get_group : String → GroupService → Result (Option GroupInfo)
get_group group_id s = ensure_id group_id "group_id" >>? ok (HashMap.get group_id s.groups)

-- a group goes with its members
unfoldable pub delete_group : String → Action GroupService (Unit {0})
delete_group group_id = do
  lift (ensure_id group_id "group_id")
  modify (λ s. record s {
    groups = HashMap.remove group_id s.groups;
    members = HashMap.retain (λ k. not (k.0 == group_id)) s.members;
  })

abbrev pub by_group : GroupInfo → GroupInfo → Ordering
by_group left right = compare left.group_id right.group_id

unfoldable pub joined_groups : GroupService → List GroupInfo
joined_groups s = sort_by by_group (values s.groups)

unfoldable pub sync_groups : List GroupInfo → Action GroupService DomainSyncSummary
sync_groups server_groups = do
  lift (each (λ group. ensure_id group.group_id "group_id") server_groups)
  local_groups ← gets joined_groups
  sync_items GroupInfo.group_id (equal GroupInfo_discrete) default_options store_group
      (λ local. delete_group local.group_id) server_groups local_groups

abbrev pub on_members :
    {A : Type 0} → Action (HashMap (String × String) GroupMemberInfo) A → Action GroupService A
on_members m s = ((m s.members).0, record s { members = (m s.members).1 })

unfoldable pub upsert_member : GroupMemberInfo → Action GroupService (Unit {0})
upsert_member member = do
  lift (ensure_pair member.group_id member.user_id)
  on_members (modify (HashMap.insert (member_key member) member))

unfoldable pub delete_member : String → String → Action GroupService (Unit {0})
delete_member group_id user_id = do
  lift (ensure_pair group_id user_id)
  on_members (modify (HashMap.remove (group_id, user_id)))

abbrev pub by_user : GroupMemberInfo → GroupMemberInfo → Ordering
by_user left right = compare left.user_id right.user_id

unfoldable pub group_members : String → GroupService → Result (List GroupMemberInfo)
group_members group_id s =
    ensure_id group_id "group_id"
    >>? ok (sort_by by_user (filter (λ member. member.group_id == group_id) (values s.members)))

-- the check of one member of the server
abbrev pub ensure_in_group : String → GroupMemberInfo → Result (Unit {0})
ensure_in_group group_id member =
    ensure_pair member.group_id member.user_id
    >>? (if not (member.group_id == group_id)
        then err (args "server member group_id mismatch")
        else ok tt)

unfoldable pub sync_group_members :
    String → List GroupMemberInfo → Action GroupService DomainSyncSummary
sync_group_members group_id server_members = do
  lift (ensure_id group_id "group_id")
  lift (each (ensure_in_group group_id) server_members)
  local_members ← query (group_members group_id)
  on_members (
      sync_items GroupMemberInfo.user_id (equal GroupMemberInfo_discrete) default_options
        (put GroupMemberInfo.group_id GroupMemberInfo.user_id)
        (drop GroupMemberInfo.group_id GroupMemberInfo.user_id) server_members local_members)

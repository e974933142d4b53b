-- ===== src/Domain/Group/Members.antt =====
-- A group and its members: deleting the group, and synchronising the members.
use openim_sdk_core_rust.Base.{
  String, true, false, not, List, none, ◌≡◌, ◌≢◌, refl, ap, ◌∙◌, arith, All, All-imp, if◌then◌else◌,
  length,
}
use openim_sdk_core_rust.Base.Keys.{◌==◌, string_eq, pair_eq}
use openim_sdk_core_rust.Base.HashMap
use openim_sdk_core_rust.Base.HashMap.{HashMap}
use openim_sdk_core_rust.Base.Text.{is_empty}
use openim_sdk_core_rust.Errors.{ok, each, each-ok}
use openim_sdk_core_rust.Action.{lift-ok}
use openim_sdk_core_rust.Sync.Diff.{default_options}
use openim_sdk_core_rust.Sync.Diff.Reference.{last_by, diff_actions}
use openim_sdk_core_rust.Domain.{DomainSyncSummary, total}
use openim_sdk_core_rust.Domain.Equality.{equal, equal_iff}
use openim_sdk_core_rust.Domain.Sync.{sync_items}
use openim_sdk_core_rust.Domain.Sync.Listing.{IsKeyed}
use openim_sdk_core_rust.Domain.Sync.Mirror.{IsDistinctBy}
use openim_sdk_core_rust.Domain.Sync.Owned.{sync_items-mirrors, owned, put, drop}
use openim_sdk_core_rust.Domain.Group.{
  GroupMemberInfo, GroupMemberInfo_discrete, GroupService, member_key, by_user, ensure_id,
  ensure_in_group, on_members, group_members, sync_group_members, delete_group,
}

-- Deleting a group by an identifier that is not empty succeeds; the group is gone and so is every
-- entry of its members, and every other group and every member of other groups is as before.
pub delete_group-cascades :
    (group_id : String) (s : GroupService)
    → is_empty group_id ≡ false
    → (t : GroupService) × (delete_group group_id s ≡ (ok tt, t))
      × ((g : String)
          → HashMap.get g t.groups ≡ (if group_id == g then none else HashMap.get g s.groups))
      × ((g user : String)
          → HashMap.get (g, user) t.members
            ≡ (if g == group_id then none else HashMap.get (g, user) s.members))
unfolding delete_group
delete_group-cascades group_id s there = (
  record s {
    groups = HashMap.remove group_id s.groups;
    members = HashMap.retain (λ k. not (k.0 == group_id)) s.members;
  },
  ground (arith, there),
  λ g. HashMap.get-remove group_id g s.groups,
  λ g user. ground (arith, HashMap.get-retain (λ k. not (k.0 == group_id)) (g, user) s.members),
)

member_equal_sound : (a b : GroupMemberInfo) → equal GroupMemberInfo_discrete a b ≡ true → a ≡ b
member_equal_sound a b = (equal_iff GroupMemberInfo_discrete a b).0

-- what the server may send: members of the group, with an identifier
abbrev pub IsMemberOf : String → GroupMemberInfo → Type 0
IsMemberOf group_id m = (m.group_id ≡ group_id) × (is_empty m.user_id ≡ false)

abbrev pub local_members : String → GroupService → List GroupMemberInfo
local_members group_id s =
    owned GroupMemberInfo.group_id GroupMemberInfo.user_id by_user group_id s.members

accepted :
    (group_id : String) (server : List GroupMemberInfo) (s : GroupService)
    → is_empty group_id ≡ false
    → each (ensure_in_group group_id) server ≡ ok tt
    → sync_group_members group_id server s
      ≡ on_members
          (sync_items GroupMemberInfo.user_id
            (equal GroupMemberInfo_discrete)
            default_options
            (put GroupMemberInfo.group_id GroupMemberInfo.user_id)
            (drop GroupMemberInfo.group_id GroupMemberInfo.user_id)
            server
            (local_members group_id s))
          s
unfolding sync_group_members group_members
accepted group_id server s there passed =
    lift-ok (ensure_id group_id "group_id") _ s (ground (arith, there))
    ∙ lift-ok (each (ensure_in_group group_id) server) _ s passed
    ∙ lift-ok (group_members group_id s) _ s (ground (arith, there))

-- For a group with an identifier, a server list of members of that group, each with an identifier
-- and no two with the same one, and a service whose members stand under their keys:
-- `sync_group_members` succeeds and counts every action; the members of the group are then exactly
-- what the server sent, and the members of other groups and all groups are as before.
pub sync_group_members-mirrors :
    (group_id : String) (server : List GroupMemberInfo) (s : GroupService)
    → is_empty group_id ≡ false
    → All (IsMemberOf group_id) server
    → IsDistinctBy GroupMemberInfo.user_id server
    → IsKeyed member_key s.members
    → (summary : DomainSyncSummary) × (t : GroupService) × (sync_group_members group_id server s
        ≡ (ok summary, t))
      × (total summary
          ≡ length (
              diff_actions GroupMemberInfo.user_id
                (equal GroupMemberInfo_discrete)
                default_options
                (local_members group_id s)
                server))
      × ((i : String)
          → HashMap.get (group_id, i) t.members ≡ last_by GroupMemberInfo.user_id i server)
      × ((g i : String)
          → g ≢ group_id
          → HashMap.get (g, i) t.members ≡ HashMap.get (g, i) s.members)
      × (t.groups ≡ s.groups)
sync_group_members-mirrors group_id server s there members distinct keyed =
    let (summary, m, done, counted, reads, frame) =
      sync_items-mirrors GroupMemberInfo.group_id GroupMemberInfo.user_id by_user
        (equal GroupMemberInfo_discrete) member_equal_sound default_options group_id server
        s.members keyed
        (All-imp (IsMemberOf group_id) (λ v. v.group_id ≡ group_id) (λ v h. h.0) server members)
        distinct in
    (
      summary,
      record s { members = m },
      accepted group_id server s there (
            each-ok (ensure_in_group group_id) server (
              All-imp (IsMemberOf group_id) _
                (λ v h.
                  ground
                    (arith, there, h.1, ap is_empty h.0, string_eq.beq_iff v.group_id group_id))
                server members))
          ∙ ap (λ p. (p.0, record s { members = p.1 })) done,
      counted,
      λ i. ground (arith, reads i),
      frame,
      refl,
    )

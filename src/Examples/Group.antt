-- ===== src/Examples/Group.antt =====
-- The theorems about crates/openim-domain/src/group.rs and user.rs at small services.
use openim_sdk_core_rust.Base.{true, none, some, [], ◌∷◌, ◌≡◌, refl, ap}
use openim_sdk_core_rust.Base.Int.{pos}
use openim_sdk_core_rust.Base.Keys.{string_eq, pair_eq}
use openim_sdk_core_rust.Base.HashMap
use openim_sdk_core_rust.Errors.{ok, is_ok}
use openim_sdk_core_rust.Domain.Sync.Listing.{empty-IsKeyed}
use openim_sdk_core_rust.Domain.Group.{
  GroupMemberInfo, GroupService, new_service, member_key, delete_group, sync_group_members,
}
use openim_sdk_core_rust.Domain.Group.Members.{delete_group-cascades, sync_group_members-mirrors}
use openim_sdk_core_rust.Domain.User.{UserProfile, UserProfilePatch, UserService, get_profiles}
use openim_sdk_core_rust.Domain.User.Profiles.{get_profiles-filter_map}

abbrev member : GroupMemberInfo
member = record {
  group_id = "team";
  user_id = "ann";
  nickname = "Ann";
  face_url = "";
  role_level = pos 20;
  join_time = pos 1;
}

abbrev team : GroupService
team = record {
  groups =
      (
        "team",
        record {
          group_id = "team";
          group_name = "Team";
          face_url = "";
          owner_user_id = "ann";
          member_count = 1;
          updated_at = pos 1;
        },
      )
      ∷ [];
  members = (("team", "ann"), member) ∷ [];
}

delete_group-cascades_example : is_ok (delete_group "team" team).0 ≡ true
delete_group-cascades_example = ap (λ p. is_ok p.0) (delete_group-cascades "team" team refl).1

sync_group_members-mirrors_example :
    is_ok (sync_group_members "team" (member ∷ []) new_service).0 ≡ true
sync_group_members-mirrors_example =
    ap (λ p. is_ok p.0)
      (sync_group_members-mirrors "team" (member ∷ []) new_service refl ((refl, refl), tt) (tt, tt)
        (empty-IsKeyed member_key)).2

abbrev profile : UserProfile
profile = record { user_id = "ann"; nickname = "Ann"; face_url = ""; ex = ""; updated_at = pos 1 }

abbrev users : UserService
users = record { profiles = ("ann", profile) ∷ [] }

abbrev rename : UserProfilePatch
rename = record { nickname = some "Anna"; face_url = none; ex = none; updated_at = none }

get_profiles-filter_map_example : get_profiles ("bob" ∷ "ann" ∷ []) users ≡ ok (profile ∷ [])
unfolding HashMap.get
get_profiles-filter_map_example =
    get_profiles-filter_map ("bob" ∷ "ann" ∷ []) users (refl, (refl, tt))

-- ===== src/Domain/User.antt =====
-- crates/openim-domain/src/user.rs: user profiles.
pub mod Profiles
use Prim.Native.String.{◌++◌}
use openim_sdk_core_rust.Base.{
  ℕ, String, Bool, List, [], ◌∷◌, Option, none, some, length, is_empty as is_empty_list,
  if◌then◌else◌,
}
use openim_sdk_core_rust.Base.Int.{ℤ}
use openim_sdk_core_rust.Base.Keys.{string_eq}
use openim_sdk_core_rust.Base.HashMap
use openim_sdk_core_rust.Base.HashMap.{HashMap}
use openim_sdk_core_rust.Errors.{
  Result, ok, err, args, ensure_not_empty, ok_or, ◌>>=◌ as ◌>>=?◌, ◌>>◌ as ◌>>?◌,
}
use openim_sdk_core_rust.Action.{Action, lift, query, modify, ◌>>=◌, ◌>>◌}

pub record UserProfile : Type 0 where
  pub user_id : String
  pub nickname : String
  pub face_url : String
  pub ex : String
  pub updated_at : ℤ

pub record UserProfilePatch : Type 0 where
  pub nickname : Option String
  pub face_url : Option String
  pub ex : Option String
  pub updated_at : Option ℤ

pub record UserService : Type 0 where
  pub profiles : HashMap String UserProfile

abbrev pub new_service : UserService
new_service = record { profiles = [] }

abbrev pub ensure_user_id : String → Result (Unit {0})
ensure_user_id user_id = ensure_not_empty user_id "user_id"

abbrev pub store_profile : String → UserProfile → UserService → UserService
store_profile user_id profile s = record { profiles = HashMap.insert user_id profile s.profiles }

unfoldable pub upsert_profile : UserProfile → Action UserService (Unit {0})
upsert_profile profile = do
  lift (ensure_user_id profile.user_id)
  modify (store_profile profile.user_id profile)

-- a field that is written only where the patch has a value
abbrev pub or_old : {A : Type 0} → Option A → A → A
or_old none old = old
or_old (some new) old = new

unfoldable pub patched : UserProfilePatch → UserProfile → UserProfile
patched patch profile = record profile {
  nickname = or_old patch.nickname profile.nickname;
  face_url = or_old patch.face_url profile.face_url;
  ex = or_old patch.ex profile.ex;
  updated_at = or_old patch.updated_at profile.updated_at;
}

-- the place that `get_mut` finds
abbrev pub find_profile : String → UserService → Result UserProfile
find_profile user_id s =
    ok_or (HashMap.get user_id s.profiles) (args ("user profile not found: " ++ user_id))

unfoldable pub update_profile : String → UserProfilePatch → Action UserService (Unit {0})
update_profile user_id patch = do
  lift (ensure_user_id user_id)
  profile ← query (find_profile user_id)
  modify (store_profile user_id (patched patch profile))

unfoldable pub get_profile : String → UserService → Result (Option UserProfile)
get_profile user_id s = ensure_user_id user_id >>? ok (HashMap.get user_id s.profiles)

-- `profiles.push` where the lookup finds a profile
abbrev pub push : Option UserProfile → List UserProfile → List UserProfile
push none rest = rest
push (some profile) rest = profile ∷ rest

unfoldable pub get_profiles : List String → UserService → Result (List UserProfile)
get_profiles [] s = ok []
get_profiles (user_id ∷ rest) s =
    ensure_user_id user_id
    >>? (get_profiles rest s >>=? λ profiles. ok (push (HashMap.get user_id s.profiles) profiles))

unfoldable pub len : UserService → ℕ
len s = length s.profiles

unfoldable pub is_empty : UserService → Bool
is_empty s = is_empty_list s.profiles

-- ===== src/Domain/User/Profiles.antt =====
-- What lookups of profiles find after a write.
use openim_sdk_core_rust.Base.{
  String, is_some, false, none, some, List, [], ◌∷◌, ◌≡◌, refl, inl, inr, arith, All, filter_map,
  Option-cases, if◌then◌else◌,
}
use openim_sdk_core_rust.Base.Keys.{◌==◌, string_eq}
use openim_sdk_core_rust.Base.HashMap
use openim_sdk_core_rust.Base.Text.{is_empty}
use openim_sdk_core_rust.Errors.{ok, is_ok}
use openim_sdk_core_rust.Domain.User.{
  UserProfilePatch, UserService, patched, update_profile, get_profile, get_profiles,
}

-- For identifiers that are not empty, `get_profiles` succeeds and returns, in the order of the
-- identifiers, the profiles that are stored; those that are missing are left out.
pub get_profiles-filter_map :
    (ids : List String) (s : UserService)
    → All (λ id. is_empty id ≡ false) ids
    → get_profiles ids s ≡ ok (filter_map (λ id. HashMap.get id s.profiles) ids)
unfolding get_profiles
get_profiles-filter_map [] s h = refl
get_profiles-filter_map (id ∷ rest) s h = elim (Option-cases (HashMap.get id s.profiles)) [
  | inl absent ↦ ground (arith, h.0, absent, get_profiles-filter_map rest s h.1)
  | inr (p, present) ↦ ground (arith, h.0, present, get_profiles-filter_map rest s h.1)
]

-- A patch of a profile that is not stored fails and writes nothing; a patch of one that is
-- succeeds, and any later lookup by an identifier that is not empty finds the patched profile
-- under its identifier and what was there before under every other.
pub get_profile-update_profile :
    (user_id id : String) (patch : UserProfilePatch) (s : UserService)
    → is_empty user_id ≡ false
    → is_empty id ≡ false
    → (is_ok (update_profile user_id patch s).0 ≡ is_some (HashMap.get user_id s.profiles))
      × (get_profile id (update_profile user_id patch s).1 ≡ (
          if user_id == id
          then ok (elim (HashMap.get user_id s.profiles) [
            | none ↦ none
            | some p ↦ some (patched patch p)
          ])
          else get_profile id s))
unfolding update_profile get_profile
get_profile-update_profile user_id id patch s there asked =
    elim (Option-cases (HashMap.get user_id s.profiles)) [
      | inl absent ↦ (
        ground (arith, there, absent),
        ground (arith, there, asked, absent, string_eq.beq_iff user_id id),
      )
      | inr (p, present) ↦ (
        ground (arith, there, present),
        ground (
          arith,
          there,
          asked,
          present,
          HashMap.get-insert user_id id (patched patch p) s.profiles,
        ),
      )
    ]

-- ===== src/Domain/File/Requests/Naming.antt =====
-- Under which name an object is stored.
use Prim.Native.String.{◌++◌}
use Prim.Native.String.append
use openim_sdk_core_rust.Base.{
  ◌≡◌, refl, ap, ◌∙◌, sym, true, arith, inl, inr, Bool-cases, String, if◌then◌else◌,
}
use openim_sdk_core_rust.Errors.{ok, >>=-eq-ok, ok_injective, ◌>>◌, ensure_not_empty}
use openim_sdk_core_rust.Domain.File.Requests.{starts_with, without_slash, normalize_upload_name}

starts_with_own : (p s : String) → starts_with p (p ++ s) ≡ true
unfolding starts_with
starts_with_own String.[] s = refl
starts_with_own (String.◌∷◌ c p) s =
    ap (starts_with (String.◌∷◌ c p)) (append.cons c p s) ∙ ground (arith, starts_with_own p s)

-- The name that an object is given where `normalize_upload_name` gives one: it begins with the user
-- and a slash, so that it stands in the user's own folder, and it is the name that was asked for,
-- without one slash that it may begin with, or that name below the folder.
pub normalize_upload_name-starts_with :
    (login_user_id name normal : String)
    → normalize_upload_name login_user_id name ≡ ok normal
    → (starts_with (login_user_id ++ "/") normal ≡ true)
      × (normal ≡ (
          if starts_with (login_user_id ++ "/") (without_slash name)
          then without_slash name
          else (login_user_id ++ "/") ++ without_slash name))
unfolding normalize_upload_name
normalize_upload_name-starts_with login_user_id name normal made =
    let prefix = login_user_id ++ "/" in
    let (_, _, next) =
      >>=-eq-ok (ensure_not_empty login_user_id "login_user_id" >> ensure_not_empty name "name") _
        made in
    let is = sym (ok_injective next) in
    elim (Bool-cases (starts_with prefix (without_slash name))) [
      | inl inside ↦ (ap (starts_with prefix) (is ∙ ground (arith, inside)) ∙ inside, is)
      | inr outside ↦ (
        ap (starts_with prefix) (is ∙ ground (arith, outside))
            ∙ starts_with_own prefix (without_slash name),
        is,
      )
    ]

-- ===== src/Domain/File/Requests.antt =====
-- crates/openim-domain/src/file.rs: the requests that begin and end an upload.
pub mod Naming
use Prim.Native.Char.{code}
use Prim.Native.String.{◌++◌}
use openim_sdk_core_rust.Base.{
  ℕ, ◌^◌, min, max, ◌≡◌, refl, true, false, arith, inl, inr, Bool-cases, String, Bool, ◌&&◌, Option,
  none, some, List, [], ◌∷◌, map, length, ltb, ◌==◌, if◌then◌else◌,
}
use openim_sdk_core_rust.Base.Text.{is_empty, to_string}
use openim_sdk_core_rust.Errors.{
  Result, ok, err, args, ok_injective, >>=-eq-ok, ensure_not_empty, ◌>>=◌, ◌>>◌,
}
use openim_sdk_core_rust.Domain.File.Plan.{UploadPart, MultipartUploadPlan}
use openim_sdk_core_rust.Domain.File.Signing.{ObjectUploadInfo, MultipartUploadSession, new_session}

-- `starts_with`
unfoldable pub starts_with : String → String → Bool
starts_with String.[] s = true
starts_with (String.◌∷◌ c p) String.[] = false
starts_with (String.◌∷◌ c p) (String.◌∷◌ d s) = code c == code d && starts_with p s

-- `strip_prefix('/').unwrap_or(name)`
unfoldable pub without_slash : String → String
without_slash String.[] = ""
without_slash (String.◌∷◌ c s) = if code c == 47 then s else String.◌∷◌ c s

unfoldable pub normalize_upload_name : String → String → Result String
normalize_upload_name login_user_id name =
    ensure_not_empty login_user_id "login_user_id"
    >> ensure_not_empty name "name"
    >> ok (
        if starts_with (login_user_id ++ "/") (without_slash name)
        then without_slash name
        else (login_user_id ++ "/") ++ without_slash name)

pub record UploadObjectRequest : Type 0 where
  pub login_user_id : String
  pub name : String
  pub content_type : String
  pub cause : String
  pub url_prefix : String

unfoldable pub new_upload : String → String → String → Result UploadObjectRequest
new_upload login_user_id name content_type = normalize_upload_name login_user_id name >>= λ name.
    ok (record {
      login_user_id = login_user_id;
      name = name;
      content_type = content_type;
      cause = "";
      url_prefix = "";
    })

abbrev pub with_cause : UploadObjectRequest → String → UploadObjectRequest
with_cause r cause = record r { cause = cause }

abbrev pub with_url_prefix : UploadObjectRequest → String → UploadObjectRequest
with_url_prefix r url_prefix = record r { url_prefix = url_prefix }

pub record InitiateMultipartUploadRequest : Type 0 where
  pub hash : String
  pub size : ℕ
  pub part_size : ℕ
  pub max_parts : ℕ
  pub cause : String
  pub name : String
  pub content_type : String
  pub url_prefix : String

pub record InitiateMultipartUploadResponse : Type 0 where
  pub url : String
  pub upload : Option ObjectUploadInfo

pub record CompleteMultipartUploadRequest : Type 0 where
  pub upload_id : String
  pub parts : List String
  pub name : String
  pub content_type : String
  pub cause : String
  pub url_prefix : String

pub data PreparedMultipartUpload : Type 0 where
  already_uploaded : (url : String) → PreparedMultipartUpload
  upload : MultipartUploadSession → PreparedMultipartUpload

-- `u32::try_from` on a `usize`
abbrev pub count_u32 : ℕ → Result ℕ
count_u32 part_count =
    if ltb part_count (2 ^ 32) then ok part_count else err (args "part count exceeds u32 range")

unfoldable pub max_sign_parts : ℕ → Result ℕ
max_sign_parts part_count = count_u32 part_count >>= λ count. ok (max (min 20 count) 1)

-- `join`
unfoldable pub join : String → List String → String
join separator [] = ""
join separator (s ∷ []) = s
join separator (s ∷ t ∷ rest) = s ++ separator ++ join separator (t ∷ rest)

unfoldable pub combined_part_hash : MultipartUploadPlan → String
combined_part_hash plan = join "," (map (λ part. part.part_hash) plan.parts)

unfoldable pub initiate_multipart_request :
    MultipartUploadPlan → UploadObjectRequest → Result InitiateMultipartUploadRequest
initiate_multipart_request plan object = max_sign_parts (length plan.parts) >>= λ max_parts.
    ok (record {
      hash = combined_part_hash plan;
      size = plan.file.file_size;
      part_size = plan.part_size;
      max_parts = max_parts;
      cause = object.cause;
      name = object.name;
      content_type = object.content_type;
      url_prefix = object.url_prefix;
    })

-- what follows the server's answer
abbrev pub prepared :
    MultipartUploadPlan → ℕ → String → Option ObjectUploadInfo → Result PreparedMultipartUpload
prepared plan max_parts url none =
    ensure_not_empty url "url" >> ok (PreparedMultipartUpload.already_uploaded url)
prepared plan max_parts url (some info) =
    if info.part_size == plan.part_size
    then (count_u32 (length plan.parts) >>= λ count.
        new_session info count max_parts >>= λ s. ok (PreparedMultipartUpload.upload s))
    else err (
        args (
          "part fileSize not match, expect "
          ++ to_string plan.part_size
          ++ ", got "
          ++ to_string info.part_size))

-- `initiate` is what the implementation of `ObjectStorageApi` answers
unfoldable pub prepare_multipart_upload :
    (InitiateMultipartUploadRequest → Result InitiateMultipartUploadResponse)
    → MultipartUploadPlan
    → UploadObjectRequest
    → Result PreparedMultipartUpload
prepare_multipart_upload initiate plan object =
    initiate_multipart_request plan object >>= λ request.
    initiate request >>= λ response. prepared plan request.max_parts response.url response.upload

unfoldable pub complete_multipart_request :
    MultipartUploadPlan → UploadObjectRequest → String → CompleteMultipartUploadRequest
complete_multipart_request plan object upload_id = record {
  upload_id = upload_id;
  parts = map (λ part. part.part_hash) plan.parts;
  name = object.name;
  content_type = object.content_type;
  cause = object.cause;
  url_prefix = object.url_prefix;
}

-- ===== src/Examples/File.antt =====
-- The theorems about crates/openim-domain/src/file.rs at a small file.
use openim_sdk_core_rust.Base.{
  ℕ, ◌+◌, ◌*◌, ◌≤◌, ◌<◌, true, [], ◌≡◌, refl, ap, arith, length, some, get_elem?,
}
use openim_sdk_core_rust.Base.Int.{pos}
use openim_sdk_core_rust.Errors.{is_ok, ok}
use openim_sdk_core_rust.Domain.File.Types.{FileDigest}
use openim_sdk_core_rust.Domain.File.Plan.{
  MultipartUploadPlan, parts_from, plan_multipart, plan_multipart-IsTiling,
}
use openim_sdk_core_rust.Domain.File.Limit.{ObjectPartLimit, part_size_for}
use openim_sdk_core_rust.Domain.File.Limit.Bounds.{
  part_size_for-bounds, plan_multipart-part_size_for,
}
use openim_sdk_core_rust.Domain.File.Transfer.{FileUploadClient}
use openim_sdk_core_rust.Domain.File.Signing.{MultipartUploadSession, next_part_numbers}
use openim_sdk_core_rust.Domain.File.Signing.Granted.{next_part_numbers-exact}
use openim_sdk_core_rust.Domain.File.Requests.{starts_with, without_slash, normalize_upload_name}
use openim_sdk_core_rust.Domain.File.Requests.Naming.{normalize_upload_name-starts_with}

abbrev photo : FileDigest
photo = record { file_name = "a.png"; file_size = 10; content_type = "image/png"; sha256 = "00" }

plan_multipart-IsTiling_example : is_ok (plan_multipart photo 4) ≡ true
plan_multipart-IsTiling_example = ap is_ok (plan_multipart-IsTiling photo 4 refl (omega arith)).1

abbrev limit : ObjectPartLimit
limit = record { min_part_size = 1; max_part_size = 6; max_num_size = 3 }

part_size_for-bounds_example : (0 < 4) × (10 ≤ 4 * 3) × (1 ≤ 4) × (1 ≤ 6 → 4 ≤ 6)
unfolding part_size_for
part_size_for-bounds_example = part_size_for-bounds limit 10 4 refl

abbrev photo_plan : MultipartUploadPlan
photo_plan = record { file = photo; part_size = 4; parts = parts_from 10 photo 4 0 1 }

plan_multipart-part_size_for_example : length photo_plan.parts ≤ 3
unfolding part_size_for plan_multipart
plan_multipart-part_size_for_example =
    plan_multipart-part_size_for limit photo 4 photo_plan refl refl

-- a client that counts what it is given
abbrev counting : FileUploadClient ℕ
counting file part n = (ok (record { part_number = part.part_number; etag = "e" }), n + 1)

abbrev upload : MultipartUploadSession
upload = record {
  upload_id = "up";
  part_size = 4;
  part_count = 5;
  batch_sign_count = 3;
  sign = record { url = "https://s3"; query = []; header = []; parts = [] };
  expire_time = pos 0;
}

next_part_numbers-exact_example :
    (length (next_part_numbers upload 4) ≡ 2)
    × ((i : ℕ)
        → i < length (next_part_numbers upload 4)
        → get_elem? (next_part_numbers upload 4) i ≡ some (4 + i))
next_part_numbers-exact_example =
    next_part_numbers-exact upload 4 (omega arith) (omega arith) (omega arith)

normalize_upload_name-starts_with_example : starts_with "ann/" "ann/a.png" ≡ true
unfolding normalize_upload_name starts_with without_slash
normalize_upload_name-starts_with_example =
    (normalize_upload_name-starts_with "ann" "/a.png" "ann/a.png" refl).0

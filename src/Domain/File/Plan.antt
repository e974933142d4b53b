-- ===== src/Domain/File/Plan.antt =====
-- crates/openim-domain/src/file.rs: how a file is cut into parts.
use Prim.Native.String.{◌++◌}
use openim_sdk_core_rust.Base.{
  ℕ, zero, suc, ◌+◌, ◌-◌, ◌%◌, ◌^◌, ◌≤◌, ◌<◌, min, ◌≡◌, refl, inl, inr, String, Bool, false, List,
  [], ◌∷◌, arith, ltb, ◌==◌, Bool-cases, if◌then◌else◌,
}
use openim_sdk_core_rust.Base.Text.{is_empty, to_string}
use openim_sdk_core_rust.Errors.{Result, ok, err, args}
use openim_sdk_core_rust.Domain.File.Types.{FileDigest}

-- `part_number` is a `u32`, the others are `u64`
pub record UploadPart : Type 0 where
  pub part_number : ℕ
  pub offset : ℕ
  pub size : ℕ
  pub part_hash : String
  pub uploaded : Bool

pub record MultipartUploadPlan : Type 0 where
  pub file : FileDigest
  pub part_size : ℕ
  pub parts : List UploadPart

unfoldable pub part_hash : FileDigest → ℕ → ℕ → String
part_hash file offset size = file.sha256 ++ ":" ++ to_string offset ++ ":" ++ to_string size

abbrev pub part_at : FileDigest → ℕ → ℕ → ℕ → UploadPart
part_at file part_size offset part_number =
    let size = min (file.file_size - offset) part_size in
    record {
      part_number = part_number;
      offset = offset;
      size = size;
      part_hash = part_hash file offset size;
      uploaded = false;
    }

-- the loop, on fuel: each turn takes at least one byte of what is left
unfoldable pub parts_from : ℕ → FileDigest → ℕ → ℕ → ℕ → List UploadPart
parts_from zero file part_size offset part_number = []
parts_from (suc fuel) file part_size offset part_number =
    let rest =
      parts_from fuel file part_size (offset + min (file.file_size - offset) part_size)
        ((part_number + 1) % 2 ^ 32) in
    if ltb offset file.file_size then part_at file part_size offset part_number ∷ rest else []

unfoldable pub plan_multipart : FileDigest → ℕ → Result MultipartUploadPlan
plan_multipart file part_size =
    if is_empty file.file_name
    then err (args "file_name is empty")
    else if part_size == 0
    then err (args "part_size is zero")
    else ok (record {
      file = file;
      part_size = part_size;
      parts = parts_from file.file_size file part_size 0 1;
    })

-- parts that cover the bytes from one offset to another, each following the one before, none
-- empty, none larger than the part size and none uploaded
unfoldable pub IsTiling : ℕ → ℕ → ℕ → List UploadPart → Type 0
IsTiling part_size from to [] = from ≡ to
IsTiling part_size from to (p ∷ ps) =
    (p.offset ≡ from)
    × (0 < p.size)
    × (p.size ≤ part_size)
    × (p.uploaded ≡ false)
    × IsTiling part_size (from + p.size) to ps

parts_from-IsTiling :
    (fuel : ℕ) (file : FileDigest) (part_size offset part_number : ℕ)
    → 0 < part_size
    → offset ≤ file.file_size
    → file.file_size ≤ offset + fuel
    → IsTiling part_size offset file.file_size (parts_from fuel file part_size offset part_number)
unfolding parts_from IsTiling
parts_from-IsTiling zero file part_size offset part_number positive within enough = omega arith
parts_from-IsTiling (suc fuel) file part_size offset part_number positive within enough =
    elim (Bool-cases (ltb offset file.file_size)) [
      | inl more ↦
          let below : offset < file.file_size = ground (arith, more) in
          rw more (
            refl,
            omega (arith, below),
            omega arith,
            refl,
            parts_from-IsTiling fuel file part_size
                (offset + min (file.file_size - offset) part_size) ((part_number + 1) % 2 ^ 32)
                positive (omega (arith, below)) (omega (arith, below)),
          )
      | inr over ↦ let above : offset ≡ file.file_size = ground (arith, over) in rw over above
    ]

-- For a file with a name and a part size that is not 0, `plan_multipart` ends and returns a plan
-- whose parts, in order, cover the file from its first byte to its last without gap or overlap,
-- none of them empty, larger than the part size or marked as uploaded.
pub plan_multipart-IsTiling :
    (file : FileDigest) (part_size : ℕ)
    → is_empty file.file_name ≡ false
    → 0 < part_size
    → (plan : MultipartUploadPlan) × (plan_multipart file part_size ≡ ok plan)
      × (plan.part_size ≡ part_size)
      × IsTiling part_size 0 file.file_size plan.parts
unfolding plan_multipart
plan_multipart-IsTiling file part_size named positive = (
  record {
    file = file;
    part_size = part_size;
    parts = parts_from file.file_size file part_size 0 1;
  },
  ground (arith, named),
  refl,
  parts_from-IsTiling file.file_size file part_size 0 1 positive (omega arith) (omega arith),
)

-- ===== src/Domain/File/Transfer.antt =====
-- crates/openim-domain/src/file.rs: which parts are uploaded, and uploading the others.
pub mod Completion
use Prim.Native.String.{◌++◌}
use openim_sdk_core_rust.Base.{
  ℕ, ◌+◌, ◌%◌, ◌^◌, String, Bool, true, false, ◌&&◌, List, [], ◌∷◌, map, filter, any, length, ◌==◌,
  if◌then◌else◌,
}
use openim_sdk_core_rust.Base.Text.{to_string}
use openim_sdk_core_rust.Errors.{Result, ok, err, panic, args}
use openim_sdk_core_rust.Action.{Action}
use openim_sdk_core_rust.Domain.File.Types.{FileDigest}
use openim_sdk_core_rust.Domain.File.Plan.{UploadPart, MultipartUploadPlan}

-- `u64` bytes, `usize` parts
pub record UploadProgress : Type 0 where
  pub uploaded_bytes : ℕ
  pub total_bytes : ℕ
  pub uploaded_parts : ℕ
  pub total_parts : ℕ

unfoldable pub is_complete : UploadProgress → Bool
is_complete p = p.uploaded_bytes == p.total_bytes && p.uploaded_parts == p.total_parts

pub record UploadedPart : Type 0 where
  pub part_number : ℕ
  pub etag : String

pub record UploadOutcome : Type 0 where
  pub uploaded_parts : List UploadedPart
  pub progress : UploadProgress

-- `sum` of `u64` numbers
unfoldable pub sum_u64 : List ℕ → ℕ
sum_u64 [] = 0
sum_u64 (n ∷ rest) = (n + sum_u64 rest) % 2 ^ 64

unfoldable pub progress : MultipartUploadPlan → UploadProgress
progress plan =
    let done = filter (λ part. part.uploaded) plan.parts in
    record {
      uploaded_bytes = sum_u64 (map (λ part. part.size) done);
      total_bytes = plan.file.file_size;
      uploaded_parts = length done;
      total_parts = length plan.parts;
    }

-- a part, by whether its number is among the uploaded ones
abbrev pub resumed : List ℕ → UploadPart → UploadPart
resumed uploaded_parts part = record part {
  uploaded = any (λ n. n == part.part_number) uploaded_parts;
}

unfoldable pub resume_plan : MultipartUploadPlan → List ℕ → MultipartUploadPlan
resume_plan plan uploaded_parts = record plan { parts = map (resumed uploaded_parts) plan.parts }

-- the first part with the number, if there is one
unfoldable pub mark_part : ℕ → List UploadPart → Result (Unit {0}) × List UploadPart
mark_part part_number [] = (err (args ("part_number not found: " ++ to_string part_number)), [])
mark_part part_number (part ∷ rest) =
    let (answer, others) = mark_part part_number rest in
    if part.part_number == part_number
    then (ok tt, record part { uploaded = true } ∷ rest)
    else (answer, part ∷ others)

unfoldable pub mark_uploaded : ℕ → Action MultipartUploadPlan (Unit {0})
mark_uploaded part_number plan =
    let (answer, parts) = mark_part part_number plan.parts in
    (answer, record plan { parts = parts })

-- the implementation of `FileUploadClient`, over the state that it keeps
abbrev pub FileUploadClient : Type 0 → Type 0
FileUploadClient C = FileDigest → UploadPart → Action C UploadedPart

abbrev pub part_number_mismatch : ℕ → ℕ → Result (List UploadedPart)
part_number_mismatch expected got = err (
    args (
      "uploaded part_number mismatch: expected "
      ++ to_string expected
      ++ ", got "
      ++ to_string got))

-- what an upload of the parts leaves: the answer, the parts, and the client
abbrev pub Uploading : Type 0 → Type 0
Uploading C = Result (List UploadedPart) × List UploadPart × C

-- a part that the loop has passed, before what it does with the others
abbrev pub passed_part : {C : Type 0} → UploadPart → Uploading C → Uploading C
passed_part part (answer, parts, client) = (answer, part ∷ parts, client)

-- a part that was uploaded now
abbrev pub sent_part : {C : Type 0} → UploadPart → UploadedPart → Uploading C → Uploading C
sent_part part uploaded (ok others, parts, client) =
    (ok (uploaded ∷ others), record part { uploaded = true } ∷ parts, client)
sent_part part uploaded (err e, parts, client) =
    (err e, record part { uploaded = true } ∷ parts, client)
sent_part part uploaded (panic, parts, client) =
    (panic, record part { uploaded = true } ∷ parts, client)

-- what follows the client's answer, by whether it names the part that was sent; `onward` is the
-- loop over the other parts
abbrev pub named_turn :
    {C : Type 0}
    → UploadPart
    → List UploadPart
    → (C → Uploading C)
    → UploadedPart
    → C
    → Bool
    → Uploading C
named_turn part rest onward uploaded client true = sent_part part uploaded (onward client)
named_turn part rest onward uploaded client false =
    (part_number_mismatch part.part_number uploaded.part_number, part ∷ rest, client)

-- what follows the client's call, by its answer
abbrev pub answered_turn :
    {C : Type 0}
    → UploadPart
    → List UploadPart
    → (C → Uploading C)
    → Result UploadedPart
    → C
    → Uploading C
answered_turn part rest onward (ok uploaded) client =
    named_turn part rest onward uploaded client (uploaded.part_number == part.part_number)
answered_turn part rest onward (err e) client = (err e, part ∷ rest, client)
answered_turn part rest onward panic client = (panic, part ∷ rest, client)

-- one turn of the loop, by whether the part is uploaded already
abbrev pub part_turn :
    {C : Type 0}
    → Action C UploadedPart
    → UploadPart
    → List UploadPart
    → (C → Uploading C)
    → C
    → Bool
    → Uploading C
part_turn upload part rest onward client true = passed_part part (onward client)
part_turn upload part rest onward client false =
    answered_turn part rest onward (upload client).0 (upload client).1

-- the loop over the parts; an error leaves the others as they are
unfoldable pub upload_each :
    {C : Type 0} → FileUploadClient C → FileDigest → List UploadPart → C → Uploading C
upload_each upload_part file [] client = (ok [], [], client)
upload_each upload_part file (part ∷ rest) client =
    part_turn (upload_part file part) part rest (upload_each upload_part file rest) client
      part.uploaded

-- what `upload_missing_parts` returns when the loop has ended
abbrev pub upload_outcome :
    {C : Type 0}
    → MultipartUploadPlan
    → Uploading C
    → Result UploadOutcome × (MultipartUploadPlan × C)
upload_outcome plan (ok uploaded, parts, client) = (
  ok (record { uploaded_parts = uploaded; progress = progress (record plan { parts = parts }) }),
  (record plan { parts = parts }, client),
)
upload_outcome plan (err e, parts, client) = (err e, (record plan { parts = parts }, client))
upload_outcome plan (panic, parts, client) = (panic, (record plan { parts = parts }, client))

unfoldable pub upload_missing_parts :
    {C : Type 0} → FileUploadClient C → Action (MultipartUploadPlan × C) UploadOutcome
upload_missing_parts upload_part (plan, client) =
    upload_outcome plan (upload_each upload_part plan.file plan.parts client)

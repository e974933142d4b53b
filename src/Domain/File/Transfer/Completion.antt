-- ===== src/Domain/File/Transfer/Completion.antt =====
-- That an upload of the missing parts completes a file.
use openim_sdk_core_rust.Base.{◌≡◌, true, not, List, filter}
use openim_sdk_core_rust.Errors.{ok}
use openim_sdk_core_rust.Domain.File.Types.{FileDigest}
use openim_sdk_core_rust.Domain.File.Plan.{UploadPart}
use openim_sdk_core_rust.Domain.File.Transfer.{UploadedPart, FileUploadClient}

abbrev pub marked : UploadPart → UploadPart
marked part = record part { uploaded = true }

-- a client that uploads every part, and says which one it was
abbrev pub IsFaithful : {C : Type 0} → FileUploadClient C → Type 0
IsFaithful {C} upload_part =
    (file : FileDigest) (part : UploadPart) (c : C)
    → (u : UploadedPart) × ((upload_part file part c).0 ≡ ok u) × (u.part_number ≡ part.part_number)

abbrev pub missing : List UploadPart → List UploadPart
missing = filter (λ part. not part.uploaded)

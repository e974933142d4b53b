-- ===== src/Domain/Message/Content.antt =====
-- crates/openim-domain/src/message.rs: what a message carries.
use openim_sdk_core_rust.Base.{ℕ, ◌^◌, String, ◌&&◌, if◌then◌else◌, ltb}
use openim_sdk_core_rust.Base.Int.{ℤ, pos, ltb_ℤ}
use openim_sdk_core_rust.Base.Text.{is_empty}
use openim_sdk_core_rust.Errors.{Result, ok, err, args, ensure_not_empty, ◌>>=◌, ◌>>◌}
use openim_sdk_core_rust.Types.{MessageContentType}
use openim_sdk_core_rust.Domain.Equality.{String_discrete, ℤ_discrete}
use openim_sdk_core_rust.Domain.File.Types.{FileDigest}

pub record PictureElem : Type 0 where
  pub source_url : String
  pub snapshot_url : String
  pub width : ℤ
  pub height : ℤ
  pub size : ℤ
  pub image_type : String

pub record FileElem : Type 0 where
  pub source_url : String
  pub file_name : String
  pub file_size : ℤ
  pub file_type : String

pub data MessageContent : Type 0 where
  text : String → MessageContent
  picture : PictureElem → MessageContent
  file : FileElem → MessageContent

pub PictureElem_discrete : Discrete PictureElem
PictureElem_discrete = hlevel (String_discrete, ℤ_discrete)

pub FileElem_discrete : Discrete FileElem
FileElem_discrete = hlevel (String_discrete, ℤ_discrete)

unfoldable pub MessageContent_discrete : Discrete MessageContent
MessageContent_discrete = hlevel (String_discrete, PictureElem_discrete, FileElem_discrete)

unfoldable pub content_type : MessageContent → MessageContentType
content_type (MessageContent.text _) = MessageContentType.text
content_type (MessageContent.picture _) = MessageContentType.picture
content_type (MessageContent.file _) = MessageContentType.file

unfoldable pub summary : MessageContent → String
summary (MessageContent.text content) = content
summary (MessageContent.picture p) = if is_empty p.source_url then p.snapshot_url else p.source_url
summary (MessageContent.file f) = f.file_name

unfoldable pub validate : MessageContent → Result (Unit {0})
validate (MessageContent.text content) = ensure_not_empty content "text_content"
validate (MessageContent.picture p) =
    if is_empty p.source_url && is_empty p.snapshot_url
    then err (args "picture url is empty")
    else ok tt
validate (MessageContent.file f) =
    ensure_not_empty f.file_name "file_name"
    >> (if ltb_ℤ f.file_size (pos 0) then err (args "file_size is negative") else ok tt)

-- `i64::try_from` of a `u64`
unfoldable pub file_size_i64 : ℕ → Result ℤ
file_size_i64 file_size =
    if ltb file_size (2 ^ 63) then ok (pos file_size) else err (args "file_size exceeds i64 range")

unfoldable pub picture_from_upload : FileDigest → String → String → ℤ → ℤ → Result MessageContent
picture_from_upload digest source_url snapshot_url width height = do
  ensure_not_empty source_url "source_url"
  size ← file_size_i64 digest.file_size
  let built = MessageContent.picture (record {
    source_url = source_url;
    snapshot_url = snapshot_url;
    width = width;
    height = height;
    size = size;
    image_type = digest.content_type;
  })
  validate built
  ok built

unfoldable pub file_from_upload : FileDigest → String → Result MessageContent
file_from_upload digest source_url = do
  ensure_not_empty source_url "source_url"
  file_size ← file_size_i64 digest.file_size
  let built = MessageContent.file (record {
    source_url = source_url;
    file_name = digest.file_name;
    file_size = file_size;
    file_type = digest.content_type;
  })
  validate built
  ok built

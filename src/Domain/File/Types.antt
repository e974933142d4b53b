-- ===== src/Domain/File/Types.antt =====
-- crates/openim-domain/src/file.rs: the data of an upload.
use openim_sdk_core_rust.Base.{ℕ, String}

-- `u64` size
pub record FileDigest : Type 0 where
  pub file_name : String
  pub file_size : ℕ
  pub content_type : String
  pub sha256 : String

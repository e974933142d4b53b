-- ===== src/Domain/File.antt =====
-- crates/openim-domain/src/file.rs: multipart uploads.
pub mod Types
pub mod Plan
pub mod Limit
pub mod Transfer
pub mod Requests
pub mod Signing

-- ===== src/Sync.antt =====
-- crates/openim-sync/src/lib.rs: how a local copy is brought to what the server has, by a diff of
-- two lists (`diff_by`) or by a versioned delta (`plan_version_sync`).
pub mod Diff
pub mod Version

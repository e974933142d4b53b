-- ===== src/Domain/Conversation.antt =====
-- crates/openim-domain/src/conversation.rs: the conversations of each owner.
pub mod Info
pub mod Service
pub mod Unread
pub mod Apply
pub mod Sync

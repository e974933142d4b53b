-- ===== src/Domain/Message.antt =====
-- crates/openim-domain/src/message.rs: chat messages, their routing and the message store.
pub mod Content
pub mod Chat
pub mod Service
pub mod Routing
pub mod Invariant
pub mod Paging
pub mod Range
pub mod Sending

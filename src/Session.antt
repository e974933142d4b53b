-- ===== src/Session.antt =====
-- crates/openim-session/src/lib.rs: the session that a client holds: its life cycle, its listeners
-- and tasks, the resources that a login opens, and the flow of messages through the services.
pub mod Config
pub mod Tasks
pub mod Resources
pub mod Events
pub mod State
pub mod Batch
pub mod Messages
pub mod Delivery
pub mod Lifecycle

-- ===== src/Transport.antt =====
-- crates/openim-transport-core/src/lib.rs: the reconnect policy, the table of pending requests and
-- the routing of envelopes, and the frames of a connection.
pub mod Reconnect
pub mod Pending
pub mod Wire
pub mod Frames

-- ===== src/Examples.antt =====
-- The theorems at concrete inputs.
mod Relation
mod Message
mod Conversation
mod Sync
mod Group
mod Transport
mod File
mod Session
mod Delivery
mod Storage

-- ===== src/Datastruct/Stream.antt =====
-- internal/datastruct/stream.go: an append-only log of entries with ordered ids, and consumer groups
-- that read it.
pub mod Ids
pub mod Entries
pub mod Ordered
pub mod Additions
pub mod Removals
pub mod Ranges
pub mod Groups
pub mod Pending
pub mod Writes
pub mod Deliveries
mod Tests

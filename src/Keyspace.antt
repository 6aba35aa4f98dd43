-- ===== src/Keyspace.antt =====
-- internal/engine/keyspace.go: the sharded store of keys.
pub mod Fnv
pub mod Entry
pub mod Lock
pub mod Ops
pub mod Values
pub mod Expiry
pub mod Sound
pub mod Valid
pub mod Handlers
pub mod View
pub mod Numbers
pub mod Times
pub mod Deadlines
pub mod Strings
pub mod Deletes
pub mod Flush
pub mod Reach
pub mod Tests

-- ===== src/Datastruct.antt =====
-- internal/datastruct: the values that a key of the keyspace can hold.
pub mod Set
pub mod Hash
pub mod Stream
pub mod Deque
mod Tests

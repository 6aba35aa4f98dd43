-- ===== src/Resp.antt =====
-- internal/resp: the wire format.
pub mod Values
pub mod Serialize
pub mod Writer
pub mod Reader
mod Tests

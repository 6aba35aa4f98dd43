-- ===== src/Reactor.antt =====
-- internal/reactor: the buffers and the command parser of the event loops.
pub mod Copy
pub mod RingBuffer
pub mod Parser
pub mod Tests

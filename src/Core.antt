-- ===== src/Core.antt =====
-- include/core: the ring buffer, the order of events and the backpressure policy.
pub mod RingBuffer
pub mod SlabPool
pub mod EventOrder
pub mod Backpressure
pub mod Tests

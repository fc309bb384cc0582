-- ===== src/Oms.antt =====
-- include/oms: the order management system.
pub mod OrderState
pub mod Reconciler
pub mod Session
pub mod RateLimiter
pub mod Scheduler
pub mod Pms
pub mod Recovery
pub mod Venue
pub mod Index
pub mod Oms
pub mod Report
pub mod Sequencer
pub mod Tests

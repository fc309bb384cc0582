-- ===== src/Feed.antt =====
-- include/feed: the sequence tracker and the heartbeat monitor.
pub mod SequenceTracker
pub mod HeartbeatMonitor
pub mod ClockOffset
pub mod Tests

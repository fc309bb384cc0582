-- ===== src/Exec.antt =====
-- include/exec: the execution domain's data types and the rules on order states.
pub mod Types
pub mod Account
pub mod Philox
pub mod Journal
pub mod Models
pub mod Broker
mod Tests

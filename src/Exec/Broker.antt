-- ===== src/Exec/Broker.antt =====
-- include/exec/paper_broker.hpp: the paper execution simulator.
pub mod State
pub mod Positions
pub mod Fills
pub mod Entry
pub mod Refused
pub mod Final
mod Tests
pub mod Unrecoverable

-- ===== src/Risk.antt =====
-- include/risk: limits, the verifier of requests, and the exposure ledger.
pub mod Limits
pub mod Margin
pub mod Engine
pub mod Ledger
pub mod Tests

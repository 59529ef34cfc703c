-- ===== src/Tests.antt =====
-- Concrete runs: a gateway with three operators, and one use of each theorem at it.
pub mod Fixtures
pub mod Codec
pub mod Desk
pub mod Airlock
pub mod Envelopes
pub mod Gateway
pub mod Quorum
pub mod Control
pub mod Exits

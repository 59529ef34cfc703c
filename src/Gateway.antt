-- ===== src/Gateway.antt =====
-- crates/q-gateway/src: the operator sets, the gateway's state and its operations.
pub mod Errors
pub mod Operators
pub mod Messages
pub mod State
pub mod Call
pub mod Settings
pub mod Reserve
pub mod Corridor
pub mod Pause
pub mod Freeze
pub mod Exits
pub mod Deposit
pub mod Steps
pub mod Closed

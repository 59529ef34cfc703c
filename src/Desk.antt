-- ===== src/Desk.antt =====
-- crates/q-exits: the desk that pays exits out. A burn on Quantova opens an exit against a vault's
-- collateral; a proved payout settles it, and an overdue exit is slashed.
pub mod Errors
pub mod Vaults
pub mod Ledger
pub mod Journal
pub mod Statement
pub mod Attestation
pub mod Qtv
pub mod Anchor
pub mod BurnProof
pub mod Outbound
pub mod State
pub mod Checks
pub mod Open
pub mod Settle
pub mod Reconstruct
pub mod Steps
pub mod Sums
pub mod Moves

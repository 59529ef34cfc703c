-- ===== src/Airlock.antt =====
-- crates/q-airlock/src/lib.rs: the two kinds of artifact that may cross the boundary, and their parser.
pub mod Envelope
pub mod Parse
pub mod Encode

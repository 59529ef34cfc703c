-- ===== src/Codec.antt =====
-- crates/q-codec/src/lib.rs: the byte writer and reader, and the bridge fact with its canonical encoding.
pub mod Bytes
pub mod Errors
pub mod Writer
pub mod Reader
pub mod Parser
pub mod Fact

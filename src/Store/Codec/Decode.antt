-- ===== src/Store/Codec/Decode.antt =====
-- crates/och-store/src/codec.rs: reading the evidence of an admission.
pub mod Values
pub mod Declarations
pub mod Observations
pub mod Sources
pub mod Payload

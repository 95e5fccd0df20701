-- ===== src/Store/Codec/Encode.antt =====
-- crates/och-store/src/codec.rs: writing a canonical admission.
pub mod Values
pub mod Declarations
pub mod Observations
pub mod Sources
pub mod Payload

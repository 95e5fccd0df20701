-- ===== src/Store/Codec.antt =====
-- crates/och-store/src/codec.rs: the canonical payload of a Journal V1 admission frame.
pub mod Encoder
pub mod Cursor
pub mod Encode
pub mod Decode
pub mod RoundTrip
pub mod Agreement

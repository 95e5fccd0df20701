-- ===== src/Store/Codec/RoundTrip.antt =====
-- Decoding gives back what was encoded.
pub mod Combinators
pub mod Primitives
pub mod Values
pub mod Declarations
pub mod Observations
pub mod Sources
pub mod Payload

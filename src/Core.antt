-- ===== src/Core.antt =====
-- crates/och-core: the canonical model.
pub mod Error
pub mod Timestamp
pub mod TimeInterval
pub mod Bounded
pub mod Position
pub mod Decimal
pub mod Value
pub mod Identity
pub mod Quality
pub mod Source
pub mod Observation
pub mod Gap
pub mod Collection
pub mod Declaration
pub mod Series
pub mod Retry
pub mod Admission
mod Tests

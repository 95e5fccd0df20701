-- ===== src/Store.antt =====
-- crates/och-store: the append-only journal and what is read back from it.
pub mod Error
pub mod Words
pub mod Utf8
pub mod Codec
pub mod Checksum
pub mod Validate
pub mod Frame
pub mod Journal
pub mod Checkpoint
pub mod Active
pub mod Tests

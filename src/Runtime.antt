-- ===== src/Runtime.antt =====
-- crates/och-runtime: bounded ingress and volatile publication.
pub mod Latest
pub mod Queue
pub mod Ingress
pub mod Commit
pub mod Receipt
pub mod Reservation
mod Tests

-- ===== src/Limits.antt =====
-- crates/attesta-api/src/limits.rs: token buckets per client address, and the slots of the streams.
pub mod Buckets
pub mod Slots
mod Tests

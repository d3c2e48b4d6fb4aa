-- ===== src/Hrana.antt =====
-- httpapi/hrana.go: what a stream request of the Hrana protocol does on its session.
mod Tests
pub mod Condition
pub mod Batch
pub mod Stream

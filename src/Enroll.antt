-- ===== src/Enroll.antt =====
-- enroll/enroll.go: who may register a key, what a registration writes, and how it is undone.
mod Tests
pub mod Service
pub mod Admission
pub mod Gates
pub mod Refusal
pub mod Rollback
pub mod Loading
pub mod Sync

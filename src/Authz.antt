-- ===== src/Authz.antt =====
-- authz/authz.go and authz/assurance.go: who may do what to a database, and what a session must
-- have proved before it may change an account.
mod Tests
pub mod Level
pub mod Policy
pub mod Assurance

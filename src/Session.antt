-- ===== src/Session.antt =====
-- session/session.go: interactive streams. A session pins one connection and is addressed by a
-- signed baton that each request uses up.
mod Tests
pub mod Baton
pub mod Store

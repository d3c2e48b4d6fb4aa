-- ===== src/Engine.antt =====
-- engine: how a statement is looked at before it is run.
mod Tests
pub mod Classify
pub mod Queries

-- ===== src/Wire.antt =====
-- internal/wire: the vocabulary that server and client share.
pub mod Codes
mod Tests

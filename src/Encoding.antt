-- ===== src/Encoding.antt =====
-- The parts of Go's encoding packages that the program's tokens go through.
pub mod BigEndian
pub mod Base64
pub mod Hex
pub mod Strings

-- ===== src/Auth.antt =====
-- auth/: who a request comes from. Session tokens and challenges, the compiled credentials, and the
-- methods that a listener tries.
mod Tests
pub mod Token
pub mod Minter
pub mod Challenge
pub mod Directory
pub mod Requests
pub mod Sessions

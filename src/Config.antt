-- ===== src/Config.antt =====
-- config/load.go: what a configuration has to satisfy before the server starts with it. Texts are
-- bytes. An error is a constructor for each return of the source, and `none` is nil.
pub mod Names
pub mod Auth
pub mod Sound
pub mod Wiring
pub mod Binding
mod Tests

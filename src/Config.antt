-- ===== src/Config.antt =====
-- config.go: from a configuration file to a `Configuration`.
pub mod Types
pub mod Values
pub mod Interface
pub mod Peers
pub mod Routines
pub mod File
pub mod Sample
mod Tests

-- ===== src/Awg.antt =====
-- awg_config.go: the AmneziaWG options of a configuration.
pub mod Config
pub mod Header
pub mod Validate
pub mod Parse
mod Tests

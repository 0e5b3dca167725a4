-- ===== src/Config.antt =====
-- internal/config: the configuration, its rules and its store.
pub mod Entrypoints
pub mod Settings
pub mod Doorbell
pub mod Validation
pub mod Store
pub mod Defaults
mod Examples

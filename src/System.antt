-- ===== src/System.antt =====
-- internal/system: versions, release manifests and the updater.
pub mod Versions
pub mod Releases
pub mod Archive
pub mod Updater

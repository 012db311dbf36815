-- ===== src/Update.antt =====
-- windows/flowtype-app/src/update.rs: versions, manifests and the check for an update.
pub mod Versions
pub mod Checks
pub mod Rollback

-- ===== src/Snapshots.antt =====
-- windows/flowtype-core/src/diff.rs and session.rs: two snapshots of a text compared.
pub mod Transitions
pub mod Applied

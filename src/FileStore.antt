-- ===== src/FileStore.antt =====
-- windows/flowtype-app/src/file_transfer_store.rs: the records of a file transfer on disk.
pub mod Progress
pub mod Fields
pub mod Batches
pub mod Manifests
pub mod Lines
pub mod ReadBack
pub mod RoundTrip
pub mod Walk
pub mod Targets
pub mod Distinct
pub mod Mapped
pub mod Preparing
pub mod Prepared
pub mod Visits
pub mod Terminal
pub mod ProgressFile
pub mod Latest
pub mod LastWrite
pub mod Records
pub mod Listing

-- ===== src/Tests.antt =====
-- The theorems at concrete inputs.
pub mod Fixtures
pub mod Sessions
pub mod Connections
pub mod Wire
pub mod Names
pub mod Uploads
pub mod Jobs
pub mod Updates
pub mod Disconnects
pub mod Coordinators
pub mod TextService
pub mod Reservations
pub mod Manifests
pub mod Walks

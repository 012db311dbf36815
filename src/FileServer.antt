-- ===== src/FileServer.antt =====
-- windows/flowtype-app/src/file_transfer_server.rs: the HTTP server of the file transfers.
pub mod Ranges
pub mod Coordinator
pub mod Steps
pub mod Offers
pub mod Access
pub mod Changes
pub mod Effects
pub mod Calls
pub mod Isolation
pub mod Exclusive
pub mod Tickets
pub mod Opening
pub mod Uploads
pub mod Commits
pub mod Durable
pub mod Sound
pub mod Verified
pub mod Crashes
pub mod Completed
pub mod Faithful
pub mod Assembled
pub mod Recovered
pub mod Resumed
pub mod Reopened
pub mod Operations
pub mod Leases
pub mod Sharing
pub mod Disjoint
pub mod Alone
pub mod Shared
pub mod Ingest
pub mod Ingested
pub mod Framing
pub mod Sent
use flow_type.Prelude.{Text}

-- `Result` with a code for an error.
pub data Answer {ℓ} (A : Type ℓ) : Type ℓ where
  answered : A → Answer A
  failed : Text → Answer A

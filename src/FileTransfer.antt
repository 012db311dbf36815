-- ===== src/FileTransfer.antt =====
-- windows/flowtype-core/src/file_transfer.rs: the file transfer protocol, its limits and its errors.
pub mod States
pub mod Segments
pub mod Paths
pub mod RelativePaths
pub mod Names
pub mod Reserved
pub mod Reservations
pub mod Numbers
pub mod Collisions
pub mod Messages
pub mod Wire
pub mod Tokens
pub mod Tickets
pub mod Entries
use flow_type.Prelude.{ℕ, ◌-◌, ◌^◌}

abbrev pub file_transfer_version : ℕ
file_transfer_version = 2

abbrev pub max_phone_id_bytes : ℕ
max_phone_id_bytes = 128

abbrev pub max_batch_id_bytes : ℕ
max_batch_id_bytes = 64

abbrev pub max_entry_id_bytes : ℕ
max_entry_id_bytes = 64

abbrev pub max_relative_path_bytes : ℕ
max_relative_path_bytes = 4096

abbrev pub max_root_summaries : ℕ
max_root_summaries = 8

abbrev pub max_root_summary_bytes : ℕ
max_root_summary_bytes = 255

abbrev pub max_manifest_line_bytes : ℕ
max_manifest_line_bytes = 16384

abbrev pub min_ticket_bytes : ℕ
min_ticket_bytes = 32

abbrev pub max_ticket_text_bytes : ℕ
max_ticket_text_bytes = 128

abbrev pub max_wire_integer : ℕ
max_wire_integer = 2 ^ 63 - 1

pub data ValidationError : Type 0 where
  unsupported_protocol invalid_identifier invalid_summary invalid_ticket : ValidationError
  invalid_path invalid_entry invalid_hash manifest_line_too_large : ValidationError

pub data Validated {ℓ} (A : Type ℓ) : Type ℓ where
  ok : A → Validated A
  err : ValidationError → Validated A

-- ===== src/FileStore/Progress.antt =====
-- windows/flowtype-app/src/file_transfer_store.rs: the 16 bytes of a progress record.
use flow_type.Prelude.{
  ℕ, zero, suc, ◌+◌, ◌*◌, ◌/◌, ◌%◌, not, ◌||◌, Option, none, some, List, [], ◌∷◌, ◌==◌, any, all,
  take, drop, if◌then◌else◌,
}
use flow_type.FileTransfer.{Validated, ok, err}
use flow_type.FileTransfer.States.{EntryState, entry_byte, entry_state_from}

pub record EntryProgress : Type 0 where
  pub state : EntryState
  pub committed_offset : ℕ

abbrev pub progress_record_bytes : ℕ
progress_record_bytes = 16

abbrev pub progress_record_version : ℕ
progress_record_version = 1

-- `to_le_bytes`, of a number of `n` bytes.
unfoldable pub to_le_bytes : ℕ → ℕ → List ℕ
to_le_bytes zero value = []
to_le_bytes (suc n) value = value % 256 ∷ to_le_bytes n (value / 256)

unfoldable pub from_le_bytes : List ℕ → ℕ
from_le_bytes [] = 0
from_le_bytes (b ∷ bs) = b + 256 * from_le_bytes bs

unfoldable pub encode_progress : EntryProgress → List ℕ
unfolding to_le_bytes
encode_progress p =
    progress_record_version
    ∷ entry_byte p.state
    ∷ 0
    ∷ 0
    ∷ 0
    ∷ 0
    ∷ 0
    ∷ 0
    ∷ to_le_bytes 8 p.committed_offset

-- `none` is an `io::Error`.
abbrev pub with_state : Validated EntryState → ℕ → Option EntryProgress
with_state (ok state) offset = some (record { state = state; committed_offset = offset })
with_state (err e) offset = none

-- `record[0]` and `record[1]`
abbrev pub byte_at : ℕ → List ℕ → ℕ
byte_at n [] = 0
byte_at zero (b ∷ bs) = b
byte_at (suc n) (b ∷ bs) = byte_at n bs

unfoldable pub decode_progress : List ℕ → Option EntryProgress
unfolding from_le_bytes entry_state_from
decode_progress record_bytes =
    if all (λ b. b == 0) record_bytes
    then some (record { state = EntryState.pending; committed_offset = 0 })
    else if not (byte_at 0 record_bytes == progress_record_version)
        || any (λ b. not (b == 0)) (take 6 (drop 2 record_bytes))
    then none
    else with_state (entry_state_from (byte_at 1 record_bytes))
        (from_le_bytes (drop 8 record_bytes))

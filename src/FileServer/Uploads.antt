-- ===== src/FileServer/Uploads.antt =====
-- windows/flowtype-app/src/file_transfer_server.rs: how the file of one entry is received, resumed and
-- committed. A Slot is what is kept for the entry: its `.part` file and its target file, how much of each
-- is on the disk for good, and its record of progress. `digest` is SHA-256 in hexadecimal.

use flow_type.Prelude.{
  Text, codes, ℕ, ◌+◌, ◌-◌, ◌*◌, Bool, true, false, not, ◌&&◌, ◌||◌, Option, none, some, List, [],
  ◌∷◌, ◌++◌, ◌==◌, ltb, leb, min, is_some_and, length, take, text_eq, map, if◌then◌else◌,
}
use flow_type.FileTransfer.States.{EntryState, same_entry_state}
use flow_type.FileTransfer.Messages.{ManifestEntry}
use flow_type.FileStore.Progress.{EntryProgress}
use flow_type.FileServer.{Answer, answered, failed}
use flow_type.FileServer.Ranges.{max_u64}

pub record Slot : Type 0 where
  pub part : Option (List ℕ)
  pub synced : ℕ
  pub target : Option (List ℕ)
  pub target_synced : ℕ
  pub progress : EntryProgress

-- What one call of `frame()` gives.
pub data Arrival : Type 0 where
  timed_out broken no_bytes : Arrival
  bytes_of : List ℕ → Arrival

-- A frame of the body, with what else happens while it is taken in: whether the ticket is active, how
-- many bytes `write_all` writes where it fails, whether there is room then, whether a second has passed
-- since the last record, and whether `sync_data` and `write_progress` work.
pub record Frame : Type 0 where
  pub arrival : Arrival
  pub active : Bool
  pub written : Option ℕ
  pub has_room : Bool
  pub second_passed : Bool
  pub syncs : Bool
  pub stores : Bool

-- What the file system and the store answer in the other places of `receive_file`.
pub record Io : Type 0 where
  pub reads_progress : Bool
  pub knows_target : Bool
  pub hashes_target : Bool
  pub makes_parent : Bool
  pub is_symlink : Bool
  pub opens : Bool
  pub truncates : Bool
  pub active : Bool
  pub rehashes : Bool
  pub seeks : Bool
  pub stores_start : Bool
  pub syncs_end : Bool
  pub stores_end : Bool

pub record ReceiveResult : Type 0 where
  pub committed_offset : ℕ
  pub completed : Bool
  pub sha256 : Option Text

abbrev pub ascii_lower : ℕ → ℕ
ascii_lower c = if leb b'A' c && leb c b'Z' then c + 32 else c

unfoldable pub eq_ignore_ascii_case : Text → Text → Bool
unfolding text_eq
eq_ignore_ascii_case s t = text_eq (map ascii_lower s) (map ascii_lower t)

-- `e.sha256`, where there is one, is another hash.
unfoldable pub is_refused : ManifestEntry → Text → Bool
unfolding eq_ignore_ascii_case
is_refused e hash = is_some_and e.sha256 (λ expected. not (eq_ignore_ascii_case expected hash))

abbrev pub contents : Option (List ℕ) → List ℕ
contents none = []
contents (some bs) = bs

abbrev pub staged : Slot → List ℕ
staged s = contents s.part

abbrev pub with_progress : Slot → EntryState → ℕ → Slot
with_progress s state offset = record s {
  progress = record { state = state; committed_offset = offset };
}

abbrev pub persist_bytes : ℕ
persist_bytes = 16 * 1024 * 1024

abbrev pub is_done : Slot → Bool
is_done s = same_entry_state s.progress.state EntryState.completed

abbrev pub Received : Type 0
Received = Answer ReceiveResult × Slot

-- The bytes that are appended, and those that are lost to a failing `write_all`.
abbrev pub appended : Slot → List ℕ → Slot
appended s bs = record s { part = some (staged s ++ bs) }

abbrev pub all_synced : Slot → Slot
all_synced s = record s { synced = length (staged s) }

abbrev pub is_due : Frame → ℕ → ℕ → Bool
is_due f received persisted = leb persist_bytes (received - persisted) || f.second_passed

-- The record of progress is written behind the bytes that it counts. Where that fails, it is left as it was.
abbrev pub persisted_at : (ℕ → Slot → Received) → Frame → ℕ → ℕ → Slot → Received
persisted_at go f received persisted s =
    if not (is_due f received persisted)
    then go persisted s
    else if not f.syncs
    then (failed (codes "write_failed"), s)
    else if not f.stores
    then (failed (codes "progress_unavailable"), all_synced s)
    else go received (with_progress (all_synced s) EntryState.transferring received)

abbrev pub written_out : (ℕ → Slot → Received) → Frame → List ℕ → ℕ → ℕ → Slot → Received
written_out go f bs received persisted s = elim f.written [
  | some n ↦ (
    failed (codes (if f.has_room then "write_failed" else "insufficient_space")),
    appended s (take n bs),
  )
  | none ↦ persisted_at go f received persisted (appended s bs)
]

abbrev pub cut : ℕ → Slot → Slot
cut offset s = record s { part = some (take offset (staged s)); synced = min s.synced offset }

module _ (digest : List ℕ → Text) (e : ManifestEntry) where
  -- After the body. What was hashed is the whole `.part` file.
  unfoldable pub end_of_body : Bool → Io → ℕ → Slot → Received
  unfolding eq_ignore_ascii_case is_refused
  end_of_body deferred io received s =
      if not io.syncs_end
      then (failed (codes "write_failed"), s)
      else if not (received == e.size)
      then (if io.stores_end
          then (
            answered (record { committed_offset = received; completed = false; sha256 = none }),
            with_progress (all_synced s) EntryState.waiting_network received,
          )
          else (failed (codes "progress_unavailable"), all_synced s))
      else if not deferred && is_refused e (digest (staged s))
      then (failed (codes "integrity_failed"), all_synced s)
      else if not io.stores_end
      then (failed (codes "progress_unavailable"), all_synced s)
      else (
        answered (record {
          committed_offset = received;
          completed = false;
          sha256 = if deferred then none else some (digest (staged s));
        }),
        with_progress (all_synced s) EntryState.transferring received,
      )

  abbrev pub taken_in : (ℕ → ℕ → Slot → Received) → Frame → Arrival → ℕ → ℕ → Slot → Received
  taken_in go f timed_out received persisted s = (failed (codes "body_idle_timeout"), s)
  taken_in go f broken received persisted s =
      (failed (codes (if f.active then "body_read_failed" else "transfer_canceled")), s)
  taken_in go f no_bytes received persisted s =
      if f.active then go received persisted s else (failed (codes "transfer_canceled"), s)
  taken_in go f (bytes_of bs) received persisted s =
      if not f.active
      then (failed (codes "transfer_canceled"), s)
      else if ltb max_u64 (received + length bs) || ltb e.size (received + length bs)
      then (failed (codes "size_mismatch"), s)
      else written_out (go (received + length bs)) f bs (received + length bs) persisted s

  -- The loop over the body.
  unfoldable pub receive_body : Bool → Io → List Frame → ℕ → ℕ → Slot → Received
  unfolding end_of_body
  receive_body deferred io [] received persisted s = end_of_body deferred io received s
  receive_body deferred io (f ∷ fs) received persisted s =
      taken_in (receive_body deferred io fs) f f.arrival received persisted s

  -- The `.part` file is opened, or made, and cut to the offset.
  unfoldable pub receive_at : Bool → Io → List Frame → ℕ → Slot → Received
  unfolding receive_body
  receive_at deferred io fs offset s =
      if ltb (length (staged s)) offset
      then (failed (codes "offset_mismatch"), s)
      else if ltb offset (length (staged s)) && not io.truncates
      then (failed (codes "target_unavailable"), s)
      else if ltb 0 offset && not deferred && not io.active
      then (failed (codes "transfer_canceled"), cut offset s)
      else if ltb 0 offset && not deferred && not io.rehashes
      then (failed (codes "target_unavailable"), cut offset s)
      else if not io.seeks
      then (failed (codes "target_unavailable"), cut offset s)
      else if not io.stores_start
      then (failed (codes "progress_unavailable"), cut offset s)
      else receive_body deferred io fs offset offset
          (with_progress (cut offset s) EntryState.transferring offset)

  abbrev pub received_already : Bool → Io → Slot → Option (List ℕ) → Received
  received_already true io s t =
      (answered (record { committed_offset = e.size; completed = true; sha256 = none }), s)
  received_already false io s none = (failed (codes "target_unavailable"), s)
  received_already false io s (some bs) =
      if io.hashes_target
      then (
        answered
            (record { committed_offset = e.size; completed = true; sha256 = some (digest bs) }),
        s,
      )
      else (failed (codes "target_unavailable"), s)

  unfoldable pub receive_file : Bool → Io → List Frame → ℕ → Slot → Received
  unfolding receive_at
  receive_file deferred io fs offset s =
      if ltb e.size offset
      then (failed (codes "invalid_offset"), s)
      else if not io.reads_progress
      then (failed (codes "progress_unavailable"), s)
      else if not (offset == s.progress.committed_offset)
      then (failed (codes "offset_mismatch"), s)
      else if not io.knows_target
      then (failed (codes "target_unavailable"), s)
      else if is_done s
      then received_already deferred io s s.target
      else if not io.makes_parent || io.is_symlink || not io.opens
      then (failed (codes "target_unavailable"), s)
      else receive_at deferred io fs offset (record s { part = some (staged s) })

-- ===== src/FileStore/ProgressFile.antt =====
-- windows/flowtype-app/src/file_transfer_store.rs: the progress records in their file. A write behind
-- the end of a file leaves zeros between.
use flow_type.Prelude.{
  ℕ, zero, suc, ◌*◌, ◌||◌, Option, none, some, List, [], ◌∷◌, ◌++◌, ◌==◌, ltb, leb, length, take,
  drop, replicate, is_empty, if◌then◌else◌,
}
use flow_type.FileStore.Progress.{
  EntryProgress, encode_progress, decode_progress, progress_record_bytes,
}
use flow_type.FileStore.Manifests.{Manifest, read_manifest_complete}
use flow_type.FileServer.Ranges.{max_u64}

-- `seek` and `write_all`
unfoldable pub overwrite : ℕ → List ℕ → List ℕ → List ℕ
overwrite zero bytes file = bytes ++ drop (length bytes) file
overwrite (suc n) bytes [] = 0 ∷ overwrite n bytes []
overwrite (suc n) bytes (b ∷ file) = b ∷ overwrite n bytes file

unfoldable pub write_progress : Manifest → ℕ → EntryProgress → Option Manifest
unfolding read_manifest_complete overwrite encode_progress
write_progress m ordinal p = elim (read_manifest_complete m) [
  | none ↦ none
  | some completed ↦
      if leb completed.entry_count ordinal || ltb max_u64 (ordinal * progress_record_bytes)
      then none
      else some (record m {
        progress = overwrite (progress_record_bytes * ordinal) (encode_progress p) m.progress;
      })
]

-- The record that is read, over 16 zeros: nothing, or all of it.
unfoldable pub read_record : List ℕ → Option EntryProgress
unfolding decode_progress
read_record filled =
    if is_empty filled
    then decode_progress (replicate 16 0)
    else if length filled == progress_record_bytes
    then decode_progress filled
    else none

unfoldable pub read_progress : Manifest → ℕ → Option EntryProgress
unfolding read_manifest_complete read_record
read_progress m ordinal = elim (read_manifest_complete m) [
  | none ↦ none
  | some completed ↦
      if leb completed.entry_count ordinal || ltb max_u64 (ordinal * progress_record_bytes)
      then none
      else read_record (take 16 (drop (progress_record_bytes * ordinal) m.progress))
]

abbrev pub write_rest : (Manifest → Option Manifest) → Option Manifest → Option Manifest
write_rest rest none = none
write_rest rest (some m) = rest m

-- Several writes, one after the other.
unfoldable pub write_all : List (ℕ × EntryProgress) → Manifest → Option Manifest
unfolding write_progress
write_all [] m = some m
write_all ((ordinal, p) ∷ writes) m = write_rest (write_all writes) (write_progress m ordinal p)

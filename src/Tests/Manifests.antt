-- ===== src/Tests/Manifests.antt =====
-- The theorems about manifests, at a batch of one directory.
use flow_type.Prelude.{
  Text, codes, ℕ, ◌≤◌, ◌≡◌, refl, arith, true, false, not, ◌&&◌, Option, none, some, List, [], ◌∷◌,
  ◌==◌, ◌++◌, length, replicate, text_eq, text_eq_iff, utf8, utf16_len, is_some, any, if◌then◌else◌,
}
use flow_type.FileTransfer.Messages.{
  ManifestEntry, EntryKind, TransferDirection, is_file, validate_entry, valid_identifier,
  valid_sha256,
}
use flow_type.FileTransfer.Paths.{count_segments, validate_relative_path}
use flow_type.FileTransfer.Segments.{split}
use flow_type.FileTransfer.States.{BatchState, EntryState}
use flow_type.FileStore.Batches.{BatchRecord}
use flow_type.FileStore.Progress.{EntryProgress, to_le_bytes, encode_progress}
use flow_type.FileStore.ProgressFile.{overwrite, write_progress, read_progress, write_all}
use flow_type.FileStore.LastWrite.{read_progress-write_all}
use flow_type.FileStore.Lines.{nth}
use flow_type.FileStore.Manifests.{
  ManifestWriter, Manifest, begin_manifest, counted, with_line, read_manifest_complete, append,
  append_all, finish, manifest_entry, newline,
}
use flow_type.FileStore.RoundTrip.{files_in, directories_in, bytes_in, manifest_entry-finish}

abbrev pub folder : ManifestEntry
folder = record {
  ordinal = 0;
  entry_id = codes "e";
  relative_path = codes "f";
  kind = EntryKind.directory;
  size = 0;
  modified_at_epoch_millis = none;
  mime_type = none;
  sha256 = none;
}

-- A codec of this one entry.
unfoldable pub one_codec : ManifestEntry → Option (List ℕ)
one_codec e =
    if e.ordinal == 0
      && text_eq e.entry_id (codes "e")
      && text_eq e.relative_path (codes "f")
      && not (is_file e.kind)
      && e.size == 0
      && not (is_some e.modified_at_epoch_millis)
      && not (is_some e.mime_type)
      && not (is_some e.sha256)
    then some (codes "{}")
    else none

pub one_back : (e : ManifestEntry) (l : List ℕ) → one_codec e ≡ some l → some folder ≡ some e
unfolding one_codec
one_back e l h =
    ground (arith, h, text_eq_iff e.entry_id (codes "e"), text_eq_iff e.relative_path (codes "f"))

pub one_plain :
    (e : ManifestEntry) (l : List ℕ) → one_codec e ≡ some l → any (λ c. c == newline) l ≡ false
unfolding one_codec
one_plain e l h = ground (arith, h)

abbrev pub zero_hash : List ℕ → Text
zero_hash bs = replicate 64 b'0'

pub hash_valid : (bs : List ℕ) → valid_sha256 (zero_hash bs) ≡ true
unfolding valid_sha256 utf8
hash_valid bs = refl

abbrev pub one_folder : BatchRecord
one_folder = record {
  store_version = 1;
  batch_id = codes "b";
  phone_id = codes "p";
  direction = TransferDirection.phone_to_computer;
  state = BatchState.queued;
  created_at_epoch_seconds = 1;
  updated_at_epoch_seconds = 1;
  file_count = 0;
  directory_count = 1;
  total_bytes = 0;
  target_root = none;
}

abbrev pub first_writer : ManifestWriter
first_writer = record {
  file = [];
  index = [];
  next_ordinal = 0;
  expected_entry_count = 1;
  expected_files = 0;
  expected_directories = 1;
  expected_bytes = 0;
  files = 0;
  directories = 0;
  bytes = 0;
  entry_ids = [];
  next_offset = 0;
}

abbrev pub last_writer : ManifestWriter
last_writer = record first_writer {
  file = codes "{}" ++ newline ∷ [];
  index = replicate 8 0;
  next_ordinal = 1;
  directories = 1;
  entry_ids = codes "e" ∷ [];
  next_offset = 3;
}

abbrev pub committed : Manifest
committed = record {
  file = codes "{}" ++ newline ∷ [];
  index = replicate 8 0;
  completed = record { store_version = 1; entry_count = 1; sha256 = replicate 64 b'0' };
  progress = [];
}

manifest_entry-finish_example :
    (files_in (folder ∷ []) ≡ 0)
    × (directories_in (folder ∷ []) ≡ 1)
    × (bytes_in (folder ∷ []) ≡ 0)
    × ((i : ℕ) (e : ManifestEntry)
        → nth i (folder ∷ []) ≡ some e
        → manifest_entry one_codec (λ l. some folder) committed i ≡ some e)
    × ((i : ℕ)
        → length (folder ∷ []) ≤ i
        → manifest_entry one_codec (λ l. some folder) committed i ≡ none)
unfolding begin_manifest append_all append counted with_line finish one_codec validate_entry
    validate_relative_path valid_identifier text_eq utf8 to_le_bytes count_segments split utf16_len
manifest_entry-finish_example =
    manifest_entry-finish one_codec (λ l. some folder) zero_hash one_folder (folder ∷ [])
      first_writer last_writer committed one_back one_plain hash_valid refl refl refl

abbrev half_way : EntryProgress
half_way = record { state = EntryState.transferring; committed_offset = 5 }

abbrev at_end : EntryProgress
at_end = record { state = EntryState.completed; committed_offset = 0 }

abbrev recorded : Manifest
recorded = record committed { progress = 1 ∷ 4 ∷ replicate 14 0 }

read_progress-write_all_example : read_progress recorded 0 ≡ some at_end
unfolding finish write_all write_progress read_manifest_complete valid_sha256 utf8 overwrite
    encode_progress to_le_bytes
read_progress-write_all_example =
    read_progress-write_all zero_hash last_writer committed recorded
      ((0, half_way) ∷ (0, at_end) ∷ []) 0 hash_valid refl (omega arith, (omega arith, tt)) refl
      (omega arith)

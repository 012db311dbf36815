-- ===== src/Tests/Walks.antt =====
-- The theorems about the ingestion of a manifest and the walk over it, at a batch of one directory.
use flow_type.Prelude.{
  codes, ℕ, ◌≤◌, ◌≡◌, ◌↔◌, refl, arith, Bool, true, false, none, some, List, [], ◌∷◌, ◌++◌, length,
  replicate, text_eq, utf8, utf16_len, get,
}
use flow_type.FileTransfer.Messages.{ManifestEntry, validate_entry, valid_identifier, valid_sha256}
use flow_type.FileTransfer.Paths.{count_segments, validate_relative_path}
use flow_type.FileTransfer.Segments.{split}
use flow_type.FileStore.Progress.{decode_progress, from_le_bytes, to_le_bytes}
use flow_type.FileStore.ProgressFile.{read_record, read_progress}
use flow_type.FileStore.Lines.{nth, framed}
use flow_type.FileStore.Manifests.{
  Manifest, read_line, pop_newline, begin_manifest, counted, with_line, read_manifest_complete,
  append, append_all, finish, manifest_entry, newline,
}
use flow_type.FileStore.Walk.{
  for_each_manifest_entry, walk, matching, visit_terminal, all_entries_terminal,
}
use flow_type.FileStore.Terminal.{AllEnded, AllWhole, AnyLost, all_entries_terminal-AllEnded}
use flow_type.FileStore.Targets.{
  Targets, prepared_targets, map_target, target_in, parent_and_name, rsplit_once, reserved_in,
  same_path,
}
use flow_type.FileStore.Mapped.{IsMapped}
use flow_type.FileStore.Prepared.{prepared_targets-IsMapped}
use flow_type.FileTransfer.Reservations.{
  reserve, find_number, append_collision_suffix, is_used, numbered, decimal, name_parts,
  split_extension,
}
use flow_type.FileTransfer.Names.{
  sanitize_windows_segment, truncate_utf16, trim_end_by, before_dot, is_windows_reserved_name,
}
use flow_type.FileServer.{answered}
use flow_type.FileServer.Uploads.{bytes_of, no_bytes}
use flow_type.FileServer.Ingest.{BodyFrame, carriage_return, position, ingest_body, ingest_manifest}
use flow_type.FileServer.Framing.{TakenWhole, ingest_body-whole}
use flow_type.FileServer.Sent.{ingest_manifest-entries}
use flow_type.Tests.Manifests.{
  folder, zero_hash, one_folder, first_writer, last_writer, committed, one_codec, one_back,
  one_plain, hash_valid,
}

-- The folder's line in three frames, with a carriage return at its end.
abbrev in_frames : List BodyFrame
in_frames =
    record { arrival = bytes_of (codes "{"); active = true }
    ∷ record { arrival = no_bytes; active = true }
    ∷ record { arrival = bytes_of (codes "}" ++ carriage_return ∷ newline ∷ []); active = true }
    ∷ []

ingest_body-whole_example :
    (ingest_body one_codec (λ l. some folder) in_frames [] first_writer ≡ answered last_writer)
    ↔ TakenWhole one_codec
        (λ l. some folder)
        (codes "{}" ++ carriage_return ∷ newline ∷ [])
        first_writer
        last_writer
unfolding position
ingest_body-whole_example =
    ingest_body-whole one_codec (λ l. some folder) in_frames [] first_writer last_writer
      (refl, tt, (refl, tt, (refl, tt, tt))) refl

ingest_manifest-entries_example :
    (ingest_manifest one_codec (λ l. some folder) zero_hash in_frames one_folder
      ≡ answered committed)
    × ((i : ℕ) (e : ManifestEntry)
        → nth i (folder ∷ []) ≡ some e
        → manifest_entry one_codec (λ l. some folder) committed i ≡ some e)
    × ((i : ℕ)
        → length (folder ∷ []) ≤ i
        → manifest_entry one_codec (λ l. some folder) committed i ≡ none)
unfolding position framed begin_manifest append_all append counted with_line finish one_codec
    validate_entry validate_relative_path valid_identifier text_eq utf8 to_le_bytes count_segments
    split utf16_len
ingest_manifest-entries_example =
    ingest_manifest-entries one_codec (λ l. some folder) zero_hash in_frames one_folder
      (folder ∷ []) ((codes "{}" ++ carriage_return ∷ []) ∷ []) first_writer last_writer committed
      one_back one_plain hash_valid (refl, tt, (refl, tt, (refl, tt, tt))) refl
      (refl, omega arith, refl, tt) refl refl refl

-- The folder's target, where there is a file of its name already.
abbrev folder_target : Targets
folder_target = record {
  mapped_directories = (codes "f", codes "f (1)" ∷ []) ∷ ([], []) ∷ [];
  reservations = ([], codes "f (1)" ∷ codes "f" ∷ []) ∷ [];
  source_paths = codes "f" ∷ [];
  records = record { ordinal = 0; relative_path = codes "f (1)" ∷ [] } ∷ [];
}

prepared :
    prepared_targets
      (λ t. t)
      5
      (λ p. codes "f" ∷ [])
      one_codec
      (λ l. some folder)
      zero_hash
      committed
    ≡ some folder_target
unfolding prepared_targets map_target target_in parent_and_name rsplit_once reserved_in reserve
    find_number append_collision_suffix is_used sanitize_windows_segment for_each_manifest_entry
    walk matching read_manifest_complete read_line pop_newline text_eq valid_sha256 utf8 get
    same_path trim_end_by before_dot is_windows_reserved_name numbered decimal name_parts
    split_extension truncate_utf16 one_codec validate_entry validate_relative_path valid_identifier
    count_segments split utf16_len
prepared = refl

prepared_targets-IsMapped_example : IsMapped (λ t. t) 5 (λ p. codes "f" ∷ []) folder_target
prepared_targets-IsMapped_example =
    prepared_targets-IsMapped (λ t. t) 5 (λ p. codes "f" ∷ []) one_codec (λ l. some folder)
      zero_hash committed folder_target prepared

-- The folder is completed.
abbrev with_folder : List ℕ
with_folder = 1 ∷ 4 ∷ replicate 14 0

abbrev folder_done : Manifest
folder_done = record committed { progress = with_folder }

all_entries_terminal-AllEnded_example :
    AllEnded folder_done (folder ∷ [])
    × (◌≡◌ {A = Bool} false false → AllWhole folder_done (folder ∷ []))
    × (◌≡◌ {A = Bool} false true → AnyLost folder_done (folder ∷ []))
unfolding begin_manifest append_all append counted with_line finish one_codec validate_entry
    validate_relative_path valid_identifier text_eq utf8 to_le_bytes count_segments split utf16_len
    all_entries_terminal visit_terminal for_each_manifest_entry walk matching read_manifest_complete
    read_line pop_newline read_progress read_record decode_progress from_le_bytes valid_sha256
all_entries_terminal-AllEnded_example =
    all_entries_terminal-AllEnded one_codec (λ l. some folder) zero_hash one_folder (folder ∷ [])
      first_writer last_writer committed with_folder false one_back one_plain hash_valid refl refl
      refl refl

-- ===== src/FileStore/Manifests.antt =====
-- windows/flowtype-app/src/file_transfer_store.rs: the manifest of a batch, its lines with an index of
-- their offsets. The JSON of an entry is serde's (`encode`, `decode`) and the hash is SHA-256 in
-- hexadecimal (`digest`); the files take what is written to them. `none` is an error, on which the
-- writer removes its files.
use flow_type.Prelude.{
  Text, ℕ, ◌+◌, ◌*◌, not, ◌&&◌, ◌||◌, Option, none, some, List, [], ◌∷◌, ◌++◌, ◌==◌, ltb, leb, any,
  length, take, drop, text_eq, if◌then◌else◌,
}
use flow_type.FileTransfer.Messages.{ManifestEntry, is_file, validate_entry, valid_sha256}
use flow_type.FileStore.Progress.{to_le_bytes, from_le_bytes}
use flow_type.FileStore.Batches.{BatchRecord, store_version_number, is_ok}
use flow_type.FileServer.Ranges.{max_u64}

pub record ManifestComplete : Type 0 where
  pub store_version : ℕ
  pub entry_count : ℕ
  pub sha256 : Text

-- The files of a manifest that is committed.
pub record Manifest : Type 0 where
  pub file : List ℕ
  pub index : List ℕ
  pub completed : ManifestComplete
  pub progress : List ℕ

pub record ManifestWriter : Type 0 where
  pub file : List ℕ
  pub index : List ℕ
  pub next_ordinal : ℕ
  pub expected_entry_count : ℕ
  pub expected_files : ℕ
  pub expected_directories : ℕ
  pub expected_bytes : ℕ
  pub files : ℕ
  pub directories : ℕ
  pub bytes : ℕ
  pub entry_ids : List Text
  pub next_offset : ℕ

-- `begin_manifest`, for a batch without a committed manifest.
unfoldable pub begin_manifest : BatchRecord → Option ManifestWriter
begin_manifest b =
    if ltb max_u64 (b.file_count + b.directory_count)
    then none
    else some (record {
      file = [];
      index = [];
      next_ordinal = 0;
      expected_entry_count = b.file_count + b.directory_count;
      expected_files = b.file_count;
      expected_directories = b.directory_count;
      expected_bytes = b.total_bytes;
      files = 0;
      directories = 0;
      bytes = 0;
      entry_ids = [];
      next_offset = 0;
    })

abbrev pub newline : ℕ
newline = 10

-- The entry counted in, where it fits what the batch promises.
unfoldable pub counted : ManifestEntry → ManifestWriter → Option ManifestWriter
unfolding text_eq
counted e w =
    if not (e.ordinal == w.next_ordinal) || leb w.expected_entry_count w.next_ordinal
    then none
    else if any (text_eq e.entry_id) w.entry_ids
    then none
    else let files = if is_file e.kind then w.files + 1 else w.files in
      let directories = if is_file e.kind then w.directories else w.directories + 1 in
      if ltb max_u64 (w.bytes + e.size)
      then none
      else if ltb w.expected_files files
          || ltb w.expected_directories directories
          || ltb w.expected_bytes (w.bytes + e.size)
      then none
      else some (record w {
        entry_ids = e.entry_id ∷ w.entry_ids;
        files = files;
        directories = directories;
        bytes = w.bytes + e.size;
      })

unfoldable pub with_line : List ℕ → ManifestWriter → Option ManifestWriter
unfolding to_le_bytes
with_line line w =
    if ltb max_u64 (w.next_offset + (length line + 1))
    then none
    else some (record w {
      index = w.index ++ to_le_bytes 8 w.next_offset;
      file = w.file ++ (line ++ newline ∷ []);
      next_offset = w.next_offset + (length line + 1);
      next_ordinal = w.next_ordinal + 1;
    })

abbrev line_length : Option (List ℕ) → Option ℕ
line_length none = none
line_length (some line) = some (length line)

-- `read_until`, the newline included.
unfoldable pub read_line : List ℕ → List ℕ
read_line [] = []
read_line (b ∷ bs) = let rest = read_line bs in if b == newline then b ∷ [] else b ∷ rest

abbrev pub before_newline : ℕ → Option (List ℕ) → Option (List ℕ)
before_newline b none = none
before_newline b (some line) = some (b ∷ line)

-- The line without its newline, where it ends with one: `pop() != Some(b'\n')`.
unfoldable pub pop_newline : List ℕ → Option (List ℕ)
pop_newline [] = none
pop_newline (b ∷ []) = if b == newline then some [] else none
pop_newline (b ∷ c ∷ bs) = before_newline b (pop_newline (c ∷ bs))

unfoldable pub read_manifest_complete : Manifest → Option ManifestComplete
unfolding valid_sha256
read_manifest_complete m =
    if not (m.completed.store_version == store_version_number)
      || not (valid_sha256 m.completed.sha256)
    then none
    else some m.completed

abbrev pub append_rest :
    (ManifestWriter → Option ManifestWriter) → Option ManifestWriter → Option ManifestWriter
append_rest rest none = none
append_rest rest (some w) = rest w

module _ (encode : ManifestEntry → Option (List ℕ)) where
  abbrev pub encoded_length : ManifestEntry → Option ℕ
  encoded_length e = line_length (encode e)

  abbrev pub and_line : ManifestEntry → Option ManifestWriter → Option ManifestWriter
  and_line e none = none
  and_line e (some w) = elim (encode e) [ none ↦ none | some line ↦ with_line line w ]

  -- `ManifestWriter::append`
  unfoldable pub append : ManifestEntry → ManifestWriter → Option ManifestWriter
  unfolding validate_entry counted with_line
  append e w = if is_ok (validate_entry encoded_length e) then and_line e (counted e w) else none

  unfoldable pub append_all : List ManifestEntry → ManifestWriter → Option ManifestWriter
  unfolding append
  append_all [] w = some w
  append_all (e ∷ es) w = append_rest (append_all es) (append e w)

  abbrev pub checked_entry : ℕ → Option ManifestEntry → Option ManifestEntry
  unfolding validate_entry
  checked_entry ordinal none = none
  checked_entry ordinal (some e) =
      if is_ok (validate_entry encoded_length e) && e.ordinal == ordinal then some e else none

  -- `manifest_entry`, with `read_exact` of eight bytes.
  unfoldable pub manifest_entry :
      (List ℕ → Option ManifestEntry) → Manifest → ℕ → Option ManifestEntry
  unfolding read_manifest_complete read_line pop_newline from_le_bytes validate_entry
  manifest_entry decode m ordinal = elim (read_manifest_complete m) [
    | none ↦ none
    | some completed ↦
        if leb completed.entry_count ordinal || ltb max_u64 (ordinal * 8)
        then none
        else if ltb (length (drop (8 * ordinal) m.index)) 8
        then none
        else elim (pop_newline
            (read_line (drop (from_le_bytes (take 8 (drop (8 * ordinal) m.index))) m.file))) [
              | none ↦ none
              | some line ↦ checked_entry ordinal (decode line)
            ]
  ]

-- `ManifestWriter::finish`
unfoldable pub finish : (List ℕ → Text) → ManifestWriter → Option Manifest
finish digest w =
    if not (w.next_ordinal == w.expected_entry_count)
      || not (w.files == w.expected_files)
      || not (w.directories == w.expected_directories)
      || not (w.bytes == w.expected_bytes)
      || ltb max_u64 (w.next_ordinal * 16)
    then none
    else some (record {
      file = w.file;
      index = w.index;
      completed = record {
        store_version = store_version_number;
        entry_count = w.next_ordinal;
        sha256 = digest w.file;
      };
      progress = [];
    })

-- ===== src/FileTransfer/Entries.antt =====
-- Proofs about windows/flowtype-core/src/file_transfer.rs: which manifest entries and resume entries
-- are accepted.
use flow_type.Prelude.{
  Text, ℕ, ◌≤◌, ◌≡◌, ◌≢◌, ◌↔◌, true, false, not, ◌&&◌, Option, none, some, [], arith, ◌==◌, any,
  is_some_and, byte_len,
}
use flow_type.FileTransfer.{ok, max_entry_id_bytes, max_manifest_line_bytes, max_wire_integer}
use flow_type.FileTransfer.RelativePaths.{validate_relative_path_iff}
use flow_type.FileTransfer.Paths.{is_control, validate_relative_path, IsRelativePath}
use flow_type.FileTransfer.Messages.{
  ManifestEntry, EntryKind, is_file, line_checked, valid_identifier, valid_sha256, refused_mime,
  validate_entry,
}
use flow_type.FileTransfer.Wire.{
  IsIdentifier, IsSha256, valid_identifier_iff, valid_sha256_iff, is_empty_iff,
}

abbrev pub IsMime : Option Text → Type 0
IsMime none = Unit
IsMime (some m) = (m ≢ []) × (byte_len m ≤ 255) × (any is_control m ≡ false)

abbrev pub IsHash : Option Text → Type 0
IsHash none = Unit
IsHash (some h) = IsSha256 h

abbrev pub FitsLine : Option ℕ → Type 0
FitsLine none = ⊥
FitsLine (some n) = n ≤ max_manifest_line_bytes

pub record IsEntry (encoded : ManifestEntry → Option ℕ) (e : ManifestEntry) : Type 0 where
  pub placed : e.ordinal ≤ max_wire_integer
  pub sized : e.size ≤ max_wire_integer
  pub named : IsIdentifier max_entry_id_bytes e.entry_id
  pub path : IsRelativePath e.relative_path
  pub empty_directory : (e.kind ≡ EntryKind.directory) → e.size ≡ 0
  pub mime : IsMime e.mime_type
  pub hash : IsHash e.sha256
  pub line : FitsLine (encoded e)

refused_mime_iff : (o : Option Text) → (is_some_and o refused_mime ≡ false) ↔ IsMime o
refused_mime_iff none = ground arith
refused_mime_iff (some m) = ground (arith, is_empty_iff m)

sha256_iff : (o : Option Text) → (is_some_and o (λ h. not (valid_sha256 h)) ≡ false) ↔ IsHash o
sha256_iff none = ground arith
sha256_iff (some h) = ground (arith, valid_sha256_iff h)

line_iff : (o : Option ℕ) → (line_checked o ≡ ok tt) ↔ FitsLine o
line_iff none = ground arith
line_iff (some n) = ground arith

kind_iff :
    (k : EntryKind) (size : ℕ)
    → ((not (is_file k) && not (size == 0)) ≡ false) ↔ ((k ≡ EntryKind.directory) → size ≡ 0)
kind_iff EntryKind.file size = ground arith
kind_iff EntryKind.directory size = ground arith

-- The checks one by one.
entry_checks :
    (encoded : ManifestEntry → Option ℕ) (e : ManifestEntry)
    → (validate_entry encoded e ≡ ok tt) ↔ (
        (e.ordinal ≤ max_wire_integer)
        × (e.size ≤ max_wire_integer)
        × (valid_identifier e.entry_id max_entry_id_bytes ≡ true)
        × (validate_relative_path e.relative_path ≡ ok tt)
        × ((not (is_file e.kind) && not (e.size == 0)) ≡ false)
        × (is_some_and e.mime_type refused_mime ≡ false)
        × (is_some_and e.sha256 (λ h. not (valid_sha256 h)) ≡ false)
        × (line_checked (encoded e) ≡ ok tt))
unfolding validate_entry
entry_checks encoded e = ground arith

-- `ManifestEntry::validate` accepts exactly the entries with ordinal and size within a signed 64-bit
-- number, an identifier, a relative path of the wire, no size for a directory, a sound MIME type and
-- a SHA-256 of 64 hexadecimal digits where they are given, and a JSON line of at most 16 KiB.
pub validate_entry_iff :
    (encoded : ManifestEntry → Option ℕ) (e : ManifestEntry)
    → (validate_entry encoded e ≡ ok tt) ↔ IsEntry encoded e
validate_entry_iff encoded e = (sound, complete)
  where
    sound : validate_entry encoded e ≡ ok tt → IsEntry encoded e
    sound h =
        let c = (entry_checks encoded e).0 h in
        record {
          placed = c.0;
          sized = c.1;
          named = (valid_identifier_iff e.entry_id max_entry_id_bytes).0 c.2;
          path = (validate_relative_path_iff e.relative_path).0 c.3;
          empty_directory = (kind_iff e.kind e.size).0 c.4;
          mime = (refused_mime_iff e.mime_type).0 c.5;
          hash = (sha256_iff e.sha256).0 c.6;
          line = (line_iff (encoded e)).0 c.7;
        }

    complete : IsEntry encoded e → validate_entry encoded e ≡ ok tt
    complete r = (entry_checks encoded e).1 (
      r.placed,
      r.sized,
      (valid_identifier_iff e.entry_id max_entry_id_bytes).1 r.named,
      (validate_relative_path_iff e.relative_path).1 r.path,
      (kind_iff e.kind e.size).1 r.empty_directory,
      (refused_mime_iff e.mime_type).1 r.mime,
      (sha256_iff e.sha256).1 r.hash,
      (line_iff (encoded e)).1 r.line,
    )

-- ===== src/FileTransfer/Messages.antt =====
-- windows/flowtype-core/src/file_transfer.rs: the messages of the file transfer protocol and their
-- `validate` methods. The JSON line of a manifest entry is serde's, a parameter.
use flow_type.Prelude.{
  Text, ℕ, ◌+◌, ◌-◌, ◌*◌, ◌/◌, ◌%◌, ◌^◌, Bool, true, false, not, ◌&&◌, ◌||◌, Option, none, some,
  List, [], ◌∷◌, ◌==◌, ltb, leb, any, all, is_empty, is_some_and, length, take, bytes, byte_len,
  text_eq, if◌then◌else◌, ℤ,
}
use flow_type.Protocol.{protocol_version}
use flow_type.FileTransfer.{
  Validated, ok, err, unsupported_protocol, invalid_identifier, invalid_summary, invalid_ticket,
  invalid_entry, invalid_hash, manifest_line_too_large, file_transfer_version, max_phone_id_bytes,
  max_batch_id_bytes, max_entry_id_bytes, max_root_summaries, max_root_summary_bytes,
  max_manifest_line_bytes, min_ticket_bytes, max_ticket_text_bytes, max_wire_integer,
}
use flow_type.FileTransfer.States.{BatchState, EntryState, same_entry_state}
use flow_type.FileTransfer.Paths.{is_control, validate_relative_path}

pub data TransferDirection : Type 0 where
  phone_to_computer computer_to_phone : TransferDirection

pub data EntryKind : Type 0 where
  file directory : EntryKind

pub record FileOffer : Type 0 where
  pub protocol_version : ℕ
  pub transfer_version : ℕ
  pub phone_id : Text
  pub batch_id : Text
  pub direction : TransferDirection
  pub file_count : ℕ
  pub directory_count : ℕ
  pub total_bytes : ℕ
  pub roots : List Text

pub record FileDecision : Type 0 where
  pub protocol_version : ℕ
  pub transfer_version : ℕ
  pub batch_id : Text
  pub accepted : Bool

pub record FileTicket : Type 0 where
  pub protocol_version : ℕ
  pub transfer_version : ℕ
  pub batch_id : Text
  pub data_port : ℕ
  pub token : Text
  pub expires_at_epoch_seconds : ℕ

pub record FileCancel : Type 0 where
  pub protocol_version : ℕ
  pub transfer_version : ℕ
  pub batch_id : Text

pub record ManifestEntry : Type 0 where
  pub ordinal : ℕ
  pub entry_id : Text
  pub relative_path : Text
  pub kind : EntryKind
  pub size : ℕ
  pub modified_at_epoch_millis : Option ℤ
  pub mime_type : Option Text
  pub sha256 : Option Text

pub record ResumeEntry : Type 0 where
  pub entry_id : Text
  pub committed_offset : ℕ
  pub state : EntryState

pub data FileClientMessage : Type 0 where
  file_offer : FileOffer → FileClientMessage
  file_decision : FileDecision → FileClientMessage
  file_cancel : FileCancel → FileClientMessage

pub data FileServerMessage : Type 0 where
  file_offer : FileOffer → FileServerMessage
  file_ticket : FileTicket → FileServerMessage
  file_result : Text → BatchState → FileServerMessage
  file_error : Text → Text → FileServerMessage

abbrev pub is_ascii_alphanumeric : ℕ → Bool
is_ascii_alphanumeric b =
    (leb b'0' b && leb b b'9') || (leb b'A' b && leb b b'Z') || (leb b'a' b && leb b b'z')

abbrev pub is_ascii_hexdigit : ℕ → Bool
is_ascii_hexdigit b =
    (leb b'0' b && leb b b'9') || (leb b'A' b && leb b b'F') || (leb b'a' b && leb b b'f')

abbrev pub is_identifier_byte : ℕ → Bool
is_identifier_byte b = is_ascii_alphanumeric b || b == b'-' || b == b'_'

unfoldable pub valid_identifier : Text → ℕ → Bool
valid_identifier value max_bytes =
    not (is_empty value) && leb (byte_len value) max_bytes && all is_identifier_byte (bytes value)

unfoldable pub valid_sha256 : Text → Bool
valid_sha256 value = byte_len value == 64 && all is_ascii_hexdigit (bytes value)

abbrev pub is_token_byte : ℕ → Bool
is_token_byte b = is_ascii_alphanumeric b || b == b'-' || b == b'_' || b == b'='

-- `bytes().rev().take_while(|byte| *byte == b'=').count()`
unfoldable pub padding_of : List ℕ → ℕ
padding_of [] = 0
padding_of (b ∷ bs) =
    let rest = padding_of bs in if rest == length bs && b == b'=' then rest + 1 else rest

-- `usize` in a release build: subtraction wraps. No text is long enough for `saturating_mul(3)` to
-- reach its bound.
abbrev pub wrapping_sub : ℕ → ℕ → ℕ
wrapping_sub a b = (a + 2 ^ 64 - b) % 2 ^ 64

unfoldable pub base64_url_decoded_len : Text → Option ℕ
unfolding padding_of
base64_url_decoded_len value =
    if is_empty value || any (λ b. not (is_token_byte b)) (bytes value)
    then none
    else let padding = padding_of (bytes value) in
      if ltb 2 padding || any (λ b. b == b'=') (take (byte_len value - padding) (bytes value))
      then none
      else some (wrapping_sub (byte_len value * 3 / 4) padding)

unfoldable pub validate_versions : ℕ → ℕ → Validated (Unit {0})
validate_versions protocol transfer =
    if not (protocol == protocol_version) || not (transfer == file_transfer_version)
    then err unsupported_protocol
    else ok tt

unfoldable pub validate_batch_id : Text → Validated (Unit {0})
unfolding valid_identifier
validate_batch_id value =
    if valid_identifier value max_batch_id_bytes then ok tt else err invalid_identifier

abbrev pub and_then : Validated (Unit {0}) → Validated (Unit {0}) → Validated (Unit {0})
and_then (ok _) next = next
and_then (err e) next = err e

abbrev pub refused_root : Text → Bool
refused_root root =
    is_empty root || ltb max_root_summary_bytes (byte_len root) || any is_control root

unfoldable pub validate_offer : FileOffer → Text → Validated (Unit {0})
unfolding validate_versions valid_identifier text_eq
validate_offer o authenticated_phone_id =
    and_then (validate_versions o.protocol_version o.transfer_version) (
      if not (text_eq o.phone_id authenticated_phone_id)
        || not (valid_identifier o.phone_id max_phone_id_bytes)
        || not (valid_identifier o.batch_id max_batch_id_bytes)
        || (o.file_count == 0 && o.directory_count == 0)
        || ltb max_wire_integer o.file_count
        || ltb max_wire_integer o.directory_count
        || ltb max_wire_integer o.total_bytes
        || ltb max_root_summaries (length o.roots)
        || any refused_root o.roots
      then err invalid_summary
      else ok tt)

unfoldable pub validate_decision : FileDecision → Validated (Unit {0})
unfolding validate_versions validate_batch_id
validate_decision d =
    and_then (validate_versions d.protocol_version d.transfer_version)
      (validate_batch_id d.batch_id)

unfoldable pub validate_file_cancel : FileCancel → Validated (Unit {0})
unfolding validate_versions validate_batch_id
validate_file_cancel c =
    and_then (validate_versions c.protocol_version c.transfer_version)
      (validate_batch_id c.batch_id)

abbrev refused_ticket : FileTicket → ℕ → ℕ → Bool
refused_ticket t now decoded_len =
    t.data_port == 0
    || ltb decoded_len min_ticket_bytes
    || ltb max_ticket_text_bytes (byte_len t.token)
    || ltb max_wire_integer t.expires_at_epoch_seconds
    || leb t.expires_at_epoch_seconds now

abbrev ticket_checked : FileTicket → ℕ → Option ℕ → Validated (Unit {0})
ticket_checked t now none = err invalid_ticket
ticket_checked t now (some decoded_len) =
    if refused_ticket t now decoded_len then err invalid_ticket else ok tt

unfoldable pub validate_ticket : FileTicket → ℕ → Validated (Unit {0})
unfolding validate_versions validate_batch_id base64_url_decoded_len
validate_ticket t now = and_then (validate_versions t.protocol_version t.transfer_version) (
    and_then (validate_batch_id t.batch_id) (ticket_checked t now (base64_url_decoded_len t.token)))

abbrev pub refused_mime : Text → Bool
refused_mime mime = is_empty mime || ltb 255 (byte_len mime) || any is_control mime

abbrev pub is_file : EntryKind → Bool
is_file EntryKind.file = true
is_file EntryKind.directory = false

-- What is left to check once the line is encoded; `none` where serde fails.
abbrev pub line_checked : Option ℕ → Validated (Unit {0})
line_checked none = err invalid_entry
line_checked (some bytes_of_line) =
    if ltb max_manifest_line_bytes bytes_of_line then err manifest_line_too_large else ok tt

-- `encoded` is the length of the JSON line.
unfoldable pub validate_entry : (ManifestEntry → Option ℕ) → ManifestEntry → Validated (Unit {0})
unfolding valid_identifier validate_relative_path valid_sha256
validate_entry encoded e =
    if ltb max_wire_integer e.ordinal
      || ltb max_wire_integer e.size
      || not (valid_identifier e.entry_id max_entry_id_bytes)
    then err invalid_identifier
    else and_then (validate_relative_path e.relative_path) (
        if not (is_file e.kind) && not (e.size == 0)
        then err invalid_entry
        else if is_some_and e.mime_type refused_mime
        then err invalid_entry
        else if is_some_and e.sha256 (λ h. not (valid_sha256 h))
        then err invalid_hash
        else line_checked (encoded e))

unfoldable pub validate_resume_entry : ResumeEntry → ℕ → Validated (Unit {0})
unfolding valid_identifier
validate_resume_entry r expected_size =
    if ltb max_wire_integer r.committed_offset
      || ltb max_wire_integer expected_size
      || not (valid_identifier r.entry_id max_entry_id_bytes)
      || ltb expected_size r.committed_offset
      || (same_entry_state r.state EntryState.completed
          && not (r.committed_offset == expected_size))
    then err invalid_entry
    else ok tt

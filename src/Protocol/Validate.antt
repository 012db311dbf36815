-- ===== src/Protocol/Validate.antt =====
-- windows/flowtype-core/src/protocol.rs: the `validate` methods, and what they let through.
use flow_type.Prelude.{
  Text, ℕ, ◌≤◌, ◌≡◌, ◌≢◌, ◌↔◌, Bool, true, false, not, ◌||◌, Option, none, some, [], ◌∷◌, arith,
  pos, ◌==◌, ltb, byte_len, is_empty, is_some_and, int_lt, int_le, text_eq, text_eq_iff,
  if◌then◌else◌, ◌<ℤ◌,
}
use flow_type.Protocol.{
  protocol_version, max_message_bytes, Snapshot, Resume, Cancel, Probe, HealthCheck, SwitchAck,
  ValidationError, missing_identifier, invalid_sequence, message_too_large,
}

pub data Verdict : Type 0 where
  valid : Verdict
  refused : ValidationError → Verdict

unfoldable pub validate_snapshot : Snapshot → Verdict
validate_snapshot s =
    if not (s.version == protocol_version)
    then refused ValidationError.unsupported_protocol
    else if is_empty s.phone_id || is_empty s.session_id
    then refused missing_identifier
    else if is_some_and s.replaces_session_id (λ r. is_empty r || text_eq r s.session_id)
    then refused missing_identifier
    else if int_le s.sequence (pos 0)
    then refused invalid_sequence
    else if ltb max_message_bytes (byte_len s.full_text)
    then refused message_too_large
    else valid

unfoldable pub validate_resume : Resume → Verdict
validate_resume r =
    if not (r.version == protocol_version)
    then refused ValidationError.unsupported_protocol
    else if is_empty r.phone_id || is_empty r.session_id
    then refused missing_identifier
    else if int_le r.sequence (pos 0)
        || int_lt r.last_ack_sequence (pos 0)
        || int_lt r.sequence r.last_ack_sequence
    then refused invalid_sequence
    else if ltb max_message_bytes (byte_len r.full_text)
    then refused message_too_large
    else valid

-- `Cancel`, `Probe`, `HealthCheck` and `SwitchAck` check a version and the identifiers.
unfoldable pub validate_ids : ℕ → Bool → Verdict
validate_ids version missing =
    if not (version == protocol_version)
    then refused ValidationError.unsupported_protocol
    else if missing
    then refused missing_identifier
    else valid

unfoldable pub validate_cancel : Cancel → Verdict
unfolding validate_ids
validate_cancel c = validate_ids c.version (is_empty c.phone_id || is_empty c.session_id)

unfoldable pub validate_probe : Probe → Verdict
unfolding validate_ids
validate_probe p = validate_ids p.version (is_empty p.phone_id)

unfoldable pub validate_health_check : HealthCheck → Verdict
unfolding validate_ids
validate_health_check h = validate_ids h.version (is_empty h.phone_id)

unfoldable pub validate_switch_ack : SwitchAck → Verdict
unfolding validate_ids
validate_switch_ack a = validate_ids a.version (is_empty a.request_id || is_empty a.pc_id)

abbrev pub ReplacesAnother : Text → Option Text → Type 0
ReplacesAnother id none = Unit
ReplacesAnother id (some r) = (r ≢ []) × (r ≢ id)

-- What the wire contract asks of a snapshot.
pub record IsSnapshot (s : Snapshot) : Type 0 where
  pub versioned : s.version ≡ protocol_version
  pub phone : s.phone_id ≢ []
  pub session : s.session_id ≢ []
  pub replaces : ReplacesAnother s.session_id s.replaces_session_id
  pub positive : pos 0 <ℤ s.sequence
  pub fits : byte_len s.full_text ≤ max_message_bytes

is_empty_iff : (t : Text) → (is_empty t ≡ true) ↔ (t ≡ [])
is_empty_iff [] = ground arith
is_empty_iff (x ∷ xs) = ground arith

replaces_iff :
    (id : Text) (o : Option Text)
    → (is_some_and o (λ r. is_empty r || text_eq r id) ≡ false) ↔ ReplacesAnother id o
replaces_iff id none = ground arith
replaces_iff id (some r) = ground (arith, is_empty_iff r, text_eq_iff r id)

-- `Snapshot::validate` accepts exactly the snapshots of the wire contract: the right version, named
-- phone and session, a replaced session that is named and another one, a positive sequence number,
-- and a text of at most one mebibyte of UTF-8.
validate_snapshot_iff : (s : Snapshot) → (validate_snapshot s ≡ valid) ↔ IsSnapshot s
unfolding validate_snapshot
validate_snapshot_iff s = ground (
  arith,
  is_empty_iff s.phone_id,
  is_empty_iff s.session_id,
  replaces_iff s.session_id s.replaces_session_id,
)

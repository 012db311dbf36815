-- ===== src/Protocol.antt =====
-- windows/flowtype-core/src/protocol.rs: the messages between the phone and the Windows app, with
-- the constants of windows/flowtype-core/src/lib.rs. Their JSON form is serde's.
pub mod Validate
use flow_type.Prelude.{Text, ℤ, ℕ, Bool, Option}

abbrev pub protocol_version : ℕ
protocol_version = 2

abbrev pub max_message_bytes : ℕ
max_message_bytes = 1048576

pub record Snapshot : Type 0 where
  pub version : ℕ
  pub phone_id : Text
  pub session_id : Text
  pub sequence : ℤ
  pub full_text : Text
  pub replaces_session_id : Option Text
  pub attach_existing : Bool

pub data ClientSessionState : Type 0 where
  active finishing : ClientSessionState

pub record Resume : Type 0 where
  pub version : ℕ
  pub phone_id : Text
  pub session_id : Text
  pub last_ack_sequence : ℤ
  pub sequence : ℤ
  pub full_text : Text
  pub session_state : ClientSessionState

pub record Cancel : Type 0 where
  pub version : ℕ
  pub phone_id : Text
  pub session_id : Text

pub record Probe : Type 0 where
  pub version : ℕ
  pub phone_id : Text

pub record HealthCheck : Type 0 where
  pub version : ℕ
  pub phone_id : Text

pub record SwitchAck : Type 0 where
  pub version : ℕ
  pub request_id : Text
  pub pc_id : Text
  pub accepted : Bool

pub data ClientMessage : Type 0 where
  start update finish : Snapshot → ClientMessage
  resume : Resume → ClientMessage
  cancel : Cancel → ClientMessage
  probe : Probe → ClientMessage
  health_check : HealthCheck → ClientMessage
  switch_ack : SwitchAck → ClientMessage

pub data ProbeState : Type 0 where
  ready unsupported invalid : ProbeState

pub data ServerSessionState : Type 0 where
  active finished : ServerSessionState

pub data TargetState : Type 0 where
  active not_foreground invalid : TargetState

pub data ErrorCode : Type 0 where
  auth_failed session_busy session_unknown session_finished sequence_conflict : ErrorCode
  text_too_large target_unavailable target_invalid target_modified target_submitted : ErrorCode
  injector_unavailable recovery_required injection_unknown invalid_message : ErrorCode
  unsupported_protocol : ErrorCode

-- Every server message carries `PROTOCOL_VERSION`, which is left out here.
pub data ServerMessage : Type 0 where
  ack : Text → ℤ → ServerSessionState → ServerMessage
  target : Text → TargetState → Option Text → ServerMessage
  switch_computer : Text → Text → Text → ServerMessage
  probe_result : ProbeState → Option Text → Option ℕ → ServerMessage
  health_ack : ServerMessage
  error : ErrorCode → Option Text → ServerMessage

pub data ValidationError : Type 0 where
  unsupported_protocol missing_identifier invalid_sequence message_too_large : ValidationError

-- ===== src/Injector/Session.antt =====
-- windows/flowtype-injector/src/main.rs: the active session, the last completed one, and the
-- handler of each request. `sent` is the history of `TipRegistry::send`, newest first; the sends of
-- `begin_for_target` are inside the registry.
use flow_type.Prelude.{
  Text, ℤ, ℕ, Bool, false, not, ◌&&◌, Option, none, some, List, [], ◌∷◌, ◌==◌, text_eq, int_eq,
  if◌then◌else◌, is_some_and,
}
use flow_type.Tip.{TipCommand, TipResponse}
use flow_type.Injector.Ipc.{
  InjectorResponse, session_begun, session_finished, target_not_foreground, target_invalid,
  target_modified, target_unsupported, tsf_unavailable, injection_unknown, invalid_request,
}

pub record TargetWindow : Type 0 where
  pub handle : ℕ
  pub process_id : ℕ

pub record TipKey : Type 0 where
  pub process_id : ℕ
  pub thread_id : ℕ
  pub generation : ℕ

pub data TipBeginError : Type 0 where
  unavailable unsupported rebind_rejected : TipBeginError

pub data TipBegun : Type 0 where
  begun : TipKey → TipBegun
  failed : TipBeginError → TipBegun

-- What the operating system, the clock and the text services answer during one request.
pub record Env : Type 0 where
  pub instance_id : Text
  pub executable_path : Text
  pub elevated : Bool
  pub capture_foreground : Option TargetWindow
  pub title : TargetWindow → Text
  pub thread_id : TargetWindow → ℕ
  pub is_valid : TargetWindow → Bool
  pub is_foreground : TargetWindow → Bool
  pub is_remote_desktop_client : TargetWindow → Bool
  pub is_flowtype_window : TargetWindow → Bool
  pub activate_for_input : TargetWindow → Bool
  pub activity_age_ms : TargetWindow → ℕ
  pub monitor_starts : Bool
  -- `input_monitor::epoch()` at its first and at its second reading
  pub epoch : ℕ
  pub later_epoch : ℕ
  pub last_event_was_return : Bool
  pub now_ms : ℕ
  -- process, thread, session, sequence, text, attach_existing
  pub begin_for_target : ℕ → ℕ → Text → ℤ → Text → Bool → TipBegun
  -- `none` is an `io::Error`
  pub send : TipKey → TipCommand → Option TipResponse

pub record ActiveSession : Type 0 where
  pub id : Text
  pub sequence : ℤ
  pub text : Text
  pub target : TargetWindow
  pub tip : TipKey
  pub input_epoch : ℕ
  pub last_tip_query : ℕ

pub record CompletedSession : Type 0 where
  pub id : Text
  pub sequence : ℤ
  pub text : Text

pub record State : Type 0 where
  pub session : Option ActiveSession
  pub completed : Option CompletedSession
  pub sent : List (TipKey × TipCommand)

pub data SessionReplacement : Type 0 where
  start replace reject : SessionReplacement

abbrev pub tip_state_query_interval : ℕ
tip_state_query_interval = 1000

abbrev pub injector_ipc_version : ℕ
injector_ipc_version = 6

-- `.filter(|active| active.id == session_id)`
abbrev pub active_named : Text → Option ActiveSession → Option ActiveSession
active_named id none = none
active_named id (some a) = if text_eq a.id id then some a else none

abbrev pub completed_named : Text → Option CompletedSession → Option CompletedSession
completed_named id none = none
completed_named id (some c) = if text_eq c.id id then some c else none

unfoldable pub end_failed_session : State → State
end_failed_session s = elim s.session [
  | none ↦ s
  | some a ↦ record s { session = none; sent = (a.tip, TipCommand.cancel a.id) ∷ s.sent }
]

unfoldable pub classify_session_replacement : Option Text → Option Text → SessionReplacement
classify_session_replacement none replaces = start
classify_session_replacement (some active) replaces =
    if is_some_and replaces (λ r. text_eq r active) then replace else reject

abbrev pub ends_with_newline : Text → Bool
ends_with_newline [] = false
ends_with_newline (c ∷ []) = c == 10
ends_with_newline (c ∷ d ∷ s) = ends_with_newline (d ∷ s)

unfoldable pub is_submitted_candidate : Text → ℕ → ℕ → Bool → Bool
is_submitted_candidate text session_epoch current_epoch last_return =
    ends_with_newline text && not (current_epoch == session_epoch) && last_return

-- The part of `BeginSession` that binds a target, once no session is in the way.
unfoldable pub bind_target : Env → Text → ℤ → Text → Bool → State → InjectorResponse × State
bind_target env id seq text attach s = elim env.capture_foreground [
  | none ↦ (target_invalid, s)
  | some target ↦
      if env.is_remote_desktop_client target
      then (target_unsupported, s)
      else if env.is_flowtype_window target
      then (target_unsupported, s)
      else if not (env.activate_for_input target)
      then (target_not_foreground (env.title target), s)
      else if not env.monitor_starts
      then (injection_unknown, s)
      else elim (env.begin_for_target target.process_id (env.thread_id target) id seq text attach) [
        | failed e ↦ elim e [
          | unsupported ↦ (target_unsupported, s)
          | rebind_rejected ↦ (target_modified, s)
          | unavailable ↦ (tsf_unavailable, s)
        ]
        | begun tip ↦ (
          session_begun (env.title target),
          record s {
            session = some (record {
              id = id;
              sequence = seq;
              text = text;
              target = target;
              tip = tip;
              input_epoch = env.epoch;
              last_tip_query = env.now_ms;
            });
            completed = none;
          },
        )
      ]
]

abbrev pub active_id : Option ActiveSession → Option Text
active_id none = none
active_id (some a) = some a.id

unfoldable pub begin_session :
    Env → Text → Option Text → ℤ → Text → Bool → State → InjectorResponse × State
unfolding classify_session_replacement end_failed_session
begin_session env id replaces seq text attach s = elim (active_named id s.session) [
  | some a ↦ (session_begun (env.title a.target), s)
  | none ↦ elim (completed_named id s.completed) [
    | some c ↦ (session_finished id c.sequence c.text, s)
    | none ↦ elim (classify_session_replacement (active_id s.session) replaces) [
      | reject ↦ (invalid_request, s)
      | replace ↦ bind_target env id seq text attach (end_failed_session s)
      | start ↦ bind_target env id seq text attach s
    ]
  ]
]

unfoldable pub completed_apply_response :
    Option CompletedSession → Text → ℤ → Text → Option InjectorResponse
completed_apply_response completed id seq text = elim (completed_named id completed) [
  | none ↦ none
  | some c ↦ some (
      if int_eq c.sequence seq && text_eq c.text text
      then InjectorResponse.finished seq
      else invalid_request)
]

-- ===== src/Injector/Requests.antt =====
-- windows/flowtype-injector/src/main.rs: the handlers of `ApplyState`, `FinishSession`,
-- `QuerySession`, `ProbeTarget` and `CancelInvalidSession`, and `handle_request`.
use flow_type.Prelude.{
  Text, ℤ, ◌-◌, Bool, not, ◌&&◌, ◌||◌, Option, none, some, List, [], ◌∷◌, ◌==◌, ltb, text_eq,
  int_eq, int_lt, if◌then◌else◌,
}
use flow_type.Tip.{TipCommand, TipResponse}
use flow_type.Injector.Ipc.{
  InjectorRequest, InjectorResponse, session_active, session_finished, session_missing,
  target_ready, target_not_foreground, target_invalid, target_modified, target_submitted,
  target_unsupported, injection_unknown, invalid_request, hello, apply_state, begin_session,
  finish_session, query_session, probe_target, cancel_invalid_session, cancelled,
}
use flow_type.Injector.Session
use flow_type.Injector.Session.{
  TipKey, Env, ActiveSession, CompletedSession, State, active_named, completed_named,
  end_failed_session, is_submitted_candidate, completed_apply_response, tip_state_query_interval,
  injector_ipc_version,
}

-- `tips.send`: the answer, and the state with the send in its history.
abbrev pub sending : TipKey → TipCommand → State → State
sending key command s = record s { sent = (key, command) ∷ s.sent }

-- The answer of the text service to `TipCommand::Update`.
unfoldable pub after_update :
    Env → ActiveSession → Text → ℤ → Text → Option TipResponse → State → InjectorResponse × State
after_update env active id seq text response s = elim response [
  | some answer ↦ elim answer [
    | TipResponse.applied applied_session applied_sequence ↦
        if text_eq applied_session id
        then (
          InjectorResponse.applied applied_sequence,
          if int_eq applied_sequence seq
              then record s { session = some (record active { sequence = seq; text = text }) }
              else s,
        )
        else (injection_unknown, end_failed_session s)
    | TipResponse.no_focus ↦ (target_not_foreground (env.title active.target), s)
    | TipResponse.composition_terminated ↦ (target_modified, end_failed_session s)
    | TipResponse.session_mismatch ↦ (invalid_request, end_failed_session s)
    | TipResponse.sequence_conflict ↦ (invalid_request, end_failed_session s)
    | _ ↦ (injection_unknown, end_failed_session s)
  ]
  | none ↦ (injection_unknown, end_failed_session s)
]

-- `apply_state` of the source, for an active session of the requested name.
unfoldable pub apply_to : Env → ActiveSession → Text → ℤ → Text → State → InjectorResponse × State
unfolding after_update end_failed_session
apply_to env active id seq text s =
    if not (env.is_valid active.target)
    then (target_invalid, s)
    else if not (active.input_epoch == env.epoch)
    then (target_modified, end_failed_session s)
    else if not (env.is_foreground active.target)
    then (target_not_foreground (env.title active.target), s)
    else if int_lt seq active.sequence
    then (InjectorResponse.applied active.sequence, s)
    else if int_eq seq active.sequence
    then (if text_eq text active.text
        then (InjectorResponse.applied seq, s)
        else (invalid_request, end_failed_session s))
    else let command = TipCommand.update id seq text in
      after_update env active id seq text (env.send active.tip command)
        (sending active.tip command s)

unfoldable pub apply_session : Env → Text → ℤ → Text → State → InjectorResponse × State
unfolding apply_to
apply_session env id seq text s = elim (active_named id s.session) [
  | none ↦ (invalid_request, s)
  | some active ↦ apply_to env active id seq text s
]

unfoldable pub handle_apply : Env → Text → ℤ → Text → State → InjectorResponse × State
unfolding apply_session completed_apply_response
handle_apply env id seq text s = elim (completed_apply_response s.completed id seq text) [
  | some response ↦ (response, s)
  | none ↦ apply_session env id seq text s
]

-- The answer of the text service to `TipCommand::Finish`.
unfoldable pub after_finish : Text → ℤ → Option TipResponse → State → InjectorResponse × State
after_finish id seq response s = elim response [
  | some answer ↦ elim answer [
    | TipResponse.finished finished_session finished_sequence ↦
        if text_eq finished_session id && int_eq finished_sequence seq
        then (InjectorResponse.finished seq, record s { session = none })
        else (injection_unknown, end_failed_session s)
    | TipResponse.session_mismatch ↦ (invalid_request, end_failed_session s)
    | TipResponse.sequence_conflict ↦ (invalid_request, end_failed_session s)
    | _ ↦ (injection_unknown, end_failed_session s)
  ]
  | none ↦ (injection_unknown, end_failed_session s)
]

-- `finish_session` of the source.
unfoldable pub finish_active : Env → Text → ℤ → State → InjectorResponse × State
unfolding after_finish end_failed_session
finish_active env id seq s = elim s.session [
  | none ↦ (invalid_request, s)
  | some active ↦
      if not (text_eq active.id id) || not (int_eq active.sequence seq)
      then (invalid_request, s)
      else let command = TipCommand.finish id seq in
        after_finish id seq (env.send active.tip command) (sending active.tip command s)
]

-- `active.id == session_id && active.sequence == sequence`, and the text then.
abbrev pub finished_text : Text → ℤ → Option ActiveSession → Option Text
finished_text id seq none = none
finished_text id seq (some a) =
    if text_eq a.id id && int_eq a.sequence seq then some a.text else none

abbrev record_completed : Text → InjectorResponse → Option Text → State → State
record_completed id (InjectorResponse.finished seq) (some text) s = record s {
  completed = some (record { id = id; sequence = seq; text = text });
}
record_completed id _ _ s = s

unfoldable pub handle_finish : Env → Text → ℤ → State → InjectorResponse × State
unfolding finish_active
handle_finish env id seq s =
    let (response, after) = finish_active env id seq s in
    (response, record_completed id response (finished_text id seq s.session) after)

-- The TIP is asked once a second at most.
abbrev query_due : Env → ActiveSession → Bool
query_due env a = not (ltb (env.now_ms - a.last_tip_query) tip_state_query_interval)

unfoldable pub after_query :
    Env → ActiveSession → Text → Option TipResponse → State → InjectorResponse × State
unfolding is_submitted_candidate
after_query env active id response s = elim response [
  | some answer ↦ elim answer [
    | TipResponse.session_active _ _ ↦ (session_active id active.sequence active.text, s)
    | TipResponse.composition_terminated ↦ (
      if is_submitted_candidate active.text active.input_epoch env.later_epoch
            env.last_event_was_return
          then target_submitted
          else target_modified,
      end_failed_session s,
    )
    | _ ↦ (target_modified, end_failed_session s)
  ]
  | none ↦ (target_modified, end_failed_session s)
]

unfoldable pub query_active_session : Env → ActiveSession → Text → State → InjectorResponse × State
unfolding after_query end_failed_session
query_active_session env active id s =
    if not (active.input_epoch == env.epoch)
    then (
      if is_submitted_candidate active.text active.input_epoch env.epoch env.last_event_was_return
          then target_submitted
          else target_modified,
      end_failed_session s,
    )
    else if not (query_due env active)
    then (session_active id active.sequence active.text, s)
    else let command = TipCommand.query id in
      after_query env active id (env.send active.tip command) (
        sending active.tip command
          (record s { session = some (record active { last_tip_query = env.now_ms }) }))

unfoldable pub handle_query : Env → Text → State → InjectorResponse × State
unfolding query_active_session
handle_query env id s = elim (active_named id s.session) [
  | some active ↦ query_active_session env active id s
  | none ↦ elim (completed_named id s.completed) [
    | some c ↦ (session_finished id c.sequence c.text, s)
    | none ↦ (session_missing, s)
  ]
]

unfoldable pub probe : Env → InjectorResponse
probe env = elim env.capture_foreground [
  | none ↦ target_invalid
  | some target ↦
      if not (env.is_valid target)
      then target_invalid
      else if env.is_remote_desktop_client target
      then target_unsupported
      else if env.is_flowtype_window target
      then target_unsupported
      else target_ready (env.title target) (env.activity_age_ms target)
]

unfoldable pub cancel_session : Text → State → InjectorResponse × State
cancel_session id s = elim (active_named id s.session) [
  | none ↦ (cancelled, s)
  | some active ↦
      (cancelled, sending active.tip (TipCommand.cancel id) (record s { session = none }))
]

unfoldable pub handle_request : Env → InjectorRequest → State → InjectorResponse × State
unfolding handle_apply handle_finish handle_query probe cancel_session Session.begin_session
    Session.bind_target
handle_request env hello s = (
  InjectorResponse.hello injector_ipc_version env.instance_id env.executable_path env.elevated,
  s,
)
handle_request env (begin_session id replaces seq text attach) s =
    Session.begin_session env id replaces seq text attach s
handle_request env (apply_state id seq text) s = handle_apply env id seq text s
handle_request env (finish_session id seq) s = handle_finish env id seq s
handle_request env (query_session id) s = handle_query env id s
handle_request env probe_target s = (probe env, s)
handle_request env (cancel_invalid_session id) s = cancel_session id s

-- The body of the accept loop: the requests of one connection, each with what its environment
-- answers, then the teardown when the pipe closes.
unfoldable pub serve_requests : List (Env × InjectorRequest) → State → State
serve_requests [] s = s
serve_requests ((env, request) ∷ rest) s = serve_requests rest (handle_request env request s).1

unfoldable pub serve_connection : List (Env × InjectorRequest) → State → State
unfolding serve_requests end_failed_session
serve_connection requests s = record (end_failed_session (serve_requests requests s)) {
  completed = none;
}

abbrev pub initial : State
initial = record { session = none; completed = none; sent = [] }

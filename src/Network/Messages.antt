-- ===== src/Network/Messages.antt =====
-- windows/flowtype-app/src/network_server.rs: `handle_client_message`, `handle_cancel` and
-- `handle_resume`. A debug build may acknowledge without the injector; the model is a release build.
use flow_type.Prelude.{
  Text, ℤ, Bool, true, false, not, ◌&&◌, ◌||◌, none, some, text_eq, int_eq, if◌then◌else◌,
}
use flow_type.Injector.Ipc.{
  InjectorRequest, InjectorResponse, begin_session, apply_state, finish_session,
  cancel_invalid_session, probe_target, session_begun, session_finished, target_ready,
  target_invalid,
}
use flow_type.Protocol.{
  ClientMessage, ServerMessage, Snapshot, Resume, Cancel, Probe, HealthCheck, SwitchAck, ErrorCode,
  ProbeState, TargetState, ClientSessionState,
}
use flow_type.Protocol.Validate.{
  Verdict, valid, refused, validate_snapshot, validate_resume, validate_cancel, validate_probe,
  validate_health_check, validate_switch_ack,
}
use flow_type.Network.World.{
  World, Flow, done, broken, Reply, response, failure, typing_in, send_json, and_then, noted,
  send_ack, send_injector_failure, send_injector_state, mark_input_finished, acknowledge_switch,
}

pub data Kind : Type 0 where
  start update finish : Kind

abbrev pub is_valid : Verdict → Bool
is_valid valid = true
is_valid (refused e) = false

abbrev pub is_start : Kind → Bool
is_start start = true
is_start _ = false

abbrev pub is_finish : Kind → Bool
is_finish finish = true
is_finish _ = false

abbrev pub is_finishing : ClientSessionState → Bool
is_finishing ClientSessionState.finishing = true
is_finishing ClientSessionState.active = false

module _ {S : Type 0} (request : InjectorRequest → S → Reply × S) where
  -- `injector_request_async`
  unfoldable pub ask : InjectorRequest → World S → Reply × World S
  unfolding noted
  ask r w =
      let (reply, s) = request r w.injector in (reply, noted reply (record w { injector = s }))

  -- The end of a session that has been applied: `FinishSession`, and its acknowledgement.
  unfoldable pub finish_applied : Text → ℤ → World S → Flow × World S
  unfolding ask send_ack send_injector_failure send_injector_state mark_input_finished
  finish_applied id seq w =
      let (reply, w') = ask (finish_session id seq) w in
      elim reply [
        | failure f ↦ send_injector_failure id f w'
        | response r ↦ elim r [
          | InjectorResponse.finished n ↦ send_ack id n true (mark_input_finished w')
          | other ↦ send_injector_state id other w'
        ]
      ]

  -- `ApplyState` for a start, an update or a finish.
  unfoldable pub apply_snapshot : Kind → Snapshot → World S → Flow × World S
  unfolding ask send_ack send_injector_failure send_injector_state
  apply_snapshot kind snap w =
      let (reply, w') = ask (apply_state snap.session_id snap.sequence snap.full_text) w in
      elim reply [
        | failure f ↦ send_injector_failure snap.session_id f w'
        | response r ↦ elim r [
          | InjectorResponse.applied n ↦
              if is_finish kind
              then finish_applied snap.session_id n w'
              else send_ack snap.session_id n false w'
          | other ↦ send_injector_state snap.session_id other w'
        ]
      ]

  unfoldable pub start_snapshot : Snapshot → World S → Flow × World S
  unfolding ask send_ack send_injector_failure send_injector_state mark_input_finished send_json
  start_snapshot snap w =
      let (reply, w') =
        ask
          (begin_session snap.session_id snap.replaces_session_id snap.sequence snap.full_text
            snap.attach_existing)
          w in
      elim reply [
        | failure f ↦ send_injector_failure snap.session_id f w'
        | response r ↦ elim r [
          | session_begun name ↦
              and_then
                (send_json (ServerMessage.target snap.session_id TargetState.active (some name))
                  (record w' {
                    status = record w'.status {
                      summary = typing_in name;
                      target_name = some name;
                      last_error = none;
                    };
                  }))
                (apply_snapshot start snap)
          | session_finished id seq text ↦
              if text_eq id snap.session_id
                && int_eq seq snap.sequence
                && text_eq text snap.full_text
              then send_ack snap.session_id seq true (mark_input_finished w')
              else send_injector_state snap.session_id (session_finished id seq text) w'
          | other ↦ send_injector_state snap.session_id other w'
        ]
      ]

  unfoldable pub handle_snapshot : Text → Kind → Snapshot → World S → Flow × World S
  unfolding validate_snapshot send_json
  handle_snapshot phone kind snap w =
      if not (is_valid (validate_snapshot snap))
      then (broken, w)
      else if snap.attach_existing && not (is_start kind)
      then (broken, w)
      else if not (text_eq snap.phone_id phone)
      then send_json (ServerMessage.error ErrorCode.invalid_message (some snap.session_id)) w
      else if is_start kind
      then start_snapshot snap w
      else apply_snapshot kind snap w

  unfoldable pub handle_cancel : Text → Cancel → World S → Flow × World S
  unfolding validate_cancel ask mark_input_finished
  handle_cancel phone c w =
      if not (is_valid (validate_cancel c)) || not (text_eq c.phone_id phone)
      then (broken, w)
      else (done, mark_input_finished (ask (cancel_invalid_session c.session_id) w).1)

  unfoldable pub handle_resume : Text → Resume → World S → Flow × World S
  unfolding validate_resume ask send_ack send_injector_failure send_injector_state
      mark_input_finished
  handle_resume phone r w =
      if not (is_valid (validate_resume r)) || not (text_eq r.phone_id phone)
      then (broken, w)
      else let (reply, w') = ask (apply_state r.session_id r.sequence r.full_text) w in
        elim reply [
          | failure f ↦ send_injector_failure r.session_id f w'
          | response answer ↦ elim answer [
            | InjectorResponse.finished n ↦ send_ack r.session_id n true (mark_input_finished w')
            | InjectorResponse.applied n ↦
                if is_finishing r.session_state
                then finish_applied r.session_id n w'
                else send_ack r.session_id n false w'
            | other ↦ send_injector_state r.session_id other w'
          ]
        ]

  unfoldable pub handle_health_check : Text → HealthCheck → World S → Flow × World S
  unfolding validate_health_check send_json
  handle_health_check phone h w =
      if not (is_valid (validate_health_check h)) || not (text_eq h.phone_id phone)
      then (broken, w)
      else send_json ServerMessage.health_ack w

  unfoldable pub handle_switch_ack : Text → SwitchAck → World S → Flow × World S
  unfolding validate_switch_ack acknowledge_switch
  handle_switch_ack pc_id a w =
      if not (is_valid (validate_switch_ack a)) || not (text_eq a.pc_id pc_id)
      then (broken, w)
      else (done, acknowledge_switch a w)

  unfoldable pub probe_reply : Reply → World S → ServerMessage × World S
  probe_reply reply w = elim reply [
    | response r ↦ elim r [
      | target_ready name age ↦ (
        ServerMessage.probe_result ProbeState.ready (some name) (some age),
        record w { status = record w.status { target_name = some name; last_error = none } },
      )
      | target_invalid ↦ (
        ServerMessage.probe_result ProbeState.invalid none none,
        record w { status = record w.status { target_name = none } },
      )
      | _ ↦ (
        ServerMessage.probe_result ProbeState.unsupported none none,
        record w { status = record w.status { target_name = none } },
      )
    ]
    | failure f ↦ (
      ServerMessage.probe_result ProbeState.unsupported none none,
      record w { status = record w.status { target_name = none } },
    )
  ]

  unfoldable pub handle_probe : Text → Probe → World S → Flow × World S
  unfolding validate_probe ask send_json probe_reply
  handle_probe phone p w =
      if not (is_valid (validate_probe p))
      then (broken, w)
      else if not (text_eq p.phone_id phone)
      then send_json (ServerMessage.error ErrorCode.invalid_message none) w
      else let (reply, w') = ask probe_target w in
        let (message, w'') = probe_reply reply w' in send_json message w''

  unfoldable pub handle_client_message : Text → Text → ClientMessage → World S → Flow × World S
  handle_client_message pc_id phone (ClientMessage.start s) w = handle_snapshot phone start s w
  handle_client_message pc_id phone (ClientMessage.update s) w = handle_snapshot phone update s w
  handle_client_message pc_id phone (ClientMessage.finish s) w = handle_snapshot phone finish s w
  handle_client_message pc_id phone (ClientMessage.resume r) w = handle_resume phone r w
  handle_client_message pc_id phone (ClientMessage.cancel c) w = handle_cancel phone c w
  handle_client_message pc_id phone (ClientMessage.probe p) w = handle_probe phone p w
  handle_client_message pc_id phone (ClientMessage.health_check h) w = handle_health_check phone h w
  handle_client_message pc_id phone (ClientMessage.switch_ack a) w = handle_switch_ack pc_id a w

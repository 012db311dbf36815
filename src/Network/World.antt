-- ===== src/Network/World.antt =====
-- windows/flowtype-app/src/network_server.rs and main.rs: the state that a connection's handler
-- reads and writes, the websocket as a list of delivered frames, and the sends that report an
-- injector answer. The texts of the status line are `Summary` and `Notice`.
use flow_type.Prelude.{
  Text, ℤ, ℕ, zero, suc, Bool, Option, none, some, List, ◌∷◌, text_eq, ◌&&◌, if◌then◌else◌,
  is_some_and,
}
use flow_type.Injector.Ipc.{
  InjectorResponse, target_not_foreground, target_invalid, target_modified, target_submitted,
  target_unsupported, tsf_unavailable, injection_unknown, invalid_request,
}
use flow_type.Protocol.{ServerMessage, ErrorCode, ServerSessionState, TargetState, SwitchAck}

-- windows/flowtype-app/src/injector_dispatcher.rs
pub data InjectorRequestFailure : Type 0 where
  unavailable recovery_required : InjectorRequestFailure

pub data Reply : Type 0 where
  response : InjectorResponse → Reply
  failure : InjectorRequestFailure → Reply

pub data Summary : Type 0 where
  waiting_for_phone : Summary
  connected_to typing_in return_to : Text → Summary
  input_recovered input_unavailable input_window_closed edited_on_computer : Summary
  input_submitted app_unsupported input_stopped switched_here not_paired_here : Summary

pub data Notice : Type 0 where
  sync_full_text repair_input place_cursor_again syncing_stopped move_cursor : Notice
  unconfirmed_input state_mismatch : Notice

pub record RuntimeStatus : Type 0 where
  pub summary : Summary
  pub connected_phone : Option Text
  pub target_name : Option Text
  pub last_error : Option Notice

pub record PendingSwitch : Type 0 where
  pub request_id : Text
  pub pc_id : Text

-- `S` is the state behind the injector dispatcher. `link` is the number of frames that the
-- websocket still takes; a send over a broken link fails.
pub record World (S : Type 0) : Type 0 where
  pub injector : S
  pub status : RuntimeStatus
  pub frames : List ServerMessage
  pub link : ℕ
  pub pending_switch : Option PendingSwitch

-- A handler goes on, or ends the connection with an error.
pub data Flow : Type 0 where
  done broken : Flow

module _ {S : Type 0} where
  unfoldable pub send_json : ServerMessage → World S → Flow × World S
  send_json m w = elim w.link [
    | zero ↦ (broken, w)
    | suc n ↦ (done, record w { frames = m ∷ w.frames; link = n })
  ]

  -- A send, and what follows it if it went out.
  abbrev pub and_then : Flow × World S → (World S → Flow × World S) → Flow × World S
  and_then (done, w) k = k w
  and_then (broken, w) k = (broken, w)

  unfoldable pub mark_input_finished : World S → World S
  mark_input_finished w = record w {
    status = record w.status {
      target_name = none;
      summary = elim w.status.connected_phone [
        | none ↦ waiting_for_phone
        | some p ↦ connected_to p
      ];
    };
  }

  unfoldable pub mark_injector_unavailable : World S → World S
  mark_injector_unavailable w = record w {
    status = record w.status {
      summary = input_unavailable;
      target_name = none;
      last_error = some repair_input;
    };
  }

  -- `injector_request_async`: what the status line says after the dispatcher's reply.
  unfoldable pub noted : Reply → World S → World S
  unfolding mark_injector_unavailable
  noted (response r) w = record w { status = record w.status { last_error = none } }
  noted (failure unavailable) w = mark_injector_unavailable w
  noted (failure recovery_required) w = record w {
    status = record w.status {
      summary = input_recovered;
      target_name = none;
      last_error = some sync_full_text;
    };
  }

  unfoldable pub send_ack : Text → ℤ → Bool → World S → Flow × World S
  unfolding send_json
  send_ack id seq finished w =
      send_json
        (ServerMessage.ack id seq
          (if finished then ServerSessionState.finished else ServerSessionState.active))
        w

  unfoldable pub send_injector_failure : Text → InjectorRequestFailure → World S → Flow × World S
  unfolding send_json
  send_injector_failure id unavailable w =
      send_json (ServerMessage.error ErrorCode.injector_unavailable (some id)) w
  send_injector_failure id recovery_required w =
      send_json (ServerMessage.error ErrorCode.recovery_required (some id)) w

  unfoldable pub send_injector_state : Text → InjectorResponse → World S → Flow × World S
  unfolding send_json mark_input_finished mark_injector_unavailable
  send_injector_state id (target_not_foreground name) w =
      send_json (ServerMessage.target id TargetState.not_foreground (some name)) (record w {
        status = record w.status { summary = return_to name; target_name = some name };
      })
  send_injector_state id target_invalid w =
      send_json (ServerMessage.target id TargetState.invalid none) (record w {
        status = record w.status {
          summary = input_window_closed;
          target_name = none;
          last_error = some place_cursor_again;
        };
      })
  send_injector_state id target_modified w =
      send_json (ServerMessage.error ErrorCode.target_modified (some id)) (record w {
        status = record w.status {
          summary = edited_on_computer;
          last_error = some syncing_stopped;
        };
      })
  send_injector_state id target_submitted w =
      send_json (ServerMessage.error ErrorCode.target_submitted (some id)) (
        mark_input_finished (record w {
          status = record w.status {
            summary = input_submitted;
            target_name = none;
            last_error = none;
          };
        }))
  send_injector_state id target_unsupported w =
      send_json (ServerMessage.error ErrorCode.target_unavailable (some id)) (record w {
        status = record w.status {
          summary = app_unsupported;
          target_name = none;
          last_error = some move_cursor;
        };
      })
  send_injector_state id tsf_unavailable w =
      send_json (ServerMessage.error ErrorCode.injector_unavailable (some id))
        (mark_injector_unavailable w)
  send_injector_state id injection_unknown w =
      send_json (ServerMessage.error ErrorCode.injection_unknown (some id)) (record w {
        status = record w.status { summary = input_stopped; last_error = some unconfirmed_input };
      })
  send_injector_state id invalid_request w =
      send_json (ServerMessage.error ErrorCode.sequence_conflict (some id)) (record w {
        status = record w.status { summary = input_stopped; last_error = some state_mismatch };
      })
  send_injector_state id _ w = send_json (ServerMessage.target id TargetState.invalid none) w

  -- main.rs, `AppState::acknowledge_switch`
  unfoldable pub acknowledge_switch : SwitchAck → World S → World S
  acknowledge_switch a w =
      if is_some_and w.pending_switch
        (λ p. text_eq p.request_id a.request_id && text_eq p.pc_id a.pc_id)
      then record w {
        pending_switch = none;
        status = record w.status {
          summary = if a.accepted then switched_here else not_paired_here;
        };
      }
      else w

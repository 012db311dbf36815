-- ===== src/Tests/Connections.antt =====
-- The theorems about the app's handlers, over the injector, at one connection.
use flow_type.Prelude.{pos, ◌≡◌, refl, true, none, some, [], ◌∷◌, codes, text_eq, utf8, arith}
use flow_type.Injector.Requests.{handle_request}
use flow_type.Injector.Replies.{IsAt, IsCompletedAt}
use flow_type.Network.Messages.{
  handle_client_message, handle_snapshot, apply_snapshot, finish_applied,
}
use flow_type.Network.Dispatcher.{Served, breaks, request}
use flow_type.Network.Injected.{active_ack-IsAt, finished_ack-IsCompletedAt}
use flow_type.Network.Progress.{Takes, IsTimely, update_acked, finish_acked}
use flow_type.Network.Replays.{IsSame, finish_again}
use flow_type.Network.Unsettled.{Fails}
use flow_type.Network.Broken.{request_breaks}
use flow_type.Network.World.{World}
use flow_type.Injector.Ipc.{apply_state}
use flow_type.Protocol.{ClientMessage, ServerMessage, ServerSessionState, TargetState}
use flow_type.Protocol.Validate.{validate_snapshot, validate_resume}
use flow_type.Tests.Fixtures.{env, answered_in, session_a, active_state, served, snapshot, resume}

active_ack-IsAt_example :
    IsAt
      (codes "a")
      (pos 2)
      (codes "hi!")
      (handle_client_message request
        (codes "pc")
        (codes "phone")
        (ClientMessage.update snapshot)
        (served (env ∷ []) active_state)).1.injector.state.session
unfolding request handle_client_message handle_request validate_snapshot text_eq utf8
    handle_snapshot apply_snapshot
active_ack-IsAt_example =
    active_ack-IsAt (codes "pc") (codes "phone") (ClientMessage.update snapshot) (codes "a") (pos 2)
      (codes "hi!") (served (env ∷ []) active_state) refl refl refl

finished_ack-IsCompletedAt_example :
    IsCompletedAt
      (codes "a")
      (pos 2)
      (codes "hi!")
      (handle_client_message request
        (codes "pc")
        (codes "phone")
        (ClientMessage.finish snapshot)
        (served (env ∷ env ∷ []) active_state)).1.injector.state.completed
unfolding request handle_client_message handle_request validate_snapshot text_eq utf8
    handle_snapshot apply_snapshot finish_applied
finished_ack-IsCompletedAt_example =
    finished_ack-IsCompletedAt (codes "pc") (codes "phone") (ClientMessage.finish snapshot)
      (codes "a") (pos 2) (codes "hi!") (served (env ∷ env ∷ []) active_state) refl refl refl

takes : Takes env session_a (pos 2) (codes "hi!")
takes = record {
  exists = refl;
  untouched = refl;
  in_front = refl;
  newer = omega arith;
  taken = refl;
}

timely : IsTimely (codes "phone") snapshot (served (env ∷ env ∷ []) active_state) session_a
unfolding validate_snapshot text_eq utf8
timely = record {
  sound = refl;
  own = refl;
  plain = refl;
  named = refl;
  active = refl;
  open_yet = refl;
  capacity = 3;
  link = refl;
}

update_acked_example :
    ((handle_client_message request
        (codes "pc")
        (codes "phone")
        (ClientMessage.update snapshot)
        (served (env ∷ env ∷ []) active_state)).1.frames
      ≡ ServerMessage.ack (codes "a") (pos 2) ServerSessionState.active ∷ [])
    × IsAt
        (codes "a")
        (pos 2)
        (codes "hi!")
        (handle_client_message request
          (codes "pc")
          (codes "phone")
          (ClientMessage.update snapshot)
          (served (env ∷ env ∷ []) active_state)).1.injector.state.session
update_acked_example =
    update_acked (codes "pc") (codes "phone") snapshot (served (env ∷ env ∷ []) active_state)
      session_a timely env (answered_in env ∷ []) (answered_in env, refl, refl, refl) takes

finish_acked_example :
    ((handle_client_message request
        (codes "pc")
        (codes "phone")
        (ClientMessage.finish snapshot)
        (served (env ∷ env ∷ []) active_state)).1.frames
      ≡ ServerMessage.ack (codes "a") (pos 2) ServerSessionState.finished ∷ [])
    × IsCompletedAt
        (codes "a")
        (pos 2)
        (codes "hi!")
        (handle_client_message request
          (codes "pc")
          (codes "phone")
          (ClientMessage.finish snapshot)
          (served (env ∷ env ∷ []) active_state)).1.injector.state.completed
finish_acked_example =
    finish_acked (codes "pc") (codes "phone") snapshot (served (env ∷ env ∷ []) active_state)
      session_a timely env env (answered_in env ∷ []) [] (answered_in env, refl, refl, refl)
      (answered_in env, refl, refl) takes refl

same : IsSame snapshot resume
unfolding validate_snapshot validate_resume text_eq utf8
same = record {
  sound = refl;
  sound_resume = refl;
  plain = refl;
  phone = refl;
  named = refl;
  numbered = refl;
  text = refl;
}

abbrev once_finished : World Served
once_finished =
    (handle_client_message request (codes "pc") (codes "phone") (ClientMessage.finish snapshot)
      (served (env ∷ env ∷ env ∷ []) active_state)).1

finish_again_example :
    ((handle_client_message request
        (codes "pc")
        (codes "phone")
        (ClientMessage.finish snapshot)
        once_finished).1.frames
      ≡ ServerMessage.target (codes "a") TargetState.invalid none ∷ once_finished.frames)
    × ((handle_client_message request
          (codes "pc")
          (codes "phone")
          (ClientMessage.resume resume)
          once_finished).1.frames
        ≡ ServerMessage.ack (codes "a") (pos 2) ServerSessionState.finished ∷ once_finished.frames)
unfolding request handle_client_message handle_request validate_snapshot text_eq utf8
    handle_snapshot apply_snapshot finish_applied
finish_again_example =
    finish_again (codes "pc") snapshot resume same (ClientMessage.finish snapshot)
      (served (env ∷ env ∷ env ∷ []) active_state) env [] 2 refl refl refl
      (answered_in env, refl, refl, refl) refl

-- The pipe breaks while an update is handled, and the app connects to the same instance again.
abbrev broken_once : Served
broken_once = record {
  rounds = record (answered_in env) { first = breaks (some env) true } ∷ [];
  state = active_state;
  connected = true;
}

request_breaks_example : Fails (request (apply_state (codes "a") (pos 2) (codes "hi!")) broken_once)
request_breaks_example =
    request_breaks (some env) true (record (answered_in env) { first = breaks (some env) true }) []
      (apply_state (codes "a") (pos 2) (codes "hi!")) broken_once tt refl refl refl

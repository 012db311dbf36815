-- ===== src/Network/Acks.antt =====
-- Proofs about windows/flowtype-app/src/network_server.rs: what an acknowledgement means, for every
-- injector that keeps the contract of the interface `Contract`.
use flow_type.Prelude.{
  Text, ℤ, ◌≡◌, refl, Bool, Option, none, some, List, [], ◌∷◌, arith, text_eq_iff, int_eq_iff,
}
use flow_type.Injector.Ipc.{
  InjectorRequest, InjectorResponse, apply_state, finish_session, begin_session, session_finished,
}
use flow_type.Protocol.{ClientMessage, ServerMessage, Snapshot, Resume, ServerSessionState}
use flow_type.Network.World.{World, Reply, response, failure}
use flow_type.Network.Messages.{
  ask, Kind, update, finish, finish_applied, apply_snapshot, start_snapshot, handle_snapshot,
  handle_resume, handle_client_message,
}

-- What the handlers rely on. `Holds id seq text s`: the session `id` shows `text` as of `seq`.
-- `IsDone id seq text s`: that session is finished with `text` as of `seq`.
pub record Contract {S : Type 0} (request : InjectorRequest → S → Reply × S) : Type 1 where
  pub Holds : Text → ℤ → Text → S → Type 0
  pub IsDone : Text → ℤ → Text → S → Type 0
  pub applied_holds :
      (id : Text) (seq : ℤ) (text : Text) (s : S)
      → (request (apply_state id seq text) s).0 ≡ response (InjectorResponse.applied seq)
      → Holds id seq text (request (apply_state id seq text) s).1
  pub replayed_done :
      (id : Text) (seq n : ℤ) (text : Text) (s : S)
      → (request (apply_state id seq text) s).0 ≡ response (InjectorResponse.finished n)
      → (n ≡ seq) × IsDone id seq text (request (apply_state id seq text) s).1
  pub finished_done :
      (id : Text) (seq n : ℤ) (text : Text) (s : S)
      → Holds id seq text s
      → (request (finish_session id seq) s).0 ≡ response (InjectorResponse.finished n)
      → (n ≡ seq) × IsDone id seq text (request (finish_session id seq) s).1
  pub begun_done :
      (id : Text) (replaces : Option Text) (seq : ℤ) (text : Text) (attach : Bool) (s : S)
      → (request (begin_session id replaces seq text attach) s).0
        ≡ response (session_finished id seq text)
      → IsDone id seq text (request (begin_session id replaces seq text attach) s).1
  pub finished_number :
      (id : Text) (seq n : ℤ) (s : S)
      → (request (finish_session id seq) s).0 ≡ response (InjectorResponse.finished n)
      → n ≡ seq

-- The newest frame.
abbrev pub IsNewest : ServerMessage → List ServerMessage → Type 0
IsNewest m [] = ⊥
IsNewest m (newest ∷ older) = newest ≡ m

-- The session, the sequence number and the text that a message brings.
abbrev pub content : ClientMessage → Option (Text × ℤ × Text)
content (ClientMessage.start s) = some (s.session_id, s.sequence, s.full_text)
content (ClientMessage.update s) = some (s.session_id, s.sequence, s.full_text)
content (ClientMessage.finish s) = some (s.session_id, s.sequence, s.full_text)
content (ClientMessage.resume r) = some (r.session_id, r.sequence, r.full_text)
content _ = none

module _ {S : Type 0} (request : InjectorRequest → S → Reply × S) (c : Contract request) where
  open c use {
    begun_done, Holds, IsDone, applied_holds, replayed_done, finished_done, finished_number,
  }

  abbrev apply_of : Text → ℤ → Text → World S → Reply × S
  apply_of id seq text w = request (apply_state id seq text) w.injector

  finish_applied-number :
      (id : Text) (n m : ℤ) (w : World S)
      → w.frames ≡ []
      → IsNewest
          (ServerMessage.ack id m ServerSessionState.finished)
          (finish_applied request id n w).1.frames
      → m ≡ n
  unfolding finish_applied
  finish_applied-number id n m w f h = ground (arith, finished_number id n m w.injector)

  finish_applied-IsDone :
      (id : Text) (n : ℤ) (text : Text) (w : World S)
      → w.frames ≡ []
      → Holds id n text w.injector
      → IsNewest
          (ServerMessage.ack id n ServerSessionState.finished)
          (finish_applied request id n w).1.frames
      → IsDone id n text (finish_applied request id n w).1.injector
  unfolding finish_applied
  finish_applied-IsDone id n text w f o h = ground (arith, finished_done id n n text w.injector o)

  abbrev after_apply : Text → ℤ → Text → World S → World S
  after_apply id seq text w = (ask request (apply_state id seq text) w).1

  apply_finish-IsDone :
      (snap : Snapshot) (w : World S) (r : Reply)
      → w.frames ≡ []
      → (apply_of snap.session_id snap.sequence snap.full_text w).0 ≡ r
      → IsNewest
          (ServerMessage.ack snap.session_id snap.sequence ServerSessionState.finished)
          (apply_snapshot request finish snap w).1.frames
      → IsDone snap.session_id snap.sequence snap.full_text
          (apply_snapshot request finish snap w).1.injector
  unfolding apply_snapshot
  apply_finish-IsDone snap w (response (InjectorResponse.applied n)) f e h = ground (
    arith,
    finish_applied-number snap.session_id n snap.sequence
        (after_apply snap.session_id snap.sequence snap.full_text w),
    finish_applied-IsDone snap.session_id n snap.full_text
        (after_apply snap.session_id snap.sequence snap.full_text w),
    applied_holds snap.session_id snap.sequence snap.full_text w.injector,
  )
  apply_finish-IsDone snap w (response r) f e h = ground arith
  apply_finish-IsDone snap w (failure r) f e h = ground arith

  apply-Holds :
      (kind : Kind) (snap : Snapshot) (w : World S)
      → ¬ IsNewest
          (ServerMessage.ack snap.session_id snap.sequence ServerSessionState.active)
          w.frames
      → IsNewest
          (ServerMessage.ack snap.session_id snap.sequence ServerSessionState.active)
          (apply_snapshot request kind snap w).1.frames
      → Holds snap.session_id snap.sequence snap.full_text
          (apply_snapshot request kind snap w).1.injector
  unfolding apply_snapshot finish_applied
  apply-Holds kind snap w f h =
      ground (arith, applied_holds snap.session_id snap.sequence snap.full_text w.injector)

  start-Holds :
      (snap : Snapshot) (w : World S)
      → w.frames ≡ []
      → IsNewest
          (ServerMessage.ack snap.session_id snap.sequence ServerSessionState.active)
          (start_snapshot request snap w).1.frames
      → Holds snap.session_id snap.sequence snap.full_text
          (start_snapshot request snap w).1.injector
  unfolding start_snapshot apply_snapshot
  start-Holds snap w f h = ground (
    arith,
    applied_holds snap.session_id snap.sequence snap.full_text
        (request
          (begin_session snap.session_id snap.replaces_session_id snap.sequence snap.full_text
            snap.attach_existing)
          w.injector).1,
  )

  resume-Holds :
      (phone : Text) (m : Resume) (w : World S)
      → w.frames ≡ []
      → IsNewest
          (ServerMessage.ack m.session_id m.sequence ServerSessionState.active)
          (handle_resume request phone m w).1.frames
      → Holds m.session_id m.sequence m.full_text (handle_resume request phone m w).1.injector
  unfolding handle_resume finish_applied
  resume-Holds phone m w f h =
      ground (arith, applied_holds m.session_id m.sequence m.full_text w.injector)

  apply_update_unfinished :
      (snap : Snapshot) (w : World S)
      → w.frames ≡ []
      → ¬ IsNewest
          (ServerMessage.ack snap.session_id snap.sequence ServerSessionState.finished)
          (apply_snapshot request update snap w).1.frames
  unfolding apply_snapshot
  apply_update_unfinished snap w f h = ground arith

  resume-IsDone :
      (phone : Text) (m : Resume) (w : World S) (r : Reply)
      → w.frames ≡ []
      → (apply_of m.session_id m.sequence m.full_text w).0 ≡ r
      → IsNewest
          (ServerMessage.ack m.session_id m.sequence ServerSessionState.finished)
          (handle_resume request phone m w).1.frames
      → IsDone m.session_id m.sequence m.full_text (handle_resume request phone m w).1.injector
  unfolding handle_resume
  resume-IsDone phone m w (response (InjectorResponse.applied n)) f e h = ground (
    arith,
    finish_applied-number m.session_id n m.sequence
        (after_apply m.session_id m.sequence m.full_text w),
    finish_applied-IsDone m.session_id n m.full_text
        (after_apply m.session_id m.sequence m.full_text w),
    applied_holds m.session_id m.sequence m.full_text w.injector,
  )
  resume-IsDone phone m w (response (InjectorResponse.finished n)) f e h =
      ground (arith, replayed_done m.session_id m.sequence n m.full_text w.injector)
  resume-IsDone phone m w (response r) f e h = ground arith
  resume-IsDone phone m w (failure r) f e h = ground arith

  start-IsDone :
      (snap : Snapshot) (w : World S) (r : Reply)
      → w.frames ≡ []
      → (request
          (begin_session snap.session_id snap.replaces_session_id snap.sequence snap.full_text
            snap.attach_existing)
          w.injector).0
        ≡ r
      → IsNewest
          (ServerMessage.ack snap.session_id snap.sequence ServerSessionState.finished)
          (start_snapshot request snap w).1.frames
      → IsDone snap.session_id snap.sequence snap.full_text
          (start_snapshot request snap w).1.injector
  unfolding start_snapshot apply_snapshot
  start-IsDone snap w (response (session_finished i q t)) f e h = ground (
    arith,
    text_eq_iff i snap.session_id,
    int_eq_iff q snap.sequence,
    text_eq_iff t snap.full_text,
    begun_done snap.session_id snap.replaces_session_id snap.sequence snap.full_text
        snap.attach_existing w.injector,
  )
  start-IsDone snap w (response r) f e h = ground arith
  start-IsDone snap w (failure r) f e h = ground arith

  -- `m` brings `text` as of `seq` for the session `id`, and the newest frame that it delivers
  -- acknowledges `seq` as active: then the session `id` shows `text` as of `seq`.
  pub active_ack-Holds :
      (pc phone : Text) (m : ClientMessage) (id : Text) (seq : ℤ) (text : Text) (w : World S)
      → content m ≡ some (id, seq, text)
      → w.frames ≡ []
      → IsNewest
          (ServerMessage.ack id seq ServerSessionState.active)
          (handle_client_message request pc phone m w).1.frames
      → Holds id seq text (handle_client_message request pc phone m w).1.injector
  unfolding handle_client_message handle_snapshot
  active_ack-Holds pc phone (ClientMessage.start s) id seq text w e f h =
      ground (arith, start-Holds s w)
  active_ack-Holds pc phone (ClientMessage.update s) id seq text w e f h =
      ground (arith, apply-Holds update s w)
  active_ack-Holds pc phone (ClientMessage.finish s) id seq text w e f h =
      ground (arith, apply-Holds finish s w)
  active_ack-Holds pc phone (ClientMessage.resume r) id seq text w e f h =
      ground (arith, resume-Holds phone r w)
  active_ack-Holds pc phone _ id seq text w e f h = cc

  -- `m` brings `text` as of `seq` for the session `id`, and the newest frame that it delivers
  -- acknowledges `seq` as finished: then the session `id` is finished with `text` as of `seq`.
  pub finished_ack-IsDone :
      (pc phone : Text) (m : ClientMessage) (id : Text) (seq : ℤ) (text : Text) (w : World S)
      → content m ≡ some (id, seq, text)
      → w.frames ≡ []
      → IsNewest
          (ServerMessage.ack id seq ServerSessionState.finished)
          (handle_client_message request pc phone m w).1.frames
      → IsDone id seq text (handle_client_message request pc phone m w).1.injector
  unfolding handle_client_message handle_snapshot
  finished_ack-IsDone pc phone (ClientMessage.start s) id seq text w e f h =
      ground (arith, start-IsDone s w _ f refl)
  finished_ack-IsDone pc phone (ClientMessage.update s) id seq text w e f h =
      ground (arith, apply_update_unfinished s w)
  finished_ack-IsDone pc phone (ClientMessage.finish s) id seq text w e f h =
      ground (arith, apply_finish-IsDone s w _ f refl)
  finished_ack-IsDone pc phone (ClientMessage.resume r) id seq text w e f h =
      ground (arith, resume-IsDone phone r w _ f refl)
  finished_ack-IsDone pc phone _ id seq text w e f h = cc

-- ===== src/Network/Replays.antt =====
-- Proofs about windows/flowtype-app/src/network_server.rs over the injector: a snapshot that comes again
-- after its session was completed.
use flow_type.Prelude.{
  Text, ℤ, ℕ, suc, ◌≡◌, ◌∙◌, ap, inl, inr, false, none, some, List, [], ◌∷◌, arith, text_eq_refl,
  text_eq_iff, int_eq_iff, Option-cases,
}
use flow_type.Injector.Ipc.{InjectorResponse, apply_state}
use flow_type.Injector.Session.{Env, State}
use flow_type.Injector.Requests.{handle_request}
use flow_type.Injector.Replies.{IsCompletedAt}
use flow_type.Protocol.{
  ClientMessage, ServerMessage, Snapshot, Resume, ServerSessionState, TargetState,
}
use flow_type.Protocol.Validate.{valid, validate_snapshot, validate_resume}
use flow_type.Network.World.{World}
use flow_type.Network.Dispatcher.{Round, Served, request}
use flow_type.Network.Broken.{Meets, reached_answer}
use flow_type.Network.Acks.{IsNewest, content}
use flow_type.Network.Injected.{finished_ack-IsCompletedAt}
use flow_type.Network.Progress.{as_answered}
use flow_type.Network.Messages.{
  handle_client_message, handle_snapshot, handle_resume, apply_snapshot,
}

replays :
    (env : Env) (id : Text) (seq : ℤ) (text : Text) (s : State)
    → IsCompletedAt id seq text s.completed
    → handle_request env (apply_state id seq text) s ≡ (InjectorResponse.finished seq, s)
unfolding handle_request
replays env id seq text s h = elim (Option-cases s.completed) [
  | inl e ↦ ground (arith, e, h)
  | inr (c, e) ↦
      ground (arith, e, h, text_eq_iff c.id id, int_eq_iff c.sequence seq, text_eq_iff c.text text)
]

-- A valid `finish` and a valid `resume` that bring the same session, number and text.
pub record IsSame (snap : Snapshot) (r : Resume) : Type 0 where
  pub sound : validate_snapshot snap ≡ valid
  pub sound_resume : validate_resume r ≡ valid
  pub plain : snap.attach_existing ≡ false
  pub phone : r.phone_id ≡ snap.phone_id
  pub named : r.session_id ≡ snap.session_id
  pub numbered : r.sequence ≡ snap.sequence
  pub text : r.full_text ≡ snap.full_text

module _ (pc : Text) (snap : Snapshot) (r : Resume) (same : IsSame snap r) where
  finish_completed :
      (w : World Served) (env : Env) (rest : List Round) (k : ℕ)
      → Meets w.injector env rest
      → w.link ≡ suc k
      → IsCompletedAt snap.session_id snap.sequence snap.full_text w.injector.state.completed
      → ((handle_client_message request pc snap.phone_id (ClientMessage.finish snap) w).1.frames
          ≡ ServerMessage.target snap.session_id TargetState.invalid none ∷ w.frames)
        × ((handle_client_message request pc snap.phone_id (ClientMessage.resume r) w).1.frames
            ≡ ServerMessage.ack snap.session_id snap.sequence ServerSessionState.finished
              ∷ w.frames)
  unfolding handle_client_message handle_snapshot handle_resume apply_snapshot
  finish_completed w env rest k q l h =
      let asked =
        reached_answer env rest (apply_state snap.session_id snap.sequence snap.full_text)
          w.injector q
        ∙ ap (as_answered rest)
            (replays env snap.session_id snap.sequence snap.full_text w.injector.state h) in
      (
        ground (arith, asked, same.sound, same.plain, l, text_eq_refl snap.phone_id),
        ground (
          arith,
          asked,
          same.sound_resume,
          same.phone,
          same.named,
          same.numbered,
          same.text,
          l,
          text_eq_refl snap.phone_id,
        ),
      )

  -- The newest frame that a message delivers acknowledges a snapshot as finished. When a valid `finish`
  -- brings that snapshot again (no wish to attach, an answer of the injector, a websocket that takes a
  -- frame), it gets the frame "target invalid" and no acknowledgement; a valid `resume` with the same
  -- session, number and text is acknowledged as finished at that number.
  pub finish_again :
      (m : ClientMessage) (w : World Served) (env : Env) (rest : List Round) (k : ℕ)
      → content m ≡ some (snap.session_id, snap.sequence, snap.full_text)
      → w.frames ≡ []
      → IsNewest
          (ServerMessage.ack snap.session_id snap.sequence ServerSessionState.finished)
          (handle_client_message request pc snap.phone_id m w).1.frames
      → Meets (handle_client_message request pc snap.phone_id m w).1.injector env rest
      → (handle_client_message request pc snap.phone_id m w).1.link ≡ suc k
      → let after = (handle_client_message request pc snap.phone_id m w).1 in
        ((handle_client_message request pc snap.phone_id (ClientMessage.finish snap) after).1.frames
          ≡ ServerMessage.target snap.session_id TargetState.invalid none ∷ after.frames)
        × ((handle_client_message request pc snap.phone_id (ClientMessage.resume r) after).1.frames
            ≡ ServerMessage.ack snap.session_id snap.sequence ServerSessionState.finished
              ∷ after.frames)
  finish_again m w env rest k c f n q l =
      finish_completed (handle_client_message request pc snap.phone_id m w).1 env rest k q l (
        finished_ack-IsCompletedAt pc snap.phone_id m snap.session_id snap.sequence snap.full_text w
          c f n)

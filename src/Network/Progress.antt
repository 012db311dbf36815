-- ===== src/Network/Progress.antt =====
-- Proofs about windows/flowtype-app/src/network_server.rs over the injector: the acknowledgements
-- that do come, where Windows and the text service answer as they should.
use flow_type.Prelude.{
  ap, ◌∙◌, Text, ℤ, ℕ, suc, ◌≡◌, refl, true, false, none, some, List, ◌∷◌, arith, text_eq_refl,
  int_eq_iff, int_eq_refl, ◌<ℤ◌,
}
use flow_type.Tip.{TipCommand, TipResponse}
use flow_type.Injector.Ipc.{InjectorResponse, apply_state, finish_session}
use flow_type.Injector.Session.{Env, State, ActiveSession}
use flow_type.Injector.Requests.{handle_request}
use flow_type.Injector.Replies.{IsAt, IsCompletedAt}
use flow_type.Network.World.{World, Reply, response}
use flow_type.Network.Dispatcher.{Round, Served, request}
use flow_type.Network.Broken.{Answers, Meets, reached_answer}
use flow_type.Network.Messages.{
  handle_client_message, handle_snapshot, apply_snapshot, finish_applied,
}
use flow_type.Protocol.{ClientMessage, ServerMessage, ServerSessionState, Snapshot}
use flow_type.Protocol.Validate.{valid, validate_snapshot}

-- The window is there and in front, no other input came, and the text service takes the update.
pub record Takes (env : Env) (a : ActiveSession) (seq : ℤ) (text : Text) : Type 0 where
  pub exists : env.is_valid a.target ≡ true
  pub untouched : a.input_epoch ≡ env.epoch
  pub in_front : env.is_foreground a.target ≡ true
  pub newer : a.sequence <ℤ seq
  pub taken : env.send a.tip (TipCommand.update a.id seq text) ≡ some (TipResponse.applied a.id seq)

abbrev updated : ActiveSession → ℤ → Text → ActiveSession
updated a seq text = record a { sequence = seq; text = text }

injector_applies :
    (env : Env) (s : State) (a : ActiveSession) (seq : ℤ) (text : Text)
    → s.session ≡ some a
    → s.completed ≡ none
    → Takes env a seq text
    → handle_request env (apply_state a.id seq text) s ≡ (
      InjectorResponse.applied seq,
      record s {
        session = some (updated a seq text);
        sent = (a.tip, TipCommand.update a.id seq text) ∷ s.sent;
      },
    )
unfolding handle_request
injector_applies env s a seq text e c t = ground (
  arith,
  text_eq_refl a.id,
  int_eq_refl seq,
  int_eq_iff seq a.sequence,
  t.exists,
  t.untouched,
  t.in_front,
  t.newer,
  t.taken,
)

injector_finishes :
    (env : Env) (s : State) (a : ActiveSession)
    → s.session ≡ some a
    → env.send a.tip (TipCommand.finish a.id a.sequence)
      ≡ some (TipResponse.finished a.id a.sequence)
    → handle_request env (finish_session a.id a.sequence) s ≡ (
      InjectorResponse.finished a.sequence,
      record s {
        session = none;
        completed = some (record { id = a.id; sequence = a.sequence; text = a.text });
        sent = (a.tip, TipCommand.finish a.id a.sequence) ∷ s.sent;
      },
    )
unfolding handle_request
injector_finishes env s a e h = ground (arith, text_eq_refl a.id, int_eq_refl a.sequence)

abbrev pub as_answered : List Round → InjectorResponse × State → Reply × Served
as_answered rest p = (response p.0, record { rounds = rest; state = p.1; connected = true })

-- A snapshot of the authenticated phone for the active session, and a websocket that takes a frame.
pub record IsTimely (phone : Text) (snap : Snapshot) (w : World Served) (a : ActiveSession)
    : Type 0 where
  pub sound : validate_snapshot snap ≡ valid
  pub own : snap.phone_id ≡ phone
  pub plain : snap.attach_existing ≡ false
  pub named : snap.session_id ≡ a.id
  pub active : w.injector.state.session ≡ some a
  pub open_yet : w.injector.state.completed ≡ none
  pub capacity : ℕ
  pub link : w.link ≡ suc capacity

module _ (pc phone : Text) (snap : Snapshot) (w : World Served) (a : ActiveSession)
    (timely : IsTimely phone snap w a) where
  abbrev after_update : State
  after_update = record w.injector.state {
    session = some (updated a snap.sequence snap.full_text);
    sent = (a.tip, TipCommand.update a.id snap.sequence snap.full_text) ∷ w.injector.state.sent;
  }

  -- What the injector answers to the update of this snapshot.
  asked :
      (env : Env) (rest : List Round)
      → Meets w.injector env rest
      → Takes env a snap.sequence snap.full_text
      → request (apply_state snap.session_id snap.sequence snap.full_text) w.injector ≡ (
        response (InjectorResponse.applied snap.sequence),
        record { rounds = rest; state = after_update; connected = true },
      )
  asked env rest q t =
      ap (λ id. request (apply_state id snap.sequence snap.full_text) w.injector) timely.named
      ∙ reached_answer env rest (apply_state a.id snap.sequence snap.full_text) w.injector q
      ∙ ap (as_answered rest) (
          injector_applies env w.injector.state a snap.sequence snap.full_text timely.active
            timely.open_yet t)

  done :
      (first second : Env) (rest last : List Round)
      → Takes first a snap.sequence snap.full_text
      → Answers rest second last
      → second.send a.tip (TipCommand.finish a.id snap.sequence)
        ≡ some (TipResponse.finished a.id snap.sequence)
      → request
          (finish_session snap.session_id snap.sequence)
          (record { rounds = rest; state = after_update; connected = true })
        ≡ (
          response (InjectorResponse.finished snap.sequence),
          record {
            rounds = last;
            state = record after_update {
              session = none;
              completed =
                  some (record { id = a.id; sequence = snap.sequence; text = snap.full_text });
              sent = (a.tip, TipCommand.finish a.id snap.sequence) ∷ after_update.sent;
            };
            connected = true;
          },
        )
  done first second rest last t (m, q, h) f =
      let v : Served = record { rounds = rest; state = after_update; connected = true } in
      ap (λ id. request (finish_session id snap.sequence) v) timely.named
      ∙ reached_answer second last (finish_session a.id snap.sequence) v (m, q, refl, h)
      ∙ ap (as_answered last)
          (injector_finishes second after_update (updated a snap.sequence snap.full_text) refl f)

  -- A valid update of the authenticated phone, with no wish to attach, for the active session, where
  -- no completed session is remembered and the websocket takes a frame, the injector answers, the window
  -- is there and in front, no other input came, the number is larger and the text service takes the
  -- update: it is
  -- acknowledged as active, and the session then is at the update's number and text.
  pub update_acked :
      (env : Env) (rest : List Round)
      → Meets w.injector env rest
      → Takes env a snap.sequence snap.full_text
      → ((handle_client_message request pc phone (ClientMessage.update snap) w).1.frames
          ≡ ServerMessage.ack snap.session_id snap.sequence ServerSessionState.active ∷ w.frames)
        × IsAt snap.session_id snap.sequence snap.full_text
            (handle_client_message request pc phone
              (ClientMessage.update snap)
              w).1.injector.state.session
  unfolding handle_client_message handle_snapshot apply_snapshot
  update_acked env rest q t = (
    ground (
      arith,
      asked env rest q t,
      timely.sound,
      timely.own,
      timely.plain,
      timely.link,
      text_eq_refl phone,
    ),
    ground (
      arith,
      asked env rest q t,
      timely.sound,
      timely.own,
      timely.plain,
      timely.named,
      timely.link,
      text_eq_refl phone,
    ),
  )

  -- A valid finish of the authenticated phone, with no wish to attach, for the active session, where
  -- no completed session is remembered and the websocket takes a frame, the injector answers both
  -- requests, the window is there and in front, no other input came, the number is larger and the text
  -- service takes the final text and
  -- then the end: it is acknowledged as finished, and the session is completed with that number and
  -- text.
  pub finish_acked :
      (first second : Env) (rest last : List Round)
      → Meets w.injector first rest
      → Answers rest second last
      → Takes first a snap.sequence snap.full_text
      → second.send a.tip (TipCommand.finish a.id snap.sequence)
        ≡ some (TipResponse.finished a.id snap.sequence)
      → ((handle_client_message request pc phone (ClientMessage.finish snap) w).1.frames
          ≡ ServerMessage.ack snap.session_id snap.sequence ServerSessionState.finished ∷ w.frames)
        × IsCompletedAt snap.session_id snap.sequence snap.full_text
            (handle_client_message request pc phone
              (ClientMessage.finish snap)
              w).1.injector.state.completed
  unfolding handle_client_message handle_snapshot apply_snapshot finish_applied
  finish_acked first second rest last q l t f = (
    ground (
      arith,
      asked first rest q t,
      done first second rest last t l f,
      timely.sound,
      timely.own,
      timely.plain,
      timely.link,
      text_eq_refl phone,
    ),
    ground (
      arith,
      asked first rest q t,
      done first second rest last t l f,
      timely.sound,
      timely.own,
      timely.plain,
      timely.named,
      timely.link,
      text_eq_refl phone,
    ),
  )

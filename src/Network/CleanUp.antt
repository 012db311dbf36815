-- ===== src/Network/CleanUp.antt =====
-- Proofs about windows/flowtype-app/src/network_server.rs over the injector: which sessions are gone
-- once a connection has ended and its cleanup has run.
use flow_type.Prelude.{
  Text, ℤ, ◌≡◌, ◌≢◌, inl, inr, refl, ap, ◌∙◌, true, false, Option, none, some, List, [], ◌∷◌, arith,
  text_eq_iff, text_eq_refl, Option-cases,
}
use flow_type.Injector.Ipc.{target_not_foreground, cancel_invalid_session, apply_state}
use flow_type.Injector.Session.{Env, State, ActiveSession}
use flow_type.Injector.Requests.{handle_request}
use flow_type.Protocol.{ClientMessage, Snapshot}
use flow_type.Network.World.{Flow, done, broken, response}
use flow_type.Network.Dispatcher.{Round, Served, request}
use flow_type.Network.Broken.{Meets, reached_answer}
use flow_type.Network.Messages.{handle_client_message, handle_snapshot, apply_snapshot}
use flow_type.Network.Progress.{as_answered, IsTimely}
use flow_type.Network.Connection.{
  Connection, nothing, active, from_message, Event, incoming, tick, on_event, serve, clean_up,
}

-- No session of that name is active.
abbrev pub IsGone : Text → Option ActiveSession → Type 0
IsGone id none = Unit
IsGone id (some a) = a.id ≢ id

-- The event brings no message of a session.
abbrev pub IsQuiet : Event → Type 0
IsQuiet (incoming m superseded) = from_message m ≡ nothing
IsQuiet tick = Unit

abbrev pub AllQuiet : List Event → Type 0
AllQuiet [] = Unit
AllQuiet (e ∷ rest) = IsQuiet e × AllQuiet rest

cancel-IsGone :
    (env : Env) (id : Text) (s : State)
    → IsGone id (handle_request env (cancel_invalid_session id) s).1.session
unfolding handle_request
cancel-IsGone env id s = elim (Option-cases s.session) [
  | inl e ↦ ground (arith)
  | inr (a, e) ↦ ground (arith, text_eq_iff a.id id)
]

clean_up-IsGone :
    (pc phone id : Text) (c : Connection Served) (env : Env) (rest : List Round)
    → c.input_session ≡ some id
    → Meets c.world.injector env rest
    → IsGone id (clean_up request pc phone false c).injector.state.session
unfolding clean_up
clean_up-IsGone pc phone id c env rest i q = ground (
  arith,
  reached_answer env rest (cancel_invalid_session id) c.world.injector q,
  cancel-IsGone env id c.world.injector.state,
)

not_in_front :
    (env : Env) (s : State) (a : ActiveSession) (seq : ℤ) (text : Text)
    → s.session ≡ some a
    → s.completed ≡ none
    → env.is_valid a.target ≡ true
    → a.input_epoch ≡ env.epoch
    → env.is_foreground a.target ≡ false
    → handle_request env (apply_state a.id seq text) s
      ≡ (target_not_foreground (env.title a.target), s)
unfolding handle_request
not_in_front env s a seq text e c v u f = ground (arith, text_eq_refl a.id)

module _ (pc phone : Text) where
  quiet_keeps :
      (e : Event) (c : Connection Served)
      → IsQuiet e
      → (on_event request pc phone e c).1.input_session ≡ c.input_session
  unfolding on_event
  quiet_keeps (incoming m superseded) c h = ground arith
  quiet_keeps tick c h = ground arith

  serve_keeps :
      (events : List Event) (c : Connection Served)
      → AllQuiet events
      → (serve request pc phone events c).input_session ≡ c.input_session
  unfolding serve
  serve_keeps [] c h = refl
  serve_keeps (e ∷ rest) c h =
      ground (arith, quiet_keeps e c h.0, serve_keeps rest (on_event request pc phone e c).1 h.1)

  active_tracks :
      (m : ClientMessage) (id : Text) (c : Connection Served)
      → from_message m ≡ active id
      → (on_event request pc phone (incoming m false) c).1.input_session ≡ some id
  unfolding on_event
  active_tracks m id c h = ground arith

  -- A start, an update or an active resume names a session, and only probes, health checks, switch
  -- acknowledgements and polls follow it until the connection ends. Then no session of that name is
  -- active once the cleanup has run, where no other connection of the phone has taken over and the
  -- injector answers it.
  pub clean_up_ends :
      (m : ClientMessage) (id : Text) (events : List Event) (c : Connection Served) (env : Env)
      (rest : List Round)
      → from_message m ≡ active id
      → AllQuiet events
      → Meets (serve request pc phone (incoming m false ∷ events) c).world.injector env rest
      → IsGone id
          (clean_up request pc phone false
            (serve request pc phone (incoming m false ∷ events) c)).injector.state.session
  unfolding serve
  clean_up_ends m id events c env rest k h q =
      clean_up-IsGone pc phone id (serve request pc phone (incoming m false ∷ events) c) env rest
        (ended (on_event request pc phone (incoming m false) c).0 refl) q
    where
      ended :
          (flow : Flow)
          → (on_event request pc phone (incoming m false) c).0 ≡ flow
          → (serve request pc phone (incoming m false ∷ events) c).input_session ≡ some id
      ended broken e = ground (arith, e, active_tracks m id c k)
      ended done e = ground (
        arith,
        e,
        active_tracks m id c k,
        serve_keeps events (on_event request pc phone (incoming m false) c).1 h,
      )

  abbrev finished_at : Snapshot → Connection Served → Flow × Connection Served
  finished_at snap c = on_event request pc phone (incoming (ClientMessage.finish snap) false) c

  away :
      (snap : Snapshot) (c : Connection Served) (a : ActiveSession) (env : Env) (rest : List Round)
      → IsTimely phone snap c.world a
      → Meets c.world.injector env rest
      → env.is_valid a.target ≡ true
      → a.input_epoch ≡ env.epoch
      → env.is_foreground a.target ≡ false
      → request (apply_state snap.session_id snap.sequence snap.full_text) c.world.injector ≡ (
        response (target_not_foreground (env.title a.target)),
        record { rounds = rest; state = c.world.injector.state; connected = true },
      )
  away snap c a env rest t q v u f =
      ap (λ id. request (apply_state id snap.sequence snap.full_text) c.world.injector) t.named
      ∙ reached_answer env rest (apply_state a.id snap.sequence snap.full_text) c.world.injector q
      ∙ ap (as_answered rest) (
          not_in_front env c.world.injector.state a snap.sequence snap.full_text t.active t.open_yet
            v u f)

  -- A valid finish of the authenticated phone for the active session (no wish to attach, no completed
  -- session remembered, a websocket that takes a frame, an injector that answers) that finds its window in the background, with
  -- no other input since the session began: the connection goes on and so does the session, but the
  -- connection no longer tracks it, so that it is still active after the connection's cleanup.
  pub finish_untracks :
      (snap : Snapshot) (c : Connection Served) (a : ActiveSession) (env : Env) (rest : List Round)
      → IsTimely phone snap c.world a
      → Meets c.world.injector env rest
      → env.is_valid a.target ≡ true
      → a.input_epoch ≡ env.epoch
      → env.is_foreground a.target ≡ false
      → ((finished_at snap c).0 ≡ done)
        × ((finished_at snap c).1.input_session ≡ none)
        × ((clean_up request pc phone false (finished_at snap c).1).injector.state.session ≡ some a)
  unfolding on_event handle_client_message handle_snapshot apply_snapshot clean_up
  finish_untracks snap c a env rest t q v u f = (
    ground (
      arith,
      away snap c a env rest t q v u f,
      t.sound,
      t.own,
      t.plain,
      t.named,
      t.link,
      text_eq_refl phone,
      text_eq_refl snap.session_id,
    ),
    ground (
      arith,
      away snap c a env rest t q v u f,
      t.sound,
      t.own,
      t.plain,
      t.named,
      t.link,
      text_eq_refl phone,
      text_eq_refl snap.session_id,
    ),
    ground (
      arith,
      away snap c a env rest t q v u f,
      t.sound,
      t.own,
      t.plain,
      t.named,
      t.link,
      text_eq_refl phone,
      text_eq_refl snap.session_id,
    ),
  )

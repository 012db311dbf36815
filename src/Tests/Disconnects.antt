-- ===== src/Tests/Disconnects.antt =====
-- The theorems about the end of a connection, at one connection each.
use flow_type.Prelude.{◌≡◌, refl, true, false, none, some, [], ◌∷◌, codes, text_eq, utf8}
use flow_type.Injector.Session.{Env}
use flow_type.Injector.Requests.{handle_request}
use flow_type.Network.World.{done}
use flow_type.Network.Messages.{handle_client_message, handle_snapshot, apply_snapshot}
use flow_type.Network.Dispatcher.{Served, request}
use flow_type.Network.Progress.{IsTimely}
use flow_type.Network.Connection.{Connection, incoming, tick, on_event, serve, clean_up}
use flow_type.Network.CleanUp.{IsGone, clean_up_ends, finish_untracks}
use flow_type.Protocol.{ClientMessage}
use flow_type.Protocol.Validate.{validate_snapshot}
use flow_type.Tests.Fixtures.{env, answered_in, session_a, active_state, served, snapshot}

abbrev connection : Connection Served
connection = record {
  world = served (env ∷ env ∷ env ∷ []) active_state;
  input_session = none;
  monitored_session = none;
  active_lease = true;
}

clean_up_ends_example :
    IsGone
      (codes "a")
      (clean_up request (codes "pc") (codes "phone") false (
        serve request
          (codes "pc")
          (codes "phone")
          (incoming (ClientMessage.update snapshot) false ∷ tick ∷ [])
          connection)).injector.state.session
unfolding serve request handle_client_message handle_snapshot apply_snapshot handle_request
    validate_snapshot text_eq utf8
clean_up_ends_example =
    clean_up_ends (codes "pc") (codes "phone") (ClientMessage.update snapshot) (codes "a")
      (tick ∷ []) connection env [] refl (tt, tt) (answered_in env, refl, refl, refl)

abbrev background : Env
background = record env { is_foreground = λ w. false }

abbrev in_background : Connection Served
in_background = record connection { world = served (background ∷ []) active_state }

timely : IsTimely (codes "phone") snapshot in_background.world session_a
unfolding validate_snapshot text_eq utf8
timely = record {
  sound = refl;
  own = refl;
  plain = refl;
  named = refl;
  active = refl;
  open_yet = refl;
  capacity = 3;
  link = refl;
}

finish_untracks_example :
    ((on_event request
        (codes "pc")
        (codes "phone")
        (incoming (ClientMessage.finish snapshot) false)
        in_background).0
      ≡ done)
    × ((on_event request
          (codes "pc")
          (codes "phone")
          (incoming (ClientMessage.finish snapshot) false)
          in_background).1.input_session
        ≡ none)
    × ((clean_up request
          (codes "pc")
          (codes "phone")
          false
          (on_event request
            (codes "pc")
            (codes "phone")
            (incoming (ClientMessage.finish snapshot) false)
            in_background).1).injector.state.session
        ≡ some session_a)
finish_untracks_example =
    finish_untracks (codes "pc") (codes "phone") snapshot in_background session_a background []
      timely (answered_in background, refl, refl, refl) refl refl refl

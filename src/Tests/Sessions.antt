-- ===== src/Tests/Sessions.antt =====
-- The injector's theorems, at one session.
use flow_type.Prelude.{
  ℤ, pos, ◌≡◌, ◌≢◌, ◌⊎◌, refl, false, none, some, [], ◌∷◌, codes, arith, text_eq,
}
use flow_type.Tip.{TipCommand}
use flow_type.Injector.Ipc.{InjectorResponse, apply_state, begin_session}
use flow_type.Injector.Requests.{handle_request, serve_connection}
use flow_type.Injector.Lifecycle.{Fate, handle_request-Fate}
use flow_type.Injector.Replies.{IsAt, begin_over_active, input_stops_updates}
use flow_type.Injector.Teardown.{IsFinishedBy, WasSent, serve_connection-settles}
use flow_type.Tests.Fixtures.{env, env_at, session_a, active_state, key}

handle_request-Fate_example :
    Fate session_a
      (handle_request env (apply_state (codes "a") (pos 2) (codes "hi!")) active_state).0
      (handle_request env (apply_state (codes "a") (pos 2) (codes "hi!")) active_state).1
handle_request-Fate_example =
    handle_request-Fate env (apply_state (codes "a") (pos 2) (codes "hi!")) active_state session_a
      refl

begin_over_active_example :
    ((session_a.id ≡ codes "b")
      × ((handle_request env
            (begin_session (codes "b") (some (codes "a")) (pos 1) (codes "yo") false)
            active_state).1
          ≡ active_state))
    ⊎ ((some (codes "a") ≡ some session_a.id)
        × IsAt
            (codes "b")
            (pos 1)
            (codes "yo")
            (handle_request env
              (begin_session (codes "b") (some (codes "a")) (pos 1) (codes "yo") false)
              active_state).1.session)
unfolding handle_request text_eq
begin_over_active_example =
    begin_over_active env (codes "b") (some (codes "a")) (pos 1) (codes "yo") (codes "Notes") false
      active_state session_a refl refl

input_stops_updates_example :
    ((n : ℤ)
      → (handle_request (env_at 4) (apply_state (codes "a") (pos 2) (codes "hi!")) active_state).0
        ≢ InjectorResponse.applied n)
    × (((handle_request (env_at 4) (apply_state (codes "a") (pos 2) (codes "hi!")) active_state).1
          ≡ active_state)
        ⊎ ((handle_request
              (env_at 4)
              (apply_state (codes "a") (pos 2) (codes "hi!"))
              active_state).1
            ≡ record active_state {
              session = none;
              sent = (session_a.tip, TipCommand.cancel session_a.id) ∷ [];
            }))
input_stops_updates_example =
    input_stops_updates (env_at 4) (codes "a") (pos 2) (codes "hi!") active_state session_a refl
      refl (ground arith)

serve_connection-settles_example :
    IsFinishedBy session_a ((env, apply_state (codes "a") (pos 2) (codes "hi!")) ∷ []) active_state
    ⊎ WasSent
        (key, TipCommand.cancel (codes "a"))
        (serve_connection
          ((env, apply_state (codes "a") (pos 2) (codes "hi!")) ∷ [])
          active_state).sent
serve_connection-settles_example =
    serve_connection-settles ((env, apply_state (codes "a") (pos 2) (codes "hi!")) ∷ [])
      active_state session_a refl

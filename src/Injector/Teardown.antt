-- ===== src/Injector/Teardown.antt =====
-- Proofs about windows/flowtype-injector/src/main.rs: no session outlives its connection.
use flow_type.Prelude.{
  subst, ◌∙◌, ◌≡◌, refl, ◌⊎◌, inl, inr, Option, none, some, List, [], ◌∷◌, arith, Option-cases,
}
use flow_type.Tip.{TipCommand}
use flow_type.Injector.Ipc.{
  InjectorRequest, InjectorResponse, hello, apply_state, begin_session, finish_session,
  query_session, probe_target, cancel_invalid_session,
}
use flow_type.Injector.Session.{TipKey, Env, ActiveSession, State, end_failed_session}
use flow_type.Injector.Requests.{handle_request, serve_connection, serve_requests}
use flow_type.Injector.Lifecycle.{IsKept, IsCancelled, Fate, handle_request-Fate}

abbrev pub WasSent : TipKey × TipCommand → List (TipKey × TipCommand) → Type 0
WasSent c [] = ⊥
WasSent c (last ∷ older) = (last ≡ c) ⊎ WasSent c older

sent_grows :
    (c : TipKey × TipCommand) (env : Env) (request : InjectorRequest) (s : State)
    → WasSent c s.sent
    → WasSent c (handle_request env request s).1.sent
unfolding handle_request
sent_grows c env hello s h = h
sent_grows c env (begin_session id replaces seq text attach) s h = ground arith
sent_grows c env (apply_state id seq text) s h = ground arith
sent_grows c env (finish_session id seq) s h = ground arith
sent_grows c env (query_session id) s h = ground arith
sent_grows c env probe_target s h = h
sent_grows c env (cancel_invalid_session id) s h = ground arith

WasSent-serve :
    (c : TipKey × TipCommand) (requests : List (Env × InjectorRequest)) (s : State)
    → WasSent c s.sent
    → WasSent c (serve_requests requests s).sent
unfolding serve_requests
WasSent-serve c [] s h = h
WasSent-serve c ((env, request) ∷ rest) s h =
    WasSent-serve c rest (handle_request env request s).1 (sent_grows c env request s h)

WasSent-close :
    (c : TipKey × TipCommand) (s : State) → WasSent c s.sent → WasSent c (end_failed_session s).sent
unfolding end_failed_session
WasSent-close c s h = ground arith

-- `response` finishes the session that has the name and the text service of `a`.
abbrev pub Finishes : ActiveSession → Option ActiveSession → InjectorResponse → Type 0
Finishes a none response = ⊥
Finishes a (some b) response =
    (b.id ≡ a.id) × (b.tip ≡ a.tip) × (response ≡ InjectorResponse.finished b.sequence)

-- One of the requests finishes the session of `a`.
abbrev pub IsFinishedBy : ActiveSession → List (Env × InjectorRequest) → State → Type 0
IsFinishedBy a [] s = ⊥
IsFinishedBy a ((env, request) ∷ rest) s =
    Finishes a s.session (handle_request env request s).0
    ⊎ IsFinishedBy a rest (handle_request env request s).1

module _ (a b : ActiveSession) (i : b.id ≡ a.id) (t : b.tip ≡ a.tip) where
  IsCancelled-WasSent :
      (s : State) → IsCancelled b s.sent → WasSent (a.tip, TipCommand.cancel a.id) s.sent
  IsCancelled-WasSent s h = ground arith

  settles_step :
      (rest : List (Env × InjectorRequest)) (response : InjectorResponse) (next : State)
      → Fate b response next
      → ((c : ActiveSession)
          → next.session ≡ some c
          → c.id ≡ a.id
          → c.tip ≡ a.tip
          → IsFinishedBy a rest next
            ⊎ WasSent (a.tip, TipCommand.cancel a.id) (serve_connection rest next).sent)
      → (Finishes a (some b) response ⊎ IsFinishedBy a rest next)
        ⊎ WasSent (a.tip, TipCommand.cancel a.id) (serve_connection rest next).sent
  unfolding serve_connection
  settles_step rest response next (inl kept) ih = elim (Option-cases next.session) [
    | inl e ↦ absurd (subst (IsKept b) e kept)
    | inr (c, e) ↦
        let k = subst (IsKept b) e kept in
        elim (ih c e (k.0 ∙ i) (k.1 ∙ t)) [ inl f ↦ inl (inr f) | inr w ↦ inr w ]
  ]
  settles_step rest response next (inr (inl f)) ih = inl (inl (i, t, f.0))
  settles_step rest response next (inr (inr c)) ih = inr (
      WasSent-close _ (serve_requests rest next)
        (WasSent-serve _ rest next (IsCancelled-WasSent next c)))

settles :
    (requests : List (Env × InjectorRequest)) (s : State) (a b : ActiveSession)
    → s.session ≡ some b
    → b.id ≡ a.id
    → b.tip ≡ a.tip
    → IsFinishedBy a requests s
      ⊎ WasSent (a.tip, TipCommand.cancel a.id) (serve_connection requests s).sent
unfolding serve_requests serve_connection end_failed_session
settles [] s a b e i t = ground arith
settles ((env, request) ∷ rest) s a b e i t = simp e (
    settles_step a b i t rest (handle_request env request s).0 (handle_request env request s).1
      (handle_request-Fate env request s b e)
      (λ c h j k. settles rest (handle_request env request s).1 a c h j k))

-- However a connection's requests go, a session that is active in it is finished by one of the
-- later requests, or its `Cancel` is sent to its own text service by the time the connection is torn down.
pub serve_connection-settles :
    (requests : List (Env × InjectorRequest)) (s : State) (a : ActiveSession)
    → s.session ≡ some a
    → IsFinishedBy a requests s
      ⊎ WasSent (a.tip, TipCommand.cancel a.id) (serve_connection requests s).sent
serve_connection-settles requests s a e = settles requests s a a e refl refl

-- The next connection starts with no active and no completed session.
pub serve_connection-idle :
    (requests : List (Env × InjectorRequest)) (s : State)
    → ((serve_connection requests s).session ≡ none)
      × ((serve_connection requests s).completed ≡ none)
unfolding serve_connection
serve_connection-idle requests s = (ground arith, refl)

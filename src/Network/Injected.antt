-- ===== src/Network/Injected.antt =====
-- Proofs about windows/flowtype-app/src/network_server.rs, over the dispatcher of
-- windows/flowtype-app/src/injector_dispatcher.rs and the injector of
-- windows/flowtype-injector/src/main.rs.
use flow_type.Prelude.{inl, inr, ap, sym, subst, Text, ℤ, ◌≡◌, Bool, Option, some, [], arith}
use flow_type.Injector.Ipc.{
  InjectorRequest, InjectorResponse, apply_state, finish_session, begin_session, session_finished,
}
use flow_type.Injector.Session.{Env, State}
use flow_type.Injector.Requests.{handle_request}
use flow_type.Injector.Replies.{
  IsAt, IsCompletedAt, apply-IsAt, apply-IsCompletedAt, begin-IsCompletedAt, finish-IsCompletedAt,
  finish-number,
}
use flow_type.Network.World.{World, Reply, response, failure}
use flow_type.Network.Dispatcher.{Served, request}
use flow_type.Network.Unsettled.{IsContent, IsFailure}
use flow_type.Network.Broken.{content_cases, begin_cases}
use flow_type.Network.Acks.{Contract, IsNewest, content, active_ack-Holds, finished_ack-IsDone}
use flow_type.Network.Messages.{handle_client_message}
use flow_type.Protocol.{ClientMessage, ServerMessage, ServerSessionState}

abbrev pub Holds : Text → ℤ → Text → Served → Type 0
Holds id seq text v = IsAt id seq text v.state.session

abbrev pub IsDone : Text → ℤ → Text → Served → Type 0
IsDone id seq text v = IsCompletedAt id seq text v.state.completed

no_failure : (q : Reply) (x : InjectorResponse) → q ≡ response x → IsFailure q → ⊥
no_failure (response y) x h k = k
no_failure (failure f) x h k = ground (arith, h)

same_answer : (x y : InjectorResponse) (q : Reply) → q ≡ response y → q ≡ response x → y ≡ x
same_answer x y q h k = ground (arith, h, k)

-- An update or a finish that is answered was answered by the injector, in the state in which it was.
content_answer :
    (r : InjectorRequest) (v : Served) (x : InjectorResponse)
    → IsContent r
    → (request r v).0 ≡ response x
    → (env : Env) × ((handle_request env r v.state).0 ≡ x)
      × ((request r v).1.state ≡ (handle_request env r v.state).1)
content_answer r v x k h = elim (content_cases r v k) [
  | inr f ↦ elim (no_failure (request r v).0 x h f) [ ]
  | inl (env, rest, p) ↦ (
    env,
    same_answer x (handle_request env r v.state).0 (request r v).0
        (ap (λ (q : Reply × Served). q.0) p) h,
    ap (λ (q : Reply × Served). q.1.state) p,
  )
]

applied-Holds :
    (id : Text) (seq : ℤ) (text : Text) (v : Served)
    → (request (apply_state id seq text) v).0 ≡ response (InjectorResponse.applied seq)
    → Holds id seq text (request (apply_state id seq text) v).1
applied-Holds id seq text v h =
    let (env, p, q) =
      content_answer (apply_state id seq text) v (InjectorResponse.applied seq) tt h in
    subst (λ (s : State). IsAt id seq text s.session)
      {x = (handle_request env (apply_state id seq text) v.state).1}
      {y = (request (apply_state id seq text) v).1.state} (sym q)
      (apply-IsAt env id seq text v.state p)

replayed-IsDone :
    (id : Text) (seq n : ℤ) (text : Text) (v : Served)
    → (request (apply_state id seq text) v).0 ≡ response (InjectorResponse.finished n)
    → (n ≡ seq) × IsDone id seq text (request (apply_state id seq text) v).1
replayed-IsDone id seq n text v h =
    let (env, p, q) =
      content_answer (apply_state id seq text) v (InjectorResponse.finished n) tt h in
    let k = apply-IsCompletedAt env id seq n text v.state p in
    (
      k.0,
      subst (λ (s : State). IsCompletedAt id seq text s.completed)
          {x = (handle_request env (apply_state id seq text) v.state).1}
          {y = (request (apply_state id seq text) v).1.state} (sym q) k.1,
    )

finished_number :
    (id : Text) (seq n : ℤ) (v : Served)
    → (request (finish_session id seq) v).0 ≡ response (InjectorResponse.finished n)
    → n ≡ seq
finished_number id seq n v h =
    let (env, p, q) = content_answer (finish_session id seq) v (InjectorResponse.finished n) tt h in
    finish-number env id seq n v.state p

finished-IsDone :
    (id : Text) (seq n : ℤ) (text : Text) (v : Served)
    → Holds id seq text v
    → (request (finish_session id seq) v).0 ≡ response (InjectorResponse.finished n)
    → (n ≡ seq) × IsDone id seq text (request (finish_session id seq) v).1
finished-IsDone id seq n text v o h =
    let (env, p, q) = content_answer (finish_session id seq) v (InjectorResponse.finished n) tt h in
    (
      finish-number env id seq n v.state p,
      subst (λ (s : State). IsCompletedAt id seq text s.completed)
          {x = (handle_request env (finish_session id seq) v.state).1}
          {y = (request (finish_session id seq) v).1.state} (sym q)
          (finish-IsCompletedAt env id seq n text v.state o p),
    )

begun-IsDone :
    (id : Text) (replaces : Option Text) (seq : ℤ) (text : Text) (attach : Bool) (v : Served)
    → (request (begin_session id replaces seq text attach) v).0
      ≡ response (session_finished id seq text)
    → IsDone id seq text (request (begin_session id replaces seq text attach) v).1
begun-IsDone id replaces seq text attach v h =
    let r = begin_session id replaces seq text attach in
    elim (begin_cases id replaces seq text attach v) [
      | inr f ↦ elim (no_failure (request r v).0 (session_finished id seq text) h f) [ ]
      | inl (env, s, p, q) ↦
          subst (λ (t : State). IsCompletedAt id seq text t.completed)
            {x = (handle_request env r s).1} {y = (request r v).1.state} (sym q)
            (begin-IsCompletedAt env id id replaces seq seq text text attach s (
              same_answer (session_finished id seq text) (handle_request env r s).0 (request r v).0
                p h)).1
    ]

-- The injector keeps the contract: `Holds` is its active session, `IsDone` its completed one.
pub injector-Contract : Contract request
injector-Contract = record {
  Holds = Holds;
  IsDone = IsDone;
  applied_holds = applied-Holds;
  replayed_done = replayed-IsDone;
  finished_done = finished-IsDone;
  begun_done = begun-IsDone;
  finished_number = finished_number;
}

-- With the app's handlers over the dispatcher and the injector: `m` brings `text` as of `seq` for the session `id`, and
-- the newest frame that it delivers acknowledges `seq` as active. Then the injector's active session
-- is `id`, at `seq` with exactly `text`.
pub active_ack-IsAt :
    (pc phone : Text) (m : ClientMessage) (id : Text) (seq : ℤ) (text : Text) (w : World Served)
    → content m ≡ some (id, seq, text)
    → w.frames ≡ []
    → IsNewest
        (ServerMessage.ack id seq ServerSessionState.active)
        (handle_client_message request pc phone m w).1.frames
    → IsAt id seq text (handle_client_message request pc phone m w).1.injector.state.session
unfolding injector-Contract
active_ack-IsAt = active_ack-Holds request injector-Contract

-- With the app's handlers over the dispatcher and the injector: `m` brings `text` as of `seq` for the session `id`, and
-- the newest frame that it delivers acknowledges `seq` as finished. Then the injector's completed
-- session is `id`, at `seq` with exactly `text`.
pub finished_ack-IsCompletedAt :
    (pc phone : Text) (m : ClientMessage) (id : Text) (seq : ℤ) (text : Text) (w : World Served)
    → content m ≡ some (id, seq, text)
    → w.frames ≡ []
    → IsNewest
        (ServerMessage.ack id seq ServerSessionState.finished)
        (handle_client_message request pc phone m w).1.frames
    → IsCompletedAt id seq text
        (handle_client_message request pc phone m w).1.injector.state.completed
unfolding injector-Contract
finished_ack-IsCompletedAt = finished_ack-IsDone request injector-Contract

-- ===== src/Network/Broken.antt =====
-- Proofs about windows/flowtype-app/src/injector_dispatcher.rs: what a request comes to, answered or
-- broken off.
use flow_type.Prelude.{
  Text, ℤ, ◌≡◌, ◌⊎◌, inl, inr, refl, sym, ap, ◌∙◌, subst, arith, Bool, true, false, ◌||◌, Option,
  none, some, List, [], ◌∷◌, Bool-cases,
}
use flow_type.Injector.Ipc.{InjectorRequest, InjectorResponse, begin_session}
use flow_type.Injector.Session.{Env, State}
use flow_type.Injector.Requests.{handle_request}
use flow_type.Network.World.{Reply, response}
use flow_type.Network.Dispatcher.{
  Attempt, answers, breaks, attempt, sent_again, reconcile_injector_request, Round, Served, settled,
  recovered, tried, request_blocking, request_with, request,
}
use flow_type.Network.Unsettled.{
  IsEmpty, IsFailure, IsContent, Fails, breaks-IsEmpty, recovered-Fails,
}

-- The answer of the injector, as the request brings it.
abbrev pub answered_by : Env → List Round → InjectorRequest → State → Reply × Served
answered_by env rest r s = (
  response (handle_request env r s).0,
  record { rounds = rest; state = (handle_request env r s).1; connected = true },
)

request-tried :
    (m : Round) (rest : List Round) (r : InjectorRequest) (v : Served)
    → v.rounds ≡ m ∷ rest
    → (v.connected || m.connects) ≡ true
    → request r v ≡ tried m rest r (attempt m.first r v.state).0 (attempt m.first r v.state).1
unfolding request request_with request_blocking
request-tried m rest r v q c = ap (λ rounds. request_with rounds r v) q ∙ ground (arith, c)

-- Where the first attempt is answered, the request brings that answer.
request_answers :
    (env : Env) (m : Round) (rest : List Round) (r : InjectorRequest) (v : Served)
    → v.rounds ≡ m ∷ rest
    → (v.connected || m.connects) ≡ true
    → m.first ≡ answers env
    → request r v ≡ answered_by env rest r v.state
unfolding attempt
request_answers env m rest r v q c f =
    request-tried m rest r v q c
    ∙ ap (λ a. tried m rest r (attempt a r v.state).0 (attempt a r v.state).1) f

-- The next request has an attempt that the injector answers, in `env`; `rest` is left then.
abbrev pub Answers : List Round → Env → List Round → Type 0
Answers rounds env rest = (m : Round) × (rounds ≡ m ∷ rest) × (m.first ≡ answers env)

-- So, and the app has a connection or makes one.
abbrev pub Meets : Served → Env → List Round → Type 0
Meets v env rest =
    (m : Round) × (v.rounds ≡ m ∷ rest)
    × ((v.connected || m.connects) ≡ true)
    × (m.first ≡ answers env)

pub reached_answer :
    (env : Env) (rest : List Round) (r : InjectorRequest) (v : Served)
    → Meets v env rest
    → request r v ≡ answered_by env rest r v.state
reached_answer env rest r v (m, q, c, f) = request_answers env m rest r v q c f

tried-Fails :
    (m : Round) (rest : List Round) (r : InjectorRequest) (o : Option InjectorResponse) (s : State)
    → IsContent r
    → o ≡ none
    → IsEmpty s
    → Fails (tried m rest r o s)
tried-Fails m rest r o s c p h =
    subst (λ x. Fails (tried m rest r x s)) {x = none} {y = o} (sym p)
      (recovered-Fails m rest r s c h)

-- Where the pipe breaks at the first attempt of an update or a finish (the app had a connection or made
-- one), the request fails, whatever the reconnection, the query and a second attempt meet; no session
-- is active then, and the injector remembers none.
pub request_breaks :
    (handled : Option Env) (survives : Bool) (m : Round) (rest : List Round) (r : InjectorRequest)
    (v : Served)
    → IsContent r
    → v.rounds ≡ m ∷ rest
    → (v.connected || m.connects) ≡ true
    → m.first ≡ breaks handled survives
    → Fails (request r v)
request_breaks handled survives m rest r v k q c f =
    let b = breaks-IsEmpty handled survives r v.state in
    let whole =
      request-tried m rest r v q c
      ∙ ap (λ a. tried m rest r (attempt a r v.state).0 (attempt a r v.state).1) f in
    subst Fails {y = request r v} (sym whole) (
      tried-Fails m rest r (attempt (breaks handled survives) r v.state).0
        (attempt (breaks handled survives) r v.state).1 k b.0 b.1)

Attempt-cases :
    (a : Attempt)
    → ((env : Env) × (a ≡ answers env))
      ⊎ ((handled : Option Env) × (survives : Bool) × (a ≡ breaks handled survives))
Attempt-cases (answers env) = inl (env, refl)
Attempt-cases (breaks handled survives) = inr (handled, survives, refl)

-- No connection, and no worker.
request_unreached :
    (m : Round) (rest : List Round) (r : InjectorRequest) (v : Served)
    → v.rounds ≡ m ∷ rest
    → (v.connected || m.connects) ≡ false
    → IsFailure (request r v).0
unfolding request request_with request_blocking
request_unreached m rest r v q c =
    subst (λ rounds. IsFailure (request_with rounds r v).0) (sym q) (ground (arith, c))

List-cases :
    (rounds : List Round)
    → (rounds ≡ []) ⊎ ((m : Round) × (rest : List Round) × (rounds ≡ m ∷ rest))
List-cases [] = inl refl
List-cases (m ∷ rest) = inr (m, rest, refl)

request_nobody : (r : InjectorRequest) (v : Served) → v.rounds ≡ [] → IsFailure (request r v).0
unfolding request request_with
request_nobody r v q = subst (λ rounds. IsFailure (request_with rounds r v).0) (sym q) tt

-- An update or a finish fails, or brings what the injector answered to it.
pub content_cases :
    (r : InjectorRequest) (v : Served)
    → IsContent r
    → ((env : Env) × (rest : List Round) × (request r v ≡ answered_by env rest r v.state))
      ⊎ IsFailure (request r v).0
content_cases r v k = elim (List-cases v.rounds) [
  | inl q ↦ inr (request_nobody r v q)
  | inr (m, rest, q) ↦ elim (Bool-cases (v.connected || m.connects)) [
    | inr c ↦ inr (request_unreached m rest r v q c)
    | inl c ↦ elim (Attempt-cases m.first) [
      | inl (env, f) ↦ inl (env, rest, request_answers env m rest r v q c f)
      | inr (handled, survives, f) ↦ inr (request_breaks handled survives m rest r v k q c f).0
    ]
  ]
]

-- The injector answered the request, in some state.
abbrev pub IsMet : InjectorRequest → Reply × Served → Type 0
IsMet r q =
    (env : Env) × (s : State) × (q.0 ≡ response (handle_request env r s).0)
    × (q.1.state ≡ (handle_request env r s).1)

settled_again :
    (rest : List Round) (again : Attempt) (r : InjectorRequest) (s : State)
    → IsMet r (settled rest (sent_again again r s).0 (sent_again again r s).1)
      ⊎ IsFailure (settled rest (sent_again again r s).0 (sent_again again r s).1).0
unfolding sent_again attempt
settled_again rest (answers env) r s = inl (env, s, refl, refl)
settled_again rest (breaks none survives) r s = inr tt
settled_again rest (breaks (some env) survives) r s = inr tt

abbrev pub MetOrFails : InjectorRequest → Reply × Served → Type 0
MetOrFails r q = IsMet r q ⊎ IsFailure q.0

recovered_begin :
    (m : Round) (rest : List Round) (id : Text) (replaces : Option Text) (seq : ℤ) (text : Text)
    (attach : Bool) (s : State)
    → MetOrFails
        (begin_session id replaces seq text attach)
        (recovered m rest (begin_session id replaces seq text attach) s)
unfolding recovered reconcile_injector_request
recovered_begin m rest id replaces seq text attach s = elim (Bool-cases m.reconnects) [
  | inl p ↦
      let r = begin_session id replaces seq text attach in
      subst (MetOrFails r) {x = settled rest (sent_again m.again r s).0 (sent_again m.again r s).1}
        {y = recovered m rest r s} (ground (arith, p)) (settled_again rest m.again r s)
  | inr p ↦ inr (ground (arith, p))
]

-- A start fails, or brings what the injector answered to it, the second time perhaps.
pub begin_cases :
    (id : Text) (replaces : Option Text) (seq : ℤ) (text : Text) (attach : Bool) (v : Served)
    → let r = begin_session id replaces seq text attach in MetOrFails r (request r v)
begin_cases id replaces seq text attach v =
    let r = begin_session id replaces seq text attach in
    elim (List-cases v.rounds) [
      | inl q ↦ inr (request_nobody r v q)
      | inr (m, rest, q) ↦ elim (Bool-cases (v.connected || m.connects)) [
        | inr c ↦ inr (request_unreached m rest r v q c)
        | inl c ↦ elim (Attempt-cases m.first) [
          | inl (env, f) ↦
              let p = request_answers env m rest r v q c f in
              inl (
                env,
                v.state,
                ap (λ (x : Reply × Served). x.0) p,
                ap (λ (x : Reply × Served). x.1.state) p,
              )
          | inr (handled, survives, f) ↦
              let b = breaks-IsEmpty handled survives r v.state in
              let whole =
                request-tried m rest r v q c
                ∙ ap (λ a. tried m rest r (attempt a r v.state).0 (attempt a r v.state).1) f
                ∙ ap (λ o. tried m rest r o (attempt (breaks handled survives) r v.state).1) b.0 in
              subst (MetOrFails r) {y = request r v} (sym whole) (
                recovered_begin m rest id replaces seq text attach
                  (attempt (breaks handled survives) r v.state).1)
        ]
      ]
    ]

-- ===== src/Network/Unsettled.antt =====
-- Proofs about windows/flowtype-app/src/injector_dispatcher.rs: what the reconciliation of an update or
-- a finish comes to after the pipe broke.
use flow_type.Prelude.{
  Text, ℤ, ◌≡◌, ◌⊎◌, inl, inr, refl, sym, ap, subst, arith, Bool, true, false, Option, none, some,
  List, Bool-cases, Option-cases,
}
use flow_type.Injector.Ipc.{
  InjectorRequest, InjectorResponse, begin_session, apply_state, finish_session, query_session,
  session_missing, probe_target, cancel_invalid_session,
}
use flow_type.Injector.Session.{Env, State}
use flow_type.Injector.Requests.{handle_request}
use flow_type.Network.World.{Reply, response, failure}
use flow_type.Network.Dispatcher.{
  Attempt, answers, breaks, torn, after_break, attempt, Reconciled, confirmed, unconfirmed,
  decided_apply, decided_finish, reconcile_injector_request, Round, Served, settled, recovered,
}

-- No session is active, and none is remembered.
abbrev pub IsEmpty : State → Type 0
IsEmpty s = (s.session ≡ none) × (s.completed ≡ none)

abbrev pub IsFailure : Reply → Type 0
IsFailure (response answer) = ⊥
IsFailure (failure f) = Unit

abbrev pub IsUnconfirmed : Reconciled → Type 0
IsUnconfirmed (confirmed answer) = ⊥
IsUnconfirmed _ = Unit

-- An update or a finish.
abbrev pub IsContent : InjectorRequest → Type 0
IsContent (apply_state id seq text) = Unit
IsContent (finish_session id seq) = Unit
IsContent _ = ⊥

after_break-IsEmpty : (survives : Bool) (s : State) → IsEmpty (after_break survives s)
unfolding after_break torn
after_break-IsEmpty survives s = elim (Option-cases s.session) [
  | inl e ↦ (ground (arith, e), ground (arith, e))
  | inr (a, e) ↦ (ground (arith, e), ground (arith, e))
]

pub breaks-IsEmpty :
    (handled : Option Env) (survives : Bool) (r : InjectorRequest) (s : State)
    → ((attempt (breaks handled survives) r s).0 ≡ none)
      × IsEmpty (attempt (breaks handled survives) r s).1
unfolding attempt
breaks-IsEmpty none survives r s = (refl, after_break-IsEmpty survives s)
breaks-IsEmpty (some env) survives r s =
    (refl, after_break-IsEmpty survives (handle_request env r s).1)

missing :
    (env : Env) (id : Text) (s : State)
    → IsEmpty s
    → handle_request env (query_session id) s ≡ (session_missing, s)
unfolding handle_request
missing env id s h = ground (arith, h)

-- A query of an empty injector brings nothing that an update or a finish could be confirmed by.
query_finds_none :
    (query : Attempt) (id : Text) (s : State)
    → IsEmpty s
    → (((attempt query (query_session id) s).0 ≡ none)
        ⊎ ((attempt query (query_session id) s).0 ≡ some session_missing))
      × IsEmpty (attempt query (query_session id) s).1
unfolding attempt
query_finds_none (answers env) id s h = (
  inr (ap (λ (x : InjectorResponse × State). some x.0) (missing env id s h)),
  subst IsEmpty {x = s} {y = (handle_request env (query_session id) s).1}
      (sym (ap (λ (x : InjectorResponse × State). x.1) (missing env id s h))) h,
)
query_finds_none (breaks handled survives) id s h =
    let b = breaks-IsEmpty handled survives (query_session id) s in (inl b.0, b.1)

abbrev Unsettled : Reconciled × State → Type 0
Unsettled q = IsUnconfirmed q.0 × IsEmpty q.1

decided_apply-Unsettled :
    (again : Attempt) (id : Text) (seq : ℤ) (text : Text) (o : Option InjectorResponse) (s : State)
    → (o ≡ none) ⊎ (o ≡ some session_missing)
    → IsEmpty s
    → Unsettled (decided_apply again id seq text o s)
unfolding decided_apply
decided_apply-Unsettled again id seq text o s (inl p) h =
    subst (λ x. Unsettled (decided_apply again id seq text x s)) {x = none} {y = o} (sym p) (tt, h)
decided_apply-Unsettled again id seq text o s (inr p) h =
    subst (λ x. Unsettled (decided_apply again id seq text x s)) {x = some session_missing} {y = o}
      (sym p) (tt, h)

decided_finish-Unsettled :
    (again : Attempt) (id : Text) (seq : ℤ) (o : Option InjectorResponse) (s : State)
    → (o ≡ none) ⊎ (o ≡ some session_missing)
    → IsEmpty s
    → Unsettled (decided_finish again id seq o s)
unfolding decided_finish
decided_finish-Unsettled again id seq o s (inl p) h =
    subst (λ x. Unsettled (decided_finish again id seq x s)) {x = none} {y = o} (sym p) (tt, h)
decided_finish-Unsettled again id seq o s (inr p) h =
    subst (λ x. Unsettled (decided_finish again id seq x s)) {x = some session_missing} {y = o}
      (sym p) (tt, h)

reconcile-Unsettled :
    (same : Bool) (query again : Attempt) (r : InjectorRequest) (s : State)
    → IsContent r
    → IsEmpty s
    → Unsettled (reconcile_injector_request same query again r s)
unfolding reconcile_injector_request
reconcile-Unsettled true query again (apply_state id seq text) s c h =
    let q = query_finds_none query id s h in
    decided_apply-Unsettled again id seq text (attempt query (query_session id) s).0
      (attempt query (query_session id) s).1 q.0 q.1
reconcile-Unsettled false query again (apply_state id seq text) s c h = (tt, h)
reconcile-Unsettled true query again (finish_session id seq) s c h =
    let q = query_finds_none query id s h in
    decided_finish-Unsettled again id seq (attempt query (query_session id) s).0
      (attempt query (query_session id) s).1 q.0 q.1
reconcile-Unsettled false query again (finish_session id seq) s c h = (tt, h)
reconcile-Unsettled same query again InjectorRequest.hello s c h = elim c [ ]
reconcile-Unsettled same query again (begin_session id replaces seq text attach) s c h = elim c [ ]
reconcile-Unsettled same query again (query_session id) s c h = elim c [ ]
reconcile-Unsettled same query again probe_target s c h = elim c [ ]
reconcile-Unsettled same query again (cancel_invalid_session id) s c h = elim c [ ]

-- The request fails, and the injector is empty then.
abbrev pub Fails : Reply × Served → Type 0
Fails q = IsFailure q.0 × IsEmpty q.1.state

settled-Fails :
    (rest : List Round) (q : Reconciled) (s : State)
    → IsUnconfirmed q
    → IsEmpty s
    → Fails (settled rest q s)
settled-Fails rest (confirmed answer) s u h = elim u [ ]
settled-Fails rest Reconciled.unavailable s u h = (tt, h)
settled-Fails rest unconfirmed s u h = (tt, h)

pub recovered-Fails :
    (m : Round) (rest : List Round) (r : InjectorRequest) (s : State)
    → IsContent r
    → IsEmpty s
    → Fails (recovered m rest r s)
unfolding recovered
recovered-Fails m rest r s c h = elim (Bool-cases m.reconnects) [
  | inl p ↦
      let u = reconcile-Unsettled m.same_instance m.query m.again r s c h in
      subst Fails
        {x = settled rest (reconcile_injector_request m.same_instance m.query m.again r s).0
          (reconcile_injector_request m.same_instance m.query m.again r s).1}
        {y = recovered m rest r s} (ground (arith, p))
        (settled-Fails rest (reconcile_injector_request m.same_instance m.query m.again r s).0
          (reconcile_injector_request m.same_instance m.query m.again r s).1 u.0 u.1)
  | inr p ↦ ground (arith, p, h)
]

-- ===== src/Network/Dispatcher.antt =====
-- windows/flowtype-app/src/injector_dispatcher.rs: how the app sends a request to the injector, and what
-- it does where the pipe breaks. What the injector does at a broken pipe is the end of the loop in
-- windows/flowtype-injector/src/main.rs. A Round is what one request meets; `repair` is not modelled. The
-- `Hello` of a new connection changes nothing in the injector.
use flow_type.Prelude.{
  Text, ℤ, Bool, true, false, ◌||◌, ◌&&◌, Option, none, some, List, [], ◌∷◌, text_eq, int_eq,
  int_lt, if◌then◌else◌,
}
use flow_type.Injector.Ipc.{
  InjectorRequest, InjectorResponse, hello, begin_session, apply_state, finish_session,
  query_session, probe_target, cancel_invalid_session, session_active, session_finished,
}
use flow_type.Injector.Session.{Env, State, end_failed_session}
use flow_type.Injector.Requests.{handle_request}
use flow_type.Network.World.{Reply, response, failure, InjectorRequestFailure}

-- A request over the pipe: the injector answers it, or the pipe breaks, after the injector has handled
-- the request or before, and the injector's process goes on or is gone.
pub data Attempt : Type 0 where
  answers : Env → Attempt
  breaks : Option Env → Bool → Attempt

-- `end_failed_session` and `completed = None`, before the next pipe is accepted.
unfoldable pub torn : State → State
unfolding end_failed_session
torn s = record (end_failed_session s) { completed = none }

-- A new process has no session; the text service gets no `Cancel` then.
unfoldable pub after_break : Bool → State → State
unfolding torn
after_break survives s = if survives then torn s else record s { session = none; completed = none }

unfoldable pub attempt : Attempt → InjectorRequest → State → Option InjectorResponse × State
unfolding after_break
attempt (answers env) r s = (some (handle_request env r s).0, (handle_request env r s).1)
attempt (breaks none survives) r s = (none, after_break survives s)
attempt (breaks (some env) survives) r s = (none, after_break survives (handle_request env r s).1)

pub data ReconcileDecision : Type 0 where
  applied finished retry unknown : ReconcileDecision

unfoldable pub classify_apply_recovery : Text → ℤ → Text → InjectorResponse → ReconcileDecision
classify_apply_recovery id seq text (session_finished other n t) =
    if text_eq other id && int_eq n seq && text_eq t text
    then ReconcileDecision.finished
    else ReconcileDecision.unknown
classify_apply_recovery id seq text (session_active other n t) =
    if text_eq other id && int_eq n seq && text_eq t text
    then ReconcileDecision.applied
    else if text_eq other id && int_lt n seq
    then ReconcileDecision.retry
    else ReconcileDecision.unknown
classify_apply_recovery id seq text _ = ReconcileDecision.unknown

unfoldable pub classify_finish_recovery : Text → ℤ → InjectorResponse → ReconcileDecision
classify_finish_recovery id seq (session_finished other n t) =
    if text_eq other id && int_eq n seq
    then ReconcileDecision.finished
    else ReconcileDecision.unknown
classify_finish_recovery id seq (session_active other n t) =
    if text_eq other id && int_eq n seq then ReconcileDecision.retry else ReconcileDecision.unknown
classify_finish_recovery id seq _ = ReconcileDecision.unknown

-- `Result<InjectorResponse, ReconcileFailure>`
pub data Reconciled : Type 0 where
  confirmed : InjectorResponse → Reconciled
  unavailable unconfirmed : Reconciled

abbrev pub confirmed_by : Option InjectorResponse → Reconciled
confirmed_by none = Reconciled.unavailable
confirmed_by (some answer) = confirmed answer

unfoldable pub sent_again : Attempt → InjectorRequest → State → Reconciled × State
unfolding attempt
sent_again a r s = (confirmed_by (attempt a r s).0, (attempt a r s).1)

unfoldable pub decided_apply :
    Attempt → Text → ℤ → Text → Option InjectorResponse → State → Reconciled × State
unfolding classify_apply_recovery sent_again
decided_apply again id seq text none s = (Reconciled.unavailable, s)
decided_apply again id seq text (some state) s = elim (classify_apply_recovery id seq text state) [
  | ReconcileDecision.applied ↦ (confirmed (InjectorResponse.applied seq), s)
  | ReconcileDecision.finished ↦ (confirmed (InjectorResponse.finished seq), s)
  | ReconcileDecision.retry ↦ sent_again again (apply_state id seq text) s
  | ReconcileDecision.unknown ↦ (unconfirmed, s)
]

unfoldable pub decided_finish :
    Attempt → Text → ℤ → Option InjectorResponse → State → Reconciled × State
unfolding classify_finish_recovery sent_again
decided_finish again id seq none s = (Reconciled.unavailable, s)
decided_finish again id seq (some state) s = elim (classify_finish_recovery id seq state) [
  | ReconcileDecision.applied ↦ (unconfirmed, s)
  | ReconcileDecision.finished ↦ (confirmed (InjectorResponse.finished seq), s)
  | ReconcileDecision.retry ↦ sent_again again (finish_session id seq) s
  | ReconcileDecision.unknown ↦ (unconfirmed, s)
]

-- `query` is what the query for the session meets, `again` what the request meets that is sent again.
unfoldable pub reconcile_injector_request :
    Bool → Attempt → Attempt → InjectorRequest → State → Reconciled × State
unfolding attempt sent_again decided_apply decided_finish
reconcile_injector_request same query again hello s = sent_again again hello s
reconcile_injector_request same query again (begin_session id replaces seq text attach) s =
    sent_again again (begin_session id replaces seq text attach) s
reconcile_injector_request same query again probe_target s = sent_again again probe_target s
reconcile_injector_request same query again (cancel_invalid_session id) s =
    sent_again again (cancel_invalid_session id) s
reconcile_injector_request same query again (apply_state id seq text) s =
    if same
    then decided_apply again id seq text (attempt query (query_session id) s).0
        (attempt query (query_session id) s).1
    else (unconfirmed, s)
reconcile_injector_request same query again (finish_session id seq) s =
    if same
    then decided_finish again id seq (attempt query (query_session id) s).0
        (attempt query (query_session id) s).1
    else (unconfirmed, s)
reconcile_injector_request same query again (query_session id) s =
    if same then sent_again again (query_session id) s else (unconfirmed, s)

-- What one request of the app meets: whether a connection can be made where there is none, the first
-- attempt, and then whether a new connection can be made, whether it leads to the same instance, and
-- what the query and the second attempt meet.
pub record Round : Type 0 where
  pub connects : Bool
  pub first : Attempt
  pub reconnects : Bool
  pub same_instance : Bool
  pub query : Attempt
  pub again : Attempt

-- The injector and the app's client for it. Where no round is left, the worker thread is gone.
pub record Served : Type 0 where
  pub rounds : List Round
  pub state : State
  pub connected : Bool

abbrev pub settled : List Round → Reconciled → State → Reply × Served
settled rest (confirmed answer) s =
    (response answer, record { rounds = rest; state = s; connected = true })
settled rest Reconciled.unavailable s = (
  failure InjectorRequestFailure.unavailable,
  record { rounds = rest; state = s; connected = false },
)
settled rest unconfirmed s = (
  failure InjectorRequestFailure.recovery_required,
  record { rounds = rest; state = s; connected = true },
)

unfoldable pub recovered : Round → List Round → InjectorRequest → State → Reply × Served
unfolding reconcile_injector_request
recovered m rest r s =
    if m.reconnects
    then settled rest (reconcile_injector_request m.same_instance m.query m.again r s).0
        (reconcile_injector_request m.same_instance m.query m.again r s).1
    else (
      failure InjectorRequestFailure.unavailable,
      record { rounds = rest; state = s; connected = false },
    )

abbrev pub tried :
    Round → List Round → InjectorRequest → Option InjectorResponse → State → Reply × Served
tried m rest r (some answer) s =
    (response answer, record { rounds = rest; state = s; connected = true })
tried m rest r none s = recovered m rest r s

unfoldable pub request_blocking : Round → List Round → InjectorRequest → Served → Reply × Served
unfolding attempt recovered
request_blocking m rest r v =
    if v.connected || m.connects
    then tried m rest r (attempt m.first r v.state).0 (attempt m.first r v.state).1
    else (
      failure InjectorRequestFailure.unavailable,
      record { rounds = rest; state = v.state; connected = false },
    )

unfoldable pub request_with : List Round → InjectorRequest → Served → Reply × Served
unfolding request_blocking
request_with [] r v = (failure InjectorRequestFailure.unavailable, v)
request_with (m ∷ rest) r v = request_blocking m rest r v

-- `InjectorDispatcher::request`
unfoldable pub request : InjectorRequest → Served → Reply × Served
unfolding request_with
request r v = request_with v.rounds r v

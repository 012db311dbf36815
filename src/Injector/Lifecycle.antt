-- ===== src/Injector/Lifecycle.antt =====
-- Proofs about windows/flowtype-injector/src/main.rs: what every request keeps.
use flow_type.Prelude.{
  ◌≡◌, ◌⊎◌, Option, none, some, List, [], ◌∷◌, arith, text_eq_iff, int_eq_iff, ◌<ℤ◌,
}
use flow_type.Tip.{TipCommand}
use flow_type.Injector.Ipc.{
  InjectorRequest, InjectorResponse, hello, apply_state, begin_session, finish_session,
  query_session, probe_target, cancel_invalid_session,
}
use flow_type.Injector.Session.{TipKey, Env, ActiveSession, State}
use flow_type.Injector.Requests.{handle_request}

-- A session is never active and completed at once.
abbrev pub IsExclusive : State → Type 0
IsExclusive s = (s.session ≡ none) ⊎ (s.completed ≡ none)

-- A state in which no session is active while another is remembered as completed stays so under
-- every request, whatever Windows answers.
handle_request-IsExclusive :
    (env : Env) (request : InjectorRequest) (s : State)
    → IsExclusive s
    → IsExclusive (handle_request env request s).1
unfolding handle_request
handle_request-IsExclusive env hello s h = h
handle_request-IsExclusive env (begin_session id replaces seq text attach) s h = ground arith
handle_request-IsExclusive env (apply_state id seq text) s h = ground arith
handle_request-IsExclusive env (finish_session id seq) s h = ground arith
handle_request-IsExclusive env (query_session id) s h = ground arith
handle_request-IsExclusive env probe_target s h = h
handle_request-IsExclusive env (cancel_invalid_session id) s h = ground arith

-- The session goes on: it moves to a larger sequence number, or keeps its number and text.
abbrev pub IsKept : ActiveSession → Option ActiveSession → Type 0
IsKept a none = ⊥
IsKept a (some b) =
    (b.id ≡ a.id)
    × (b.tip ≡ a.tip)
    × (b.target ≡ a.target)
    × ((a.sequence <ℤ b.sequence) ⊎ ((b.sequence ≡ a.sequence) × (b.text ≡ a.text)))

-- The last command sent is the session's `Cancel`, to its own text service.
abbrev pub IsCancelled : ActiveSession → List (TipKey × TipCommand) → Type 0
IsCancelled a [] = ⊥
IsCancelled a (last ∷ older) = last ≡ (a.tip, TipCommand.cancel a.id)

abbrev pub Fate : ActiveSession → InjectorResponse → State → Type 0
Fate a response after =
    IsKept a after.session
    ⊎ ((response ≡ InjectorResponse.finished a.sequence) × (after.session ≡ none))
    ⊎ IsCancelled a after.sent

-- Whatever the request and whatever Windows answers, the active session goes on with no step back
-- in its sequence, or has ended by the answer `Finished` with its sequence number, or its `Cancel` is the last command sent.
pub handle_request-Fate :
    (env : Env) (request : InjectorRequest) (s : State) (a : ActiveSession)
    → s.session ≡ some a
    → Fate a (handle_request env request s).0 (handle_request env request s).1
unfolding handle_request
handle_request-Fate env hello s a h = ground arith
handle_request-Fate env (begin_session id replaces seq text attach) s a h = ground arith
handle_request-Fate env (apply_state id seq text) s a h =
    ground (arith, text_eq_iff a.id id, int_eq_iff seq a.sequence)
handle_request-Fate env (finish_session id seq) s a h =
    ground (arith, text_eq_iff a.id id, int_eq_iff a.sequence seq)
handle_request-Fate env (query_session id) s a h = ground arith
handle_request-Fate env probe_target s a h = ground arith
handle_request-Fate env (cancel_invalid_session id) s a h = ground (arith, text_eq_iff a.id id)

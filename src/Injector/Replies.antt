-- ===== src/Injector/Replies.antt =====
-- Proofs about windows/flowtype-injector/src/main.rs: what an answer tells the app.
use flow_type.Prelude.{
  ◌∷◌, ◌⊎◌, Bool, ◌≢◌, Text, ℤ, ◌≡◌, inl, inr, Option, none, some, arith, text_eq_iff, int_eq_iff,
  Option-cases,
}
use flow_type.Injector.Ipc.{
  begin_session, session_begun, session_finished, InjectorResponse, apply_state, finish_session,
  query_session, session_active,
}
use flow_type.Injector.Session.{CompletedSession, Env, ActiveSession, State}
use flow_type.Tip.{TipCommand}
use flow_type.Injector.Requests.{handle_request}

-- The active session is `id`, at `seq`, with exactly `text`.
abbrev pub IsAt : Text → ℤ → Text → Option ActiveSession → Type 0
IsAt id seq text none = ⊥
IsAt id seq text (some a) = (a.id ≡ id) × (a.sequence ≡ seq) × (a.text ≡ text)

-- `Applied` with the requested sequence number means that the session holds the requested text.
pub apply-IsAt :
    (env : Env) (id : Text) (seq : ℤ) (text : Text) (s : State)
    → (handle_request env (apply_state id seq text) s).0 ≡ InjectorResponse.applied seq
    → IsAt id seq text (handle_request env (apply_state id seq text) s).1.session
unfolding handle_request
apply-IsAt env id seq text s h = elim (Option-cases s.session) [
  | inl e ↦ ground arith
  | inr (a, e) ↦
      ground (arith, text_eq_iff a.id id, int_eq_iff seq a.sequence, text_eq_iff text a.text)
]

-- `SessionActive` reports the number and the text of the session that is active after the query.
query-IsAt :
    (env : Env) (id : Text) (seq : ℤ) (text : Text) (s : State)
    → (handle_request env (query_session id) s).0 ≡ session_active id seq text
    → IsAt id seq text (handle_request env (query_session id) s).1.session
unfolding handle_request
query-IsAt env id seq text s h = elim (Option-cases s.session) [
  | inl e ↦ ground arith
  | inr (a, e) ↦ ground (arith, text_eq_iff a.id id)
]

-- A finish that answers `Finished` leaves no active session, and remembers under its name the text
-- that was active.
finish-completed :
    (env : Env) (id : Text) (seq : ℤ) (s : State) (a : ActiveSession)
    → s.session ≡ some a
    → (handle_request env (finish_session id seq) s).0 ≡ InjectorResponse.finished seq
    → ((handle_request env (finish_session id seq) s).1.session ≡ none)
      × ((handle_request env (finish_session id seq) s).1.completed
          ≡ some (record { id = id; sequence = seq; text = a.text }))
      × (a.id ≡ id)
      × (a.sequence ≡ seq)
unfolding handle_request
finish-completed env id seq s a e h = ground (arith, text_eq_iff a.id id, int_eq_iff a.sequence seq)

-- A start that answers `SessionBegun` over an active session either repeats that session, and
-- changes nothing, or names it as the one that it replaces; then the new session is at the given snapshot.
pub begin_over_active :
    (env : Env) (id : Text) (replaces : Option Text) (seq : ℤ) (text title : Text) (attach : Bool)
    (s : State) (a : ActiveSession)
    → s.session ≡ some a
    → (handle_request env (begin_session id replaces seq text attach) s).0 ≡ session_begun title
    → ((a.id ≡ id) × ((handle_request env (begin_session id replaces seq text attach) s).1 ≡ s))
      ⊎ ((replaces ≡ some a.id)
          × IsAt id seq text
              (handle_request env (begin_session id replaces seq text attach) s).1.session)
unfolding handle_request
begin_over_active env id none seq text title attach s a e h = ground (arith, text_eq_iff a.id id)
begin_over_active env id (some r) seq text title attach s a e h =
    ground (arith, text_eq_iff a.id id, text_eq_iff r a.id)

-- After a key or mouse event since the session began, with no completed session remembered, an update is never acknowledged and never
-- reaches the text service: at most the session's own `Cancel` is sent.
pub input_stops_updates :
    (env : Env) (id : Text) (seq : ℤ) (text : Text) (s : State) (a : ActiveSession)
    → s.session ≡ some a
    → s.completed ≡ none
    → a.input_epoch ≢ env.epoch
    → ((n : ℤ) → (handle_request env (apply_state id seq text) s).0 ≢ InjectorResponse.applied n)
      × (((handle_request env (apply_state id seq text) s).1 ≡ s)
          ⊎ ((handle_request env (apply_state id seq text) s).1
              ≡ record s { session = none; sent = (a.tip, TipCommand.cancel a.id) ∷ s.sent }))
unfolding handle_request
input_stops_updates env id seq text s a e c h = (λ n. ground arith, ground arith)

-- The completed session is `id`, with `seq` and `text`.
abbrev pub IsCompletedAt : Text → ℤ → Text → Option CompletedSession → Type 0
IsCompletedAt id seq text none = ⊥
IsCompletedAt id seq text (some c) = (c.id ≡ id) × (c.sequence ≡ seq) × (c.text ≡ text)

-- `Finished` to an update repeats the requested number, and the request is the completed snapshot.
pub apply-IsCompletedAt :
    (env : Env) (id : Text) (seq n : ℤ) (text : Text) (s : State)
    → (handle_request env (apply_state id seq text) s).0 ≡ InjectorResponse.finished n
    → (n ≡ seq)
      × IsCompletedAt id seq text (handle_request env (apply_state id seq text) s).1.completed
unfolding handle_request
apply-IsCompletedAt env id seq n text s h = elim (Option-cases s.completed) [
  | inl e ↦ ground arith
  | inr (c, e) ↦
      ground (arith, text_eq_iff c.id id, int_eq_iff c.sequence seq, text_eq_iff c.text text)
]

-- `SessionFinished` to a start reports the completed session of that name.
pub begin-IsCompletedAt :
    (env : Env) (id i : Text) (replaces : Option Text) (seq n : ℤ) (text t : Text) (attach : Bool)
    (s : State)
    → (handle_request env (begin_session id replaces seq text attach) s).0 ≡ session_finished i n t
    → (i ≡ id)
      × IsCompletedAt id n t
          (handle_request env (begin_session id replaces seq text attach) s).1.completed
unfolding handle_request
begin-IsCompletedAt env id i replaces seq n text t attach s h = elim (Option-cases s.completed) [
  | inl e ↦ ground arith
  | inr (c, e) ↦ ground (arith, text_eq_iff c.id id)
]

-- `Finished` to a finish repeats the requested number.
pub finish-number :
    (env : Env) (id : Text) (seq n : ℤ) (s : State)
    → (handle_request env (finish_session id seq) s).0 ≡ InjectorResponse.finished n
    → n ≡ seq
unfolding handle_request
finish-number env id seq n s h = ground arith

-- A finish of the session at `seq` and `text` that answers `Finished` completes exactly that.
pub finish-IsCompletedAt :
    (env : Env) (id : Text) (seq n : ℤ) (text : Text) (s : State)
    → IsAt id seq text s.session
    → (handle_request env (finish_session id seq) s).0 ≡ InjectorResponse.finished n
    → IsCompletedAt id seq text (handle_request env (finish_session id seq) s).1.completed
unfolding handle_request
finish-IsCompletedAt env id seq n text s o h = elim (Option-cases s.session) [
  | inl e ↦ ground arith
  | inr (a, e) ↦ ground (arith, text_eq_iff a.id id, int_eq_iff a.sequence seq)
]

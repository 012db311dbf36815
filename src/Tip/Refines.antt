-- ===== src/Tip/Refines.antt =====
-- Proofs about windows/flowtype-tip/src/service.rs: the text service implements the contract of
-- windows/flowtype-core/src/tip.rs, whatever the text framework answers.
use flow_type.Prelude.{
  Text, ℤ, ℕ, ◌≡◌, ◌≢◌, ◌⊎◌, inl, inr, Bool, true, false, Option, none, some, arith, Option-cases,
  text_eq_iff, int_eq_iff,
}
use flow_type.Tip.{TipCommand, TipResponse}
use flow_type.Tip.Model
use flow_type.Tip.Model.{TipSessionModel, Outcome, cleared, terminate}
use flow_type.Tip.Composition.{Host, composition_terminated, end_edit}
use flow_type.Tip.Service.{
  Controller, handle_command, begin_command, update_command, finish_command, cancel_command,
  query_command,
}

-- What the controller shows of the contract's session. The contract reads its flag
-- `composition_ended` nowhere.
abbrev pub session_of : Controller → TipSessionModel
session_of c = record {
  session_id = c.composition.session_id;
  sequence = c.composition.sequence;
  text = c.composition.text;
  composition_ended = false;
  target_modified = c.composition.target_modified;
}

-- A session has a context.
abbrev pub IsPlaced : Option Text → Option ℕ → Type 0
IsPlaced (some id) none = ⊥
IsPlaced _ _ = Unit

abbrev pub IsSound : Controller → Type 0
IsSound c = IsPlaced c.composition.session_id c.composition.context

-- What an answer to a command means for the contract's session, `m` before and `m'` after it.
abbrev pub Answers : TipCommand → TipResponse → TipSessionModel → TipSessionModel → Type 0
Answers (TipCommand.begin id n t a) (TipResponse.begun i) m m' =
    (i ≡ id) × (Model.begin m id n t ≡ (m', Outcome.ok tt))
Answers (TipCommand.begin id n t a) TipResponse.composition_terminated m m' =
    Model.begin m id n t ≡ (m', Outcome.err TipResponse.composition_terminated)
Answers (TipCommand.begin id n t a) TipResponse.rebind_rejected m m' =
    Model.begin m id n t ≡ (m', Outcome.err TipResponse.session_mismatch)
Answers (TipCommand.begin id n t a) TipResponse.no_focus m m' = (m.session_id ≡ none) × (m' ≡ m)
Answers (TipCommand.begin id n t a) TipResponse.edit_rejected m m' =
    (m.session_id ≡ none) × (m' ≡ cleared)
Answers (TipCommand.update id n t) (TipResponse.applied i k) m m' =
    (i ≡ id)
    × (k ≡ m'.sequence)
    × ((Model.update m id n t ≡ (m', Outcome.ok true))
        ⊎ (Model.update m id n t ≡ (m', Outcome.ok false)))
Answers (TipCommand.update id n t) TipResponse.session_mismatch m m' =
    Model.update m id n t ≡ (m', Outcome.err TipResponse.session_mismatch)
Answers (TipCommand.update id n t) TipResponse.sequence_conflict m m' =
    Model.update m id n t ≡ (m', Outcome.err TipResponse.sequence_conflict)
Answers (TipCommand.update id n t) TipResponse.composition_terminated m m' =
    (Model.update m id n t ≡ (m', Outcome.err TipResponse.composition_terminated))
    ⊎ ((m.session_id ≡ some id) × (m' ≡ terminate m))
Answers (TipCommand.update id n t) TipResponse.no_focus m m' = (m.session_id ≡ some id) × (m' ≡ m)
Answers (TipCommand.update id n t) TipResponse.edit_rejected m m' =
    (m.session_id ≡ some id) × (m' ≡ m)
Answers (TipCommand.finish id n) (TipResponse.finished i k) m m' =
    (i ≡ id) × (k ≡ n) × (Model.finish m id n ≡ (m', Outcome.ok tt))
Answers (TipCommand.finish id n) TipResponse.session_mismatch m m' =
    Model.finish m id n ≡ (m', Outcome.err TipResponse.session_mismatch)
Answers (TipCommand.finish id n) TipResponse.composition_terminated m m' =
    Model.finish m id n ≡ (m', Outcome.err TipResponse.composition_terminated)
Answers (TipCommand.finish id n) TipResponse.edit_rejected m m' =
    (m.session_id ≡ some id) × (m' ≡ m)
Answers (TipCommand.cancel id) (TipResponse.cancelled i) m m' =
    (i ≡ id) × (Model.cancel m id ≡ (m', Outcome.ok tt))
Answers (TipCommand.cancel id) TipResponse.session_mismatch m m' =
    Model.cancel m id ≡ (m', Outcome.err TipResponse.session_mismatch)
Answers (TipCommand.query id) (TipResponse.session_active i k) m m' =
    (i ≡ id) × (k ≡ m.sequence) × (m.session_id ≡ some id) × (m.target_modified ≡ false) × (m' ≡ m)
Answers (TipCommand.query id) TipResponse.composition_terminated m m' =
    (m.session_id ≡ some id) × (m.target_modified ≡ true) × (m' ≡ m)
Answers (TipCommand.query id) TipResponse.session_mismatch m m' =
    (m.session_id ≢ some id) × (m' ≡ m)
Answers TipCommand.ping TipResponse.ready m m' = m' ≡ m
Answers _ _ m m' = ⊥

begin-Answers :
    (h : Host) (id : Text) (seq : ℤ) (text : Text) (attach : Bool) (c : Controller)
    → Answers
        (TipCommand.begin id seq text attach)
        (begin_command h id seq text attach c).0
        (session_of c)
        (session_of (begin_command h id seq text attach c).1)
unfolding begin_command Model.begin
begin-Answers h id seq text attach c = ground (arith)

update-Answers :
    (h : Host) (id : Text) (seq : ℤ) (text : Text) (c : Controller)
    → Answers
        (TipCommand.update id seq text)
        (update_command h id seq text c).0
        (session_of c)
        (session_of (update_command h id seq text c).1)
unfolding update_command Model.update terminate
update-Answers h id seq text c = elim (Option-cases c.composition.session_id) [
  | inl e ↦ ground arith
  | inr (held, e) ↦ ground (arith, text_eq_iff held id, int_eq_iff seq c.composition.sequence)
]

finish-Answers :
    (h : Host) (id : Text) (seq : ℤ) (c : Controller)
    → IsSound c
    → Answers
        (TipCommand.finish id seq)
        (finish_command h id seq c).0
        (session_of c)
        (session_of (finish_command h id seq c).1)
unfolding finish_command Model.finish
finish-Answers h id seq c k = elim (Option-cases c.composition.session_id) [
  | inl e ↦ ground arith
  | inr (held, e) ↦ ground (arith, text_eq_iff held id, int_eq_iff c.composition.sequence seq)
]

cancel-Answers :
    (h : Host) (id : Text) (c : Controller)
    → Answers
        (TipCommand.cancel id)
        (cancel_command h id c).0
        (session_of c)
        (session_of (cancel_command h id c).1)
unfolding cancel_command Model.cancel
cancel-Answers h id c = ground arith

query-Answers :
    (id : Text) (c : Controller)
    → Answers (TipCommand.query id) (query_command id c) (session_of c) (session_of c)
unfolding query_command
query-Answers id c = elim (Option-cases c.composition.session_id) [
  | inl e ↦ ground arith
  | inr (held, e) ↦ ground (arith, text_eq_iff held id)
]

begin-IsSound :
    (h : Host) (id : Text) (seq : ℤ) (text : Text) (attach : Bool) (c : Controller)
    → IsSound c
    → IsSound (begin_command h id seq text attach c).1
unfolding begin_command
begin-IsSound h id seq text attach c k = ground arith

update-IsSound :
    (h : Host) (id : Text) (seq : ℤ) (text : Text) (c : Controller)
    → IsSound c
    → IsSound (update_command h id seq text c).1
unfolding update_command
update-IsSound h id seq text c k = ground arith

finish-IsSound :
    (h : Host) (id : Text) (seq : ℤ) (c : Controller)
    → IsSound c
    → IsSound (finish_command h id seq c).1
unfolding finish_command
finish-IsSound h id seq c k = ground arith

cancel-IsSound :
    (h : Host) (id : Text) (c : Controller) → IsSound c → IsSound (cancel_command h id c).1
unfolding cancel_command
cancel-IsSound h id c k = ground arith

-- For every command and whatever the text framework answers, where a session has a context: the
-- answer tells how the contract's session goes on. `Begun`, `Applied`, `Finished` and `Cancelled` are
-- steps of the contract, a refusal is one of its errors, and where the edit fails or nothing has the
-- focus the session stays, was never begun, or is marked as edited by the user. A session still has
-- a context then.
pub handle_command-Answers :
    (h : Host) (command : TipCommand) (c : Controller)
    → IsSound c
    → Answers command
        (handle_command h command c).0
        (session_of c)
        (session_of (handle_command h command c).1)
      × IsSound (handle_command h command c).1
unfolding handle_command
handle_command-Answers h TipCommand.ping c k = (ground arith, k)
handle_command-Answers h (TipCommand.begin id seq text attach) c k =
    (begin-Answers h id seq text attach c, begin-IsSound h id seq text attach c k)
handle_command-Answers h (TipCommand.update id seq text) c k =
    (update-Answers h id seq text c, update-IsSound h id seq text c k)
handle_command-Answers h (TipCommand.finish id seq) c k =
    (finish-Answers h id seq c k, finish-IsSound h id seq c k)
handle_command-Answers h (TipCommand.cancel id) c k =
    (cancel-Answers h id c, cancel-IsSound h id c k)
handle_command-Answers h (TipCommand.query id) c k = (query-Answers id c, k)

-- What happens in the document between the commands, the composition's end and other edits, is at
-- most an end by the user.
pub outside-terminate :
    (h : Host) (c : Controller)
    → c.composition.applying_remote_edit ≡ false
    → ((session_of (record c { composition = composition_terminated c.composition })
          ≡ terminate (session_of c))
        × ((session_of (record c { composition = end_edit h c.composition }) ≡ session_of c)
            ⊎ (session_of (record c { composition = end_edit h c.composition })
                ≡ terminate (session_of c))))
unfolding composition_terminated end_edit terminate
outside-terminate h c k = (ground arith, ground arith)

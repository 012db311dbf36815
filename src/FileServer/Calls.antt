-- ===== src/FileServer/Calls.antt =====
-- Proofs about windows/flowtype-app/src/file_transfer_server.rs: every call changes the store only for
-- the phone that it is made for.
use flow_type.Prelude.{
  Text, ℕ, ◌≡◌, inl, inr, refl, sym, ◌∙◌, subst, arith, ◌||◌, not, Option, none, some, List, retain,
  text_eq, text_eq_iff, Option-cases, Bool-cases,
}
use flow_type.FileTransfer.States.{is_terminal}
use flow_type.FileTransfer.Messages.{
  FileDecision, FileClientMessage, FileServerMessage, validate_decision, validate_file_cancel,
}
use flow_type.FileStore.Batches.{BatchRecord, Store, is_ok, load_batch, recoverable_batches}
use flow_type.FileServer.{Answer, answered, failed}
use flow_type.FileServer.Coordinator.{Coordinator, Moment, to_computer, cancel, revoke_phone}
use flow_type.FileServer.Steps.{none_for, some_for, accept}
use flow_type.FileServer.Offers.{
  decided, accept_offer, accept_decision, handled, handle_control, issue_ticket,
}
use flow_type.FileServer.Access.{
  Call, control, revoke, request, authorize, without_expired, perform,
}
use flow_type.FileServer.Changes.{
  Changed, same, no_change, issue_ticket_store, accept_offer-Changed,
}
use flow_type.FileServer.Effects.{cancel-Changed, cancel_all-Changed, accept-Changed}

none_for_store : (r : Answer (Unit {0}) × Coordinator) → (none_for r).1.store ≡ r.1.store
none_for_store (failed code, c) = refl
none_for_store (answered _, c) = refl

some_for_store : (r : Answer FileServerMessage × Coordinator) → (some_for r).1.store ≡ r.1.store
some_for_store (failed code, c) = refl
some_for_store (answered message, c) = refl

decided_store :
    (digest : Text → List ℕ) (m : Moment) (id phone : Text) (r : Answer (Unit {0}) × Coordinator)
    → (decided digest m id phone r).1.store ≡ r.1.store
decided_store digest m id phone (failed code, c) = refl
decided_store digest m id phone (answered _, c) =
    some_for_store (issue_ticket digest m id phone c) ∙ issue_ticket_store digest m id phone c

found-Changed :
    (digest : Text → List ℕ) (m : Moment) (d : FileDecision) (phone : Text) (c : Coordinator)
    (b : BatchRecord)
    → load_batch m.disk d.batch_id c.store ≡ some b
    → Changed m.disk phone c.store (accept_decision digest m d phone c).1.store
unfolding accept_decision
found-Changed digest m d phone c b e =
    elim (Bool-cases (
      not (is_ok (validate_decision d))
      || not (text_eq b.phone_id phone)
      || to_computer b.direction
      || is_terminal b.state)) [
        | inl f ↦
            no_change m.disk phone c.store (accept_decision digest m d phone c).1.store
              (ground (arith, e, f))
        | inr f ↦ elim (Bool-cases d.accepted) [
          | inr g ↦
              subst (λ s. Changed m.disk phone c.store s)
                (sym (none_for_store (cancel m d.batch_id phone c)) ∙ ground (arith, e, f, g))
                (cancel-Changed m d.batch_id phone c)
          | inl g ↦
              subst (λ s. Changed m.disk phone c.store s)
                (sym (decided_store digest m d.batch_id phone (accept m d.batch_id b.state c))
                  ∙ ground (arith, e, f, g))
                (accept-Changed m d.batch_id b.state c phone b e
                  ((text_eq_iff b.phone_id phone).0 (ground (arith, f))))
        ]
      ]

accept_decision-Changed :
    (digest : Text → List ℕ) (m : Moment) (d : FileDecision) (phone : Text) (c : Coordinator)
    → Changed m.disk phone c.store (accept_decision digest m d phone c).1.store
unfolding accept_decision
accept_decision-Changed digest m d phone c =
    elim (Option-cases (load_batch m.disk d.batch_id c.store)) [
      | inl e ↦
          no_change m.disk phone c.store (accept_decision digest m d phone c).1.store
            (ground (arith, e))
      | inr (b, e) ↦ found-Changed digest m d phone c b e
    ]

handled-Changed :
    (digest : Text → List ℕ) (m : Moment) (message : Option FileClientMessage) (phone : Text)
    (c : Coordinator)
    → Changed m.disk phone c.store (handled digest m message phone c).1.store
unfolding handled
handled-Changed digest m none phone c = same c.store
handled-Changed digest m (some (FileClientMessage.file_offer o)) phone c =
    subst (λ s. Changed m.disk phone c.store s)
      (sym (some_for_store (accept_offer digest m o phone c)))
      (accept_offer-Changed digest m o phone c)
handled-Changed digest m (some (FileClientMessage.file_decision d)) phone c =
    accept_decision-Changed digest m d phone c
handled-Changed digest m (some (FileClientMessage.file_cancel x)) phone c =
    elim (Bool-cases (is_ok (validate_file_cancel x))) [
      | inr e ↦
          no_change m.disk phone c.store
            (handled digest m (some (FileClientMessage.file_cancel x)) phone c).1.store
            (ground (arith, e))
      | inl e ↦
          subst (λ s. Changed m.disk phone c.store s)
            (sym (none_for_store (cancel m x.batch_id phone c)) ∙ ground (arith, e))
            (cancel-Changed m x.batch_id phone c)
    ]

revoke_phone-Changed :
    (m : Moment) (phone : Text) (c : Coordinator)
    → Changed m.disk phone c.store (revoke_phone m phone c).store
unfolding revoke_phone
revoke_phone-Changed m phone c = elim (Option-cases (recoverable_batches m.disk c.store)) [
  | inl e ↦ no_change m.disk phone c.store (revoke_phone m phone c).store (ground (arith, e))
  | inr (bs, e) ↦
      let left = record c { tickets = retain (λ g. not (text_eq g.phone_id phone)) c.tickets } in
      subst (λ s. Changed m.disk phone c.store s) (ground (arith, e))
        (cancel_all-Changed m phone bs left)
]

-- The phone that a call is made for; a request of the data connection has none.
abbrev pub phone_of : Call → Option Text
phone_of (control m id message phone) = some phone
phone_of (revoke m phone) = some phone
phone_of (request d now id bearer) = none

abbrev pub CallChanged : Call → Store → Store → Type 0
CallChanged (control m id message phone) s t = Changed m.disk phone s t
CallChanged (revoke m phone) s t = Changed m.disk phone s t
CallChanged (request d now id bearer) s t = t ≡ s

pub perform-CallChanged :
    (digest : Text → List ℕ) (call : Call) (c : Coordinator)
    → CallChanged call c.store (perform digest call c).store
unfolding perform handle_control authorize without_expired
perform-CallChanged digest (control m id message phone) c = handled-Changed digest m message phone c
perform-CallChanged digest (revoke m phone) c = revoke_phone-Changed m phone c
perform-CallChanged digest (request d now id bearer) c = refl

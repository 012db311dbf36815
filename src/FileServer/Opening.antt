-- ===== src/FileServer/Opening.antt =====
-- Proofs about windows/flowtype-app/src/file_transfer_server.rs: every answer that is a ticket opens its
-- batch.
use flow_type.Prelude.{
  Text, codes, ℕ, ◌<◌, ◌≡◌, inl, inr, refl, sym, subst, arith, Bool, true, false, ◌||◌, not, Option,
  none, some, List, text_eq, text_eq_iff, if◌then◌else◌,
}
use flow_type.FileTransfer.States.{BatchState, is_terminal, same_state}
use flow_type.FileTransfer.Messages.{
  FileDecision, FileTicket, FileClientMessage, FileServerMessage, validate_decision,
  validate_file_cancel,
}
use flow_type.FileStore.Batches.{BatchRecord, Disk, is_ok, moved, load_batch, update_state}
use flow_type.FileStore.Records.{load_batch_lem, on_disk-insert_same, update_cases}
use flow_type.FileServer.{Answer, answered, failed}
use flow_type.FileServer.Coordinator.{Coordinator, Moment, to_computer, cancel}
use flow_type.FileServer.Steps.{
  none_for, some_for, advance, advance_found, advance_loaded, accept, to_prepare,
}
use flow_type.FileServer.Offers.{
  issue_ticket, accept_offer, decided, decided_on, reply_to, accept_decision, handled,
  handle_control,
}
use flow_type.FileServer.Access.{authorize}
use flow_type.FileServer.Effects.{moved_on_store}
use flow_type.FileServer.Tickets.{
  OpenFor, Opens, Opened, open_load, issue_ticket-Opened, accept_offer-Opened,
}
use flow_type.FileServer.Exclusive.{IsReadable}

advance-OpenFor :
    (m : Moment) (phone id code : Text) (due : Bool) (next : BatchState) (c : Coordinator)
    (b : BatchRecord)
    → load_batch m.disk id c.store ≡ some b
    → OpenFor phone id c.store
    → is_terminal next ≡ false
    → OpenFor phone id (advance m id due next code c).1.store
unfolding advance
advance-OpenFor m phone id code false next c b h o n = o
advance-OpenFor m phone id code true next c b h o n =
    subst (OpenFor phone id)
      (sym (moved_on_store code c (update_state m.disk id next m.now c.store)))
      (elim (update_cases m.disk id next m.now c.store b h) [
        | inl e ↦ subst (OpenFor phone id) (sym e) o
        | inr (can, e) ↦ subst (OpenFor phone id) (sym e) (
          moved b next m.now,
          on_disk-insert_same id (some (moved b next m.now)) c.store,
          (open_load phone id c.store m.disk b o h).0,
          n,
        )
      ])

advance_loaded-OpenFor :
    (m : Moment) (phone id code : Text) (due : BatchState → Bool) (next : BatchState)
    (r : Answer (Unit {0}) × Coordinator)
    → OpenFor phone id r.1.store
    → is_terminal next ≡ false
    → OpenFor phone id (advance_loaded m id due next code r).1.store
advance_loaded-OpenFor m phone id code due next (failed e, c) o n = o
advance_loaded-OpenFor m phone id code due next (answered _, c) o n =
    found (load_batch m.disk id c.store) refl
  where
    found :
        (l : Option BatchRecord)
        → load_batch m.disk id c.store ≡ l
        → OpenFor phone id (advance_found m id due next code c l).1.store
    found none e = o
    found (some b) e = advance-OpenFor m phone id code (due b.state) next c b e o n

accept-OpenFor :
    (m : Moment) (phone id : Text) (state : BatchState) (c : Coordinator) (b : BatchRecord)
    → load_batch m.disk id c.store ≡ some b
    → OpenFor phone id c.store
    → OpenFor phone id (accept m id state c).1.store
unfolding accept is_terminal
accept-OpenFor m phone id state c b h o =
    let queued =
      advance m id (same_state state BatchState.waiting_confirmation) BatchState.queued
        (codes "cannot accept batch") c in
    let prepared =
      advance_loaded m id to_prepare BatchState.preparing (codes "cannot prepare batch") queued in
    advance_loaded-OpenFor m phone id (codes "cannot start batch")
      (λ s. same_state s BatchState.preparing) BatchState.transferring prepared
      (advance_loaded-OpenFor m phone id (codes "cannot prepare batch") to_prepare
        BatchState.preparing queued
        (advance-OpenFor m phone id (codes "cannot accept batch")
          (same_state state BatchState.waiting_confirmation) BatchState.queued c b h o refl)
        refl)
      refl

-- The same of an answer that may be no message.
abbrev OpenedSome : (Text → List ℕ) → Answer (Option FileServerMessage) × Coordinator → Type 0
OpenedSome digest (answered (some message), c) = Opens digest c message
OpenedSome digest (answered none, c) = Unit
OpenedSome digest (failed code, c) = Unit

some_for-Opened :
    (digest : Text → List ℕ) (r : Answer FileServerMessage × Coordinator)
    → Opened digest r
    → OpenedSome digest (some_for r)
some_for-Opened digest (answered message, c) h = h
some_for-Opened digest (failed code, c) h = tt

none_for-Opened :
    (digest : Text → List ℕ) (r : Answer (Unit {0}) × Coordinator) → OpenedSome digest (none_for r)
none_for-Opened digest (answered _, c) = tt
none_for-Opened digest (failed code, c) = tt

decided-Opened :
    (digest : Text → List ℕ) (m : Moment) (id phone : Text) (r : Answer (Unit {0}) × Coordinator)
    → OpenFor phone id r.1.store
    → OpenedSome digest (decided digest m id phone r)
decided-Opened digest m id phone (failed code, c) o = tt
decided-Opened digest m id phone (answered _, c) o =
    some_for-Opened digest (issue_ticket digest m id phone c)
      (issue_ticket-Opened digest m id phone c o)

accept_decision-OpenedSome :
    (digest : Text → List ℕ) (m : Moment) (d : FileDecision) (phone : Text) (c : Coordinator)
    → OpenedSome digest (accept_decision digest m d phone c)
unfolding accept_decision
accept_decision-OpenedSome digest m d phone c =
    go (is_ok (validate_decision d)) (load_batch m.disk d.batch_id c.store) refl
  where
    on_terms :
        (b : BatchRecord)
        → load_batch m.disk d.batch_id c.store ≡ some b
        → (x : Bool) → (not (text_eq b.phone_id phone) || to_computer b.direction) ≡ x
        → (y : Bool) → is_terminal b.state ≡ y
        → (z : Bool)
        → OpenedSome digest (
            if x
            then (failed (codes "batch owner mismatch"), c)
            else if y
            then (answered (some (FileServerMessage.file_result b.batch_id b.state)), c)
            else if not z
            then none_for (cancel m d.batch_id phone c)
            else decided digest m d.batch_id phone (accept m d.batch_id b.state c))
    on_terms b e true f y g z = tt
    on_terms b e false f true g z = tt
    on_terms b e false f false g false = none_for-Opened digest (cancel m d.batch_id phone c)
    on_terms b e false f false g true =
        decided-Opened digest m d.batch_id phone (accept m d.batch_id b.state c) (
          accept-OpenFor m phone d.batch_id b.state c b e (
            b,
            (load_batch_lem m.disk d.batch_id c.store b e).0,
            ground (arith, f, text_eq_iff b.phone_id phone),
            g,
          ))

    go :
        (x : Bool) (l : Option BatchRecord)
        → load_batch m.disk d.batch_id c.store ≡ l
        → OpenedSome digest (
            if not x
            then (failed (codes "invalid file decision"), c)
            else decided_on digest m d phone c l)
    go false l e = tt
    go true none e = tt
    go true (some b) e =
        on_terms b e (not (text_eq b.phone_id phone) || to_computer b.direction) refl
          (is_terminal b.state) refl d.accepted

handled-OpenedSome :
    (digest : Text → List ℕ) (m : Moment) (message : Option FileClientMessage) (phone : Text)
    (c : Coordinator)
    → OpenedSome digest (handled digest m message phone c)
unfolding handled
handled-OpenedSome digest m none phone c = tt
handled-OpenedSome digest m (some (FileClientMessage.file_offer o)) phone c =
    some_for-Opened digest (accept_offer digest m o phone c)
      (accept_offer-Opened digest m o phone c)
handled-OpenedSome digest m (some (FileClientMessage.file_decision d)) phone c =
    accept_decision-OpenedSome digest m d phone c
handled-OpenedSome digest m (some (FileClientMessage.file_cancel x)) phone c =
    go (is_ok (validate_file_cancel x))
  where
    go :
        (y : Bool)
        → OpenedSome digest (
            if y
            then none_for (cancel m x.batch_id phone c)
            else (failed (codes "invalid file cancellation"), c))
    go false = tt
    go true = none_for-Opened digest (cancel m x.batch_id phone c)

reply_opens :
    (digest : Text → List ℕ) (id : Text) (r : Answer (Option FileServerMessage) × Coordinator)
    (t : FileTicket)
    → OpenedSome digest r
    → reply_to digest id r.0 ≡ some (FileServerMessage.file_ticket t)
    → (d : Disk) (now : ℕ) → IsReadable d
    → now < t.expires_at_epoch_seconds
    → (authorize digest d now t.batch_id t.token r.1).0 ≡ true
reply_opens digest id (answered none, c) t h e = absurd (ground (arith, e))
reply_opens digest id (failed code, c) t h e = absurd (ground (arith, e))
reply_opens digest id (answered (some message), c) t h e =
    let same_message : message ≡ FileServerMessage.file_ticket t = ground (arith, e) in
    subst (Opens digest c) same_message h

-- A ticket that answers a phone's message opens the batch that it names: a request with its token is
-- let in until the ticket expires, as long as the batch records can be read.
pub handle_control-authorize :
    (digest : Text → List ℕ) (m : Moment) (id : Text) (message : Option FileClientMessage)
    (phone : Text) (c : Coordinator) (t : FileTicket) (d : Disk) (now : ℕ)
    → (handle_control digest m id message phone c).0 ≡ some (FileServerMessage.file_ticket t)
    → IsReadable d
    → now < t.expires_at_epoch_seconds
    → (authorize digest d now t.batch_id t.token (handle_control digest m id message phone c).1).0
      ≡ true
unfolding handle_control
handle_control-authorize digest m id message phone c t d now h r k =
    reply_opens digest id (handled digest m message phone c) t
      (handled-OpenedSome digest m message phone c) h d now r k

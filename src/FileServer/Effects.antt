-- ===== src/FileServer/Effects.antt =====
-- Proofs about windows/flowtype-app/src/file_transfer_server.rs: a cancellation and the steps of an
-- accepted batch change the store only for the phone.
use flow_type.Prelude.{
  Text, ◌≡◌, inl, inr, refl, sym, ◌∙◌, ap, subst, arith, Bool, true, false, ◌||◌, not,
  if◌then◌else◌, Option, none, some, List, [], ◌∷◌, codes, text_eq, text_eq_iff, Option-cases,
  Bool-cases,
}
use flow_type.FileTransfer.States.{BatchState, is_terminal, same_state}
use flow_type.FileStore.Batches.{BatchRecord, Disk, Store, on_disk, load_batch, update_state}
use flow_type.FileStore.Records.{load_batch_lem}
use flow_type.FileServer.{Answer, answered, failed}
use flow_type.FileServer.Coordinator.{Coordinator, Moment, cancel, end_batch, cancel_all}
use flow_type.FileServer.Steps.{
  moved_on, advance, advance_found, advance_loaded, accept, to_prepare,
}
use flow_type.FileServer.Changes.{Changed, same, both, updating, keeps, no_change}

end_batch_store :
    (id : Text) (c : Coordinator) (r : Option BatchRecord × Store)
    → (end_batch id c r).1.store ≡ r.1
end_batch_store id c (none, s) = refl
end_batch_store id c (some b, s) = refl

pub cancel-Changed :
    (m : Moment) (id phone : Text) (c : Coordinator)
    → Changed m.disk phone c.store (cancel m id phone c).1.store
unfolding cancel
cancel-Changed m id phone c = elim (Option-cases (load_batch m.disk id c.store)) [
  | inl e ↦ no_change m.disk phone c.store (cancel m id phone c).1.store (ground (arith, e))
  | inr (b, e) ↦ elim (Bool-cases (not (text_eq b.phone_id phone) || is_terminal b.state)) [
    | inl f ↦ no_change m.disk phone c.store (cancel m id phone c).1.store (ground (arith, e, f))
    | inr f ↦
        let update = update_state m.disk id BatchState.canceled m.now c.store in
        subst (λ s. Changed m.disk phone c.store s)
          (sym (end_batch_store id c update) ∙ ground (arith, e, f))
          (updating id BatchState.canceled m.now b c.store e
            ((text_eq_iff b.phone_id phone).0 (ground (arith, f))))
  ]
]

pub cancel_all-Changed :
    (m : Moment) (phone : Text) (bs : List BatchRecord) (c : Coordinator)
    → Changed m.disk phone c.store (cancel_all m phone bs c).store
unfolding cancel_all
cancel_all-Changed m phone [] c = same c.store
cancel_all-Changed m phone (b ∷ bs) c = elim (Bool-cases (text_eq b.phone_id phone)) [
  | inr e ↦
      subst
        (λ p.
          Changed m.disk phone c.store
            (cancel_all m phone bs (if p then (cancel m b.batch_id phone c).1 else c)).store)
        (sym e) (cancel_all-Changed m phone bs c)
  | inl e ↦
      let next = (cancel m b.batch_id phone c).1 in
      subst
        (λ p. Changed m.disk phone c.store (cancel_all m phone bs (if p then next else c)).store)
        (sym e)
        (both c.store next.store (cancel_all m phone bs next).store
          (cancel-Changed m b.batch_id phone c) (cancel_all-Changed m phone bs next))
]

-- What loads after the changes of a phone, where the batch was the phone's, is the phone's.
owner_after :
    (q : Text) (s t : Store) (id : Text) (a b : BatchRecord) (d : Disk)
    → Changed d q s t
    → on_disk id s ≡ some a
    → a.phone_id ≡ q
    → load_batch d id t ≡ some b
    → b.phone_id ≡ q
owner_after q s t id a b d w h p l =
    let k = keeps d q s t w id a h in
    let e : k.0 ≡ b = ground (arith, sym k.1 ∙ (load_batch_lem d id t b l).0) in
    ap (λ x. x.phone_id) (sym e) ∙ k.2.owner ∙ p

pub moved_on_store :
    (code : Text) (c : Coordinator) (r : Option BatchRecord × Store)
    → (moved_on code c r).1.store ≡ r.1
moved_on_store code c (none, s) = refl
moved_on_store code c (some b, s) = refl

advance-Changed :
    (m : Moment) (id : Text) (due : Bool) (next : BatchState) (code : Text) (c : Coordinator)
    (q : Text) (b : BatchRecord)
    → load_batch m.disk id c.store ≡ some b
    → b.phone_id ≡ q
    → Changed m.disk q c.store (advance m id due next code c).1.store
unfolding advance
advance-Changed m id false next code c q b h p = same c.store
advance-Changed m id true next code c q b h p =
    subst (λ s. Changed m.disk q c.store s)
      (sym (moved_on_store code c (update_state m.disk id next m.now c.store)))
      (updating id next m.now b c.store h p)

advance_loaded-Changed :
    (m : Moment) (id : Text) (due : BatchState → Bool) (next : BatchState) (code : Text)
    (r : Answer (Unit {0}) × Coordinator) (q : Text) (s : Store) (a : BatchRecord)
    → Changed m.disk q s r.1.store
    → on_disk id s ≡ some a
    → a.phone_id ≡ q
    → Changed m.disk q s (advance_loaded m id due next code r).1.store
advance_loaded-Changed m id due next code (failed e, c) q s a w h p = w
advance_loaded-Changed m id due next code (answered _, c) q s a w h p =
    found (load_batch m.disk id c.store) refl
  where
    found :
        (o : Option BatchRecord)
        → load_batch m.disk id c.store ≡ o
        → Changed m.disk q s (advance_found m id due next code c o).1.store
    found none e = w
    found (some b) e = both s c.store (advance m id (due b.state) next code c).1.store w (
        advance-Changed m id (due b.state) next code c q b e
          (owner_after q s c.store id a b m.disk w h p e))

pub accept-Changed :
    (m : Moment) (id : Text) (state : BatchState) (c : Coordinator) (q : Text) (b : BatchRecord)
    → load_batch m.disk id c.store ≡ some b
    → b.phone_id ≡ q
    → Changed m.disk q c.store (accept m id state c).1.store
unfolding accept
accept-Changed m id state c q b h p =
    let stored = (load_batch_lem m.disk id c.store b h).0 in
    let queued =
      advance m id (same_state state BatchState.waiting_confirmation) BatchState.queued
        (codes "cannot accept batch") c in
    let prepared =
      advance_loaded m id to_prepare BatchState.preparing (codes "cannot prepare batch") queued in
    advance_loaded-Changed m id (λ s. same_state s BatchState.preparing) BatchState.transferring
      (codes "cannot start batch") prepared q c.store b
      (advance_loaded-Changed m id to_prepare BatchState.preparing (codes "cannot prepare batch")
        queued q c.store b
        (advance-Changed m id (same_state state BatchState.waiting_confirmation) BatchState.queued
          (codes "cannot accept batch") c q b h p)
        stored p)
      stored p

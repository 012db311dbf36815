-- ===== src/FileServer/Changes.antt =====
-- Proofs about windows/flowtype-app/src/file_transfer_server.rs: what the calls made for a phone change
-- in the coordinator's store, step by step.
use flow_type.Prelude.{
  Text, ℕ, ◌≡◌, inl, inr, refl, sym, ◌∙◌, ap, subst, arith, true, false, Option, none, some, List,
  text_eq, ◌&&◌, text_eq_iff, Option-cases, Bool-cases, any,
}
use flow_type.FileTransfer.States.{BatchState}
use flow_type.FileTransfer.Messages.{TransferDirection, FileOffer, validate_offer}
use flow_type.FileStore.Batches.{
  BatchRecord, Disk, Store, Created, new, on_disk, load_batch, create_batch, update_state,
  recoverable_batches, is_ok,
}
use flow_type.FileStore.Records.{
  Later, unchanged, Later-trans, create-keeps, update-keeps, exists_of, load_batch_lem,
}
use flow_type.FileServer.Coordinator.{Coordinator, Moment, to_computer, with_store}
use flow_type.FileServer.Steps.{busy}
use flow_type.FileServer.Offers.{
  issue_ticket, resume, start_batch, started, after_create, accept_offer,
}

-- No batch of the phone that the store lists is open.
abbrev pub IsIdle : Disk → Text → Store → Type 0
IsIdle d phone s =
    (bs : List BatchRecord) × (recoverable_batches d s ≡ some bs)
    × (any (λ b. text_eq b.phone_id phone) bs ≡ false)

-- The store changes that a phone's calls may make.
pub data Changed (d : Disk) (phone : Text) : Store → Store → Type 0 where
  same : (s : Store) → Changed d phone s s
  creating :
      (b : BatchRecord) (s : Store)
      → b.phone_id ≡ phone
      → load_batch d b.batch_id s ≡ none
      → IsIdle d phone s
      → Changed d phone s (create_batch d b s).1
  updating :
      (id : Text) (next : BatchState) (now : ℕ) (b : BatchRecord) (s : Store)
      → load_batch d id s ≡ some b
      → b.phone_id ≡ phone
      → Changed d phone s (update_state d id next now s).1
  both : (s t u : Store) → Changed d phone s t → Changed d phone t u → Changed d phone s u

-- What the changes of a phone's calls leave of a record that is on disk.
pub keeps :
    (d : Disk) (q : Text) (s t : Store)
    → Changed d q s t
    → (id : Text) (a : BatchRecord) → on_disk id s ≡ some a
    → (c : BatchRecord) × (on_disk id t ≡ some c) × Later q a c
keeps d q s t (same u) id a h = (a, h, unchanged q a)
keeps d q s t (creating b u p n i) id a h = (a, create-keeps d b id a u h, unchanged q a)
keeps d q s t (updating j next now b u l p) id a h = update-keeps d j next now u b q l p id a h
keeps d q s t (both u v w x y) id a h =
    let first = keeps d q u v x id a h in
    let second = keeps d q v w y id first.0 first.1 in
    (second.0, second.1, Later-trans q a first.0 second.0 first.2 second.2)

pub no_change : (d : Disk) (q : Text) (s t : Store) → t ≡ s → Changed d q s t
no_change d q s t e = subst (λ x. Changed d q s x) (sym e) (same s)

-- A batch that loads is there already, so that creating it changes nothing.
create_again :
    (d : Disk) (b a : BatchRecord) (s : Store)
    → load_batch d b.batch_id s ≡ some a
    → (create_batch d b s).1 ≡ s
unfolding create_batch
create_again d b a s h =
    ground (arith, exists_of b.batch_id s a (load_batch_lem d b.batch_id s a h).0)

pub issue_ticket_store :
    (digest : Text → List ℕ) (m : Moment) (id phone : Text) (c : Coordinator)
    → (issue_ticket digest m id phone c).1.store ≡ c.store
unfolding issue_ticket
issue_ticket_store digest m id phone c = elim (Option-cases (load_batch m.disk id c.store)) [
  | inl e ↦ ground (arith, e)
  | inr (b, e) ↦ ground (arith, e)
]

resume_store :
    (digest : Text → List ℕ) (m : Moment) (o : FileOffer) (phone : Text) (c : Coordinator)
    → (resume digest m o phone c).1.store ≡ c.store
unfolding resume
resume_store digest m o phone c = elim (Option-cases (load_batch m.disk o.batch_id c.store)) [
  | inl e ↦ ground (arith, e)
  | inr (b, e) ↦ ground (arith, e, issue_ticket_store digest m o.batch_id phone c)
]

after_create_store :
    (digest : Text → List ℕ) (m : Moment) (o : FileOffer) (phone : Text) (c : Coordinator)
    (r : Created × Store)
    → (after_create digest m o phone c r).1.store ≡ r.1
after_create_store digest m o phone c (Created.created, s) =
    issue_ticket_store digest m o.batch_id phone (with_store c s)
after_create_store digest m o phone c (Created.already_exists, s) =
    resume_store digest m o phone (with_store c s)
after_create_store digest m o phone c (Created.refused, s) = refl

new_lem :
    (id phone : Text) (w : TransferDirection) (now f g t : ℕ) (b : BatchRecord)
    → new id phone w now f g t ≡ some b
    → (b.batch_id ≡ id) × (b.phone_id ≡ phone)
unfolding new
new_lem id phone w now f g t b h = ground (arith, h)

not_busy :
    (m : Moment) (o : FileOffer) (phone : Text) (s : Store)
    → busy m o phone s ≡ none
    → load_batch m.disk o.batch_id s ≡ none
    → IsIdle m.disk phone s
unfolding busy
not_busy m o phone s h e = elim (Option-cases (recoverable_batches m.disk s)) [
  | inl f ↦ absurd (ground arith)
  | inr (bs, f) ↦ (bs, f, ground arith)
]

creating-Changed :
    (m : Moment) (o : FileOffer) (phone : Text) (b : BatchRecord) (s : Store)
    → busy m o phone s ≡ none
    → b.batch_id ≡ o.batch_id
    → b.phone_id ≡ phone
    → Changed m.disk phone s (create_batch m.disk b s).1
creating-Changed m o phone b s h e p = elim (Option-cases (load_batch m.disk o.batch_id s)) [
  | inl f ↦ creating b s p (ap (λ i. load_batch m.disk i s) e ∙ f) (not_busy m o phone s h f)
  | inr (a, f) ↦
      no_change m.disk phone s (create_batch m.disk b s).1
        (create_again m.disk b a s (ap (λ i. load_batch m.disk i s) e ∙ f))
]

started_cases :
    (digest : Text → List ℕ) (m : Moment) (o : FileOffer) (phone : Text) (c : Coordinator)
    (made : Option BatchRecord)
    → ((b : BatchRecord) → made ≡ some b → (b.batch_id ≡ o.batch_id) × (b.phone_id ≡ phone))
    → busy m o phone c.store ≡ none
    → Changed m.disk phone c.store (started digest m o phone c made).1.store
started_cases digest m o phone c none k h = same c.store
started_cases digest m o phone c (some b) k h =
    subst (λ s. Changed m.disk phone c.store s)
      (sym (after_create_store digest m o phone c (create_batch m.disk b c.store)))
      (creating-Changed m o phone b c.store h (k b refl).0 (k b refl).1)

start_batch-Changed :
    (digest : Text → List ℕ) (m : Moment) (o : FileOffer) (phone : Text) (c : Coordinator)
    → busy m o phone c.store ≡ none
    → o.phone_id ≡ phone
    → Changed m.disk phone c.store (start_batch digest m o phone c).1.store
unfolding start_batch
start_batch-Changed digest m o phone c h p =
    started_cases digest m o phone c
      (new o.batch_id o.phone_id o.direction m.now o.file_count o.directory_count o.total_bytes)
      (λ b e.
        let f =
          new_lem o.batch_id o.phone_id o.direction m.now o.file_count o.directory_count
            o.total_bytes b e in
        (f.0, f.1 ∙ p))
      h

pub offer_owner :
    (o : FileOffer) (phone : Text) → is_ok (validate_offer o phone) ≡ true → o.phone_id ≡ phone
unfolding validate_offer
offer_owner o phone h = ground (arith, text_eq_iff o.phone_id phone)

-- An offer changes the store only for the phone that it is made by.
pub accept_offer-Changed :
    (digest : Text → List ℕ) (m : Moment) (o : FileOffer) (phone : Text) (c : Coordinator)
    → Changed m.disk phone c.store (accept_offer digest m o phone c).1.store
unfolding accept_offer
accept_offer-Changed digest m o phone c =
    elim (Bool-cases (is_ok (validate_offer o phone) && to_computer o.direction && m.starts_free)) [
      | inr e ↦
          no_change m.disk phone c.store (accept_offer digest m o phone c).1.store
            (ground (arith, e))
      | inl e ↦ elim (Option-cases (busy m o phone c.store)) [
        | inr (code, f) ↦
            no_change m.disk phone c.store (accept_offer digest m o phone c).1.store
              (ground (arith, e, f))
        | inl f ↦
            subst (λ s. Changed m.disk phone c.store s) (ground (arith, e, f))
              (start_batch-Changed digest m o phone c f (offer_owner o phone (ground (arith, e))))
      ]
    ]

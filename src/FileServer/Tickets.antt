-- ===== src/FileServer/Tickets.antt =====
-- Proofs about windows/flowtype-app/src/file_transfer_server.rs: a ticket that is sent to a phone opens
-- the batch that it names.
use flow_type.Prelude.{
  Text, codes, ℕ, ◌<◌, ◌≡◌, refl, sym, ◌∙◌, ap, subst, arith, Bool, true, false, not, Option, none,
  some, List, [], ◌∷◌, text_eq_iff, text_eq_refl, get, insert, retain, if◌then◌else◌,
}
use flow_type.FileTransfer.States.{is_terminal}
use flow_type.FileTransfer.Messages.{
  TransferDirection, FileOffer, FileServerMessage, validate_offer,
}
use flow_type.FileStore.Batches.{
  BatchRecord, Disk, Store, Created, created, is_ok, on_disk, new, load_batch, create_batch,
}
use flow_type.FileStore.Records.{load_batch_lem, on_disk-insert_same}
use flow_type.FileServer.{Answer, answered, failed}
use flow_type.FileServer.Coordinator.{Coordinator, Moment, TicketGrant, to_computer, with_store}
use flow_type.FileServer.Steps.{busy, conflicts}
use flow_type.FileServer.Offers.{
  issue_ticket, issued, grant, resume, resumed, after_create, started, start_batch, accept_offer,
}
use flow_type.FileServer.Access.{
  differs, constant_time_equal, unexpired, without_expired, grant_allows, authorize,
}
use flow_type.FileServer.Changes.{offer_owner}
use flow_type.FileServer.Exclusive.{IsReadable}

-- The batch on disk is the phone's and has not ended.
abbrev pub OpenFor : Text → Text → Store → Type 0
OpenFor phone id s =
    (b : BatchRecord) × (on_disk id s ≡ some b)
    × (b.phone_id ≡ phone)
    × (is_terminal b.state ≡ false)

-- What a ticket must do, where a message is one.
abbrev pub Opens : (Text → List ℕ) → Coordinator → FileServerMessage → Type 0
Opens digest c (FileServerMessage.file_ticket t) =
    (d : Disk) (now : ℕ)
    → IsReadable d
    → now < t.expires_at_epoch_seconds
    → (authorize digest d now t.batch_id t.token c).0 ≡ true
Opens digest c (FileServerMessage.file_offer o) = Unit
Opens digest c (FileServerMessage.file_result id state) = Unit
Opens digest c (FileServerMessage.file_error id code) = Unit

abbrev pub Opened : (Text → List ℕ) → Answer FileServerMessage × Coordinator → Type 0
Opened digest (answered message, c) = Opens digest c message
Opened digest (failed code, c) = Unit

differs_not : (bs : List ℕ) → differs false bs bs ≡ false
differs_not [] = refl
differs_not (b ∷ bs) = ground (arith, differs_not bs)

readable_load :
    (d e : Disk) (id : Text) (s : Store) (b : BatchRecord)
    → load_batch d id s ≡ some b
    → IsReadable e
    → load_batch e id s ≡ some b
unfolding load_batch
readable_load d e id s b h r = ground (arith, h, r id)

kept_grant :
    (id : Text) (g : TicketGrant) (m : List (Text × TicketGrant)) (now : ℕ)
    → now < g.expires_at_epoch_seconds
    → get id (retain (unexpired now) (insert id g m)) ≡ some g
unfolding get retain
kept_grant id g m now h = ground (arith, h, text_eq_refl id)

issued_opens :
    (digest : Text → List ℕ) (m : Moment) (id phone : Text) (c : Coordinator) (b : BatchRecord)
    → load_batch m.disk id c.store ≡ some b
    → b.phone_id ≡ phone
    → is_terminal b.state ≡ false
    → (d : Disk) (now : ℕ) → IsReadable d
    → now < (grant digest m phone b).expires_at_epoch_seconds
    → (authorize digest d now id m.token
        (record c { tickets = insert id (grant digest m phone b) c.tickets })).0
      ≡ true
unfolding authorize without_expired grant_allows constant_time_equal
issued_opens digest m id phone c b h p t d now r k = ground (
  arith,
  kept_grant id (grant digest m phone b) c.tickets now k,
  differs_not (digest m.token),
  readable_load m.disk d id c.store b h r,
  (text_eq_iff b.phone_id phone).1 p,
  t,
)

pub open_load :
    (phone id : Text) (s : Store) (d : Disk) (b : BatchRecord)
    → OpenFor phone id s
    → load_batch d id s ≡ some b
    → (b.phone_id ≡ phone) × (is_terminal b.state ≡ false)
open_load phone id s d b o h =
    let e : o.0 ≡ b = ground (arith, sym o.1 ∙ (load_batch_lem d id s b h).0) in
    (ap (λ x. x.phone_id) (sym e) ∙ o.2, ap (λ x. is_terminal x.state) (sym e) ∙ o.3)

pub issue_ticket-Opened :
    (digest : Text → List ℕ) (m : Moment) (id phone : Text) (c : Coordinator)
    → OpenFor phone id c.store
    → Opened digest (issue_ticket digest m id phone c)
unfolding issue_ticket
issue_ticket-Opened digest m id phone c o = found (load_batch m.disk id c.store) refl
  where
    found :
        (l : Option BatchRecord)
        → load_batch m.disk id c.store ≡ l
        → Opened digest (issued digest m id phone c l)
    found none e = tt
    found (some b) e =
        let f = open_load phone id c.store m.disk b o e in
        issued_opens digest m id phone c b e f.0 f.1

resume-Opened :
    (digest : Text → List ℕ) (m : Moment) (o : FileOffer) (phone : Text) (c : Coordinator)
    → o.phone_id ≡ phone
    → Opened digest (resume digest m o phone c)
unfolding resume
resume-Opened digest m o phone c p = found (load_batch m.disk o.batch_id c.store) refl
  where
    found :
        (l : Option BatchRecord)
        → load_batch m.disk o.batch_id c.store ≡ l
        → Opened digest (resumed digest m o phone c l)
    found none e = tt
    found (some b) e = go (conflicts o b) refl (is_terminal b.state) refl
      where
        go :
            (x : Bool)
            → conflicts o b ≡ x
            → (y : Bool) → is_terminal b.state ≡ y
            → Opened digest (
                if x
                then (failed (codes "batch id conflict"), c)
                else if y
                then (answered (FileServerMessage.file_result b.batch_id b.state), c)
                else issue_ticket digest m o.batch_id phone c)
        go true f y g = tt
        go false f true g = tt
        go false f false g = issue_ticket-Opened digest m o.batch_id phone c (
          b,
          (load_batch_lem m.disk o.batch_id c.store b e).0,
          ground (arith, f, p, text_eq_iff b.phone_id o.phone_id),
          g,
        )

created_is :
    (d : Disk) (b : BatchRecord) (s t : Store)
    → create_batch d b s ≡ (created, t)
    → t ≡ insert b.batch_id (some b) s
unfolding create_batch
created_is d b s t h = ground (arith, h)

after_create-Opened :
    (digest : Text → List ℕ) (m : Moment) (o : FileOffer) (phone : Text) (c : Coordinator)
    (b : BatchRecord) (r : Created × Store)
    → create_batch m.disk b c.store ≡ r
    → b.batch_id ≡ o.batch_id
    → b.phone_id ≡ phone
    → is_terminal b.state ≡ false
    → o.phone_id ≡ phone
    → Opened digest (after_create digest m o phone c r)
after_create-Opened digest m o phone c b (Created.created, s) e i p t q =
    issue_ticket-Opened digest m o.batch_id phone (with_store c s) (
      b,
      ap (on_disk o.batch_id) (created_is m.disk b c.store s e)
          ∙ subst (λ k. on_disk k (insert b.batch_id (some b) c.store) ≡ some b) i
              (on_disk-insert_same b.batch_id (some b) c.store),
      p,
      t,
    )
after_create-Opened digest m o phone c b (Created.already_exists, s) e i p t q =
    resume-Opened digest m o phone (with_store c s) q
after_create-Opened digest m o phone c b (Created.refused, s) e i p t q = tt

new_open :
    (id phone : Text) (w : TransferDirection) (now f g t : ℕ) (b : BatchRecord)
    → new id phone w now f g t ≡ some b
    → (b.batch_id ≡ id) × (b.phone_id ≡ phone) × (is_terminal b.state ≡ false)
unfolding new is_terminal
new_open id phone TransferDirection.phone_to_computer now f g t b h = ground (arith, h)
new_open id phone TransferDirection.computer_to_phone now f g t b h = ground (arith, h)

started-Opened :
    (digest : Text → List ℕ) (m : Moment) (o : FileOffer) (phone : Text) (c : Coordinator)
    (made : Option BatchRecord)
    → new o.batch_id o.phone_id o.direction m.now o.file_count o.directory_count o.total_bytes
      ≡ made
    → o.phone_id ≡ phone
    → Opened digest (started digest m o phone c made)
started-Opened digest m o phone c none e p = tt
started-Opened digest m o phone c (some b) e p =
    let f =
      new_open o.batch_id o.phone_id o.direction m.now o.file_count o.directory_count o.total_bytes
        b e in
    after_create-Opened digest m o phone c b (create_batch m.disk b c.store) refl f.0 (f.1 ∙ p) f.2
      p

pub accept_offer-Opened :
    (digest : Text → List ℕ) (m : Moment) (o : FileOffer) (phone : Text) (c : Coordinator)
    → Opened digest (accept_offer digest m o phone c)
unfolding accept_offer start_batch
accept_offer-Opened digest m o phone c =
    go (is_ok (validate_offer o phone)) refl (to_computer o.direction) m.starts_free
      (busy m o phone c.store)
  where
    made : Option BatchRecord
    made = new o.batch_id o.phone_id o.direction m.now o.file_count o.directory_count o.total_bytes

    go :
        (x : Bool)
        → is_ok (validate_offer o phone) ≡ x
        → (y z : Bool) (w : Option Text)
        → Opened digest (
            if not x
            then (failed (codes "invalid file offer"), c)
            else if not y
            then (failed (codes "unexpected transfer direction"), c)
            else if not z
            then (failed (codes "transfer_busy"), c)
            else elim w [ some code ↦ (failed code, c) | none ↦ started digest m o phone c made ])
    go false e y z w = tt
    go true e false z w = tt
    go true e true false w = tt
    go true e true true (some code) = tt
    go true e true true none = started-Opened digest m o phone c made refl (offer_owner o phone e)

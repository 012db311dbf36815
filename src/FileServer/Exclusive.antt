-- ===== src/FileServer/Exclusive.antt =====
-- Proofs about windows/flowtype-app/src/file_transfer_server.rs: a phone has at most one open batch.
use flow_type.Prelude.{
  Text, ℕ, ◌≡◌, ◌≢◌, ◌⊎◌, inl, inr, refl, sym, ◌∙◌, ap, subst, arith, true, false, Option, none,
  some, List, [], ◌∷◌, All, text_eq, text_eq_iff, Bool-cases, insert,
}
use flow_type.FileTransfer.States.{BatchState, is_terminal, can_transition_to}
use flow_type.FileTransfer.Messages.{validate_batch_id}
use flow_type.FileStore.Batches.{
  BatchRecord, Disk, Store, is_ok, validate, on_disk, load_batch, create_batch, moved,
}
use flow_type.FileStore.Records.{
  on_disk-insert_same, on_disk-insert_other, update_cases, load_batch_lem, text_cases, closed_stays,
}
use flow_type.FileStore.Listing.{any-recoverable_batches}
use flow_type.FileServer.Coordinator.{Coordinator}
use flow_type.FileServer.Access.{Call, control, revoke, request, perform, perform_all}
use flow_type.FileServer.Changes.{Changed, same, creating, updating, both, IsIdle}
use flow_type.FileServer.Calls.{CallChanged, perform-CallChanged}

-- The batch of this name can be loaded and has not ended.
pub record IsOpen (s : Store) (id : Text) (b : BatchRecord) : Type 0 where
  pub found : on_disk id s ≡ some b
  pub name_ok : is_ok (validate_batch_id id) ≡ true
  pub valid : validate b ≡ true
  pub named : b.batch_id ≡ id
  pub going_on : is_terminal b.state ≡ false

abbrev pub IsExclusive : Store → Type 0
IsExclusive s =
    (i j : Text) (a b : BatchRecord) → IsOpen s i a → IsOpen s j b → a.phone_id ≡ b.phone_id → i ≡ j

abbrev pub IsReadable : Disk → Type 0
IsReadable d = (id : Text) → d.reads id ≡ true

loads :
    (d : Disk) (s : Store) (id : Text) (b : BatchRecord)
    → IsReadable d
    → IsOpen s id b
    → load_batch d id s ≡ some b
unfolding load_batch
loads d s id b r o =
    ground (arith, r id, o.found, o.name_ok, o.valid, text_eq_iff b.batch_id id, o.named)

no_other :
    (d : Disk) (s : Store) (phone id : Text) (b : BatchRecord)
    → IsReadable d
    → IsIdle d phone s
    → IsOpen s id b
    → b.phone_id ≢ phone
no_other d s phone id b r i o p =
    let k =
      any-recoverable_batches (λ x. text_eq x.phone_id phone) d s id b i.0 (loads d s id b r o)
        o.going_on ((text_eq_iff b.phone_id phone).1 p) i.1 in
    ground (arith, k, i.2)

carry :
    (s t : Store)
    → ((id : Text) (x : BatchRecord)
        → IsOpen t id x
        → (y : BatchRecord) × IsOpen s id y × (y.phone_id ≡ x.phone_id))
    → IsExclusive s
    → IsExclusive t
carry s t back ex i j a b oa ob e =
    let p = back i a oa in let q = back j b ob in ex i j p.0 q.0 p.1 q.1 (p.2 ∙ e ∙ sym q.2)

inserted_cases :
    (s : Store) (k : Text) (o : Option BatchRecord) (id : Text) (x : BatchRecord)
    → IsOpen (insert k o s) id x
    → ((id ≡ k) × (o ≡ some x)) ⊎ IsOpen s id x
inserted_cases s k o id x p = elim (text_cases id k) [
  | inl e ↦
      inl
        (e, sym (on_disk-insert_same k o s) ∙ sym (ap (λ i. on_disk i (insert k o s)) e) ∙ p.found)
  | inr n ↦ inr (record {
    found = sym (on_disk-insert_other id k o s n) ∙ p.found;
    name_ok = p.name_ok;
    valid = p.valid;
    named = p.named;
    going_on = p.going_on;
  })
]

create_cases :
    (d : Disk) (b : BatchRecord) (s : Store)
    → ((create_batch d b s).1 ≡ s)
      ⊎ ((create_batch d b s).1 ≡ insert b.batch_id none s)
      ⊎ ((create_batch d b s).1 ≡ insert b.batch_id (some b) s)
unfolding create_batch
create_cases d b s = ground arith

emptied-IsExclusive : (s : Store) (k : Text) → IsExclusive s → IsExclusive (insert k none s)
emptied-IsExclusive s k ex =
    carry s (insert k none s)
      (λ id x p. elim (inserted_cases s k none id x p) [
        | inl e ↦ absurd (ground (arith, e.1))
        | inr q ↦ (x, q, refl)
      ])
      ex

added-IsExclusive :
    (s : Store) (k : Text) (b : BatchRecord)
    → ((id : Text) (x : BatchRecord) → IsOpen s id x → x.phone_id ≢ b.phone_id)
    → IsExclusive s
    → IsExclusive (insert k (some b) s)
added-IsExclusive s k b alone ex i j x y p q e = elim (inserted_cases s k (some b) i x p) [
  | inl f ↦ elim (inserted_cases s k (some b) j y q) [
    | inl g ↦ f.0 ∙ sym g.0
    | inr o ↦ absurd (alone j y o (sym e ∙ ap (λ r. r.phone_id) (sym (got x f.1))))
  ]
  | inr o ↦ elim (inserted_cases s k (some b) j y q) [
    | inl g ↦ absurd (alone i x o (e ∙ ap (λ r. r.phone_id) (sym (got y g.1))))
    | inr r ↦ ex i j x y o r e
  ]
]
  where
    got : (x : BatchRecord) → Path (Option BatchRecord) (some b) (some x) → b ≡ x
    got x h = ground (arith, h)

named_ok :
    (d : Disk) (id : Text) (s : Store) (b : BatchRecord)
    → load_batch d id s ≡ some b
    → is_ok (validate_batch_id id) ≡ true
unfolding load_batch
named_ok d id s b h = ground (arith, h)

still_going :
    (s t : BatchState)
    → can_transition_to s t ≡ true
    → is_terminal t ≡ false
    → is_terminal s ≡ false
still_going s t h k = elim (Bool-cases (is_terminal s)) [
  | inr e ↦ e
  | inl e ↦ absurd (ground (arith, k, ap is_terminal (closed_stays s t h e), e))
]

moved-IsExclusive :
    (d : Disk) (s : Store) (id : Text) (b : BatchRecord) (next : BatchState) (now : ℕ)
    → load_batch d id s ≡ some b
    → can_transition_to b.state next ≡ true
    → IsExclusive s
    → IsExclusive (insert id (some (moved b next now)) s)
moved-IsExclusive d s id b next now l can ex =
    carry s (insert id (some (moved b next now)) s) back ex
  where
    back :
        (i : Text) (x : BatchRecord)
        → IsOpen (insert id (some (moved b next now)) s) i x
        → (y : BatchRecord) × IsOpen s i y × (y.phone_id ≡ x.phone_id)
    back i x p = elim (inserted_cases s id (some (moved b next now)) i x p) [
      | inr q ↦ (x, q, refl)
      | inl e ↦
          let k = load_batch_lem d id s b l in
          let m : moved b next now ≡ x = ground (arith, e.1) in
          (
            b,
            record {
              found = ap (λ j. on_disk j s) e.0 ∙ k.0;
              name_ok = p.name_ok;
              valid = k.1;
              named = k.2 ∙ sym e.0;
              going_on =
                  still_going b.state next can (ap (λ r. is_terminal r.state) m ∙ p.going_on);
            },
            ap (λ r. r.phone_id) m,
          )
    ]

Changed-IsExclusive :
    (d : Disk) (q : Text) (s t : Store)
    → IsReadable d
    → Changed d q s t
    → IsExclusive s
    → IsExclusive t
Changed-IsExclusive d q s t r (same u) ex = ex
Changed-IsExclusive d q s t r (creating b u p n i) ex = elim (create_cases d b u) [
  | inl e ↦ subst IsExclusive (sym e) ex
  | inr (inl e) ↦ subst IsExclusive (sym e) (emptied-IsExclusive u b.batch_id ex)
  | inr (inr e) ↦
      subst IsExclusive (sym e)
        (added-IsExclusive u b.batch_id b (λ id x o m. no_other d u q id x r i o (m ∙ p)) ex)
]
Changed-IsExclusive d q s t r (updating id next now b u l p) ex =
    elim (update_cases d id next now u b l) [
      | inl e ↦ subst IsExclusive (sym e) ex
      | inr (can, e) ↦ subst IsExclusive (sym e) (moved-IsExclusive d u id b next now l can ex)
    ]
Changed-IsExclusive d q s t r (both u v w x y) ex =
    Changed-IsExclusive d q v w r y (Changed-IsExclusive d q u v r x ex)

-- Every batch.json that there is can be read while the call runs.
abbrev pub IsReadableCall : Call → Type 0
IsReadableCall (control m id message phone) = IsReadable m.disk
IsReadableCall (revoke m phone) = IsReadable m.disk
IsReadableCall (request d now id bearer) = IsReadable d

call-IsExclusive :
    (call : Call) (s t : Store)
    → IsReadableCall call
    → CallChanged call s t
    → IsExclusive s
    → IsExclusive t
call-IsExclusive (control m i message phone) s t r w ex =
    Changed-IsExclusive m.disk phone s t r w ex
call-IsExclusive (revoke m phone) s t r w ex = Changed-IsExclusive m.disk phone s t r w ex
call-IsExclusive (request d now i bearer) s t r w ex = subst IsExclusive (sym w) ex

-- Where the batch records can be read, no sequence of messages, revocations and authorizations of
-- requests gives a phone a second open batch: from a store in which every phone has one at most, each
-- has one at most.
pub perform_all-IsExclusive :
    (digest : Text → List ℕ) (calls : List Call) (c : Coordinator)
    → All IsReadableCall calls
    → IsExclusive c.store
    → IsExclusive (perform_all digest calls c).store
unfolding perform_all
perform_all-IsExclusive digest [] c r ex = ex
perform_all-IsExclusive digest (call ∷ calls) c r ex =
    perform_all-IsExclusive digest calls (perform digest call c) r.1 (
      call-IsExclusive call c.store (perform digest call c).store r.0
        (perform-CallChanged digest call c) ex)

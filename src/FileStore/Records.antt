-- ===== src/FileStore/Records.antt =====
-- Proofs about windows/flowtype-app/src/file_transfer_store.rs: what creating and updating a batch
-- leaves of the other records, and of the record itself.
use flow_type.Prelude.{
  Text, ℕ, ◌≡◌, ◌≢◌, ◌⊎◌, inl, inr, refl, sym, ◌∙◌, ap, subst, arith, Bool, true, Option, none,
  some, [], ◌∷◌, is_some, text_eq, text_eq_iff, if◌then◌else◌, ◌&&◌, Option-cases, Bool-cases, get,
  insert, get-insert_same, get-insert_other,
}
use flow_type.FileTransfer.States.{BatchState, is_terminal, can_transition_to, run, run-terminal}
use flow_type.FileTransfer.Messages.{validate_batch_id}
use flow_type.FileStore.Batches.{
  BatchRecord, Disk, Store, on_disk, contents_of, checked, is_ok, validate, moved, written,
  load_batch, create_batch, update_state,
}

pub on_disk-insert_same :
    (id : Text) (o : Option BatchRecord) (s : Store) → on_disk id (insert id o s) ≡ o
unfolding on_disk
on_disk-insert_same id o s = ap contents_of (get-insert_same id o s)

pub on_disk-insert_other :
    (id j : Text) (o : Option BatchRecord) (s : Store)
    → id ≢ j
    → on_disk id (insert j o s) ≡ on_disk id s
unfolding on_disk
on_disk-insert_other id j o s n = ap contents_of (get-insert_other id j o s n)

gated :
    (p : Bool) (o : Option BatchRecord) (b : BatchRecord)
    → (if p then o else none) ≡ some b
    → (p ≡ true) × (o ≡ some b)
gated p o b h = ground arith

unchecked :
    (id : Text) (o : Option BatchRecord) (b : BatchRecord)
    → checked id o ≡ some b
    → (o ≡ some b) × (validate b ≡ true) × (b.batch_id ≡ id)
unchecked id none b h = absurd (ground arith)
unchecked id (some c) b h =
    let p = gated (validate c && text_eq c.batch_id id) (some c) b h in
    let e : c ≡ b = ground (arith, p.1) in
    (
      p.1,
      subst (λ x. validate x ≡ true) e (ground (arith, p.0)),
      subst (λ x. x.batch_id ≡ id) e ((text_eq_iff c.batch_id id).0 (ground (arith, p.0))),
    )

-- A batch that loads is the valid one on disk under its name.
pub load_batch_lem :
    (d : Disk) (id : Text) (s : Store) (b : BatchRecord)
    → load_batch d id s ≡ some b
    → (on_disk id s ≡ some b) × (validate b ≡ true) × (b.batch_id ≡ id)
unfolding load_batch
load_batch_lem d id s b h =
    unchecked id (on_disk id s) b
      (gated (is_ok (validate_batch_id id) && d.reads id) (checked id (on_disk id s)) b h).1

pub exists_of :
    (id : Text) (s : Store) (b : BatchRecord) → on_disk id s ≡ some b → is_some (get id s) ≡ true
unfolding on_disk
exists_of id s b h = elim (Option-cases (get id s)) [
  | inl e ↦ absurd (ground arith)
  | inr (c, e) ↦ ground arith
]

-- What may become of a record by a call of the phone `q`.
pub record Later (q : Text) (b c : BatchRecord) : Type 0 where
  pub named : c.batch_id ≡ b.batch_id
  pub owner : c.phone_id ≡ b.phone_id
  pub closed : is_terminal b.state ≡ true → c.state ≡ b.state
  pub foreign : b.phone_id ≢ q → c ≡ b

pub unchanged : (q : Text) (b : BatchRecord) → Later q b b
unchanged q b = record { named = refl; owner = refl; closed = λ h. refl; foreign = λ h. refl }

pub Later-trans : (q : Text) (a b c : BatchRecord) → Later q a b → Later q b c → Later q a c
Later-trans q a b c l m = record {
  named = m.named ∙ l.named;
  owner = m.owner ∙ l.owner;
  closed = λ h. m.closed (subst (λ s. is_terminal s ≡ true) (sym (l.closed h)) h) ∙ l.closed h;
  foreign = λ n. m.foreign (λ e. n (sym l.owner ∙ e)) ∙ l.foreign n;
}

pub create-keeps :
    (d : Disk) (new : BatchRecord) (id : Text) (b : BatchRecord) (s : Store)
    → on_disk id s ≡ some b
    → on_disk id (create_batch d new s).1 ≡ some b
unfolding create_batch
create-keeps d new id b s h = ground (
  arith,
  text_eq_iff id new.batch_id,
  exists_of id s b h,
  on_disk-insert_other id new.batch_id none s,
  on_disk-insert_other id new.batch_id (some new) s,
)

ran : (s t : BatchState) → can_transition_to s t ≡ true → run s (t ∷ []) ≡ some t
unfolding run
ran s t h = ground (arith, h)

pub closed_stays : (s t : BatchState) → can_transition_to s t ≡ true → is_terminal s ≡ true → t ≡ s
closed_stays s t h k = run-terminal s t (t ∷ []) k (ran s t h)

moved-Later :
    (q : Text) (b : BatchRecord) (next : BatchState) (now : ℕ)
    → can_transition_to b.state next ≡ true
    → b.phone_id ≡ q
    → Later q b (moved b next now)
moved-Later q b next now h p = record {
  named = refl;
  owner = refl;
  closed = closed_stays b.state next h;
  foreign = λ n. absurd (n p);
}

written_cases :
    (d : Disk) (id : Text) (b : BatchRecord) (s : Store)
    → ((written d id b s).1 ≡ insert id (some b) s) ⊎ ((written d id b s).1 ≡ s)
written_cases d id b s = ground arith

-- Where an update is refused, nothing changes; else the batch has moved to a state that may follow.
pub update_cases :
    (d : Disk) (id : Text) (next : BatchState) (now : ℕ) (s : Store) (b : BatchRecord)
    → load_batch d id s ≡ some b
    → ((update_state d id next now s).1 ≡ s)
      ⊎ ((can_transition_to b.state next ≡ true)
          × ((update_state d id next now s).1 ≡ insert id (some (moved b next now)) s))
unfolding update_state
update_cases d id next now s b h = elim (Bool-cases (can_transition_to b.state next)) [
  | inl e ↦ elim (written_cases d id (moved b next now) s) [
    | inl f ↦ inr (e, ground (arith, h, e, f))
    | inr f ↦ inl (ground (arith, h, e, f))
  ]
  | inr e ↦ inl (ground (arith, h, e))
]

pub text_cases : (s t : Text) → (s ≡ t) ⊎ (s ≢ t)
text_cases s t = elim (Bool-cases (text_eq s t)) [
  | inl e ↦ inl ((text_eq_iff s t).0 e)
  | inr e ↦ inr (λ f. ground (arith, e, (text_eq_iff s t).1 f))
]

pub update-keeps :
    (d : Disk) (id : Text) (next : BatchState) (now : ℕ) (s : Store) (b : BatchRecord) (q : Text)
    → load_batch d id s ≡ some b
    → b.phone_id ≡ q
    → (j : Text) (a : BatchRecord) → on_disk j s ≡ some a
    → (c : BatchRecord) × (on_disk j (update_state d id next now s).1 ≡ some c) × Later q a c
update-keeps d id next now s b q h p j a k =
    let keep = update_cases d id next now s b h in
    elim keep [
      | inl e ↦ (a, ap (on_disk j) e ∙ k, unchanged q a)
      | inr (can, e) ↦ elim (text_cases j id) [
        | inr n ↦ (
          a,
          ap (on_disk j) e ∙ on_disk-insert_other j id (some (moved b next now)) s n ∙ k,
          unchanged q a,
        )
        | inl m ↦ (
          moved b next now,
          ap (on_disk j) e
              ∙ subst
                  (λ i. on_disk i (insert id (some (moved b next now)) s) ≡ some (moved b next now))
                  (sym m) (on_disk-insert_same id (some (moved b next now)) s),
          subst (λ x. Later q x (moved b next now)) (same_record m)
              (moved-Later q b next now can p),
        )
      ]
    ]
  where
    same_record : j ≡ id → b ≡ a
    same_record m = ground (arith, (load_batch_lem d id s b h).0, k, ap (λ i. on_disk i s) m)

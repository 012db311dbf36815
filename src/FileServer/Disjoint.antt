-- ===== src/FileServer/Disjoint.antt =====
-- Proofs about windows/flowtype-app/src/file_transfer_server.rs: which requests and jobs work on one entry
-- at a time, and how many jobs there are.
use flow_type.Prelude.{
  Text, ℕ, ◌≤◌, ◌<◌, ◌≡◌, ◌⊎◌, inl, inr, sym, ap, subst, arith, Bool, true, false, none, some, List,
  [], ◌∷◌, leb, length, is_some, Bool-cases, Option-cases,
}
use flow_type.FileServer.{Answer}
use flow_type.FileServer.Coordinator.{max_data_connections}
use flow_type.FileServer.Operations.{
  Key, same_key, VerificationJob, find, without, keeping, Coordination, resource, verifies, is_live,
  is_fresh, with_jobs, poll_job, with_room, start_job, poll_verification,
}
use flow_type.FileServer.Leases.{
  same_key_equal, other_key, find-without_none, find-keeping_none, length-without, length-keeping,
}

abbrev pub Jobs : Type 0
Jobs = List (Key × VerificationJob)

-- No two leases are for the same entry.
abbrev pub Apart : List (Key × Bool) → Type 0
Apart [] = Unit
Apart ((k, v) ∷ rest) = (is_some (find k rest) ≡ false) × Apart rest

-- Who is no verification has no job beside it.
abbrev pub Undisturbed : Jobs → List (Key × Bool) → Type 0
Undisturbed jobs [] = Unit
Undisturbed jobs ((k, v) ∷ rest) =
    (v ≡ false → is_some (find k jobs) ≡ false) × Undisturbed jobs rest

abbrev pub Unhindered : Jobs → List Key → Type 0
Unhindered jobs [] = Unit
Unhindered jobs ((b, a) ∷ rest) =
    (verifies a ≡ false → is_some (find (b, resource a) jobs) ≡ false) × Unhindered jobs rest

-- A key without a job has none after.
abbrev pub Fewer : Jobs → Jobs → Type 0
Fewer jobs next = (j : Key) → is_some (find j jobs) ≡ false → is_some (find j next) ≡ false

abbrev pub FewerBut : Key → Jobs → Jobs → Type 0
FewerBut k jobs next =
    (j : Key) → same_key j k ≡ false → is_some (find j jobs) ≡ false → is_some (find j next) ≡ false

pub Undisturbed-Fewer :
    (jobs next : Jobs) (l : List (Key × Bool))
    → Fewer jobs next
    → Undisturbed jobs l
    → Undisturbed next l
Undisturbed-Fewer jobs next [] f u = tt
Undisturbed-Fewer jobs next ((k, v) ∷ l) f u =
    (λ h. f k (u.0 h), Undisturbed-Fewer jobs next l f u.1)

pub Unhindered-Fewer :
    (jobs next : Jobs) (l : List Key) → Fewer jobs next → Unhindered jobs l → Unhindered next l
Unhindered-Fewer jobs next [] f u = tt
Unhindered-Fewer jobs next ((b, a) ∷ l) f u =
    (λ h. f (b, resource a) (u.0 h), Unhindered-Fewer jobs next l f u.1)

Undisturbed-elsewhere :
    (k : Key) (jobs next : Jobs) (l : List (Key × Bool))
    → FewerBut k jobs next
    → is_some (find k l) ≡ false
    → Undisturbed jobs l
    → Undisturbed next l
unfolding find
Undisturbed-elsewhere k jobs next [] f h u = tt
Undisturbed-elsewhere k jobs next ((j, v) ∷ l) f h u =
    let apart : same_key k j ≡ false = ground (arith, h) in
    (
      λ g. f j (other_key j k apart) (u.0 g),
      Undisturbed-elsewhere k jobs next l f (ground (arith, h)) u.1,
    )

-- The job of a verification disturbs no other request.
pub Undisturbed-but :
    (k : Key) (jobs next : Jobs) (l : List (Key × Bool))
    → FewerBut k jobs next
    → find k l ≡ some true
    → Apart l
    → Undisturbed jobs l
    → Undisturbed next l
unfolding find
Undisturbed-but k jobs next [] f h d u = tt
Undisturbed-but k jobs next ((j, v) ∷ l) f h d u = elim (Bool-cases (same_key k j)) [
  | inl c ↦
      let verified : v ≡ true = ground (arith, c, h) in
      let away = subst (λ x. is_some (find x l) ≡ false) (sym (same_key_equal k j c)) d.0 in
      (λ g. ground (arith, g, verified), Undisturbed-elsewhere k jobs next l f away u.1)
  | inr c ↦ (
    λ g. f j (other_key j k c) (u.0 g),
    Undisturbed-but k jobs next l f (ground (arith, c, h)) d.1 u.1,
  )
]

module _ (now : ℕ) (k : Key) (hash : Text) where
  put_elsewhere :
      (j : Key) (job : VerificationJob) (m : Jobs)
      → same_key j k ≡ false
      → is_some (find j m) ≡ false
      → is_some (find j ((k, job) ∷ m)) ≡ false
  unfolding find
  put_elsewhere j job m a h = ground (arith, a, h)

  start_cases :
      (c : Coordination)
      → let m = with_room c.verifications in
        let next = (start_job now k hash c).1 in
        (next.operations ≡ c.operations)
        × ((next.verifications ≡ m)
            ⊎ ((length m < max_data_connections)
                × (next.verifications
                    ≡ (k, record { hash = hash; result = none; started = now }) ∷ m)))
  unfolding start_job
  start_cases c = ground arith

  job_cases :
      (job : VerificationJob) (c : Coordination)
      → let next = (poll_job k hash job c).1 in
        (next.operations ≡ c.operations)
        × ((next.verifications ≡ c.verifications)
            ⊎ (next.verifications ≡ without k c.verifications))
  unfolding poll_job
  job_cases job c = ground arith

  room-Fewer : (jobs : Jobs) → Fewer jobs (with_room jobs)
  unfolding with_room
  room-Fewer jobs j h =
      let live = find-keeping_none is_live j jobs h in
      elim (Bool-cases (leb max_data_connections (length jobs))) [
        | inl c ↦ ground (arith, c, live)
        | inr c ↦ ground (arith, c, h)
      ]

  room_length : (jobs : Jobs) → length (with_room jobs) ≤ length jobs
  unfolding with_room
  room_length jobs =
      let live = length-keeping is_live jobs in
      elim (Bool-cases (leb max_data_connections (length jobs))) [
        | inl c ↦ ground (arith, c, live)
        | inr c ↦ ground (arith, c)
      ]

  -- What a poll of the key leaves.
  pub record Polled (c next : Coordination) : Type 0 where
    pub same_operations : next.operations ≡ c.operations
    pub fewer_but : FewerBut k c.verifications next.verifications
    pub few :
        length c.verifications ≤ max_data_connections
        → length next.verifications ≤ max_data_connections

  started : (c : Coordination) → Polled c (start_job now k hash c).1
  started c =
      let (same, after) = start_cases c in
      elim after [
        | inl p ↦ record {
          same_operations = same;
          fewer_but = λ j a h.
              subst (λ m. is_some (find j m) ≡ false) (sym p) (room-Fewer c.verifications j h);
          few = λ h. omega (arith, ap (λ (m : Jobs). length m) p, room_length c.verifications, h);
        }
        | inr (l, p) ↦ record {
          same_operations = same;
          fewer_but = λ j a h.
              subst (λ m. is_some (find j m) ≡ false) (sym p)
                (put_elsewhere j (record { hash = hash; result = none; started = now })
                  (with_room c.verifications) a (room-Fewer c.verifications j h));
          few = λ h. omega (arith, ap (λ (m : Jobs). length m) p, l);
        }
      ]

  looked_at : (job : VerificationJob) (c : Coordination) → Polled c (poll_job k hash job c).1
  looked_at job c =
      let (same, after) = job_cases job c in
      elim after [
        | inl p ↦ record {
          same_operations = same;
          fewer_but = λ j a h. subst (λ m. is_some (find j m) ≡ false) (sym p) h;
          few = λ h. omega (arith, ap (λ (m : Jobs). length m) p, h);
        }
        | inr p ↦ record {
          same_operations = same;
          fewer_but = λ j a h.
              subst (λ m. is_some (find j m) ≡ false) (sym p)
                (find-without_none j k c.verifications h);
          few = λ h.
              omega (arith, ap (λ (m : Jobs). length m) p, length-without k c.verifications, h);
        }
      ]

  swept_first :
      (c next : Coordination)
      → Polled (with_jobs c (keeping (is_fresh now) c.verifications)) next
      → Polled c next
  swept_first c next h = record {
    same_operations = h.same_operations;
    fewer_but = λ j a p. h.fewer_but j a (find-keeping_none (is_fresh now) j c.verifications p);
    few = λ p. h.few (omega (arith, length-keeping (is_fresh now) c.verifications, p));
  }

  -- Either there is a job of the key, or one is started.
  pub poll_verification-Polled : (c : Coordination) → Polled c (poll_verification now k hash c).1
  unfolding poll_verification
  poll_verification-Polled c =
      let swept = with_jobs c (keeping (is_fresh now) c.verifications) in
      elim (Option-cases (find k swept.verifications)) [
        | inl p ↦
            subst
              (λ o.
                Polled c
                  (elim o as (λ o. Answer Bool × Coordination) [
                    | some job ↦ poll_job k hash job swept
                    | none ↦ start_job now k hash swept
                  ]).1)
              (sym p) (swept_first c (start_job now k hash swept).1 (started swept))
        | inr (job, p) ↦
            subst
              (λ o.
                Polled c
                  (elim o as (λ o. Answer Bool × Coordination) [
                    | some job ↦ poll_job k hash job swept
                    | none ↦ start_job now k hash swept
                  ]).1)
              (sym p) (swept_first c (poll_job k hash job swept).1 (looked_at job swept))
      ]

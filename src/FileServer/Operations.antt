-- ===== src/FileServer/Operations.antt =====
-- windows/flowtype-app/src/file_transfer_server.rs: the leases of the requests that work on one entry, and
-- the jobs that verify entries in the background. A lock is never poisoned. The `.part` files that a
-- lease and a job remove at their end, where the batch is canceled, are left out.
use flow_type.Prelude.{
  Text, codes, ℕ, ◌-◌, Bool, true, false, not, ◌&&◌, ◌||◌, Option, none, some, List, [], ◌∷◌, ◌==◌,
  ltb, leb, length, text_eq, is_some, if◌then◌else◌,
}
use flow_type.FileServer.{Answer, answered, failed}
use flow_type.FileServer.Coordinator.{max_data_connections}

-- A batch and an entry of it.
abbrev pub Key : Type 0
Key = Text × Text

unfoldable pub same_key : Key → Key → Bool
unfolding text_eq
same_key (a, b) (c, d) = text_eq a c && text_eq b d

pub record VerificationJob : Type 0 where
  pub hash : Text
  pub result : Option (Answer (Unit {0}))
  pub started : ℕ

module _ {ℓ} {A : Type ℓ} where
  unfoldable pub find : Key → List (Key × A) → Option A
  unfolding same_key
  find k [] = none
  find k ((j, a) ∷ rest) = let later = find k rest in if same_key k j then some a else later

  unfoldable pub without : Key → List (Key × A) → List (Key × A)
  unfolding same_key
  without k [] = []
  without k ((j, a) ∷ rest) =
      let later = without k rest in if same_key k j then later else (j, a) ∷ later

  unfoldable pub keeping : (A → Bool) → List (Key × A) → List (Key × A)
  keeping test [] = []
  keeping test ((j, a) ∷ rest) =
      let later = keeping test rest in if test a then (j, a) ∷ later else later

-- The keys of the operations, with whether a verification holds the lease; and the jobs.
pub record Coordination : Type 0 where
  pub operations : List (Key × Bool)
  pub verifications : List (Key × VerificationJob)

abbrev pub starts_with : Text → Text → Bool
starts_with [] text = true
starts_with (p ∷ prefix) [] = false
starts_with (p ∷ prefix) (c ∷ text) = p == c && starts_with prefix text

-- What follows the first '/', or the whole.
abbrev pub after_slash : Text → Option Text
after_slash [] = none
after_slash (c ∷ text) = let later = after_slash text in if c == b'/' then some text else later

abbrev pub resource : Text → Text
resource action = elim (after_slash action) [ none ↦ action | some id ↦ id ]

abbrev pub verifies : Text → Bool
verifies action = starts_with (codes "verify/") action

-- `acquire_operation`, up to where the lock of the verifications is left.
unfoldable pub may_acquire : Text → Text → Coordination → Bool
unfolding find
may_acquire batch_id action c =
    verifies action || not (is_some (find (batch_id, resource action) c.verifications))

-- The rest of `acquire_operation`.
unfoldable pub lease : Text → Text → Coordination → Answer Key × Coordination
unfolding find
lease batch_id action c =
    let key : Key = (batch_id, resource action) in
    if is_some (find key c.operations)
    then (failed (codes "transfer_busy"), c)
    else (answered key, record c { operations = (key, verifies action) ∷ c.operations })

unfoldable pub acquire_operation : Text → Text → Coordination → Answer Key × Coordination
unfolding may_acquire lease
acquire_operation batch_id action c =
    if may_acquire batch_id action c
    then lease batch_id action c
    else (failed (codes "transfer_busy"), c)

-- The end of an `OperationLease`.
unfoldable pub end_lease : Key → Coordination → Coordination
unfolding without
end_lease key c = record c { operations = without key c.operations }

abbrev pub is_live : VerificationJob → Bool
is_live job = not (is_some job.result)

abbrev pub is_fresh : ℕ → VerificationJob → Bool
is_fresh now job = ltb (now - job.started) 600 || is_live job

abbrev pub with_jobs : Coordination → List (Key × VerificationJob) → Coordination
with_jobs c jobs = record c { verifications = jobs }

-- A job that is there: its result ends it.
unfoldable pub poll_job : Key → Text → VerificationJob → Coordination → Answer Bool × Coordination
unfolding text_eq without
poll_job key hash job c =
    if not (text_eq job.hash hash)
    then (failed (codes "integrity_failed"), c)
    else elim job.result [
      | none ↦ (answered false, c)
      | some (answered _) ↦ (answered true, with_jobs c (without key c.verifications))
      | some (failed code) ↦ (failed code, with_jobs c (without key c.verifications))
    ]

-- The jobs among which a new one is put.
unfoldable pub with_room : List (Key × VerificationJob) → List (Key × VerificationJob)
unfolding keeping
with_room jobs = if leb max_data_connections (length jobs) then keeping is_live jobs else jobs

unfoldable pub start_job : ℕ → Key → Text → Coordination → Answer Bool × Coordination
unfolding with_room
start_job now key hash c =
    let jobs = with_room c.verifications in
    if leb max_data_connections (length jobs)
    then (failed (codes "transfer_busy"), with_jobs c jobs)
    else (
      answered false,
      with_jobs c ((key, record { hash = hash; result = none; started = now }) ∷ jobs),
    )

unfoldable pub poll_verification : ℕ → Key → Text → Coordination → Answer Bool × Coordination
unfolding keeping find poll_job start_job
poll_verification now key hash c =
    let swept = with_jobs c (keeping (is_fresh now) c.verifications) in
    elim (find key swept.verifications) [
      | some job ↦ poll_job key hash job swept
      | none ↦ start_job now key hash swept
    ]

-- The blocking task of a job ends.
abbrev with_result : Answer (Unit {0}) → VerificationJob → VerificationJob
with_result r job = if is_live job then record job { result = some r } else job

unfoldable pub set_result :
    Key → Answer (Unit {0}) → List (Key × VerificationJob) → List (Key × VerificationJob)
unfolding same_key
set_result key r [] = []
set_result key r ((j, job) ∷ jobs) =
    (j, if same_key key j then with_result r job else job) ∷ set_result key r jobs

unfoldable pub finish_job : Key → Answer (Unit {0}) → Coordination → Coordination
unfolding set_result
finish_job key r c = with_jobs c (set_result key r c.verifications)

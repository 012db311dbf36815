-- ===== src/FileServer/Shared.antt =====
-- Proofs about windows/flowtype-app/src/file_transfer_server.rs: the leases and the jobs after any moves.
use flow_type.Prelude.{
  Text, ℕ, ◌≤◌, ◌≡◌, ◌⊎◌, inl, inr, sym, ap, subst, arith, true, false, some, List, [], ◌∷◌, length,
  any, is_some, Bool-cases, Option-cases,
}
use flow_type.FileServer.Coordinator.{max_data_connections}
use flow_type.FileServer.Operations.{
  Key, same_key, find, resource, verifies, may_acquire, lease, end_lease, poll_verification,
  set_result, finish_job,
}
use flow_type.FileServer.Leases.{find-set_result, length-set_result}
use flow_type.FileServer.Sharing.{
  Move, looks, enters, polls, ends, leaves, Sharing, drop_first, holds_verification, move, moves,
}
use flow_type.FileServer.Disjoint.{
  Jobs, Apart, Undisturbed, Unhindered, Fewer, Undisturbed-Fewer, Unhindered-Fewer, Undisturbed-but,
  poll_verification-Polled,
}
use flow_type.FileServer.Alone.{
  without-Apart, without-Undisturbed, drop_first-Unhindered, looked_clear, lease-Apart, lease_jobs,
  lease-Undisturbed,
}

-- No two leases are for the same entry, and there are at most eight jobs.
pub record IsShared (s : Sharing) : Type 0 where
  pub apart : Apart s.coordination.operations
  pub few : length s.coordination.verifications ≤ max_data_connections

-- No request that is no verification works beside a job, nor is about to.
pub record IsUndisturbed (s : Sharing) : Type 0 where
  pub working : Undisturbed s.coordination.verifications s.coordination.operations
  pub coming : Unhindered s.coordination.verifications s.looking

-- No request is between its two locks while another polls.
abbrev CalmAt : Move → Sharing → Type 0
CalmAt (looks b a) s = Unit
CalmAt (enters b a) s = Unit
CalmAt (polls now key hash) s = s.looking ≡ []
CalmAt (ends key r) s = Unit
CalmAt (leaves key) s = Unit

abbrev pub IsCalm : List Move → Sharing → Type 0
IsCalm [] s = Unit
IsCalm (m ∷ ms) s = CalmAt m s × IsCalm ms (move m s)

look_cases :
    (b a : Text) (s : Sharing)
    → (move (looks b a) s ≡ s)
      ⊎ ((verifies a ≡ false → is_some (find (b, resource a) s.coordination.verifications) ≡ false)
          × (move (looks b a) s ≡ record s { looking = (b, a) ∷ s.looking }))
unfolding move may_acquire
look_cases b a s = elim (Bool-cases (may_acquire b a s.coordination)) [
  | inl c ↦ inr (λ v. ground (arith, c, v), ground (arith, c))
  | inr c ↦ inl (ground (arith, c))
]

enter_cases :
    (b a : Text) (s : Sharing)
    → (move (enters b a) s ≡ s)
      ⊎ ((any (same_key (b, a)) s.looking ≡ true)
          × (move (enters b a) s ≡ record {
            coordination = (lease b a s.coordination).1;
            looking = drop_first (b, a) s.looking;
          }))
unfolding move
enter_cases b a s = elim (Bool-cases (any (same_key (b, a)) s.looking)) [
  | inl c ↦ inr (c, ground (arith, c))
  | inr c ↦ inl (ground (arith, c))
]

poll_cases :
    (now : ℕ) (key : Key) (hash : Text) (s : Sharing)
    → (move (polls now key hash) s ≡ s)
      ⊎ ((find key s.coordination.operations ≡ some true)
          × (move (polls now key hash) s
              ≡ record s { coordination = (poll_verification now key hash s.coordination).1 }))
unfolding move holds_verification
poll_cases now key hash s = elim (Option-cases (find key s.coordination.operations)) [
  | inl c ↦ inl (ground (arith, c))
  | inr (true, c) ↦ inr (c, ground (arith, c))
  | inr (false, c) ↦ inl (ground (arith, c))
]

move-IsShared : (m : Move) (s : Sharing) → IsShared s → IsShared (move m s)
unfolding move finish_job end_lease
move-IsShared (looks b a) s h = elim (look_cases b a s) [
  | inl p ↦ subst IsShared (sym p) h
  | inr (v, p) ↦ subst IsShared (sym p) (record { apart = h.apart; few = h.few })
]
move-IsShared (enters b a) s h = elim (enter_cases b a s) [
  | inl p ↦ subst IsShared (sym p) h
  | inr (l, p) ↦ subst IsShared (sym p) (record {
    apart = lease-Apart b a s.coordination h.apart;
    few = omega (arith, h.few, ap (λ (x : Jobs). length x) (lease_jobs b a s.coordination));
  })
]
move-IsShared (polls now key hash) s h = elim (poll_cases now key hash s) [
  | inl p ↦ subst IsShared (sym p) h
  | inr (v, p) ↦
      let polled = poll_verification-Polled now key hash s.coordination in
      subst IsShared (sym p) (record {
        apart = subst Apart (sym polled.same_operations) h.apart;
        few = polled.few h.few;
      })
]
move-IsShared (ends key r) s h = record {
  apart = h.apart;
  few = omega (arith, h.few, length-set_result key r s.coordination.verifications);
}
move-IsShared (leaves key) s h = record {
  apart = without-Apart key s.coordination.operations h.apart;
  few = h.few;
}

-- In whatever order the requests and the jobs take the locks: no two requests hold the lease of the same
-- entry, and there are at most eight verification jobs.
pub moves-IsShared : (ms : List Move) (s : Sharing) → IsShared s → IsShared (moves ms s)
unfolding moves
moves-IsShared [] s h = h
moves-IsShared (m ∷ ms) s h = moves-IsShared ms (move m s) (move-IsShared m s h)

move-IsUndisturbed :
    (m : Move) (s : Sharing) → CalmAt m s → IsShared s → IsUndisturbed s → IsUndisturbed (move m s)
unfolding move finish_job end_lease
move-IsUndisturbed (looks b a) s c k h = elim (look_cases b a s) [
  | inl p ↦ subst IsUndisturbed (sym p) h
  | inr (v, p) ↦
      subst IsUndisturbed (sym p) (record { working = h.working; coming = (v, h.coming) })
]
move-IsUndisturbed (enters b a) s c k h = elim (enter_cases b a s) [
  | inl p ↦ subst IsUndisturbed (sym p) h
  | inr (l, p) ↦
      let clear = looked_clear b a s.coordination.verifications s.looking l h.coming in
      let coming = drop_first-Unhindered (b, a) s.coordination.verifications s.looking h.coming in
      subst IsUndisturbed (sym p) (record {
        working = lease-Undisturbed b a s.coordination clear h.working;
        coming =
            subst (λ (x : Jobs). Unhindered x (drop_first (b, a) s.looking))
              (sym (lease_jobs b a s.coordination)) coming;
      })
]
move-IsUndisturbed (polls now key hash) s c k h = elim (poll_cases now key hash s) [
  | inl p ↦ subst IsUndisturbed (sym p) h
  | inr (v, p) ↦
      let polled = poll_verification-Polled now key hash s.coordination in
      let next = (poll_verification now key hash s.coordination).1 in
      subst IsUndisturbed (sym p) (record {
        working = subst (Undisturbed next.verifications) (sym polled.same_operations) (
            Undisturbed-but key s.coordination.verifications next.verifications
              s.coordination.operations polled.fewer_but v k.apart h.working);
        coming = subst (Unhindered next.verifications) (sym c) tt;
      })
]
move-IsUndisturbed (ends key r) s c k h =
    let jobs = s.coordination.verifications in
    let fewer : Fewer jobs (set_result key r jobs) = λ j p. find-set_result j key r jobs p in
    record {
      working =
          Undisturbed-Fewer jobs (set_result key r jobs) s.coordination.operations fewer h.working;
      coming = Unhindered-Fewer jobs (set_result key r jobs) s.looking fewer h.coming;
    }
move-IsUndisturbed (leaves key) s c k h = record {
  working =
      without-Undisturbed key s.coordination.verifications s.coordination.operations h.working;
  coming = h.coming;
}

-- Where no request is between the two locks of `acquire_operation` while another polls: no upload and no
-- report of a failure ever holds the lease of an entry that a verification job is on.
pub moves-IsUndisturbed :
    (ms : List Move) (s : Sharing)
    → IsShared s
    → IsUndisturbed s
    → IsCalm ms s
    → IsUndisturbed (moves ms s)
unfolding moves
moves-IsUndisturbed [] s k h c = h
moves-IsUndisturbed (m ∷ ms) s k h (c, cs) =
    moves-IsUndisturbed ms (move m s) (move-IsShared m s k) (move-IsUndisturbed m s c k h) cs

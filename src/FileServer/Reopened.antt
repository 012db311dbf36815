-- ===== src/FileServer/Reopened.antt =====
-- Proofs about windows/flowtype-app/src/file_transfer_server.rs: what becomes of an upload whose file was
-- put in place without a record of it, where the phone sends the body again. (The Android client does so for
-- an empty file; it asks to verify a longer one whose bytes are all acknowledged.)
use flow_type.Prelude.{
  Text, ℕ, ◌≤◌, ◌≡◌, inl, inr, refl, sym, subst, arith, Bool, true, false, not, ◌&&◌, ◌||◌, some,
  List, [], ◌∷◌, ◌==◌, is_some, length, ◌+◌, ltb, Bool-cases, Option-cases,
}
use flow_type.FileTransfer.States.{EntryState}
use flow_type.FileTransfer.Messages.{ManifestEntry}
use flow_type.FileServer.{Answer, answered, failed}
use flow_type.FileServer.Ranges.{max_u64}
use flow_type.FileServer.Uploads.{
  Slot, is_refused, eq_ignore_ascii_case, Arrival, timed_out, broken, no_bytes, bytes_of, Frame, Io,
  staged, with_progress, is_done, Received, appended, all_synced, end_of_body, persisted_at,
  written_out, taken_in, receive_body, cut, receive_at, receive_file,
}
use flow_type.FileServer.Commits.{
  VerifyIo, Verified, put_in_place, commit_bytes, commit_uploaded_file, verify_upload, Step,
  receive, verify, failure, crash, step, run,
}
use flow_type.FileServer.Durable.{end_cases, persisted_cases}
use flow_type.FileServer.Sound.{receive_at_cases, receive_file_cases}

-- A file is in place, there is a `.part` file too, and the entry is not completed.
abbrev pub IsReopened : Slot → Type 0
IsReopened s = (is_some s.part ≡ true) × (is_some s.target ≡ true) × (is_done s ≡ false)

-- Requests only: no failure is reported, and there is no crash.
abbrev pub IsQuiet : List Step → Type 0
IsQuiet [] = Unit
IsQuiet (receive deferred io fs offset ∷ ts) = IsQuiet ts
IsQuiet (verify io supplied ∷ ts) = IsQuiet ts
IsQuiet (failure stores removes ∷ ts) = ⊥
IsQuiet (crash n k lost ∷ ts) = ⊥

abbrev pub is_failed {ℓ} : {A : Type ℓ} → Answer A → Bool
is_failed (answered a) = false
is_failed (failed code) = true

-- A verification fails, and changes nothing.
abbrev pub FailsAt : Slot → Verified → Type 0
FailsAt s v = (is_failed v.0 ≡ true) × (v.1 ≡ s)

module _ (digest : List ℕ → Text) (e : ManifestEntry) where
  abbrev GoesReopened : (ℕ → Slot → Received) → Type 0
  GoesReopened go = (persisted : ℕ) (t : Slot) → IsReopened t → IsReopened (go persisted t).1

  IsReopened-as : (r q : Received) → r ≡ q → IsReopened q.1 → IsReopened r.1
  IsReopened-as r q p h = subst (λ (x : Received). IsReopened x.1) {y = r} (sym p) h

  end_of_body-IsReopened :
      (deferred : Bool) (io : Io) (received : ℕ) (s : Slot)
      → IsReopened s
      → IsReopened (end_of_body digest e deferred io received s).1
  end_of_body-IsReopened deferred io received s h =
      elim (end_cases digest e s.target deferred io received s) [
        | inl c ↦ subst IsReopened (sym c) h
        | inr (inl c) ↦ subst IsReopened (sym c) h
        | inr (inr (inl c)) ↦ subst IsReopened (sym c) (h.0, h.1, refl)
        | inr (inr (inr c)) ↦ subst IsReopened (sym c) (h.0, h.1, refl)
      ]

  persisted_at-IsReopened :
      (go : ℕ → Slot → Received) (f : Frame) (received persisted : ℕ) (s : Slot)
      → GoesReopened go
      → IsReopened s
      → IsReopened (persisted_at go f received persisted s).1
  persisted_at-IsReopened go f received persisted s k h =
      elim (persisted_cases digest e s.target go f received persisted s) [
        | inl c ↦
            IsReopened-as (persisted_at go f received persisted s) (go persisted s) c
              (k persisted s h)
        | inr (inl c) ↦ subst IsReopened (sym c) h
        | inr (inr (inl c)) ↦ subst IsReopened (sym c) h
        | inr (inr (inr c)) ↦
            let t : Slot = with_progress (all_synced s) EntryState.transferring received in
            IsReopened-as (persisted_at go f received persisted s) (go received t) c
              (k received t (h.0, h.1, refl))
      ]

  written_out-IsReopened :
      (go : ℕ → Slot → Received) (f : Frame) (bs : List ℕ) (received persisted : ℕ) (s : Slot)
      → GoesReopened go
      → IsReopened s
      → IsReopened (written_out go f bs received persisted s).1
  written_out-IsReopened go f bs received persisted s k h = elim (Option-cases f.written) [
    | inl c ↦
        IsReopened-as (written_out go f bs received persisted s)
          (persisted_at go f received persisted (appended s bs)) (ground (arith, c))
          (persisted_at-IsReopened go f received persisted (appended s bs) k (refl, h.1, h.2))
    | inr (n, c) ↦ ground (arith, c, h)
  ]

  taken_in-IsReopened :
      (go : ℕ → ℕ → Slot → Received) (f : Frame) (arrival : Arrival) (received persisted : ℕ)
      (s : Slot)
      → ((n : ℕ) → GoesReopened (go n))
      → IsReopened s
      → IsReopened (taken_in digest e go f arrival received persisted s).1
  taken_in-IsReopened go f timed_out received persisted s k h = h
  taken_in-IsReopened go f broken received persisted s k h = h
  taken_in-IsReopened go f no_bytes received persisted s k h = elim (Bool-cases f.active) [
    | inl c ↦
        IsReopened-as (taken_in digest e go f no_bytes received persisted s)
          (go received persisted s) (ground (arith, c)) (k received persisted s h)
    | inr c ↦
        subst IsReopened {x = s} {y = (taken_in digest e go f no_bytes received persisted s).1}
          (ground (arith, c)) h
  ]
  taken_in-IsReopened go f (bytes_of bs) received persisted s k h =
      let n = received + length bs in
      elim (Bool-cases (not f.active || ltb max_u64 n || ltb e.size n)) [
        | inl c ↦
            subst IsReopened {x = s}
              {y = (taken_in digest e go f (bytes_of bs) received persisted s).1}
              (ground (arith, c)) h
        | inr c ↦
            IsReopened-as (taken_in digest e go f (bytes_of bs) received persisted s)
              (written_out (go n) f bs n persisted s) (ground (arith, c))
              (written_out-IsReopened (go n) f bs n persisted s (k n) h)
      ]

  receive_body-IsReopened :
      (deferred : Bool) (io : Io) (fs : List Frame) (received persisted : ℕ) (s : Slot)
      → IsReopened s
      → IsReopened (receive_body digest e deferred io fs received persisted s).1
  unfolding receive_body
  receive_body-IsReopened deferred io [] received persisted s h =
      end_of_body-IsReopened deferred io received s h
  receive_body-IsReopened deferred io (f ∷ fs) received persisted s h =
      taken_in-IsReopened (receive_body digest e deferred io fs) f f.arrival received persisted s
        (λ n p t. receive_body-IsReopened deferred io fs n p t) h

  receive_at-IsReopened :
      (deferred : Bool) (io : Io) (fs : List Frame) (offset : ℕ) (s : Slot)
      → IsReopened s
      → IsReopened (receive_at digest e deferred io fs offset s).1
  receive_at-IsReopened deferred io fs offset s h =
      elim (receive_at_cases digest e deferred io fs offset s) [
        | inl p ↦ subst IsReopened (sym p) h
        | inr (inl (l, p)) ↦ subst IsReopened (sym p) (refl, h.1, h.2)
        | inr (inr (l, p)) ↦
            let t : Slot = with_progress (cut offset s) EntryState.transferring offset in
            IsReopened-as (receive_at digest e deferred io fs offset s)
              (receive_body digest e deferred io fs offset offset t) p
              (receive_body-IsReopened deferred io fs offset offset t (refl, h.1, refl))
      ]

  receive_file-IsReopened :
      (deferred : Bool) (io : Io) (fs : List Frame) (offset : ℕ) (s : Slot)
      → IsReopened s
      → IsReopened (receive_file digest e deferred io fs offset s).1
  receive_file-IsReopened deferred io fs offset s h =
      elim (receive_file_cases digest e deferred io fs offset s) [
        | inl p ↦ subst IsReopened (sym p) h
        | inr (l, p) ↦
            let t : Slot = record s { part = some (staged s) } in
            IsReopened-as (receive_file digest e deferred io fs offset s)
              (receive_at digest e deferred io fs offset t) p
              (receive_at-IsReopened deferred io fs offset t (refl, h.1, h.2))
      ]

  -- Every verification fails.
  put_in_place_fails :
      (io : VerifyIo) (bs : List ℕ) (s : Slot)
      → IsReopened s
      → FailsAt s (put_in_place io e.size bs s)
  unfolding put_in_place
  put_in_place_fails io bs s h = ground (arith, h)

  fails_as : (s : Slot) (v w : Verified) → v ≡ w → FailsAt s w → FailsAt s v
  fails_as s v w p h = subst (FailsAt s) {y = v} (sym p) h

  commit_bytes_fails :
      (io : VerifyIo) (supplied : Text) (s : Slot) (bs : List ℕ)
      → IsReopened s
      → FailsAt s (commit_bytes digest e io supplied s (some bs))
  unfolding commit_bytes
  commit_bytes_fails io supplied s bs h =
      elim (Bool-cases (
        io.measures
        && length bs == e.size
        && io.hashes
        && eq_ignore_ascii_case (digest bs) supplied
        && io.active)) [
          | inl c ↦
              fails_as s (commit_bytes digest e io supplied s (some bs))
                (put_in_place io e.size bs s) (ground (arith, c)) (put_in_place_fails io bs s h)
          | inr c ↦ ground (arith, c)
        ]

  verify_fails :
      (io : VerifyIo) (supplied : Text) (s : Slot)
      → IsReopened s
      → FailsAt s (verify_upload digest e io supplied s)
  unfolding verify_upload commit_uploaded_file
  verify_fails io supplied s h = elim (Option-cases s.part) [
    | inl p ↦ ground (arith, p, h)
    | inr (a, p) ↦
        let other = commit_bytes_fails io supplied s a h in
        elim (Bool-cases (not (is_refused e supplied) && io.knows_target)) [
          | inl c ↦
              fails_as s (verify_upload digest e io supplied s)
                (commit_bytes digest e io supplied s (some a)) (ground (arith, c, p)) other
          | inr c ↦ ground (arith, c)
        ]
  ]

  run-IsReopened :
      (ts : List Step) (s : Slot) → IsQuiet ts → IsReopened s → IsReopened (run digest e ts s)
  unfolding run step
  run-IsReopened [] s q h = h
  run-IsReopened (receive deferred io fs offset ∷ ts) s q h =
      run-IsReopened ts (receive_file digest e deferred io fs offset s).1 q
        (receive_file-IsReopened deferred io fs offset s h)
  run-IsReopened (verify io supplied ∷ ts) s q h =
      run-IsReopened ts (verify_upload digest e io supplied s).1 q
        (subst IsReopened (sym (verify_fails io supplied s h).1) h)
  run-IsReopened (failure stores removes ∷ ts) s q h = elim q [ ]
  run-IsReopened (crash n k lost ∷ ts) s q h = elim q [ ]

  reopens :
      (deferred : Bool) (io : Io) (fs : List Frame) (s : Slot)
      → s.progress.committed_offset ≤ e.size
      → is_done s ≡ false
      → io.reads_progress ≡ true
      → io.knows_target ≡ true
      → io.makes_parent ≡ true
      → io.is_symlink ≡ false
      → io.opens ≡ true
      → receive_file digest e deferred io fs s.progress.committed_offset s
        ≡ receive_at digest e deferred io fs s.progress.committed_offset
            (record s { part = some (staged s) })
  unfolding receive_file
  reopens deferred io fs s l d a b c f g = ground (arith, l, d, a, b, c, f, g)

  -- Where a file was put in place and the entry was not recorded as completed, a request for the body at
  -- the acknowledged offset ends the upload's chances as soon as the `.part` file can be opened: however it
  -- and the requests after it go, as long as no failure is reported and there is no crash, the entry is
  -- never completed, and every verification fails and changes nothing.
  pub reopened-fails :
      (deferred : Bool) (io : Io) (fs : List Frame) (s : Slot) (ts : List Step)
      → is_some s.target ≡ true
      → s.progress.committed_offset ≤ e.size
      → is_done s ≡ false
      → io.reads_progress ≡ true
      → io.knows_target ≡ true
      → io.makes_parent ≡ true
      → io.is_symlink ≡ false
      → io.opens ≡ true
      → IsQuiet ts
      → let after = run digest e (receive deferred io fs s.progress.committed_offset ∷ ts) s in
        (is_done after ≡ false)
        × ((other : VerifyIo) (supplied : Text)
            → FailsAt after (verify_upload digest e other supplied after))
  unfolding run step
  reopened-fails deferred io fs s ts t l d a b c f g q =
      let n = s.progress.committed_offset in
      let opened : Slot = record s { part = some (staged s) } in
      let first : IsReopened (receive_file digest e deferred io fs n s).1 =
        IsReopened-as (receive_file digest e deferred io fs n s)
          (receive_at digest e deferred io fs n opened) (reopens deferred io fs s l d a b c f g)
          (receive_at-IsReopened deferred io fs n opened (refl, t, d)) in
      let last = run-IsReopened ts (receive_file digest e deferred io fs n s).1 q first in
      (
        last.2,
        λ other supplied.
            verify_fails other supplied
              (run digest e ts (receive_file digest e deferred io fs n s).1) last,
      )

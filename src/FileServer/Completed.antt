-- ===== src/FileServer/Completed.antt =====
-- Proofs about windows/flowtype-app/src/file_transfer_server.rs: what verifying, a reported failure and a
-- crash keep, and so any sequence of requests of an upload.
use flow_type.Prelude.{
  Text, ℕ, ◌≤◌, ◌≡◌, ◌⊎◌, inl, inr, refl, sym, ◌∙◌, ap, subst, arith, Bool, true, false, none, some,
  List, [], ◌∷◌, is_some, length, Option-cases,
}
use flow_type.FileTransfer.States.{EntryState}
use flow_type.FileTransfer.Messages.{ManifestEntry}
use flow_type.FileServer.Uploads.{Slot, staged, with_progress}
use flow_type.FileServer.Commits.{
  to_verify, verify_upload, report_failure, Step, receive, verify, failure, crash, crashed, step,
  run,
}
use flow_type.FileServer.Durable.{IsSound}
use flow_type.FileServer.Sound.{receive_file-IsStill}
use flow_type.FileServer.Verified.{Committed, Committed-cases}
use flow_type.FileServer.Crashes.{length-kept, crashed_cases, crash_acknowledged, lost_acknowledged}

module _ (digest : List ℕ → Text) (e : ManifestEntry) where
  -- Sound, and a file that was in place is there still.
  abbrev pub IsLater : Slot → Slot → Type 0
  IsLater s t = IsSound digest e t × ((bs : List ℕ) → s.target ≡ some bs → t.target ≡ some bs)

  -- Where all bytes are acknowledged, what is staged is on the disk for good.
  staged_synced :
      (s : Slot) (bs : List ℕ)
      → IsSound digest e s
      → s.progress.committed_offset ≡ e.size
      → s.target ≡ none
      → to_verify s ≡ some bs
      → length bs ≡ e.size
      → length bs ≤ s.synced
  staged_synced s bs k c t q l = elim (Option-cases s.part) [
    | inl p ↦ ground (arith, p, q, t)
    | inr (a, p) ↦
        let r : staged s ≡ bs = ground (arith, p, q) in
        let n = ap length r in
        elim k.acknowledged [ inl u ↦ omega (arith, u, c, l) | inr u ↦ omega (arith, u.0, n) ]
  ]

  Committed-IsLater :
      (s t : Slot)
      → IsSound digest e s
      → s.progress.committed_offset ≡ e.size
      → Committed digest e s t
      → IsLater s t
  Committed-IsLater s t k a (bs, q, l, h, inl (p, u)) =
      let there : s.target ≡ some bs = ground (arith, p, q) in
      let empty : length (staged s) ≡ 0 = ground (arith, p) in
      subst (IsLater s) (sym u) (
        record {
          fits = k.fits;
          durable = k.durable;
          within = omega arith;
          acknowledged = inr (empty, inr (ground (arith, there)));
          placed = k.placed;
          completed = λ c. ground (arith, there);
        },
        λ x y. y,
      )
  Committed-IsLater s t k a (bs, q, l, h, inr (p, inl u)) = subst (IsLater s) (sym u) (
    record {
      fits = omega arith;
      durable = omega arith;
      within = k.within;
      acknowledged = inr (refl, inr refl);
      placed = (l, h, staged_synced s bs k a p q l);
      completed = λ c. refl;
    },
    λ x y. ground (arith, p, y),
  )
  Committed-IsLater s t k a (bs, q, l, h, inr (p, inr u)) = subst (IsLater s) (sym u) (
    record {
      fits = omega arith;
      durable = omega arith;
      within = omega arith;
      acknowledged = inr (refl, inr refl);
      placed = (l, h, staged_synced s bs k a p q l);
      completed = λ c. refl;
    },
    λ x y. ground (arith, p, y),
  )

  pub failure_cases :
      (stores removes : Bool) (s : Slot)
      → (report_failure stores removes s ≡ s)
        ⊎ (report_failure stores removes s
            ≡ record (with_progress s EntryState.failed s.progress.committed_offset) {
              part = none;
              synced = 0;
            })
        ⊎ (report_failure stores removes s
            ≡ with_progress s EntryState.failed s.progress.committed_offset)
  unfolding report_failure
  failure_cases stores true s = ground arith
  failure_cases stores false s = ground arith

  still_acknowledged :
      (s : Slot)
      → IsSound digest e s
      → (s.progress.committed_offset ≤ s.synced)
        ⊎ ((length (staged s) ≡ 0)
            × ((EntryState.failed ≡ EntryState.failed) ⊎ (is_some s.target ≡ true)))
  still_acknowledged s k = elim k.acknowledged [ inl p ↦ inl p | inr p ↦ inr (p.0, inl refl) ]

  report_failure-IsLater :
      (stores removes : Bool) (s : Slot)
      → IsSound digest e s
      → IsLater s (report_failure stores removes s)
  report_failure-IsLater stores removes s k = elim (failure_cases stores removes s) [
    | inl p ↦ subst (IsLater s) (sym p) (k, λ x y. y)
    | inr (inl p) ↦ subst (IsLater s) (sym p) (
      record {
        fits = omega arith;
        durable = omega arith;
        within = k.within;
        acknowledged = inr (refl, inl refl);
        placed = k.placed;
        completed = λ c. ground (arith, c);
      },
      λ x y. y,
    )
    | inr (inr p) ↦ subst (IsLater s) (sym p) (
      record {
        fits = k.fits;
        durable = k.durable;
        within = k.within;
        acknowledged = still_acknowledged s k;
        placed = k.placed;
        completed = λ c. ground (arith, c);
      },
      λ x y. y,
    )
  ]

  crashed-IsLater :
      (n k : ℕ) (lost : Bool) (s : Slot) → IsSound digest e s → IsLater s (crashed n k lost s)
  crashed-IsLater n k lost s h = elim (crashed_cases digest e n k lost s h) [
    | inl p ↦ subst (IsLater s) (sym p) (h, λ x y. y)
    | inr (inl (z, p)) ↦ subst (IsLater s) (sym p) (
      record {
        fits = omega arith;
        durable = omega (arith, z);
        within = h.within;
        acknowledged = lost_acknowledged digest e s h;
        placed = h.placed;
        completed = h.completed;
      },
      λ x y. y,
    )
    | inr (inr (z, p)) ↦
        let l = length-kept digest e n s.part in
        subst (IsLater s) (sym p) (
          record {
            fits = omega (arith, l, h.fits);
            durable = omega (arith, l, h.durable, z);
            within = h.within;
            acknowledged = crash_acknowledged digest e s n h l;
            placed = h.placed;
            completed = h.completed;
          },
          λ x y. y,
        )
  ]

  -- A request to verify comes where all bytes are acknowledged.
  abbrev pub IsReady : Step → Slot → Type 0
  IsReady (verify io supplied) s = s.progress.committed_offset ≡ e.size
  IsReady _ s = Unit

  abbrev pub IsPatient : List Step → Slot → Type 0
  IsPatient [] s = Unit
  IsPatient (t ∷ ts) s = IsReady t s × IsPatient ts (step digest e t s)

  pub step-IsLater :
      (t : Step) (s : Slot) → IsReady t s → IsSound digest e s → IsLater s (step digest e t s)
  unfolding step
  step-IsLater (receive deferred io fs offset) s a k =
      let r = receive_file-IsStill digest e deferred io fs offset s k in (r.0, λ x y. r.1 ∙ y)
  step-IsLater (verify io supplied) s a k = elim (Committed-cases digest e io supplied s) [
    | inl p ↦ subst (IsLater s) (sym p) (k, λ x y. y)
    | inr c ↦ Committed-IsLater s (verify_upload digest e io supplied s).1 k a c
  ]
  step-IsLater (failure stores removes) s a k = report_failure-IsLater stores removes s k
  step-IsLater (crash n m lost) s a k = crashed-IsLater n m lost s k

  -- The phone asks to verify only where all bytes are acknowledged. Whatever requests, failures and crashes
  -- there are in an upload from a sound state then: the acknowledged offset counts bytes that are on the disk for good, unless
  -- the entry failed or its file is in place and none are staged; no more is staged than the entry's size; a
  -- completed entry has its file in place, as long as the entry says, with its hash where it has one, and on
  -- the disk for good; and a file in place stays as it is.
  pub run-IsLater :
      (ts : List Step) (s : Slot)
      → IsPatient ts s
      → IsSound digest e s
      → IsLater s (run digest e ts s)
  unfolding run
  run-IsLater [] s a k = (k, λ x y. y)
  run-IsLater (t ∷ ts) s (a, b) k =
      let first = step-IsLater t s a k in
      let rest = run-IsLater ts (step digest e t s) b first.0 in
      (rest.0, λ x y. rest.1 x (first.1 x y))

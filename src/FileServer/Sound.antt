-- ===== src/FileServer/Sound.antt =====
-- Proofs about windows/flowtype-app/src/file_transfer_server.rs: every request of an upload, and a crash,
-- keep what is acknowledged on the disk and what is completed in place.
use flow_type.Prelude.{
  Text, ℕ, ◌≤◌, ◌≡◌, ◌⊎◌, inl, inr, refl, sym, ◌∙◌, ap, subst, arith, Bool, some, List, length,
  length-take, Option-cases,
}
use flow_type.FileTransfer.States.{EntryState}
use flow_type.FileTransfer.Messages.{ManifestEntry}
use flow_type.FileServer.Uploads.{
  Slot, Frame, Io, staged, with_progress, Received, receive_body, cut, receive_at, receive_file,
}
use flow_type.FileServer.Durable.{IsSound, IsReceiving, IsStill, receive_body-IsStill}

module _ (digest : List ℕ → Text) (e : ManifestEntry) where
  -- The acknowledged bytes that a request goes on from are on the disk for good.
  resumed_synced :
      (s : Slot)
      → IsSound digest e s
      → s.progress.committed_offset ≤ length (staged s)
      → s.progress.committed_offset ≤ s.synced
  resumed_synced s k h = elim k.acknowledged [ inl p ↦ p | inr p ↦ omega (arith, h, p.0) ]

  length-cut : (n : ℕ) (s : Slot) → n ≤ length (staged s) → length (staged (cut n s)) ≡ n
  length-cut n s h = omega (arith, h, length-take n (staged s))

  cut-IsSound :
      (s : Slot)
      → IsSound digest e s
      → s.progress.committed_offset ≤ length (staged s)
      → IsSound digest e (cut s.progress.committed_offset s)
  cut-IsSound s k h =
      let n = s.progress.committed_offset in
      let l = length-cut n s h in
      let d = resumed_synced s k h in
      record {
        fits = omega (arith, l, k.within);
        durable = omega (arith, l);
        within = k.within;
        acknowledged = inl (omega (arith, d));
        placed = k.placed;
        completed = k.completed;
      }

  started-IsReceiving :
      (s : Slot)
      → IsSound digest e s
      → s.progress.committed_offset ≤ length (staged s)
      → IsReceiving digest e s.target s.progress.committed_offset (
          with_progress
            (cut s.progress.committed_offset s)
            EntryState.transferring
            s.progress.committed_offset)
  started-IsReceiving s k h =
      let n = s.progress.committed_offset in
      let d = resumed_synced s k h in
      (length-cut n s h, k.within, omega arith, omega (arith, d), refl, k.placed, refl)

  pub receive_at_cases :
      (deferred : Bool) (io : Io) (fs : List Frame) (offset : ℕ) (s : Slot)
      → ((receive_at digest e deferred io fs offset s).1 ≡ s)
        ⊎ ((offset ≤ length (staged s))
            × ((receive_at digest e deferred io fs offset s).1 ≡ cut offset s))
        ⊎ ((offset ≤ length (staged s))
            × (receive_at digest e deferred io fs offset s
                ≡ receive_body digest e deferred io fs offset offset
                    (with_progress (cut offset s) EntryState.transferring offset)))
  unfolding receive_at
  receive_at_cases deferred io fs offset s = ground arith

  receive_at-IsStill :
      (deferred : Bool) (io : Io) (fs : List Frame) (s : Slot)
      → IsSound digest e s
      → IsStill digest e s.target
          (receive_at digest e deferred io fs s.progress.committed_offset s).1
  receive_at-IsStill deferred io fs s k =
      let n = s.progress.committed_offset in
      elim (receive_at_cases deferred io fs n s) [
        | inl p ↦ subst (IsStill digest e s.target) (sym p) (k, refl)
        | inr (inl (h, p)) ↦ subst (IsStill digest e s.target) (sym p) (cut-IsSound s k h, refl)
        | inr (inr (h, p)) ↦
            subst (λ (r : Received). IsStill digest e s.target r.1) (sym p)
              (receive_body-IsStill digest e s.target deferred io fs n n
                (with_progress (cut n s) EntryState.transferring n) (started-IsReceiving s k h))
      ]

  opened-IsSound :
      (s : Slot) → IsSound digest e s → IsSound digest e (record s { part = some (staged s) })
  opened-IsSound s k = record {
    fits = k.fits;
    durable = k.durable;
    within = k.within;
    acknowledged = k.acknowledged;
    placed = k.placed;
    completed = k.completed;
  }

  pub receive_file_cases :
      (deferred : Bool) (io : Io) (fs : List Frame) (offset : ℕ) (s : Slot)
      → ((receive_file digest e deferred io fs offset s).1 ≡ s)
        ⊎ ((offset ≡ s.progress.committed_offset)
            × (receive_file digest e deferred io fs offset s
                ≡ receive_at digest e deferred io fs offset (record s { part = some (staged s) })))
  unfolding receive_file
  receive_file_cases deferred io fs offset s = elim (Option-cases s.target) [
    | inl p ↦ ground (arith, p)
    | inr (t, p) ↦ ground (arith, p)
  ]

  pub receive_file-IsStill :
      (deferred : Bool) (io : Io) (fs : List Frame) (offset : ℕ) (s : Slot)
      → IsSound digest e s
      → IsStill digest e s.target (receive_file digest e deferred io fs offset s).1
  receive_file-IsStill deferred io fs offset s k =
      elim (receive_file_cases deferred io fs offset s) [
        | inl p ↦ subst (IsStill digest e s.target) (sym p) (k, refl)
        | inr (h, p) ↦
            let opened : Slot = record s { part = some (staged s) } in
            subst (λ (r : Received). IsStill digest e s.target r.1)
              (ap (λ n. receive_at digest e deferred io fs n opened) (sym h) ∙ sym p)
              (receive_at-IsStill deferred io fs opened (opened-IsSound s k))
      ]

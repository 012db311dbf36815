-- ===== src/FileServer/Durable.antt =====
-- Proofs about windows/flowtype-app/src/file_transfer_server.rs: what holds of an entry's files and its
-- record of progress between any two requests of an upload.
use flow_type.Prelude.{
  Text, ℕ, ◌+◌, ◌≤◌, ◌≡◌, ◌⊎◌, inl, inr, refl, sym, subst, arith, Bool, true, false, not, ◌||◌,
  Option, none, some, List, [], ◌∷◌, ltb, is_some, length, length-append, length-take, take,
  Bool-cases, Option-cases,
}
use flow_type.FileTransfer.States.{EntryState}
use flow_type.FileTransfer.Messages.{ManifestEntry}
use flow_type.FileServer.Ranges.{max_u64}
use flow_type.FileServer.Uploads.{
  Slot, Arrival, timed_out, broken, no_bytes, bytes_of, Frame, Io, is_refused, staged,
  with_progress, Received, appended, all_synced, end_of_body, persisted_at, written_out, taken_in,
  receive_body,
}

-- A file in place is as long as the entry says, has the entry's hash where it has one, and is on the disk
-- for good, where `n` bytes of it are.
abbrev pub IsPlaced : (List ℕ → Text) → ManifestEntry → ℕ → Option (List ℕ) → Type 0
IsPlaced digest e n none = Unit
IsPlaced digest e n (some t) =
    (length t ≡ e.size) × (is_refused e (digest t) ≡ false) × (length t ≤ n)

-- Acknowledged bytes are on the disk for good; or none are staged, where the entry failed or its file is
-- in place. A completed entry has its file in place.
pub record IsSound (digest : List ℕ → Text) (e : ManifestEntry) (s : Slot) : Type 0 where
  pub fits : length (staged s) ≤ e.size
  pub durable : s.synced ≤ length (staged s)
  pub within : s.progress.committed_offset ≤ e.size
  pub acknowledged :
      (s.progress.committed_offset ≤ s.synced)
      ⊎ ((length (staged s) ≡ 0)
          × ((s.progress.state ≡ EntryState.failed) ⊎ (is_some s.target ≡ true)))
  pub placed : IsPlaced digest e s.target_synced s.target
  pub completed : s.progress.state ≡ EntryState.completed → is_some s.target ≡ true

module _ (digest : List ℕ → Text) (e : ManifestEntry) (placed : Option (List ℕ)) where
  -- Sound, and with the same file in place, or none.
  abbrev pub IsStill : Slot → Type 0
  IsStill s = IsSound digest e s × (s.target ≡ placed)

  -- While the body is received.
  abbrev pub IsReceiving : ℕ → Slot → Type 0
  IsReceiving received s =
      (length (staged s) ≡ received)
      × (received ≤ e.size)
      × (s.synced ≤ received)
      × (s.progress.committed_offset ≤ s.synced)
      × (s.progress.state ≡ EntryState.transferring)
      × IsPlaced digest e s.target_synced s.target
      × (s.target ≡ placed)

  receiving-IsStill : (received : ℕ) (s : Slot) → IsReceiving received s → IsStill s
  receiving-IsStill received s h = (
    record {
      fits = omega (arith, h.0, h.1);
      durable = omega (arith, h.0, h.2);
      within = omega (arith, h.1, h.2, h.3);
      acknowledged = inl h.3;
      placed = h.5;
      completed = λ k. ground (arith, k, h.4);
    },
    h.6,
  )

  -- The state after the last record of progress.
  ended-IsStill :
      (received : ℕ) (s : Slot) (state : EntryState)
      → IsReceiving received s
      → (state ≡ EntryState.completed → is_some s.target ≡ true)
      → IsStill (with_progress (all_synced s) state received)
  ended-IsStill received s state h k = (
    record {
      fits = omega (arith, h.0, h.1);
      durable = omega arith;
      within = h.1;
      acknowledged = inl (omega (arith, h.0));
      placed = h.5;
      completed = k;
    },
    h.6,
  )

  synced-IsReceiving :
      (received : ℕ) (s : Slot) → IsReceiving received s → IsReceiving received (all_synced s)
  synced-IsReceiving received s h =
      (h.0, h.1, omega (arith, h.0), omega (arith, h.0, h.2, h.3), h.4, h.5, h.6)

  pub end_cases :
      (deferred : Bool) (io : Io) (received : ℕ) (s : Slot)
      → ((end_of_body digest e deferred io received s).1 ≡ s)
        ⊎ ((end_of_body digest e deferred io received s).1 ≡ all_synced s)
        ⊎ ((end_of_body digest e deferred io received s).1
            ≡ with_progress (all_synced s) EntryState.waiting_network received)
        ⊎ ((end_of_body digest e deferred io received s).1
            ≡ with_progress (all_synced s) EntryState.transferring received)
  unfolding end_of_body
  end_cases deferred io received s = ground arith

  end_of_body-IsStill :
      (deferred : Bool) (io : Io) (received : ℕ) (s : Slot)
      → IsReceiving received s
      → IsStill (end_of_body digest e deferred io received s).1
  end_of_body-IsStill deferred io received s h = elim (end_cases deferred io received s) [
    | inl p ↦ subst IsStill (sym p) (receiving-IsStill received s h)
    | inr (inl p) ↦
        subst IsStill (sym p)
          (receiving-IsStill received (all_synced s) (synced-IsReceiving received s h))
    | inr (inr (inl p)) ↦
        subst IsStill (sym p)
          (ended-IsStill received s EntryState.waiting_network h (λ k. ground (arith, k)))
    | inr (inr (inr p)) ↦
        subst IsStill (sym p)
          (ended-IsStill received s EntryState.transferring h (λ k. ground (arith, k)))
  ]

  abbrev EndsStill : Received → Type 0
  EndsStill r = IsStill r.1

  ends-IsStill : (r q : Received) → r ≡ q → IsStill q.1 → IsStill r.1
  ends-IsStill r q p h = subst EndsStill {y = r} (sym p) h

  -- The rest of the loop, from any slot in which so much is received.
  abbrev Goes : ℕ → (ℕ → Slot → Received) → Type 0
  Goes received go =
      (persisted : ℕ) (t : Slot) → IsReceiving received t → IsStill (go persisted t).1

  pub persisted_cases :
      (go : ℕ → Slot → Received) (f : Frame) (received persisted : ℕ) (s : Slot)
      → (persisted_at go f received persisted s ≡ go persisted s)
        ⊎ ((persisted_at go f received persisted s).1 ≡ s)
        ⊎ ((persisted_at go f received persisted s).1 ≡ all_synced s)
        ⊎ (persisted_at go f received persisted s
            ≡ go received (with_progress (all_synced s) EntryState.transferring received))
  persisted_cases go f received persisted s = ground arith

  persisted_at-IsStill :
      (go : ℕ → Slot → Received) (f : Frame) (received persisted : ℕ) (s : Slot)
      → Goes received go
      → IsReceiving received s
      → IsStill (persisted_at go f received persisted s).1
  persisted_at-IsStill go f received persisted s k h =
      elim (persisted_cases go f received persisted s) [
        | inl p ↦ subst EndsStill (sym p) (k persisted s h)
        | inr (inl p) ↦ subst IsStill (sym p) (receiving-IsStill received s h)
        | inr (inr (inl p)) ↦
            subst IsStill (sym p)
              (receiving-IsStill received (all_synced s) (synced-IsReceiving received s h))
        | inr (inr (inr p)) ↦ subst EndsStill (sym p) (
            k received (with_progress (all_synced s) EntryState.transferring received)
              (h.0, h.1, omega (arith, h.0), omega (arith, h.0), refl, h.5, h.6))
      ]

  appended-IsReceiving :
      (received : ℕ) (bs : List ℕ) (s : Slot)
      → received + length bs ≤ e.size
      → IsReceiving received s
      → IsReceiving (received + length bs) (appended s bs)
  appended-IsReceiving received bs s m h =
      (omega (arith, h.0, length-append (staged s) bs), m, omega (arith, h.2), h.3, h.4, h.5, h.6)

  written_out-IsStill :
      (go : ℕ → Slot → Received) (f : Frame) (bs : List ℕ) (received persisted : ℕ) (s : Slot)
      → Goes (received + length bs) go
      → received + length bs ≤ e.size
      → IsReceiving received s
      → IsStill (written_out go f bs (received + length bs) persisted s).1
  written_out-IsStill go f bs received persisted s k m h = elim (Option-cases f.written) [
    | inl p ↦
        ends-IsStill (written_out go f bs (received + length bs) persisted s)
          (persisted_at go f (received + length bs) persisted (appended s bs)) (ground (arith, p))
          (persisted_at-IsStill go f (received + length bs) persisted (appended s bs) k
            (appended-IsReceiving received bs s m h))
    | inr (n, p) ↦
        let fewer = length-take n bs in
        subst IsStill (ground (arith, p)) (
          receiving-IsStill (received + length (take n bs)) (appended s (take n bs))
            (appended-IsReceiving received (take n bs) s (omega (arith, m, fewer)) h))
  ]

  taken_in-IsStill :
      (go : ℕ → ℕ → Slot → Received) (f : Frame) (arrival : Arrival) (received persisted : ℕ)
      (s : Slot)
      → ((n : ℕ) → Goes n (go n))
      → IsReceiving received s
      → IsStill (taken_in digest e go f arrival received persisted s).1
  taken_in-IsStill go f timed_out received persisted s k h = receiving-IsStill received s h
  taken_in-IsStill go f broken received persisted s k h = receiving-IsStill received s h
  taken_in-IsStill go f no_bytes received persisted s k h = elim (Bool-cases f.active) [
    | inl p ↦
        ends-IsStill (taken_in digest e go f no_bytes received persisted s)
          (go received persisted s) (ground (arith, p)) (k received persisted s h)
    | inr p ↦ subst IsStill (ground (arith, p)) (receiving-IsStill received s h)
  ]
  taken_in-IsStill go f (bytes_of bs) received persisted s k h =
      elim (Bool-cases
        (not f.active || ltb max_u64 (received + length bs) || ltb e.size (received + length bs))) [
          | inl p ↦ subst IsStill (ground (arith, p)) (receiving-IsStill received s h)
          | inr p ↦
              ends-IsStill (taken_in digest e go f (bytes_of bs) received persisted s)
                (written_out (go (received + length bs)) f bs (received + length bs) persisted s)
                (ground (arith, p))
                (written_out-IsStill (go (received + length bs)) f bs received persisted s
                  (k (received + length bs)) (ground (arith, p)) h)
        ]

  pub receive_body-IsStill :
      (deferred : Bool) (io : Io) (fs : List Frame) (received persisted : ℕ) (s : Slot)
      → IsReceiving received s
      → IsStill (receive_body digest e deferred io fs received persisted s).1
  unfolding receive_body
  receive_body-IsStill deferred io [] received persisted s h =
      end_of_body-IsStill deferred io received s h
  receive_body-IsStill deferred io (f ∷ fs) received persisted s h =
      taken_in-IsStill (receive_body digest e deferred io fs) f f.arrival received persisted s
        (λ n p t. receive_body-IsStill deferred io fs n p t) h

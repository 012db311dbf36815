-- ===== src/FileServer/Recovered.antt =====
-- Proofs about windows/flowtype-app/src/file_transfer_server.rs: an upload that was interrupted is resumed
-- and completed by one request for the body and one to verify it.
use flow_type.Prelude.{
  Text, ℕ, ◌+◌, ◌≤◌, ◌≡◌, inl, inr, refl, sym, ◌∙◌, ap, subst, arith, Bool, true, false, Option,
  none, some, List, [], ◌∷◌, ◌++◌, length, length-append, if◌then◌else◌, Bool-cases,
}
use mathlib.Core.List.{append_assoc, append-nil}
use flow_type.FileTransfer.States.{EntryState}
use flow_type.FileTransfer.Messages.{ManifestEntry}
use flow_type.FileServer.{Answer, answered}
use flow_type.FileServer.Ranges.{max_u64}
use flow_type.FileServer.Uploads.{
  Slot, Arrival, timed_out, broken, no_bytes, bytes_of, Frame, Io, ReceiveResult, is_refused,
  contents, staged, with_progress, Received, appended, all_synced, is_due, end_of_body,
  persisted_at, written_out, taken_in, receive_body,
}

-- The frames work, and bring the bytes, all of them.
abbrev Works : Frame → Type 0
Works f = (f.active ≡ true) × (f.written ≡ none) × (f.syncs ≡ true) × (f.stores ≡ true)

abbrev BringsBy : (List ℕ → Type 0) → List ℕ → Arrival → Type 0
BringsBy next rest timed_out = ⊥
BringsBy next rest broken = ⊥
BringsBy next rest no_bytes = next rest
BringsBy next rest (bytes_of bs) = (after : List ℕ) × (rest ≡ bs ++ after) × next after

abbrev pub Brings : List Frame → List ℕ → Type 0
Brings [] rest = rest ≡ []
Brings (f ∷ fs) rest = Works f × BringsBy (Brings fs) rest f.arrival

-- Nothing fails in the file system and the store.
abbrev pub all_well : Io
all_well = record {
  reads_progress = true;
  knows_target = true;
  hashes_target = true;
  makes_parent = true;
  is_symlink = false;
  opens = true;
  truncates = true;
  active = true;
  rehashes = true;
  seeks = true;
  stores_start = true;
  syncs_end = true;
  stores_end = true;
}

module _ (digest : List ℕ → Text) (e : ManifestEntry) (file : List ℕ) where
  -- So far the file is received.
  abbrev IsGoing : ℕ → List ℕ → Slot → Type 0
  IsGoing received xs s = (s.part ≡ some xs) × (length xs ≡ received) × (s.target ≡ none)

  -- All is received.
  abbrev pub IsReceived : Bool → Received → Type 0
  IsReceived deferred r =
      (r.0
        ≡ answered (record {
          committed_offset = e.size;
          completed = false;
          sha256 = if deferred then none else some (digest file);
        }))
      × (r.1.part ≡ some file)
      × (r.1.target ≡ none)
      × (r.1.progress ≡ record { state = EntryState.transferring; committed_offset = e.size })

  pub received_as :
      (deferred : Bool) (r q : Received) → r ≡ q → IsReceived deferred q → IsReceived deferred r
  received_as deferred r q p h = subst (IsReceived deferred) {y = r} (sym p) h

  -- The rest of the loop.
  abbrev Finishes : Bool → (List ℕ → Type 0) → (ℕ → ℕ → Slot → Received) → Type 0
  Finishes deferred next go =
      (received persisted : ℕ) (t : Slot) (xs rest : List ℕ)
      → IsGoing received xs t
      → xs ++ rest ≡ file
      → next rest
      → IsReceived deferred (go received persisted t)

  abbrev answer_of : Bool → ℕ → List ℕ → Answer ReceiveResult
  answer_of deferred n xs = answered (record {
    committed_offset = n;
    completed = false;
    sha256 = if deferred then none else some (digest xs);
  })

  end_whole :
      (deferred : Bool) (received : ℕ) (s : Slot)
      → received ≡ e.size
      → is_refused e (digest (staged s)) ≡ false
      → end_of_body digest e deferred all_well received s ≡ (
        answer_of deferred received (staged s),
        with_progress (all_synced s) EntryState.transferring received,
      )
  unfolding end_of_body
  end_whole deferred received s l q = ground (arith, l, q)

  end_of_body-IsReceived :
      (deferred : Bool) (received : ℕ) (s : Slot)
      → received ≡ e.size
      → is_refused e (digest file) ≡ false
      → IsGoing received file s
      → IsReceived deferred (end_of_body digest e deferred all_well received s)
  end_of_body-IsReceived deferred received s l q (g, h, t) =
      let same : staged s ≡ file = ap contents g in
      let accepted = subst (λ x. is_refused e (digest x) ≡ false) (sym same) q in
      received_as deferred (end_of_body digest e deferred all_well received s)
        (
          answer_of deferred received (staged s),
          with_progress (all_synced s) EntryState.transferring received,
        )
        (end_whole deferred received s l accepted)
        (
          ap (answer_of deferred received) same ∙ ap (λ n. answer_of deferred n file) l,
          g,
          t,
          ap (λ (n : ℕ). record { state = EntryState.transferring; committed_offset = n }) l,
        )

  persisted_at-IsReceived :
      (deferred : Bool) (go : ℕ → Slot → Received) (f : Frame) (received persisted : ℕ) (s : Slot)
      → Works f
      → ((p : ℕ) (t : Slot) → t.part ≡ s.part → t.target ≡ none → IsReceived deferred (go p t))
      → s.target ≡ none
      → IsReceived deferred (persisted_at go f received persisted s)
  persisted_at-IsReceived deferred go f received persisted s (a, w, y, z) k t =
      elim (Bool-cases (is_due f received persisted)) [
        | inl c ↦
            received_as deferred (persisted_at go f received persisted s)
              (go received (with_progress (all_synced s) EntryState.transferring received))
              (ground (arith, c, y, z))
              (k received (with_progress (all_synced s) EntryState.transferring received) refl t)
        | inr c ↦
            received_as deferred (persisted_at go f received persisted s) (go persisted s)
              (ground (arith, c)) (k persisted s refl t)
      ]

  written_out-IsReceived :
      (deferred : Bool) (go : ℕ → Slot → Received) (f : Frame) (bs xs : List ℕ)
      (received persisted : ℕ) (s : Slot)
      → Works f
      → ((p : ℕ) (t : Slot)
          → t.part ≡ some (xs ++ bs)
          → t.target ≡ none
          → IsReceived deferred (go p t))
      → s.part ≡ some xs
      → s.target ≡ none
      → IsReceived deferred (written_out go f bs received persisted s)
  written_out-IsReceived deferred go f bs xs received persisted s w k g t =
      let more : (appended s bs).part ≡ some (xs ++ bs) =
        ap (λ (o : Option (List ℕ)). some (contents o ++ bs)) g in
      received_as deferred (written_out go f bs received persisted s)
        (persisted_at go f received persisted (appended s bs)) (ground (arith, w.1))
        (persisted_at-IsReceived deferred go f received persisted (appended s bs) w
          (λ p u v. k p u (v ∙ more)) t)

  taken_in-IsReceived :
      (deferred : Bool) (next : List ℕ → Type 0) (go : ℕ → ℕ → Slot → Received) (f : Frame)
      (arrival : Arrival) (received persisted : ℕ) (s : Slot) (xs rest : List ℕ)
      → length file ≡ e.size
      → e.size ≤ max_u64
      → Works f
      → Finishes deferred next go
      → IsGoing received xs s
      → xs ++ rest ≡ file
      → BringsBy next rest arrival
      → IsReceived deferred (taken_in digest e go f arrival received persisted s)
  taken_in-IsReceived deferred next go f timed_out received persisted s xs rest l m w k g p b =
      elim b [ ]
  taken_in-IsReceived deferred next go f broken received persisted s xs rest l m w k g p b =
      elim b [ ]
  taken_in-IsReceived deferred next go f no_bytes received persisted s xs rest l m w k g p b =
      received_as deferred (taken_in digest e go f no_bytes received persisted s)
        (go received persisted s) (ground (arith, w.0)) (k received persisted s xs rest g p b)
  taken_in-IsReceived deferred next go f (bytes_of bs) received persisted s xs rest l m w k g p
        (after, q, b) =
      let whole : (xs ++ bs) ++ after ≡ file =
        append_assoc xs bs after ∙ ap (λ x. xs ++ x) (sym q) ∙ p in
      let size = ap (λ (x : List ℕ). length x) whole in
      let outer = length-append (xs ++ bs) after in
      let inner = length-append xs bs in
      let n = received + length bs in
      let fits : n ≤ e.size = omega (arith, size, outer, inner, l, g.1) in
      received_as deferred (taken_in digest e go f (bytes_of bs) received persisted s)
        (written_out (go n) f bs n persisted s) (ground (arith, w.0, fits, m))
        (written_out-IsReceived deferred (go n) f bs xs n persisted s w
          (λ v t a c. k n v t (xs ++ bs) after (a, omega (arith, inner, g.1), c) whole b) g.0 g.2)

  pub receive_body-IsReceived :
      (deferred : Bool) (fs : List Frame) (received persisted : ℕ) (s : Slot) (xs rest : List ℕ)
      → length file ≡ e.size
      → e.size ≤ max_u64
      → is_refused e (digest file) ≡ false
      → IsGoing received xs s
      → xs ++ rest ≡ file
      → Brings fs rest
      → IsReceived deferred (receive_body digest e deferred all_well fs received persisted s)
  unfolding receive_body
  receive_body-IsReceived deferred [] received persisted s xs rest l m q g p b =
      let same : xs ≡ file = sym (append-nil xs) ∙ ap (λ x. xs ++ x) (sym b) ∙ p in
      end_of_body-IsReceived deferred received s (sym g.1 ∙ ap (λ (x : List ℕ). length x) same ∙ l)
        q (subst (λ x. IsGoing received x s) same g)
  receive_body-IsReceived deferred (f ∷ fs) received persisted s xs rest l m q g p b =
      taken_in-IsReceived deferred (Brings fs) (receive_body digest e deferred all_well fs) f
        f.arrival received persisted s xs rest l m b.0
        (λ n v t ys us g2 p2 b2. receive_body-IsReceived deferred fs n v t ys us l m q g2 p2 b2) g p
        b.1

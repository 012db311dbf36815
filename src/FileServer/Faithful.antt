-- ===== src/FileServer/Faithful.antt =====
-- Proofs about windows/flowtype-app/src/file_transfer_server.rs: an upload that is interrupted and resumed
-- puts the phone's file together, and no other.
use flow_type.Prelude.{
  Text, ℕ, ◌+◌, ◌≡◌, ◌⊎◌, inl, inr, refl, sym, ◌∙◌, ap, subst, arith, Bool, not, ◌||◌, none, some,
  List, [], ◌∷◌, ◌++◌, ltb, length, take, drop, take-append-drop, Bool-cases, Option-cases,
}
use mathlib.Core.List.{append_assoc}
use flow_type.FileTransfer.States.{EntryState}
use flow_type.FileTransfer.Messages.{ManifestEntry}
use flow_type.FileServer.Ranges.{max_u64}
use flow_type.FileServer.Uploads.{
  Slot, Arrival, timed_out, broken, no_bytes, bytes_of, Frame, Io, staged, with_progress, Received,
  appended, all_synced, end_of_body, persisted_at, written_out, taken_in, receive_body,
}
use flow_type.FileServer.Durable.{end_cases, persisted_cases}

-- The bytes of the frames are those that come next in the file.
abbrev FollowsBy : (List ℕ → Type 0) → List ℕ → Arrival → Type 0
FollowsBy next rest timed_out = Unit
FollowsBy next rest broken = Unit
FollowsBy next rest no_bytes = next rest
FollowsBy next rest (bytes_of bs) = (after : List ℕ) × (rest ≡ bs ++ after) × next after

abbrev pub Follows : List Frame → List ℕ → Type 0
Follows [] rest = Unit
Follows (f ∷ fs) rest = FollowsBy (Follows fs) rest f.arrival

-- What is staged is the beginning of the file, and what is in place is the file.
pub record IsFaithful (file : List ℕ) (s : Slot) : Type 0 where
  pub rest : List ℕ
  pub begins : staged s ++ rest ≡ file
  pub in_place : (s.target ≡ none) ⊎ (s.target ≡ some file)

module _ (digest : List ℕ → Text) (e : ManifestEntry) (file : List ℕ) where
  -- The rest of the loop, for frames that follow.
  abbrev GoesOn : (List ℕ → Type 0) → (ℕ → Slot → Received) → Type 0
  GoesOn next go =
      (persisted : ℕ) (t : Slot) (rest : List ℕ)
      → staged t ++ rest ≡ file
      → (t.target ≡ none) ⊎ (t.target ≡ some file)
      → next rest
      → IsFaithful file (go persisted t).1

  as_begun :
      (s : Slot) (rest : List ℕ)
      → staged s ++ rest ≡ file
      → (s.target ≡ none) ⊎ (s.target ≡ some file)
      → IsFaithful file s
  as_begun s rest p q = record { rest = rest; begins = p; in_place = q }

  pub goes_as : (r q : Received) → r ≡ q → IsFaithful file q.1 → IsFaithful file r.1
  goes_as r q p h = subst (λ (x : Received). IsFaithful file x.1) {y = r} (sym p) h

  end_of_body-IsFaithful :
      (deferred : Bool) (io : Io) (received : ℕ) (s : Slot) (rest : List ℕ)
      → staged s ++ rest ≡ file
      → (s.target ≡ none) ⊎ (s.target ≡ some file)
      → IsFaithful file (end_of_body digest e deferred io received s).1
  end_of_body-IsFaithful deferred io received s rest p q =
      elim (end_cases digest e s.target deferred io received s) [
        | inl c ↦ subst (IsFaithful file) (sym c) (as_begun s rest p q)
        | inr (inl c) ↦ subst (IsFaithful file) (sym c) (as_begun (all_synced s) rest p q)
        | inr (inr (inl c)) ↦
            subst (IsFaithful file) (sym c)
              (as_begun (with_progress (all_synced s) EntryState.waiting_network received) rest p q)
        | inr (inr (inr c)) ↦
            subst (IsFaithful file) (sym c)
              (as_begun (with_progress (all_synced s) EntryState.transferring received) rest p q)
      ]

  persisted_at-IsFaithful :
      (next : List ℕ → Type 0) (go : ℕ → Slot → Received) (f : Frame) (received persisted : ℕ)
      (s : Slot) (rest : List ℕ)
      → GoesOn next go
      → staged s ++ rest ≡ file
      → (s.target ≡ none) ⊎ (s.target ≡ some file)
      → next rest
      → IsFaithful file (persisted_at go f received persisted s).1
  persisted_at-IsFaithful next go f received persisted s rest k p q n =
      elim (persisted_cases digest e s.target go f received persisted s) [
        | inl c ↦ subst (λ (r : Received). IsFaithful file r.1) (sym c) (k persisted s rest p q n)
        | inr (inl c) ↦ subst (IsFaithful file) (sym c) (as_begun s rest p q)
        | inr (inr (inl c)) ↦ subst (IsFaithful file) (sym c) (as_begun (all_synced s) rest p q)
        | inr (inr (inr c)) ↦
            subst (λ (r : Received). IsFaithful file r.1) (sym c)
              (k received (with_progress (all_synced s) EntryState.transferring received) rest p q
                n)
      ]

  regroup :
      (xs ys zs : List ℕ) (us : List ℕ) → us ≡ ys ++ zs → xs ++ us ≡ file → (xs ++ ys) ++ zs ≡ file
  regroup xs ys zs us h p = append_assoc xs ys zs ∙ ap (λ x. xs ++ x) (sym h) ∙ p

  written_out-IsFaithful :
      (next : List ℕ → Type 0) (go : ℕ → Slot → Received) (f : Frame) (bs : List ℕ)
      (received persisted : ℕ) (s : Slot) (after : List ℕ)
      → GoesOn next go
      → staged s ++ (bs ++ after) ≡ file
      → (s.target ≡ none) ⊎ (s.target ≡ some file)
      → next after
      → IsFaithful file (written_out go f bs received persisted s).1
  written_out-IsFaithful next go f bs received persisted s after k p q n =
      elim (Option-cases f.written) [
        | inl c ↦
            goes_as (written_out go f bs received persisted s)
              (persisted_at go f received persisted (appended s bs)) (ground (arith, c))
              (persisted_at-IsFaithful next go f received persisted (appended s bs) after k
                (regroup (staged s) bs after (bs ++ after) refl p) q n)
        | inr (m, c) ↦
            let split =
              sym (ap (λ x. x ++ after) (take-append-drop m bs))
              ∙ append_assoc (take m bs) (drop m bs) after in
            subst (IsFaithful file) {x = appended s (take m bs)} (ground (arith, c)) (
              as_begun (appended s (take m bs)) (drop m bs ++ after)
                (regroup (staged s) (take m bs) (drop m bs ++ after) (bs ++ after) split p) q)
      ]

  taken_in-IsFaithful :
      (next : List ℕ → Type 0) (go : ℕ → ℕ → Slot → Received) (f : Frame) (arrival : Arrival)
      (received persisted : ℕ) (s : Slot) (rest : List ℕ)
      → ((n : ℕ) → GoesOn next (go n))
      → staged s ++ rest ≡ file
      → (s.target ≡ none) ⊎ (s.target ≡ some file)
      → FollowsBy next rest arrival
      → IsFaithful file (taken_in digest e go f arrival received persisted s).1
  taken_in-IsFaithful next go f timed_out received persisted s rest k p q n = as_begun s rest p q
  taken_in-IsFaithful next go f broken received persisted s rest k p q n = as_begun s rest p q
  taken_in-IsFaithful next go f no_bytes received persisted s rest k p q n =
      elim (Bool-cases f.active) [
        | inl c ↦
            goes_as (taken_in digest e go f no_bytes received persisted s) (go received persisted s)
              (ground (arith, c)) (k received persisted s rest p q n)
        | inr c ↦ subst (IsFaithful file) {x = s} (ground (arith, c)) (as_begun s rest p q)
      ]
  taken_in-IsFaithful next go f (bytes_of bs) received persisted s rest k p q n =
      elim (Bool-cases
        (not f.active || ltb max_u64 (received + length bs) || ltb e.size (received + length bs))) [
          | inl c ↦ subst (IsFaithful file) {x = s} (ground (arith, c)) (as_begun s rest p q)
          | inr c ↦
              goes_as (taken_in digest e go f (bytes_of bs) received persisted s)
                (written_out (go (received + length bs)) f bs (received + length bs) persisted s)
                (ground (arith, c))
                (written_out-IsFaithful next (go (received + length bs)) f bs (received + length bs)
                  persisted s n.0 (k (received + length bs)) (ap (λ x. staged s ++ x) (sym n.1) ∙ p)
                  q n.2)
        ]

  pub receive_body-IsFaithful :
      (deferred : Bool) (io : Io) (fs : List Frame) (received persisted : ℕ) (s : Slot)
      (rest : List ℕ)
      → staged s ++ rest ≡ file
      → (s.target ≡ none) ⊎ (s.target ≡ some file)
      → Follows fs rest
      → IsFaithful file (receive_body digest e deferred io fs received persisted s).1
  unfolding receive_body
  receive_body-IsFaithful deferred io [] received persisted s rest p q n =
      end_of_body-IsFaithful deferred io received s rest p q
  receive_body-IsFaithful deferred io (f ∷ fs) received persisted s rest p q n =
      taken_in-IsFaithful (Follows fs) (receive_body digest e deferred io fs) f f.arrival received
        persisted s rest (λ m x t r. receive_body-IsFaithful deferred io fs m x t r) p q n

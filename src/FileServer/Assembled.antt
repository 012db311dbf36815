-- ===== src/FileServer/Assembled.antt =====
-- Proofs about windows/flowtype-app/src/file_transfer_server.rs: the requests of an upload put the phone's
-- file together, however often it is interrupted.
use flow_type.Prelude.{
  Text, ℕ, suc, zero, ◌≤◌, ◌≡◌, ◌⊎◌, inl, inr, refl, sym, ◌∙◌, ap, subst, arith, Bool, Option, none,
  some, List, [], ◌∷◌, ◌++◌, length, length-append, take, drop, take-append-drop, Option-cases,
}
use mathlib.Core.List.{append_assoc, append-nil}
use flow_type.FileTransfer.States.{EntryState}
use flow_type.FileTransfer.Messages.{ManifestEntry}
use flow_type.FileServer.Uploads.{
  Slot, Frame, Io, contents, staged, with_progress, Received, cut, receive_at, receive_file,
}
use flow_type.FileServer.Commits.{
  to_verify, verify_upload, report_failure, Step, receive, verify, failure, crash, kept, crashed,
  step, run,
}
use flow_type.FileServer.Sound.{receive_at_cases, receive_file_cases}
use flow_type.FileServer.Verified.{Committed, Committed-cases}
use flow_type.FileServer.Crashes.{crashed_cases}
use flow_type.FileServer.Completed.{IsPatient, step-IsLater, failure_cases}
use flow_type.FileServer.Durable.{IsSound}
use flow_type.FileServer.Faithful.{Follows, IsFaithful, receive_body-IsFaithful}

-- The body of a request at an offset holds the file's bytes from there on.
abbrev pub Carries : List ℕ → Step → Type 0
Carries file (receive deferred io fs offset) = Follows fs (drop offset file)
Carries file (verify io supplied) = Unit
Carries file (failure stores removes) = Unit
Carries file (crash n k lost) = Unit

abbrev pub AllCarry : List ℕ → List Step → Type 0
AllCarry file [] = Unit
AllCarry file (t ∷ ts) = Carries file t × AllCarry file ts

pub take_shorter : (n : ℕ) (xs ys : List ℕ) → n ≤ length xs → take n (xs ++ ys) ≡ take n xs
take_shorter zero xs ys h = refl
take_shorter (suc n) [] ys h = ground (arith, h)
take_shorter (suc n) (x ∷ xs) ys h =
    ap (λ (r : List ℕ). x ∷ r) (take_shorter n xs ys (omega (arith, h)))

empty_list : (xs : List ℕ) → length xs ≡ 0 → xs ≡ []
empty_list [] h = refl
empty_list (x ∷ xs) h = ground (arith, h)

-- What begins a file and is as long is the file.
pub whole_file : (xs rest file : List ℕ) → xs ++ rest ≡ file → length xs ≡ length file → xs ≡ file
whole_file xs rest file p h =
    let l = length-append xs rest in
    let m = ap (λ (r : List ℕ). length r) p in
    sym (append-nil xs) ∙ sym (ap (λ r. xs ++ r) (empty_list rest (omega (arith, l, m, h)))) ∙ p

pub cut_file :
    (n : ℕ) (xs rest file : List ℕ)
    → xs ++ rest ≡ file
    → n ≤ length xs
    → take n xs ++ drop n file ≡ file
cut_file n xs rest file p h =
    ap (λ x. x ++ drop n file) (sym (take_shorter n xs rest h) ∙ ap (take n) p)
    ∙ take-append-drop n file

module _ (digest : List ℕ → Text) (e : ManifestEntry) (file : List ℕ) where
  receive_at-IsFaithful :
      (deferred : Bool) (io : Io) (fs : List Frame) (offset : ℕ) (s : Slot)
      → IsFaithful file s
      → Follows fs (drop offset file)
      → IsFaithful file (receive_at digest e deferred io fs offset s).1
  receive_at-IsFaithful deferred io fs offset s k n =
      elim (receive_at_cases digest e deferred io fs offset s) [
        | inl p ↦ subst (IsFaithful file) (sym p) k
        | inr (inl (h, p)) ↦ subst (IsFaithful file) (sym p) (record {
          rest = drop offset file;
          begins = cut_file offset (staged s) k.rest file k.begins h;
          in_place = k.in_place;
        })
        | inr (inr (h, p)) ↦
            subst (λ (r : Received). IsFaithful file r.1) (sym p)
              (receive_body-IsFaithful digest e file deferred io fs offset offset
                (with_progress (cut offset s) EntryState.transferring offset) (drop offset file)
                (cut_file offset (staged s) k.rest file k.begins h) k.in_place n)
      ]

  receive_file-IsFaithful :
      (deferred : Bool) (io : Io) (fs : List Frame) (offset : ℕ) (s : Slot)
      → IsFaithful file s
      → Follows fs (drop offset file)
      → IsFaithful file (receive_file digest e deferred io fs offset s).1
  receive_file-IsFaithful deferred io fs offset s k n =
      elim (receive_file_cases digest e deferred io fs offset s) [
        | inl p ↦ subst (IsFaithful file) (sym p) k
        | inr (h, p) ↦
            subst (λ (r : Received). IsFaithful file r.1) (sym p)
              (receive_at-IsFaithful deferred io fs offset (record s { part = some (staged s) })
                (record { rest = k.rest; begins = k.begins; in_place = k.in_place }) n)
      ]

  -- What is renamed to the target is the whole file.
  verified_file :
      (s : Slot) (bs : List ℕ)
      → IsFaithful file s
      → length file ≡ e.size
      → to_verify s ≡ some bs
      → length bs ≡ e.size
      → s.target ≡ none
      → bs ≡ file
  verified_file s bs k l q m t = elim (Option-cases s.part) [
    | inl p ↦ ground (arith, p, q, t)
    | inr (a, p) ↦
        let r : staged s ≡ bs = ground (arith, p, q) in
        whole_file bs k.rest file (ap (λ x. x ++ k.rest) (sym r) ∙ k.begins) (m ∙ sym l)
  ]

  placed_file : (bs : List ℕ) → bs ≡ file → (some bs ≡ none) ⊎ (some bs ≡ some file)
  placed_file bs h = inr (ap (λ (x : List ℕ). some x) h)

  Committed-IsFaithful :
      (s t : Slot)
      → IsFaithful file s
      → length file ≡ e.size
      → Committed digest e s t
      → IsFaithful file t
  Committed-IsFaithful s t k l (bs, q, m, h, inl (p, u)) =
      subst (IsFaithful file) (sym u)
        (record { rest = k.rest; begins = k.begins; in_place = k.in_place })
  Committed-IsFaithful s t k l (bs, q, m, h, inr (p, inl u)) =
      subst (IsFaithful file) (sym u) (record {
        rest = file;
        begins = refl;
        in_place = placed_file bs (verified_file s bs k l q m p);
      })
  Committed-IsFaithful s t k l (bs, q, m, h, inr (p, inr u)) =
      subst (IsFaithful file) (sym u) (record {
        rest = file;
        begins = refl;
        in_place = placed_file bs (verified_file s bs k l q m p);
      })

  report_failure-IsFaithful :
      (stores removes : Bool) (s : Slot)
      → IsFaithful file s
      → IsFaithful file (report_failure stores removes s)
  report_failure-IsFaithful stores removes s k = elim (failure_cases digest e stores removes s) [
    | inl p ↦ subst (IsFaithful file) (sym p) k
    | inr (inl p) ↦
        subst (IsFaithful file) (sym p)
          (record { rest = file; begins = refl; in_place = k.in_place })
    | inr (inr p) ↦
        subst (IsFaithful file) (sym p)
          (record { rest = k.rest; begins = k.begins; in_place = k.in_place })
  ]

  -- What a crash leaves begins the file still.
  kept_begins :
      (n : ℕ) (o : Option (List ℕ)) (rest : List ℕ)
      → contents o ++ rest ≡ file
      → (more : List ℕ) × (contents (kept n o) ++ more ≡ file)
  kept_begins n none rest p = (rest, p)
  kept_begins n (some bs) rest p = (
    drop n bs ++ rest,
    sym (append_assoc (take n bs) (drop n bs) rest)
        ∙ ap (λ x. x ++ rest) (take-append-drop n bs)
        ∙ p,
  )

  crashed-IsFaithful :
      (n k : ℕ) (lost : Bool) (s : Slot)
      → IsSound digest e s
      → IsFaithful file s
      → IsFaithful file (crashed n k lost s)
  crashed-IsFaithful n k lost s h f = elim (crashed_cases digest e n k lost s h) [
    | inl p ↦ subst (IsFaithful file) (sym p) f
    | inr (inl (z, p)) ↦
        subst (IsFaithful file) (sym p)
          (record { rest = file; begins = refl; in_place = f.in_place })
    | inr (inr (z, p)) ↦
        let left = kept_begins n s.part f.rest f.begins in
        subst (IsFaithful file) (sym p)
          (record { rest = left.0; begins = left.1; in_place = f.in_place })
  ]

  step-IsFaithful :
      (t : Step) (s : Slot)
      → length file ≡ e.size
      → Carries file t
      → IsSound digest e s
      → IsFaithful file s
      → IsFaithful file (step digest e t s)
  unfolding step
  step-IsFaithful (receive deferred io fs offset) s l c h k =
      receive_file-IsFaithful deferred io fs offset s k c
  step-IsFaithful (verify io supplied) s l c h k = elim (Committed-cases digest e io supplied s) [
    | inl p ↦ subst (IsFaithful file) (sym p) k
    | inr q ↦ Committed-IsFaithful s (verify_upload digest e io supplied s).1 k l q
  ]
  step-IsFaithful (failure stores removes) s l c h k = report_failure-IsFaithful stores removes s k
  step-IsFaithful (crash n m lost) s l c h k = crashed-IsFaithful n m lost s h k

  -- The file has the size of the entry, the body of each request holds the file's bytes from the request's
  -- offset on, as far as it comes, and the phone asks to verify only where all bytes are acknowledged.
  -- Whatever requests, failures and crashes there are from a sound state: what is staged begins the file,
  -- and a file that is put in place is the file.
  pub run-IsFaithful :
      (ts : List Step) (s : Slot)
      → length file ≡ e.size
      → AllCarry file ts
      → IsPatient digest e ts s
      → IsSound digest e s
      → IsFaithful file s
      → IsFaithful file (run digest e ts s)
  unfolding run
  run-IsFaithful [] s l c a h k = k
  run-IsFaithful (t ∷ ts) s l (c, cs) (a, b) h k =
      run-IsFaithful ts (step digest e t s) l cs b (step-IsLater digest e t s a h).0
        (step-IsFaithful t s l c h k)

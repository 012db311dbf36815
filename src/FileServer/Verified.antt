-- ===== src/FileServer/Verified.antt =====
-- Proofs about windows/flowtype-app/src/file_transfer_server.rs: what a verification of an upload changes.
use flow_type.Prelude.{
  Text, ℕ, ◌≡◌, ◌⊎◌, inl, inr, refl, sym, ◌∙◌, ap, arith, true, false, none, some, List, length,
  text_eq_iff, map, Option-cases,
}
use flow_type.FileTransfer.States.{EntryState}
use flow_type.FileTransfer.Messages.{ManifestEntry}
use flow_type.FileServer.Uploads.{
  Slot, ascii_lower, eq_ignore_ascii_case, is_refused, with_progress,
}
use flow_type.FileServer.Commits.{
  VerifyIo, Verified, renamed, put_in_place, to_verify, commit_bytes, commit_uploaded_file,
  verify_upload,
}

same_hash : (a b : Text) → (eq_ignore_ascii_case a b ≡ true) → map ascii_lower a ≡ map ascii_lower b
unfolding eq_ignore_ascii_case
same_hash a b h = (text_eq_iff (map ascii_lower a) (map ascii_lower b)).0 h

hash_same : (a b : Text) → map ascii_lower a ≡ map ascii_lower b → (eq_ignore_ascii_case a b ≡ true)
unfolding eq_ignore_ascii_case
hash_same a b h = (text_eq_iff (map ascii_lower a) (map ascii_lower b)).1 h

-- A hash that equals one that is not refused is not refused.
accepted_hash :
    (e : ManifestEntry) (a b : Text)
    → eq_ignore_ascii_case a b ≡ true
    → is_refused e b ≡ false
    → is_refused e a ≡ false
unfolding is_refused
accepted_hash e a b h k = elim (Option-cases e.sha256) [
  | inl p ↦ ground (arith, p)
  | inr (x, p) ↦
      let q : eq_ignore_ascii_case x b ≡ true = ground (arith, p, k) in
      ground (arith, p, hash_same x a (same_hash x b q ∙ sym (same_hash a b h)))
]

module _ (digest : List ℕ → Text) (e : ManifestEntry) where
  -- Where a verification changes something: the bytes that it is about, and what becomes of the slot.
  abbrev pub Committed : Slot → Slot → Type 0
  Committed s t =
      (bs : List ℕ) × (to_verify s ≡ some bs)
      × (length bs ≡ e.size)
      × (is_refused e (digest bs) ≡ false)
      × (((s.part ≡ none) × (t ≡ with_progress s EntryState.completed e.size))
          ⊎ ((s.target ≡ none)
              × ((t ≡ renamed bs s)
                  ⊎ (t ≡ with_progress (renamed bs s) EntryState.completed e.size))))

  placed_cases :
      (io : VerifyIo) (bs : List ℕ) (s : Slot)
      → ((put_in_place io e.size bs s).1 ≡ s)
        ⊎ ((s.part ≡ none)
            × ((put_in_place io e.size bs s).1 ≡ with_progress s EntryState.completed e.size))
        ⊎ ((s.target ≡ none)
            × (((put_in_place io e.size bs s).1 ≡ renamed bs s)
                ⊎ ((put_in_place io e.size bs s).1
                    ≡ with_progress (renamed bs s) EntryState.completed e.size)))
  unfolding put_in_place
  placed_cases io bs s = elim (Option-cases s.part) [
    | inl p ↦ ground (arith, p)
    | inr (a, p) ↦ elim (Option-cases s.target) [
      | inl q ↦ ground (arith, p, q)
      | inr (t, q) ↦ ground (arith, p, q)
    ]
  ]

  bytes_cases :
      (io : VerifyIo) (supplied : Text) (s : Slot) (bs : List ℕ)
      → ((commit_bytes digest e io supplied s (some bs)).1 ≡ s)
        ⊎ ((length bs ≡ e.size)
            × (eq_ignore_ascii_case (digest bs) supplied ≡ true)
            × (commit_bytes digest e io supplied s (some bs) ≡ put_in_place io e.size bs s))
  unfolding commit_bytes
  bytes_cases io supplied s bs = ground arith

  no_bytes_cases :
      (io : VerifyIo) (supplied : Text) (s : Slot)
      → (commit_bytes digest e io supplied s none).1 ≡ s
  unfolding commit_bytes
  no_bytes_cases io supplied s = refl

  verify_cases :
      (io : VerifyIo) (supplied : Text) (s : Slot)
      → ((verify_upload digest e io supplied s).1 ≡ s)
        ⊎ ((is_refused e supplied ≡ false)
            × (verify_upload digest e io supplied s
                ≡ commit_bytes digest e io supplied s (to_verify s)))
  unfolding verify_upload commit_uploaded_file
  verify_cases io supplied s = ground arith

  pub Committed-cases :
      (io : VerifyIo) (supplied : Text) (s : Slot)
      → ((verify_upload digest e io supplied s).1 ≡ s)
        ⊎ Committed s (verify_upload digest e io supplied s).1
  Committed-cases io supplied s = elim (verify_cases io supplied s) [
    | inl p ↦ inl p
    | inr (r, p) ↦ elim (Option-cases (to_verify s)) [
      | inl q ↦ inl (
          ap (λ (x : Verified). x.1) (p ∙ ap (commit_bytes digest e io supplied s) q)
          ∙ no_bytes_cases io supplied s)
      | inr (bs, q) ↦ elim (bytes_cases io supplied s bs) [
        | inl u ↦
            inl (ap (λ (x : Verified). x.1) (p ∙ ap (commit_bytes digest e io supplied s) q) ∙ u)
        | inr (l, h, u) ↦
            let whole =
              ap (λ (x : Verified). x.1) (p ∙ ap (commit_bytes digest e io supplied s) q ∙ u) in
            elim (placed_cases io bs s) [
              | inl v ↦ inl (whole ∙ v)
              | inr (inl v) ↦
                  inr (bs, q, l, accepted_hash e (digest bs) supplied h r, inl (v.0, whole ∙ v.1))
              | inr (inr (v, inl w)) ↦
                  inr (bs, q, l, accepted_hash e (digest bs) supplied h r, inr (v, inl (whole ∙ w)))
              | inr (inr (v, inr w)) ↦
                  inr (bs, q, l, accepted_hash e (digest bs) supplied h r, inr (v, inr (whole ∙ w)))
            ]
      ]
    ]
  ]

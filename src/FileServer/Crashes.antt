-- ===== src/FileServer/Crashes.antt =====
-- Proofs about windows/flowtype-app/src/file_transfer_server.rs: what a crash leaves of an entry's files.
use flow_type.Prelude.{
  Text, ℕ, ◌≤◌, ◌≡◌, ◌⊎◌, inl, inr, refl, ap, arith, Bool, true, Option, none, some, List, [], ◌∷◌,
  leb, is_some, ◌&&◌, ◌==◌, take, zero, suc, length, length-take, min, Bool-cases,
}
use flow_type.FileTransfer.States.{EntryState}
use flow_type.FileTransfer.Messages.{ManifestEntry}
use flow_type.FileServer.Uploads.{Slot, contents, staged}
use flow_type.FileServer.Commits.{kept, crashed}
use flow_type.FileServer.Durable.{IsPlaced, IsSound}

take_all : (k : ℕ) (t : List ℕ) → length t ≤ k → take k t ≡ t
take_all zero [] l = refl
take_all (suc k) [] l = refl
take_all zero (x ∷ t) l = ground (arith, l)
take_all (suc k) (x ∷ t) l = ap (λ r. x ∷ r) (take_all k t (omega (arith, l)))

module _ (digest : List ℕ → Text) (e : ManifestEntry) where
  pub length-kept :
      (n : ℕ) (o : Option (List ℕ)) → length (contents (kept n o)) ≡ min n (length (contents o))
  length-kept n none = omega arith
  length-kept n (some bs) = length-take n bs

  -- A crash cuts nothing off a file that is in place.
  placed_kept : (n k : ℕ) (o : Option (List ℕ)) → IsPlaced digest e n o → n ≤ k → kept k o ≡ o
  placed_kept n k none h l = refl
  placed_kept n k (some t) h l = ap some (take_all k t (omega (arith, h.2, l)))

  pub crashed_cases :
      (n k : ℕ) (lost : Bool) (s : Slot)
      → IsSound digest e s
      → (crashed n k lost s ≡ s)
        ⊎ ((s.synced ≡ 0) × (crashed n k lost s ≡ record s { part = none }))
        ⊎ ((s.synced ≤ n) × (crashed n k lost s ≡ record s { part = kept n s.part }))
  unfolding crashed
  crashed_cases n k lost s h = elim (Bool-cases (leb s.synced n && leb s.target_synced k)) [
    | inr p ↦ inl (ground (arith, p))
    | inl p ↦
        let t = placed_kept s.target_synced k s.target h.placed (ground (arith, p)) in
        elim (Bool-cases (lost && s.synced == 0)) [
          | inl q ↦ inr (inl (ground (arith, q), ground (arith, p, q, t)))
          | inr q ↦ inr (inr (ground (arith, p), ground (arith, p, q, t)))
        ]
  ]

  pub crash_acknowledged :
      (s : Slot) (n : ℕ)
      → IsSound digest e s
      → length (contents (kept n s.part)) ≡ min n (length (staged s))
      → (s.progress.committed_offset ≤ s.synced)
        ⊎ ((length (contents (kept n s.part)) ≡ 0)
            × ((s.progress.state ≡ EntryState.failed) ⊎ (is_some s.target ≡ true)))
  crash_acknowledged s n k l = elim k.acknowledged [
    | inl p ↦ inl p
    | inr p ↦ inr (omega (arith, l, p.0), p.1)
  ]

  pub lost_acknowledged :
      (s : Slot)
      → IsSound digest e s
      → (s.progress.committed_offset ≤ s.synced)
        ⊎ ((length (staged (record s { part = none })) ≡ 0)
            × ((s.progress.state ≡ EntryState.failed) ⊎ (is_some s.target ≡ true)))
  lost_acknowledged s k = elim k.acknowledged [ inl p ↦ inl p | inr p ↦ inr (refl, p.1) ]

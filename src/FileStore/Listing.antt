-- ===== src/FileStore/Listing.antt =====
-- Proofs about windows/flowtype-app/src/file_transfer_store.rs: `recoverable_batches` lists every open
-- batch that can be loaded.
use flow_type.Prelude.{
  Text, ◌≡◌, inl, inr, refl, sym, ◌∙◌, ap, subst, arith, Bool, true, false, not, ◌&&◌, Option, some,
  List, [], ◌∷◌, any, text_eq, text_eq_iff, Option-cases, Bool-cases, get,
}
use flow_type.FileTransfer.States.{is_terminal}
use flow_type.FileStore.Batches.{
  BatchRecord, Disk, Store, on_disk, load_batch, loaded, place, sorted, batches, open_ones,
  recoverable_batches,
}
use flow_type.FileStore.Records.{load_batch_lem}

any-place :
    (p : BatchRecord → Bool) (b : BatchRecord) (cs : List BatchRecord)
    → any p (place b cs) ≡ any p (b ∷ cs)
unfolding place
any-place p b [] = refl
any-place p b (c ∷ cs) = ground (arith, any-place p b cs)

any-sorted : (p : BatchRecord → Bool) (bs : List BatchRecord) → any p (sorted bs) ≡ any p bs
unfolding sorted
any-sorted p [] = refl
any-sorted p (b ∷ bs) = any-place p b (sorted bs) ∙ ground (arith, any-sorted p bs)

any-open_ones :
    (p : BatchRecord → Bool) (bs : List BatchRecord)
    → any p (open_ones bs) ≡ any (λ b. not (is_terminal b.state) && p b) bs
unfolding open_ones
any-open_ones p [] = refl
any-open_ones p (b ∷ bs) = ground (arith, any-open_ones p bs)

any-loaded :
    (p : BatchRecord → Bool) (d : Disk) (whole s : Store) (id : Text) (o : Option BatchRecord)
    (b : BatchRecord)
    → get id s ≡ some o
    → load_batch d id whole ≡ some b
    → p b ≡ true
    → any p (loaded d whole s) ≡ true
unfolding get loaded
any-loaded p d whole [] id o b h l k = absurd (ground (arith, h))
any-loaded p d whole ((j, r) ∷ s) id o b h l k = elim (Bool-cases (text_eq id j)) [
  | inl e ↦
      let f = ap (λ i. load_batch d i whole) (sym ((text_eq_iff id j).0 e)) ∙ l in
      ground (arith, f, k)
  | inr e ↦
      let rest = any-loaded p d whole s id o b (ground (arith, h, e)) l k in
      elim (Option-cases (load_batch d j whole)) [
        | inl f ↦ ground (arith, f, rest)
        | inr (c, f) ↦ ground (arith, f, rest)
      ]
]

directory_of :
    (id : Text) (s : Store) (b : BatchRecord)
    → on_disk id s ≡ some b
    → (o : Option BatchRecord) × (get id s ≡ some o)
unfolding on_disk
directory_of id s b h = elim (Option-cases (get id s)) [
  | inl e ↦ absurd (ground arith)
  | inr (c, e) ↦ (c, e)
]

-- An open batch that loads is among the recoverable ones.
pub any-recoverable_batches :
    (p : BatchRecord → Bool) (d : Disk) (s : Store) (id : Text) (b : BatchRecord)
    (bs : List BatchRecord)
    → load_batch d id s ≡ some b
    → is_terminal b.state ≡ false
    → p b ≡ true
    → recoverable_batches d s ≡ some bs
    → any p bs ≡ true
unfolding recoverable_batches batches
any-recoverable_batches p d s id b bs l t k h =
    let dir = directory_of id s b (load_batch_lem d id s b l).0 in
    let q : BatchRecord → Bool = λ x. not (is_terminal x.state) && p x in
    let found =
      any-open_ones p (sorted (loaded d s s))
      ∙ any-sorted q (loaded d s s)
      ∙ any-loaded q d s s id dir.0 b dir.1 l (ground (arith, t, k)) in
    let listed : open_ones (sorted (loaded d s s)) ≡ bs = ground (arith, h) in
    subst (λ x. any p x ≡ true) listed found

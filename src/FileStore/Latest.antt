-- ===== src/FileStore/Latest.antt =====
-- Proofs about windows/flowtype-app/src/file_transfer_store.rs: the progress that is read for an entry is
-- the one written last.
use flow_type.Prelude.{
  ℕ, zero, suc, ◌+◌, ◌*◌, ◌<◌, ◌≡◌, ◌≢◌, inl, inr, refl, sym, ◌∙◌, ap, arith, some, List, [], ◌∷◌,
  ◌++◌, All, length, take, drop, replicate, Option-cases,
}
use flow_type.FileStore.Progress.{EntryProgress, encode_progress, decode_progress}
use flow_type.FileStore.Fields.{bound, decode-encode_progress}
use flow_type.FileStore.Lines.{drop_past, take_all, length-to_le_bytes}
use flow_type.FileStore.Manifests.{Manifest, read_manifest_complete}
use flow_type.FileStore.ProgressFile.{overwrite, write_progress, read_record, read_progress}

unfoldable pub flat : List (List ℕ) → List ℕ
flat [] = []
flat (r ∷ rs) = r ++ flat rs

abbrev pub IsRecord : List ℕ → Type 0
IsRecord r = length r ≡ 16

abbrev pub put : ℕ → List ℕ → List (List ℕ) → List (List ℕ)
put zero b [] = b ∷ []
put zero b (r ∷ rs) = b ∷ rs
put (suc o) b [] = replicate 16 0 ∷ put o b []
put (suc o) b (r ∷ rs) = r ∷ put o b rs

abbrev pub record_at : ℕ → List (List ℕ) → List ℕ
record_at o [] = []
record_at zero (r ∷ rs) = r
record_at (suc o) (r ∷ rs) = record_at o rs

pub put-All :
    (o : ℕ) (b : List ℕ) (rs : List (List ℕ))
    → IsRecord b
    → All IsRecord rs
    → All IsRecord (put o b rs)
put-All zero b [] h k = (h, tt)
put-All zero b (r ∷ rs) h k = (h, k.1)
put-All (suc o) b [] h k = (refl, put-All o b [] h tt)
put-All (suc o) b (r ∷ rs) h k = (k.0, put-All o b rs h k.1)

pub drop_nil : (n : ℕ) → drop {A = ℕ} n [] ≡ []
drop_nil zero = refl
drop_nil (suc n) = refl

sixteen_more : (o k : ℕ) → k ≡ 16 → 16 * suc o ≡ k + 16 * o
sixteen_more o k h = omega (arith, h)

pub record_read :
    (o : ℕ) (rs : List (List ℕ))
    → All IsRecord rs
    → take 16 (drop (16 * o) (flat rs)) ≡ record_at o rs
unfolding flat
record_read o [] k = ap (take 16) (drop_nil (16 * o))
record_read zero (r ∷ rs) k = ap (λ n. take n (r ++ flat rs)) (sym k.0) ∙ take_all r (flat rs)
record_read (suc o) (r ∷ rs) k =
    ap (λ n. take 16 (drop n (r ++ flat rs))) (sixteen_more o (length r) k.0)
    ∙ ap (take 16) (drop_past r (flat rs) (16 * o))
    ∙ record_read o rs k.1

overwrite_past :
    (r rest b : List ℕ) (n : ℕ) → overwrite (length r + n) b (r ++ rest) ≡ r ++ overwrite n b rest
unfolding overwrite
overwrite_past [] rest b n = ap (λ k. overwrite k b rest) (omega arith)
overwrite_past (c ∷ r) rest b n =
    ap (λ k. overwrite k b (c ∷ (r ++ rest))) (one_more (length r))
    ∙ ap (λ x. c ∷ x) (overwrite_past r rest b n)
  where
    one_more : (k : ℕ) → suc k + n ≡ suc (k + n)
    one_more k = omega arith

overwrite_zeros :
    (k n : ℕ) (b : List ℕ) → overwrite (k + n) b [] ≡ replicate k 0 ++ overwrite n b []
unfolding overwrite
overwrite_zeros zero n b = ap (λ k. overwrite k b []) (omega arith)
overwrite_zeros (suc k) n b =
    ap (λ j. overwrite j b []) (one_more k) ∙ ap (λ x. 0 ∷ x) (overwrite_zeros k n b)
  where
    one_more : (k : ℕ) → suc k + n ≡ suc (k + n)
    one_more k = omega arith

-- A record is written in the place of the record of its number.
pub overwrite-flat :
    (o : ℕ) (b : List ℕ) (rs : List (List ℕ))
    → IsRecord b
    → All IsRecord rs
    → overwrite (16 * o) b (flat rs) ≡ flat (put o b rs)
unfolding flat overwrite
overwrite-flat zero b [] h k = ap (λ x. b ++ x) (drop_nil (length b))
overwrite-flat zero b (r ∷ rs) h k =
    ap (λ n. b ++ drop n (r ++ flat rs)) (omega (arith, h, k.0))
    ∙ ap (λ x. b ++ x) (drop_past r (flat rs) 0)
overwrite-flat (suc o) b [] h k =
    ap (λ n. overwrite n b []) (sixteen_more o 16 refl)
    ∙ overwrite_zeros 16 (16 * o) b
    ∙ ap (λ x. replicate 16 0 ++ x) (overwrite-flat o b [] h tt)
overwrite-flat (suc o) b (r ∷ rs) h k =
    ap (λ n. overwrite n b (r ++ flat rs)) (sixteen_more o (length r) k.0)
    ∙ overwrite_past r (flat rs) b (16 * o)
    ∙ ap (λ x. r ++ x) (overwrite-flat o b rs h k.1)

pub at_own : (o : ℕ) (b : List ℕ) (rs : List (List ℕ)) → record_at o (put o b rs) ≡ b
at_own zero b [] = refl
at_own zero b (r ∷ rs) = refl
at_own (suc o) b [] = at_own o b []
at_own (suc o) b (r ∷ rs) = at_own o b rs

pub at_other :
    (j o : ℕ) (b : List ℕ) (rs : List (List ℕ))
    → j ≢ o
    → read_record (record_at j (put o b rs)) ≡ read_record (record_at j rs)
unfolding read_record decode_progress
at_other zero zero b rs n = absurd (n refl)
at_other (suc j) zero b [] n = refl
at_other (suc j) zero b (r ∷ rs) n = refl
at_other zero (suc o) b [] n = refl
at_other zero (suc o) b (r ∷ rs) n = refl
at_other (suc j) (suc o) b [] n = at_other j o b [] (λ e. n (ap suc e))
at_other (suc j) (suc o) b (r ∷ rs) n = at_other j o b rs (λ e. n (ap suc e))

pub encode_progress-IsRecord : (p : EntryProgress) → IsRecord (encode_progress p)
unfolding encode_progress
encode_progress-IsRecord p = omega (arith, length-to_le_bytes 8 p.committed_offset)

pub record_back :
    (p : EntryProgress) → p.committed_offset < bound 8 → read_record (encode_progress p) ≡ some p
unfolding read_record encode_progress
record_back p h =
    ground (arith, decode-encode_progress p h, length-to_le_bytes 8 p.committed_offset)

-- A file of whole records.
abbrev pub IsWhole : Manifest → Type 0
IsWhole m = (rs : List (List ℕ)) × (m.progress ≡ flat rs) × All IsRecord rs

pub written_facts :
    (m v : Manifest) (o : ℕ) (p : EntryProgress)
    → write_progress m o p ≡ some v
    → (v.completed ≡ m.completed) × (v.progress ≡ overwrite (16 * o) (encode_progress p) m.progress)
unfolding write_progress
written_facts m v o p h = elim (Option-cases (read_manifest_complete m)) [
  | inl e ↦ absurd (ground (arith, h, e))
  | inr (c, e) ↦ ground (arith, h, e)
]

-- What is read, as far as the completion record goes.
pub same_reading :
    (m v : Manifest) (j : ℕ)
    → v.completed ≡ m.completed
    → read_record (take 16 (drop (16 * j) v.progress))
      ≡ read_record (take 16 (drop (16 * j) m.progress))
    → read_progress v j ≡ read_progress m j
unfolding read_progress read_manifest_complete
same_reading m v j c h = ground (arith, c, h)

pub new_reading :
    (m v : Manifest) (j : ℕ) (cur p : EntryProgress)
    → v.completed ≡ m.completed
    → read_progress m j ≡ some cur
    → read_record (take 16 (drop (16 * j) v.progress)) ≡ some p
    → read_progress v j ≡ some p
unfolding read_progress read_manifest_complete
new_reading m v j cur p c k h = ground (arith, c, h, k)

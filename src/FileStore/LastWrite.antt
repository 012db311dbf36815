-- ===== src/FileStore/LastWrite.antt =====
-- Proofs about windows/flowtype-app/src/file_transfer_store.rs: after any writes of progress, each entry
-- of a committed manifest reads as the last of its writes.
use flow_type.Prelude.{
  Text, ℕ, ◌*◌, ◌^◌, ◌<◌, ◌≡◌, ◌≢◌, inl, inr, sym, ◌∙◌, ap, subst, arith, true, some, List, [], ◌∷◌,
  ◌==◌, All, take, drop, if◌then◌else◌, Option-cases, Bool-cases,
}
use flow_type.FileTransfer.States.{EntryState}
use flow_type.FileTransfer.Messages.{valid_sha256}
use flow_type.FileStore.Progress.{EntryProgress, encode_progress, decode_progress}
use flow_type.FileStore.Fields.{bound}
use flow_type.FileStore.Manifests.{Manifest, ManifestWriter, read_manifest_complete, finish}
use flow_type.FileStore.RoundTrip.{finished, complete_record}
use flow_type.FileStore.ProgressFile.{
  overwrite, write_progress, read_record, read_progress, write_rest, write_all,
}
use flow_type.FileStore.Latest.{
  flat, IsWhole, put, put-All, record_at, record_read, drop_nil, overwrite-flat, at_own, at_other,
  encode_progress-IsRecord, record_back, written_facts, same_reading, new_reading,
}

-- The last of the writes for an entry, or what it was before them.
abbrev pub latest : ℕ → EntryProgress → List (ℕ × EntryProgress) → EntryProgress
latest j p [] = p
latest j p ((o, q) ∷ writes) = latest j (if o == j then q else p) writes

written-IsWhole :
    (m v : Manifest) (o : ℕ) (p : EntryProgress)
    → (w : IsWhole m) → write_progress m o p ≡ some v
    → v.progress ≡ flat (put o (encode_progress p) w.0)
written-IsWhole m v o p w h =
    (written_facts m v o p h).1
    ∙ ap (overwrite (16 * o) (encode_progress p)) w.1
    ∙ overwrite-flat o (encode_progress p) w.0 (encode_progress-IsRecord p) w.2

place_read :
    (m : Manifest) (w : IsWhole m) (j : ℕ) → take 16 (drop (16 * j) m.progress) ≡ record_at j w.0
place_read m w j = ap (λ f. take 16 (drop (16 * j) f)) w.1 ∙ record_read j w.0 w.2

write_once :
    (m v : Manifest) (o j : ℕ) (p cur : EntryProgress)
    → (w : IsWhole m) → p.committed_offset < bound 8
    → read_progress m j ≡ some cur
    → write_progress m o p ≡ some v
    → IsWhole v × (read_progress v j ≡ some (if o == j then p else cur))
write_once m v o j p cur w fits r h =
    let next : IsWhole v = (
      put o (encode_progress p) w.0,
      written-IsWhole m v o p w h,
      put-All o (encode_progress p) w.0 (encode_progress-IsRecord p) w.2,
    ) in
    let done = (written_facts m v o p h).0 in
    (
      next,
      elim (Bool-cases (o == j)) [
        | inl e ↦
            let same : j ≡ o = ground (arith, e) in
            rw e (
              new_reading m v j cur p done r (
                ap read_record (place_read v next j)
                ∙ ap (λ i. read_record (record_at i (put o (encode_progress p) w.0))) same
                ∙ ap read_record (at_own o (encode_progress p) w.0)
                ∙ record_back p fits))
        | inr e ↦
            let other : j ≢ o = λ f. ground (arith, e, f) in
            rw e (
              same_reading m v j done (
                ap read_record (place_read v next j)
                ∙ at_other j o (encode_progress p) w.0 other
                ∙ sym (ap read_record (place_read m w j)))
              ∙ r)
      ],
    )

write_many :
    (writes : List (ℕ × EntryProgress)) (m v : Manifest) (j : ℕ) (cur : EntryProgress)
    → IsWhole m
    → All (λ x. x.1.committed_offset < bound 8) writes
    → read_progress m j ≡ some cur
    → write_all writes m ≡ some v
    → read_progress v j ≡ some (latest j cur writes)
unfolding write_all
write_many [] m v j cur w fits r h =
    let e : m ≡ v = ground (arith, h) in subst (λ x. read_progress x j ≡ some cur) e r
write_many ((o, p) ∷ writes) m v j cur w fits r h = elim (Option-cases (write_progress m o p)) [
  | inl e ↦ absurd (ground (arith, h, e))
  | inr (u, e) ↦
      let k = write_once m u o j p cur w fits.0 r e in
      write_many writes u v j (if o == j then p else cur) k.0 fits.1 k.1
        (sym (ap (write_rest (write_all writes)) e) ∙ h)
]

never_written :
    (m : Manifest) (j : ℕ)
    → m.progress ≡ []
    → read_manifest_complete m ≡ some m.completed
    → j < m.completed.entry_count
    → j * 16 < 2 ^ 64
    → read_progress m j ≡ some (record { state = EntryState.pending; committed_offset = 0 })
unfolding read_progress read_record decode_progress
never_written m j p c h k =
    ground
      (arith, c, h, k, ap (λ f. take 16 (drop (16 * j) f)) p ∙ ap (take 16) (drop_nil (16 * j)))

-- A manifest has been committed, with a hash in hexadecimal, and then progress was written, of 64-bit
-- offsets: each entry reads as the last of the writes for it, and as pending at offset 0 without one.
pub read_progress-write_all :
    (digest : List ℕ → Text) (w : ManifestWriter) (m v : Manifest)
    (writes : List (ℕ × EntryProgress)) (j : ℕ)
    → ((bytes : List ℕ) → valid_sha256 (digest bytes) ≡ true)
    → finish digest w ≡ some m
    → All (λ x. x.1.committed_offset < 2 ^ 64) writes
    → write_all writes m ≡ some v
    → j < m.completed.entry_count
    → read_progress v j
      ≡ some (latest j (record { state = EntryState.pending; committed_offset = 0 }) writes)
unfolding flat
read_progress-write_all digest w m v writes j hash done fits h k =
    let f = finished digest w m done in
    let e = f.9 in
    write_many writes m v j (record { state = EntryState.pending; committed_offset = 0 })
      ([], e, tt) fits
      (never_written m j e (complete_record m f.3 (ap valid_sha256 f.4 ∙ hash w.file)) k
        (omega (arith, f.8, f.2, k)))
      h

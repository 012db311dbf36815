-- ===== src/FileStore/RoundTrip.antt =====
-- Proofs about windows/flowtype-app/src/file_transfer_store.rs: a committed manifest gives its entries
-- back, and they are as many and as large as the batch promises.
use flow_type.Prelude.{
  Text, ℕ, ◌+◌, ◌*◌, ◌≤◌, ◌<◌, ◌≡◌, inl, inr, sym, ◌∙◌, ap, arith, true, false, Option, none, some,
  List, [], ◌∷◌, ◌++◌, ◌==◌, any, length, take, drop, if◌then◌else◌, Option-cases, Bool-cases,
}
use flow_type.FileTransfer.Messages.{ManifestEntry, is_file, validate_entry, valid_sha256}
use flow_type.FileStore.Batches.{BatchRecord, is_ok}
use flow_type.FileStore.Progress.{from_le_bytes}
use flow_type.FileStore.Lines.{framed, offsets, nth}
use flow_type.FileStore.Manifests.{
  Manifest, ManifestWriter, begin_manifest, newline, counted, with_line, encoded_length, append,
  append_rest, append_all, read_line, pop_newline, read_manifest_complete, manifest_entry, finish,
}
use flow_type.FileStore.ReadBack.{append_all-Appended, entry_line, nth_within, stored_line}
use flow_type.FileServer.Ranges.{max_u64}

abbrev pub files_in : List ManifestEntry → ℕ
files_in [] = 0
files_in (e ∷ es) = if is_file e.kind then files_in es + 1 else files_in es

abbrev pub directories_in : List ManifestEntry → ℕ
directories_in [] = 0
directories_in (e ∷ es) = if is_file e.kind then directories_in es else directories_in es + 1

abbrev pub bytes_in : List ManifestEntry → ℕ
bytes_in [] = 0
bytes_in (e ∷ es) = e.size + bytes_in es

-- What appending entries adds to the counts of a writer.
abbrev Totals : List ManifestEntry → ManifestWriter → ManifestWriter → Type 0
Totals es w v =
    (v.files ≡ w.files + files_in es)
    × (v.directories ≡ w.directories + directories_in es)
    × (v.bytes ≡ w.bytes + bytes_in es)
    × (v.expected_files ≡ w.expected_files)
    × (v.expected_directories ≡ w.expected_directories)
    × (v.expected_bytes ≡ w.expected_bytes)

counted-Totals :
    (e : ManifestEntry) (w u : ManifestWriter) → counted e w ≡ some u → Totals (e ∷ []) w u
unfolding counted
counted-Totals e w u h = ground (arith, h)

lined-Totals : (l : List ℕ) (u v : ManifestWriter) → with_line l u ≡ some v → Totals [] u v
unfolding with_line
lined-Totals l u v h = ground (arith, h)

append-Totals :
    (encode : ManifestEntry → Option (List ℕ)) (e : ManifestEntry) (w v : ManifestWriter)
    → append encode e w ≡ some v
    → Totals (e ∷ []) w v
unfolding append
append-Totals encode e w v h =
    elim (Bool-cases (is_ok (validate_entry (encoded_length encode) e))) [
      | inr f ↦ absurd (ground (arith, h, f))
      | inl f ↦ elim (Option-cases (counted e w)) [
        | inl g ↦ absurd (ground (arith, h, f, g))
        | inr (u, g) ↦ elim (Option-cases (encode e)) [
          | inl k ↦ absurd (ground (arith, h, f, g, k))
          | inr (l, k) ↦
              let a = counted-Totals e w u g in
              let b = lined-Totals l u v (ground (arith, h, f, g, k)) in ground (arith, a, b)
        ]
      ]
    ]

append_all-Totals :
    (encode : ManifestEntry → Option (List ℕ)) (es : List ManifestEntry) (w v : ManifestWriter)
    → append_all encode es w ≡ some v
    → Totals es w v
unfolding append_all
append_all-Totals encode [] w v h = ground (arith, h)
append_all-Totals encode (e ∷ es) w v h = elim (Option-cases (append encode e w)) [
  | inl f ↦ absurd (ground (arith, h, f))
  | inr (u, f) ↦
      let a = append-Totals encode e w u f in
      let b =
        append_all-Totals encode es u v (sym (ap (append_rest (append_all encode es)) f) ∙ h) in
      ground (arith, a, b)
]

pub begun :
    (b : BatchRecord) (w : ManifestWriter)
    → begin_manifest b ≡ some w
    → (w.file ≡ [])
      × (w.index ≡ [])
      × (w.next_ordinal ≡ 0)
      × (w.next_offset ≡ 0)
      × (w.files ≡ 0)
      × (w.directories ≡ 0)
      × (w.bytes ≡ 0)
      × (w.expected_files ≡ b.file_count)
      × (w.expected_directories ≡ b.directory_count)
      × (w.expected_bytes ≡ b.total_bytes)
unfolding begin_manifest
begun b w h = ground (arith, h)

pub finished :
    (digest : List ℕ → Text) (v : ManifestWriter) (m : Manifest)
    → finish digest v ≡ some m
    → (m.file ≡ v.file)
      × (m.index ≡ v.index)
      × (m.completed.entry_count ≡ v.next_ordinal)
      × (m.completed.store_version ≡ 1)
      × (m.completed.sha256 ≡ digest v.file)
      × (v.files ≡ v.expected_files)
      × (v.directories ≡ v.expected_directories)
      × (v.bytes ≡ v.expected_bytes)
      × (v.next_ordinal * 16 ≤ max_u64)
      × (m.progress ≡ [])
unfolding finish
finished digest v m h = ground (arith, h)

pub complete_record :
    (m : Manifest)
    → m.completed.store_version ≡ 1
    → valid_sha256 m.completed.sha256 ≡ true
    → read_manifest_complete m ≡ some m.completed
unfolding read_manifest_complete
complete_record m h k = ground (arith, h, k)

entry_found :
    (encode : ManifestEntry → Option (List ℕ)) (decode : List ℕ → Option ManifestEntry)
    (m : Manifest) (i : ℕ) (l : List ℕ) (e : ManifestEntry)
    → read_manifest_complete m ≡ some m.completed
    → i < m.completed.entry_count
    → i * 8 ≤ max_u64
    → 8 ≤ length (drop (8 * i) m.index)
    → pop_newline (read_line (drop (from_le_bytes (take 8 (drop (8 * i) m.index))) m.file)) ≡ some l
    → decode l ≡ some e
    → is_ok (validate_entry (encoded_length encode) e) ≡ true
    → e.ordinal ≡ i
    → manifest_entry encode decode m i ≡ some e
unfolding manifest_entry
entry_found encode decode m i l e c h k n p d v o = ground (arith, c, h, k, n, p, d, v, o)

-- What a manifest made of these entries answers for a number.
read_back :
    (encode : ManifestEntry → Option (List ℕ)) (decode : List ℕ → Option ManifestEntry)
    (digest : List ℕ → Text) (b : BatchRecord) (es : List ManifestEntry) (w v : ManifestWriter)
    (m : Manifest)
    → ((e : ManifestEntry) (l : List ℕ) → encode e ≡ some l → decode l ≡ some e)
    → ((e : ManifestEntry) (l : List ℕ) → encode e ≡ some l → any (λ c. c == newline) l ≡ false)
    → ((bytes : List ℕ) → valid_sha256 (digest bytes) ≡ true)
    → begin_manifest b ≡ some w
    → append_all encode es w ≡ some v
    → finish digest v ≡ some m
    → (i : ℕ) (e : ManifestEntry) → nth i es ≡ some e
    → manifest_entry encode decode m i ≡ some e
read_back encode decode digest b es w v m back plain hash h k p i e n =
    let s = begun b w h in
    let a = append_all-Appended encode es w v k in
    let f = finished digest v m p in
    let l = entry_line encode w.next_ordinal i es a.lines e a.encoded n in
    let within = nth_within i es e n in
    let index =
      f.1
      ∙ a.index
      ∙ ap (λ x. x ++ offsets w.next_offset a.lines) s.1
      ∙ ap (λ o. offsets o a.lines) s.3 in
    let file = f.0 ∙ a.file ∙ ap (λ x. x ++ framed a.lines) s.0 in
    let fits : length (framed a.lines) ≤ max_u64 =
      omega (arith, a.fits (omega (arith, s.3)), a.next_offset, s.3) in
    let line = stored_line m.index m.file a.lines i l.0 index file fits l.1 (plain e l.0 l.2) in
    entry_found encode decode m i l.0 e (complete_record m f.3 (ap valid_sha256 f.4 ∙ hash v.file))
      (omega (arith, f.2, a.next_ordinal, within)) (omega (arith, f.8, a.next_ordinal, within))
      line.0 line.1 (back e l.0 l.2) l.3 (omega (arith, l.4, s.2))

past_the_end :
    (encode : ManifestEntry → Option (List ℕ)) (decode : List ℕ → Option ManifestEntry)
    (m : Manifest) (i : ℕ)
    → read_manifest_complete m ≡ some m.completed
    → m.completed.entry_count ≤ i
    → manifest_entry encode decode m i ≡ none
unfolding manifest_entry
past_the_end encode decode m i c h = ground (arith, c, h)

-- Where an entry's JSON is read as what was written and has no newline in it, and the hash is one in
-- hexadecimal: a manifest that is committed after appending some entries has as many files, directories
-- and bytes as the batch promises, gives each entry back by its number, and nothing beyond the last.
pub manifest_entry-finish :
    (encode : ManifestEntry → Option (List ℕ)) (decode : List ℕ → Option ManifestEntry)
    (digest : List ℕ → Text) (b : BatchRecord) (es : List ManifestEntry) (w v : ManifestWriter)
    (m : Manifest)
    → ((e : ManifestEntry) (l : List ℕ) → encode e ≡ some l → decode l ≡ some e)
    → ((e : ManifestEntry) (l : List ℕ) → encode e ≡ some l → any (λ c. c == newline) l ≡ false)
    → ((bytes : List ℕ) → valid_sha256 (digest bytes) ≡ true)
    → begin_manifest b ≡ some w
    → append_all encode es w ≡ some v
    → finish digest v ≡ some m
    → (files_in es ≡ b.file_count)
      × (directories_in es ≡ b.directory_count)
      × (bytes_in es ≡ b.total_bytes)
      × ((i : ℕ) (e : ManifestEntry)
          → nth i es ≡ some e
          → manifest_entry encode decode m i ≡ some e)
      × ((i : ℕ) → length es ≤ i → manifest_entry encode decode m i ≡ none)
manifest_entry-finish encode decode digest b es w v m back plain hash h k p =
    let s = begun b w h in
    let t = append_all-Totals encode es w v k in
    let f = finished digest v m p in
    let a = append_all-Appended encode es w v k in
    (
      omega (arith, s.4, s.7, t.0, t.3, f.5),
      omega (arith, s.5, s.8, t.1, t.4, f.6),
      omega (arith, s.6, s.9, t.2, t.5, f.7),
      read_back encode decode digest b es w v m back plain hash h k p,
      λ i n.
          past_the_end encode decode m i (complete_record m f.3 (ap valid_sha256 f.4 ∙ hash v.file))
            (omega (arith, f.2, a.next_ordinal, s.2, n)),
    )

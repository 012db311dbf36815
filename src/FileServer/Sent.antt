-- ===== src/FileServer/Sent.antt =====
-- Proofs about windows/flowtype-app/src/file_transfer_server.rs: the lines that a phone sends become the
-- manifest of its entries.
use flow_type.Prelude.{
  Text, codes, ℕ, zero, suc, ◌+◌, ◌≤◌, ◌≡◌, inl, inr, refl, sym, ◌∙◌, ap, subst, arith, true, false,
  Option, none, some, List, [], ◌∷◌, ◌++◌, ◌==◌, ltb, length, length-append, any, take, drop,
  if◌then◌else◌, Option-cases,
}
use mathlib.Core.List.{append_assoc}
use flow_type.FileTransfer.{max_manifest_line_bytes}
use flow_type.FileTransfer.Messages.{ManifestEntry, valid_sha256}
use flow_type.FileStore.Batches.{BatchRecord}
use flow_type.FileStore.Lines.{framed, nth, take_all}
use flow_type.FileStore.Manifests.{
  Manifest, ManifestWriter, begin_manifest, newline, append, append_rest, append_all,
  manifest_entry, finish,
}
use flow_type.FileStore.RoundTrip.{manifest_entry-finish}
use flow_type.FileServer.{answered, failed}
use flow_type.FileServer.Ingest.{
  position, without_return, Consumed, BodyFrame, line_taken, entry_taken, line_consumed,
  consume_lines, consume_manifest_lines, ingest_manifest,
}
use flow_type.FileServer.Ingested.{consume_some, consume_none}
use flow_type.FileServer.Framing.{AllArrive, body_of, TakenWhole, ingest_body-whole}

position_line :
    (l rest : List ℕ) → position l ≡ none → position (l ++ newline ∷ rest) ≡ some (length l)
unfolding position
position_line [] rest h = refl
position_line (b ∷ l) rest h = elim (Option-cases (position l)) [
  | inl c ↦ let more = position_line l rest c in ground (arith, h, c, more)
  | inr (n, c) ↦ ground (arith, h, c)
]

after_line : (l rest : List ℕ) → drop (suc (length l)) (l ++ newline ∷ rest) ≡ rest
after_line [] rest = refl
after_line (b ∷ l) rest = after_line l rest

line_length :
    (l rest : List ℕ) → length ((l ++ newline ∷ []) ++ rest) ≡ suc (length l + length rest)
line_length l rest =
    omega (arith, length-append (l ++ newline ∷ []) rest, length-append l (newline ∷ []))

module _ (encode : ManifestEntry → Option (List ℕ)) (decode : List ℕ → Option ManifestEntry) where
  -- The lines are those of the entries, each within its bound and without a newline in it.
  abbrev pub AllRead : List ManifestEntry → List (List ℕ) → Type 0
  AllRead [] [] = Unit
  AllRead [] (l ∷ ls) = ⊥
  AllRead (e ∷ es) [] = ⊥
  AllRead (e ∷ es) (l ∷ ls) =
      (position l ≡ none)
      × (length l ≤ max_manifest_line_bytes)
      × (decode (without_return l) ≡ some e)
      × AllRead es ls

  line_appended :
      (go : ManifestWriter → Consumed) (l : List ℕ) (e : ManifestEntry) (w u : ManifestWriter)
      → decode (without_return l) ≡ some e
      → append encode e w ≡ some u
      → line_consumed encode decode go w l ≡ go u
  unfolding line_consumed
  line_appended go l e w u d a =
      ap (entry_taken encode decode go w) d ∙ ap (line_taken encode decode go) a

  first_line :
      (f : ℕ) (l rest : List ℕ) (e : ManifestEntry) (w u : ManifestWriter)
      → position l ≡ none
      → length l ≤ max_manifest_line_bytes
      → decode (without_return l) ≡ some e
      → append encode e w ≡ some u
      → consume_lines encode decode (suc f) (l ++ newline ∷ rest) w
        ≡ consume_lines encode decode f rest u
  first_line f l rest e w u h n d a =
      let go = consume_lines encode decode f in
      let p = l ++ newline ∷ rest in
      consume_some encode decode f (length l) p w (position_line l rest h)
      ∙ short (line_consumed encode decode (go (drop (suc (length l)) p)) w (take (length l) p))
      ∙ ap (λ x. line_consumed encode decode (go (drop (suc (length l)) p)) w x)
          (take_all l (newline ∷ rest))
      ∙ line_appended (go (drop (suc (length l)) p)) l e w u d a
      ∙ ap (λ x. go x u) (after_line l rest)
    where
      short :
          (r : Consumed)
          → (if ltb max_manifest_line_bytes (length l)
              then failed (codes "manifest_line_too_large")
              else r)
            ≡ r
      short r = ground (arith, n)

  -- Every line is taken.
  lines_taken :
      (f : ℕ) (es : List ManifestEntry) (ls : List (List ℕ)) (w v : ManifestWriter)
      → length (framed ls) ≤ f
      → AllRead es ls
      → append_all encode es w ≡ some v
      → consume_lines encode decode f (framed ls) w ≡ answered ([], v)
  unfolding framed append_all position
  lines_taken f [] [] w v h r a =
      consume_none encode decode f [] w refl ∙ ap (λ x. answered ([], x)) (ground (arith, a))
  lines_taken f [] (l ∷ ls) w v h r a = absurd r
  lines_taken f (e ∷ es) [] w v h r a = absurd r
  lines_taken zero (e ∷ es) (l ∷ ls) w v h r a =
      absurd (omega (arith, h, line_length l (framed ls)))
  lines_taken (suc f) (e ∷ es) (l ∷ ls) w v h r a = elim (Option-cases (append encode e w)) [
    | inl c ↦ absurd (ground (arith, a, c))
    | inr (u, c) ↦
        ap (λ x. consume_lines encode decode (suc f) x w)
          (append_assoc l (newline ∷ []) (framed ls))
        ∙ first_line f l (framed ls) e w u r.0 r.1 r.2 c
        ∙ lines_taken f es ls u v (omega (arith, h, line_length l (framed ls))) r.3
            (sym (ap (append_rest (append_all encode es)) c) ∙ a)
  ]

  -- Where the phone's lines are read as the entries, each line is within its bound and has no newline in
  -- it, and the batch takes the entries: their lines in a body, in any frames that arrive while the ticket
  -- is active, are ingested to the manifest, which gives each entry back by its number and nothing beyond
  -- the last. The JSON that the store writes is read as what was written and has no newline in it, and the
  -- hash is one in hexadecimal.
  pub ingest_manifest-entries :
      (digest : List ℕ → Text) (fs : List BodyFrame) (b : BatchRecord) (es : List ManifestEntry)
      (ls : List (List ℕ)) (w v : ManifestWriter) (m : Manifest)
      → ((e : ManifestEntry) (l : List ℕ) → encode e ≡ some l → decode l ≡ some e)
      → ((e : ManifestEntry) (l : List ℕ) → encode e ≡ some l → any (λ c. c == newline) l ≡ false)
      → ((bytes : List ℕ) → valid_sha256 (digest bytes) ≡ true)
      → AllArrive fs
      → body_of fs ≡ framed ls
      → AllRead es ls
      → begin_manifest b ≡ some w
      → append_all encode es w ≡ some v
      → finish digest v ≡ some m
      → (ingest_manifest encode decode digest fs b ≡ answered m)
        × ((i : ℕ) (e : ManifestEntry)
            → nth i es ≡ some e
            → manifest_entry encode decode m i ≡ some e)
        × ((i : ℕ) → length es ≤ i → manifest_entry encode decode m i ≡ none)
  unfolding ingest_manifest consume_manifest_lines position
  ingest_manifest-entries digest fs b es ls w v m back plain hash arrive body read begin all done =
      let stored =
        manifest_entry-finish encode decode digest b es w v m back plain hash begin all done in
      let whole =
        subst (λ x. TakenWhole encode decode x w v) (sym body)
          (lines_taken (length (framed ls)) es ls w v (omega arith) read all) in
      let taken = (ingest_body-whole encode decode fs [] w v arrive refl).1 whole in
      (ground (arith, begin, taken, done), stored.3, stored.4)

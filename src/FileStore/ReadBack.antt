-- ===== src/FileStore/ReadBack.antt =====
-- Proofs about windows/flowtype-app/src/file_transfer_store.rs: the entries of a manifest are read back
-- as they were appended, and they are what the batch promises.
use flow_type.Prelude.{
  ℕ, zero, suc, ◌+◌, ◌*◌, ◌<◌, ◌≤◌, ◌≡◌, inl, inr, refl, sym, ◌∙◌, ap, subst, arith, true, false,
  Option, some, List, [], ◌∷◌, ◌++◌, ◌==◌, any, length, take, drop, length-append, Option-cases,
  Bool-cases,
}
use mathlib.Core.List.{append_assoc, append-nil}
use flow_type.FileTransfer.Messages.{ManifestEntry, validate_entry}
use flow_type.FileStore.Batches.{is_ok}
use flow_type.FileStore.Progress.{to_le_bytes, from_le_bytes}
use flow_type.FileStore.Fields.{from-to_le_bytes}
use flow_type.FileStore.Lines.{
  framed, offsets, nth, offset_of, index_at, line_at, take_all, length-to_le_bytes, read_line_lem,
  pop_newline_lem,
}
use flow_type.FileStore.Manifests.{
  ManifestWriter, newline, counted, with_line, encoded_length, append, append_rest, append_all,
  read_line, pop_newline,
}
use flow_type.FileServer.Ranges.{max_u64}

module _ (encode : ManifestEntry → Option (List ℕ)) where
  -- The lines of entries that are numbered from `n`.
  abbrev pub Encoded : ℕ → List ManifestEntry → List (List ℕ) → Type 0
  Encoded n [] [] = Unit
  Encoded n [] (l ∷ ls) = ⊥
  Encoded n (e ∷ es) [] = ⊥
  Encoded n (e ∷ es) (l ∷ ls) =
      (encode e ≡ some l)
      × (is_ok (validate_entry (encoded_length encode) e) ≡ true)
      × (e.ordinal ≡ n)
      × Encoded (n + 1) es ls

  -- What appending entries makes of a writer.
  pub record Appended (es : List ManifestEntry) (w v : ManifestWriter) : Type 0 where
    pub lines : List (List ℕ)
    pub encoded : Encoded w.next_ordinal es lines
    pub file : v.file ≡ w.file ++ framed lines
    pub index : v.index ≡ w.index ++ offsets w.next_offset lines
    pub next_offset : v.next_offset ≡ w.next_offset + length (framed lines)
    pub next_ordinal : v.next_ordinal ≡ w.next_ordinal + length es
    pub fits : w.next_offset ≤ max_u64 → v.next_offset ≤ max_u64

  counted_facts :
      (e : ManifestEntry) (w u : ManifestWriter)
      → counted e w ≡ some u
      → (e.ordinal ≡ w.next_ordinal)
        × (u.file ≡ w.file)
        × (u.index ≡ w.index)
        × (u.next_offset ≡ w.next_offset)
        × (u.next_ordinal ≡ w.next_ordinal)
  unfolding counted
  counted_facts e w u h = ground (arith, h)

  with_line_facts :
      (l : List ℕ) (u v : ManifestWriter)
      → with_line l u ≡ some v
      → (v.file ≡ u.file ++ (l ++ newline ∷ []))
        × (v.index ≡ u.index ++ to_le_bytes 8 u.next_offset)
        × (v.next_offset ≡ u.next_offset + (length l + 1))
        × (v.next_ordinal ≡ u.next_ordinal + 1)
        × (v.next_offset ≤ max_u64)
  unfolding with_line
  with_line_facts l u v h = ground (arith, h)

  append_facts :
      (e : ManifestEntry) (w v : ManifestWriter)
      → append encode e w ≡ some v
      → (l : List ℕ) × (encode e ≡ some l)
        × (is_ok (validate_entry (encoded_length encode) e) ≡ true)
        × (e.ordinal ≡ w.next_ordinal)
        × (v.file ≡ w.file ++ (l ++ newline ∷ []))
        × (v.index ≡ w.index ++ to_le_bytes 8 w.next_offset)
        × (v.next_offset ≡ w.next_offset + (length l + 1))
        × (v.next_ordinal ≡ w.next_ordinal + 1)
        × (v.next_offset ≤ max_u64)
  unfolding append
  append_facts e w v h = elim (Bool-cases (is_ok (validate_entry (encoded_length encode) e))) [
    | inr f ↦ absurd (ground (arith, h, f))
    | inl f ↦ elim (Option-cases (counted e w)) [
      | inl g ↦ absurd (ground (arith, h, f, g))
      | inr (u, g) ↦ elim (Option-cases (encode e)) [
        | inl k ↦ absurd (ground (arith, h, f, g, k))
        | inr (l, k) ↦
            let a = counted_facts e w u g in
            let b = with_line_facts l u v (ground (arith, h, f, g, k)) in
            (
              l,
              k,
              f,
              a.0,
              b.0 ∙ ap (λ x. x ++ (l ++ newline ∷ [])) a.1,
              b.1
                  ∙ ap (λ x. x ++ to_le_bytes 8 u.next_offset) a.2
                  ∙ ap (λ o. w.index ++ to_le_bytes 8 o) a.3,
              omega (arith, b.2, a.3),
              omega (arith, b.3, a.4),
              b.4,
            )
      ]
    ]
  ]

  pub append_all-Appended :
      (es : List ManifestEntry) (w v : ManifestWriter)
      → append_all encode es w ≡ some v
      → Appended es w v
  unfolding append_all framed offsets
  append_all-Appended [] w v h =
      let e : w ≡ v = ground (arith, h) in
      subst (Appended [] w) e (record {
        lines = [];
        encoded = tt;
        file = sym (append-nil w.file);
        index = sym (append-nil w.index);
        next_offset = omega arith;
        next_ordinal = omega arith;
        fits = λ k. k;
      })
  append_all-Appended (e ∷ es) w v h = elim (Option-cases (append encode e w)) [
    | inl f ↦ absurd (ground (arith, h, f))
    | inr (u, f) ↦
        let a = append_facts e w u f in
        let l = a.0 in
        let r = append_all-Appended es u v (sym (ap (append_rest (append_all encode es)) f) ∙ h) in
        record {
          lines = l ∷ r.lines;
          encoded = (a.1, a.2, a.3, subst (λ n. Encoded n es r.lines) a.7 r.encoded);
          file =
              r.file
              ∙ ap (λ x. x ++ framed r.lines) a.4
              ∙ append_assoc w.file (l ++ newline ∷ []) (framed r.lines);
          index =
              r.index
              ∙ ap (λ x. x ++ offsets u.next_offset r.lines) a.5
              ∙ append_assoc w.index (to_le_bytes 8 w.next_offset) (offsets u.next_offset r.lines)
              ∙ ap (λ o. w.index ++ (to_le_bytes 8 w.next_offset ++ offsets o r.lines)) a.6;
          next_offset = omega (
            arith,
            r.next_offset,
            a.6,
            length-append (l ++ newline ∷ []) (framed r.lines),
            length-append l (newline ∷ []),
          );
          next_ordinal = omega (arith, r.next_ordinal, a.7);
          fits = λ k. r.fits a.8;
        }
  ]

  pub entry_line :
      (n i : ℕ) (es : List ManifestEntry) (ls : List (List ℕ)) (e : ManifestEntry)
      → Encoded n es ls
      → nth i es ≡ some e
      → (l : List ℕ) × (nth i ls ≡ some l)
        × (encode e ≡ some l)
        × (is_ok (validate_entry (encoded_length encode) e) ≡ true)
        × (e.ordinal ≡ n + i)
  entry_line n i [] ls e h k = absurd (ground (arith, k))
  entry_line n i (d ∷ es) [] e h k = absurd h
  entry_line n zero (d ∷ es) (l ∷ ls) e h k =
      let same : d ≡ e = ground (arith, k) in
      (
        l,
        refl,
        subst (λ x. encode x ≡ some l) same h.0,
        subst (λ x. is_ok (validate_entry (encoded_length encode) x) ≡ true) same h.1,
        ap (λ x. x.ordinal) (sym same) ∙ h.2 ∙ omega arith,
      )
  entry_line n (suc i) (d ∷ es) (l ∷ ls) e h k =
      let r = entry_line (n + 1) i es ls e h.3 k in (r.0, r.1, r.2, r.3, r.4 ∙ omega arith)

pub nth_within {ℓ} : {A : Type ℓ} (i : ℕ) (xs : List A) (x : A) → nth i xs ≡ some x → i < length xs
nth_within i [] x h = absurd (ground (arith, h))
nth_within zero (y ∷ xs) x h = omega arith
nth_within (suc i) (y ∷ xs) x h = omega (arith, nth_within i xs x h)

-- The line that the index and the data give for a number.
pub stored_line :
    (index file : List ℕ) (ls : List (List ℕ)) (i : ℕ) (l : List ℕ)
    → index ≡ offsets 0 ls
    → file ≡ framed ls
    → length (framed ls) ≤ max_u64
    → nth i ls ≡ some l
    → any (λ b. b == newline) l ≡ false
    → (8 ≤ length (drop (8 * i) index))
      × (pop_newline (read_line (drop (from_le_bytes (take 8 (drop (8 * i) index))) file)) ≡ some l)
stored_line index file ls i l p q m h plain =
    let a = index_at 0 i ls l h in
    let b = line_at i ls l h in
    let at : drop (8 * i) index ≡ to_le_bytes 8 (offset_of i ls) ++ a.0 =
      ap (drop (8 * i)) p ∙ a.1 ∙ ap (λ o. to_le_bytes 8 o ++ a.0) (omega arith) in
    let eight : take 8 (drop (8 * i) index) ≡ to_le_bytes 8 (offset_of i ls) =
      ap (take 8) at
      ∙ ap (λ n. take n (to_le_bytes 8 (offset_of i ls) ++ a.0))
          (sym (length-to_le_bytes 8 (offset_of i ls)))
      ∙ take_all (to_le_bytes 8 (offset_of i ls)) a.0 in
    let offset : from_le_bytes (take 8 (drop (8 * i) index)) ≡ offset_of i ls =
      ap from_le_bytes eight ∙ from-to_le_bytes 8 (offset_of i ls) (omega (arith, b.1, m)) in
    (
      omega (
        arith,
        ap length at,
        length-append (to_le_bytes 8 (offset_of i ls)) a.0,
        length-to_le_bytes 8 (offset_of i ls),
      ),
      ap (λ o. pop_newline (read_line (drop o file))) offset
          ∙ ap (λ f. pop_newline (read_line (drop (offset_of i ls) f))) q
          ∙ ap (λ d. pop_newline (read_line d)) b.0.1
          ∙ ap pop_newline (read_line_lem l b.0.0 plain)
          ∙ pop_newline_lem l,
    )

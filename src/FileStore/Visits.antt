-- ===== src/FileStore/Visits.antt =====
-- Proofs about windows/flowtype-app/src/file_transfer_store.rs: the walk over a committed manifest visits the
-- entries that were appended, in their order.
use flow_type.Prelude.{
  Text, ℕ, zero, suc, ◌+◌, ◌≤◌, ◌≡◌, refl, sym, ◌∙◌, ap, subst, arith, Bool, true, false, ◌&&◌,
  Option, none, some, List, [], ◌∷◌, ◌++◌, ◌==◌, any, length, length-append, drop, is_empty,
  text_eq, text_eq_iff, if◌then◌else◌,
}
use mathlib.Core.List.{append_assoc}
use flow_type.FileTransfer.Messages.{ManifestEntry, validate_entry, valid_sha256}
use flow_type.FileStore.Batches.{BatchRecord, is_ok}
use flow_type.FileStore.Lines.{framed, read_line_lem, pop_newline_lem}
use flow_type.FileStore.Manifests.{
  Manifest, ManifestWriter, begin_manifest, newline, encoded_length, read_line, pop_newline,
  append_all, finish,
}
use flow_type.FileStore.ReadBack.{Encoded, append_all-Appended}
use flow_type.FileStore.RoundTrip.{finished, complete_record, begun}
use flow_type.FileStore.Walk.{
  visited, line_visited, line_read, walk, matching, for_each_manifest_entry,
}

drop_line : (l rest : List ℕ) → drop (length (l ++ newline ∷ [])) (l ++ newline ∷ rest) ≡ rest
drop_line [] rest = refl
drop_line (b ∷ l) rest = drop_line l rest

not_empty : (l rest : List ℕ) → is_empty (l ++ newline ∷ rest) ≡ false
not_empty [] rest = refl
not_empty (b ∷ l) rest = refl

no_more : (n : ℕ) → n ≡ n + 0
no_more n = omega arith

line_length :
    (l rest : List ℕ) → length ((l ++ newline ∷ []) ++ rest) ≡ suc (length l + length rest)
line_length l rest =
    omega (arith, length-append (l ++ newline ∷ []) rest, length-append l (newline ∷ []))

module _ {ℓ} {S : Type ℓ} where
  abbrev pub and_visited : (S → Option S) → Option S → Option S
  and_visited go none = none
  and_visited go (some s) = go s

  -- The visits, one after the other.
  unfoldable pub all_visited : (ManifestEntry → S → Option S) → List ManifestEntry → S → Option S
  all_visited visit [] s = some s
  all_visited visit (e ∷ es) s = and_visited (all_visited visit es) (visit e s)

module _ (encode : ManifestEntry → Option (List ℕ)) (decode : List ℕ → Option ManifestEntry)
    (back : (e : ManifestEntry) (l : List ℕ) → encode e ≡ some l → decode l ≡ some e)
    (plain : (e : ManifestEntry) (l : List ℕ)
      → encode e ≡ some l
      → any (λ c. c == newline) l ≡ false) where
  entry_read :
      (n : ℕ) (l : List ℕ) (e : ManifestEntry)
      → decode l ≡ some e
      → is_ok (validate_entry (encoded_length encode) e) ≡ true
      → e.ordinal ≡ n
      → line_read encode decode n (some l) ≡ some e
  unfolding validate_entry
  entry_read n l e d v o = ground (arith, d, v, o)

  module _ {ℓ} {S : Type ℓ} (visit : ManifestEntry → S → Option S) where
    abbrev counted_as : ℕ → Option S → Option (ℕ × S)
    counted_as n none = none
    counted_as n (some s) = some (n, s)

    visited-all :
        (go : S → Option (ℕ × S)) (n : ℕ) (es : List ManifestEntry)
        → ((u : S) → go u ≡ counted_as (n + 1 + length es) (all_visited visit es u))
        → (o : Option S)
        → visited encode decode go o
          ≡ counted_as (n + suc (length es)) (and_visited (all_visited visit es) o)
    visited-all go n es h none = refl
    visited-all go n es h (some u) =
        h u ∙ ap (λ k. counted_as k (all_visited visit es u)) (one_more n (length es))
      where
        one_more : (n k : ℕ) → n + 1 + k ≡ n + suc k
        one_more n k = omega arith

    -- The rest of the walk, behind a line that is read.
    abbrev next : ℕ → ℕ → List ℕ → S → List ℕ → Option ManifestEntry → Option (ℕ × S)
    next fuel n file s line o =
        line_visited encode decode visit
          (walk encode decode visit fuel (n + 1) (drop (length line) file)) s o

    abbrev unless_empty : ℕ → S → Option (ℕ × S) → Bool → Option (ℕ × S)
    unless_empty n s r b = if b then some (n, s) else r

    walk-lines :
        (fuel n : ℕ) (es : List ManifestEntry) (ls : List (List ℕ)) (s : S)
        → Encoded encode n es ls
        → length (framed ls) ≤ fuel
        → walk encode decode visit fuel n (framed ls) s
          ≡ counted_as (n + length es) (all_visited visit es s)
    unfolding walk all_visited framed
    walk-lines zero n [] [] s h k = ap (λ k. counted_as k (some s)) (no_more n)
    walk-lines (suc fuel) n [] [] s h k = ap (λ k. counted_as k (some s)) (no_more n)
    walk-lines fuel n [] (l ∷ ls) s h k = absurd h
    walk-lines fuel n (e ∷ es) [] s h k = absurd h
    walk-lines zero n (e ∷ es) (l ∷ ls) s h k = absurd (omega (arith, k, line_length l (framed ls)))
    walk-lines (suc fuel) n (e ∷ es) (l ∷ ls) s h k =
        let rest = framed ls in
        let file = l ++ newline ∷ rest in
        let line = l ++ newline ∷ [] in
        ap (λ x. walk encode decode visit (suc fuel) n x s) (append_assoc l (newline ∷ []) rest)
        ∙ ap
            (unless_empty n s (
              next fuel n file s (read_line file)
                (line_read encode decode n (pop_newline (read_line file)))))
            (not_empty l rest)
        ∙ ap (λ x. next fuel n file s x (line_read encode decode n (pop_newline x)))
            (read_line_lem l rest (plain e l h.0))
        ∙ ap (λ o. next fuel n file s line (line_read encode decode n o)) (pop_newline_lem l)
        ∙ ap (next fuel n file s line) (entry_read n l e (back e l h.0) h.1 h.2)
        ∙ ap (λ x. visited encode decode (walk encode decode visit fuel (n + 1) x) (visit e s))
            (drop_line l rest)
        ∙ visited-all (walk encode decode visit fuel (n + 1) rest) n es
            (λ u. walk-lines fuel (n + 1) es ls u h.3 (omega (arith, k, line_length l rest)))
            (visit e s)

    matching-all :
        (digest : List ℕ → Text) (m : Manifest) (n : ℕ) (o : Option S)
        → n ≡ m.completed.entry_count
        → digest m.file ≡ m.completed.sha256
        → matching encode decode digest m m.completed (counted_as n o) ≡ o
    unfolding matching
    matching-all digest m n none h d = refl
    matching-all digest m n (some t) h d =
        let same = (text_eq_iff (digest m.file) m.completed.sha256).1 d in
        ap (λ b. if b then some t else none)
          (both n m.completed.entry_count (text_eq (digest m.file) m.completed.sha256) h same)
      where
        both : (a b : ℕ) (c : Bool) → a ≡ b → c ≡ true → (a == b && c) ≡ true
        both a b c h k = ground (arith, h, k)

    -- The entries that were appended are visited in their order, and no other.
    pub for_each-entries :
        (digest : List ℕ → Text) (b : BatchRecord) (es : List ManifestEntry) (w v : ManifestWriter)
        (m : Manifest) (s : S)
        → ((bytes : List ℕ) → valid_sha256 (digest bytes) ≡ true)
        → begin_manifest b ≡ some w
        → append_all encode es w ≡ some v
        → finish digest v ≡ some m
        → for_each_manifest_entry encode decode digest visit m s ≡ all_visited visit es s
    unfolding for_each_manifest_entry
    for_each-entries digest b es w v m s hash begin all done =
        let start = begun b w begin in
        let a = append_all-Appended encode es w v all in
        let f = finished digest v m done in
        let file : m.file ≡ framed a.lines = f.0 ∙ a.file ∙ ap (λ x. x ++ framed a.lines) start.0 in
        let numbered = subst (λ n. Encoded encode n es a.lines) start.2 a.encoded in
        let record_read = complete_record m f.3 (ap valid_sha256 f.4 ∙ hash v.file) in
        let walked =
          ap (λ x. walk encode decode visit (length x) 0 x s) file
          ∙ walk-lines (length (framed a.lines)) 0 es a.lines s numbered (omega arith) in
        ap
          (λ o. elim o as (λ o. Option S) [
            | none ↦ none
            | some completed ↦
                matching encode decode digest m completed
                  (walk encode decode visit (length m.file) 0 m.file s)
          ])
          record_read
        ∙ ap (matching encode decode digest m m.completed) walked
        ∙ matching-all digest m (0 + length es) (all_visited visit es s)
            (omega (arith, f.2, a.next_ordinal, start.2)) (ap digest f.0 ∙ sym f.4)

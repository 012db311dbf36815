-- ===== src/FileStore/Terminal.antt =====
-- Proofs about windows/flowtype-app/src/file_transfer_store.rs: when the entries of a batch are all terminal.
use flow_type.Prelude.{
  Text, ℕ, ◌≡◌, ◌⊎◌, inl, inr, refl, sym, ◌∙◌, ap, subst, arith, Bool, true, false, ◌||◌, Option,
  none, some, List, [], ◌∷◌, ◌==◌, any, Bool-cases, Option-cases,
}
use flow_type.FileTransfer.States.{EntryState, same_entry_state}
use flow_type.FileTransfer.Messages.{ManifestEntry, valid_sha256}
use flow_type.FileStore.Batches.{BatchRecord}
use flow_type.FileStore.Progress.{EntryProgress}
use flow_type.FileStore.ProgressFile.{read_progress}
use flow_type.FileStore.Manifests.{
  Manifest, ManifestWriter, begin_manifest, newline, append_all, finish, read_manifest_complete,
}
use flow_type.FileStore.Walk.{
  for_each_manifest_entry, matching, with_terminal, visit_terminal, all_entries_terminal,
}
use flow_type.FileStore.Visits.{and_visited, all_visited, for_each-entries}

-- The entry is received in full; or it has failed or been canceled.
abbrev pub IsWhole : ManifestEntry → Option EntryProgress → Type 0
IsWhole e none = ⊥
IsWhole e (some p) = (p.state ≡ EntryState.completed) × (p.committed_offset ≡ e.size)

abbrev pub IsLost : Option EntryProgress → Type 0
IsLost none = ⊥
IsLost (some p) = (p.state ≡ EntryState.failed) ⊎ (p.state ≡ EntryState.canceled)

abbrev pub AllEnded : Manifest → List ManifestEntry → Type 0
AllEnded m [] = Unit
AllEnded m (e ∷ es) =
    (IsWhole e (read_progress m e.ordinal) ⊎ IsLost (read_progress m e.ordinal)) × AllEnded m es

abbrev pub AllWhole : Manifest → List ManifestEntry → Type 0
AllWhole m [] = Unit
AllWhole m (e ∷ es) = IsWhole e (read_progress m e.ordinal) × AllWhole m es

abbrev pub AnyLost : Manifest → List ManifestEntry → Type 0
AnyLost m [] = ⊥
AnyLost m (e ∷ es) = IsLost (read_progress m e.ordinal) ⊎ AnyLost m es

is_completed :
    (s : EntryState) → same_entry_state s EntryState.completed ≡ true → s ≡ EntryState.completed
is_completed s h = ground (arith, h)

is_lost :
    (s : EntryState)
    → (same_entry_state s EntryState.failed || same_entry_state s EntryState.canceled) ≡ true
    → (s ≡ EntryState.failed) ⊎ (s ≡ EntryState.canceled)
is_lost EntryState.failed h = inl refl
is_lost EntryState.canceled h = inr refl
is_lost EntryState.pending h = ground (arith, h)
is_lost EntryState.transferring h = ground (arith, h)
is_lost EntryState.waiting_network h = ground (arith, h)
is_lost EntryState.needs_reselection h = ground (arith, h)
is_lost EntryState.completed h = ground (arith, h)

terminal_cases :
    (e : ManifestEntry) (p : EntryProgress) (t f u g : Bool)
    → with_terminal e (t, f) (some p) ≡ some (u, g)
    → (u ≡ true)
    → (t ≡ true) × ((IsWhole e (some p) × (g ≡ f)) ⊎ (IsLost (some p) × (g ≡ true)))
terminal_cases e p t f u g h k = elim (Bool-cases (same_entry_state p.state EntryState.completed)) [
  | inl c ↦ (
    ground (arith, h, k, c),
    inl ((is_completed p.state c, ground (arith, h, k, c)), ground (arith, h, k, c)),
  )
  | inr c ↦
      elim (Bool-cases (
        same_entry_state p.state EntryState.failed
        || same_entry_state p.state EntryState.canceled)) [
          | inl d ↦
              (ground (arith, h, k, c, d), inr (is_lost p.state d, ground (arith, h, k, c, d)))
          | inr d ↦ absurd (ground (arith, h, k, c, d))
        ]
]

-- What the visits find where all entries are terminal.
abbrev Found : Manifest → List ManifestEntry → Bool → Bool → Bool → Type 0
Found m es t f g =
    (t ≡ true)
    × AllEnded m es
    × (g ≡ false → (f ≡ false) × AllWhole m es)
    × (g ≡ true → (f ≡ true) ⊎ AnyLost m es)

abbrev both : Bool → Bool → Option (Bool × Bool)
both t f = some (t, f)

visit_read :
    (m : Manifest) (e : ManifestEntry) (t f : Bool)
    → visit_terminal m e (t, f) ≡ with_terminal e (t, f) (read_progress m e.ordinal)
unfolding visit_terminal
visit_read m e t f = refl

-- One visit.
first_found :
    (m : Manifest) (e : ManifestEntry) (t f u g : Bool)
    → visit_terminal m e (t, f) ≡ both u g
    → u ≡ true
    → (t ≡ true)
      × ((IsWhole e (read_progress m e.ordinal) × (g ≡ f))
          ⊎ (IsLost (read_progress m e.ordinal) × (g ≡ true)))
first_found m e t f u g h k = elim (Option-cases (read_progress m e.ordinal)) [
  | inl c ↦
      absurd (no_both u g (sym (ap (with_terminal e (t, f)) c) ∙ sym (visit_read m e t f) ∙ h))
  | inr (p, c) ↦
      subst (λ o. (t ≡ true) × ((IsWhole e o × (g ≡ f)) ⊎ (IsLost o × (g ≡ true)))) (sym c)
        (terminal_cases e p t f u g
          (sym (ap (with_terminal e (t, f)) c) ∙ sym (visit_read m e t f) ∙ h) k)
]
  where
    no_both : (u g : Bool) → none ≡ both u g → ⊥
    no_both u g h = ground (arith, h)

visits-Found :
    (m : Manifest) (es : List ManifestEntry) (t f g : Bool)
    → all_visited (visit_terminal m) es (t, f) ≡ both true g
    → Found m es t f g
unfolding all_visited
visits-Found m [] t f g h =
    (ground (arith, h), tt, λ c. (ground (arith, h, c), tt), λ c. inl (ground (arith, h, c)))
visits-Found m (e ∷ es) t f g h = elim (Option-cases (visit_terminal m e (t, f))) [
  | inl c ↦ absurd (no_both g (sym (ap (and_visited (all_visited (visit_terminal m) es)) c) ∙ h))
  | inr ((u, k), c) ↦
      let rest =
        visits-Found m es u k g
          (sym (ap (and_visited (all_visited (visit_terminal m) es)) c) ∙ h) in
      let first = first_found m e t f u k c rest.0 in
      elim first.1 [
        | inl (whole, same) ↦ (
          first.0,
          (inl whole, rest.1),
          λ n. (sym same ∙ (rest.2 n).0, (whole, (rest.2 n).1)),
          λ n. elim (rest.3 n) [ inl x ↦ inl (sym same ∙ x) | inr x ↦ inr (inr x) ],
        )
        | inr (lost, same) ↦ (
          first.0,
          (inr lost, rest.1),
          λ n. absurd (ground (arith, (rest.2 n).0, same)),
          λ n. inr (inl lost),
        )
      ]
]
  where
    no_both : (g : Bool) → none ≡ both true g → ⊥
    no_both g h = ground (arith, h)

-- The records of progress decide nothing on the walk.
walk_progress :
    (encode : ManifestEntry → Option (List ℕ)) (decode : List ℕ → Option ManifestEntry)
    (digest : List ℕ → Text) (visit : ManifestEntry → Bool × Bool → Option (Bool × Bool))
    (m : Manifest) (progress : List ℕ) (s : Bool × Bool)
    → for_each_manifest_entry encode decode digest visit (record m { progress = progress }) s
      ≡ for_each_manifest_entry encode decode digest visit m s
unfolding for_each_manifest_entry read_manifest_complete matching
walk_progress encode decode digest visit m progress s = refl

-- A manifest has been committed after appending some entries. Where all its entries are found terminal, each
-- was received in full or has failed or been canceled; where no failure is found, each was received in full,
-- and where one is, some entry has failed or been canceled. The JSON of an entry is read as what was written
-- and has no newline in it, and the hash is one in hexadecimal.
pub all_entries_terminal-AllEnded :
    (encode : ManifestEntry → Option (List ℕ)) (decode : List ℕ → Option ManifestEntry)
    (digest : List ℕ → Text) (b : BatchRecord) (es : List ManifestEntry) (w v : ManifestWriter)
    (m : Manifest) (progress : List ℕ) (failed : Bool)
    → ((e : ManifestEntry) (l : List ℕ) → encode e ≡ some l → decode l ≡ some e)
    → ((e : ManifestEntry) (l : List ℕ) → encode e ≡ some l → any (λ c. c == newline) l ≡ false)
    → ((bytes : List ℕ) → valid_sha256 (digest bytes) ≡ true)
    → begin_manifest b ≡ some w
    → append_all encode es w ≡ some v
    → finish digest v ≡ some m
    → all_entries_terminal encode decode digest (record m { progress = progress })
      ≡ some (true, failed)
    → let n : Manifest = record m { progress = progress } in
      AllEnded n es × (failed ≡ false → AllWhole n es) × (failed ≡ true → AnyLost n es)
unfolding all_entries_terminal
all_entries_terminal-AllEnded encode decode digest b es w v m progress failed back plain hash begin
      all done h =
    let n : Manifest = record m { progress = progress } in
    let walked =
      walk_progress encode decode digest (visit_terminal n) m progress (true, false)
      ∙ for_each-entries encode decode back plain (visit_terminal n) digest b es w v m (true, false)
          hash begin all done in
    let found = visits-Found n es true false failed (sym walked ∙ h) in
    (found.1, λ c. (found.2 c).1, λ c. elim (found.3 c) [ inl x ↦ ground (arith, x) | inr x ↦ x ])

-- ===== src/FileStore/Walk.antt =====
-- windows/flowtype-app/src/file_transfer_store.rs: the walk over the entries of a committed manifest, and
-- what is found on it. A visitor takes a state on, or fails.
use flow_type.Prelude.{
  Text, ℕ, zero, suc, ◌+◌, Bool, true, false, ◌&&◌, ◌||◌, Option, none, some, List, [], ◌∷◌, ◌++◌,
  ◌==◌, ltb, length, drop, is_empty, text_eq, if◌then◌else◌,
}
use flow_type.FileTransfer.States.{EntryState, same_entry_state}
use flow_type.FileTransfer.Messages.{ManifestEntry}
use flow_type.FileStore.Progress.{EntryProgress}
use flow_type.FileStore.Manifests.{
  ManifestComplete, Manifest, read_line, pop_newline, read_manifest_complete, checked_entry,
}
use flow_type.FileStore.ProgressFile.{read_progress}

-- A visit that finds whether all entries are terminal, and whether one failed.
abbrev pub with_terminal : ManifestEntry → Bool × Bool → Option EntryProgress → Option (Bool × Bool)
with_terminal e (terminal, failed) none = none
with_terminal e (terminal, failed) (some p) =
    if same_entry_state p.state EntryState.completed
    then some (terminal && p.committed_offset == e.size, failed)
    else if same_entry_state p.state EntryState.failed
        || same_entry_state p.state EntryState.canceled
    then some (terminal, true)
    else some (false, failed)

unfoldable pub visit_terminal : Manifest → ManifestEntry → Bool × Bool → Option (Bool × Bool)
unfolding read_progress
visit_terminal m e found = with_terminal e found (read_progress m e.ordinal)

-- A visit that finds the failed entries, up to a limit.
abbrev pub with_failed : ManifestEntry → List Text → Option EntryProgress → Option (List Text)
with_failed e paths none = none
with_failed e paths (some p) =
    if same_entry_state p.state EntryState.failed
    then some (paths ++ e.relative_path ∷ [])
    else some paths

unfoldable pub visit_failed : ℕ → Manifest → ManifestEntry → List Text → Option (List Text)
unfolding read_progress
visit_failed limit m e paths =
    if ltb (length paths) limit then with_failed e paths (read_progress m e.ordinal) else some paths

module _ (encode : ManifestEntry → Option (List ℕ)) (decode : List ℕ → Option ManifestEntry) where
  abbrev pub line_read : ℕ → Option (List ℕ) → Option ManifestEntry
  line_read ordinal none = none
  line_read ordinal (some line) = checked_entry encode ordinal (decode line)

  module _ {ℓ} {S : Type ℓ} where
    abbrev pub visited : (S → Option (ℕ × S)) → Option S → Option (ℕ × S)
    visited go none = none
    visited go (some s) = go s

    abbrev pub line_visited :
        (ManifestEntry → S → Option S)
        → (S → Option (ℕ × S))
        → S
        → Option ManifestEntry
        → Option (ℕ × S)
    line_visited visit go s none = none
    line_visited visit go s (some e) = visited go (visit e s)

    -- The loop over the lines, of which each takes a byte at least.
    unfoldable pub walk : (ManifestEntry → S → Option S) → ℕ → ℕ → List ℕ → S → Option (ℕ × S)
    unfolding read_line pop_newline
    walk visit zero ordinal file s = some (ordinal, s)
    walk visit (suc fuel) ordinal file s =
        let line = read_line file in
        let go = walk visit fuel (ordinal + 1) (drop (length line) file) in
        if is_empty file
        then some (ordinal, s)
        else line_visited visit go s (line_read ordinal (pop_newline line))

    unfoldable pub matching :
        (List ℕ → Text) → Manifest → ManifestComplete → Option (ℕ × S) → Option S
    unfolding text_eq
    matching digest m completed none = none
    matching digest m completed (some (n, s)) =
        if n == completed.entry_count && text_eq (digest m.file) completed.sha256
        then some s
        else none

    unfoldable pub for_each_manifest_entry :
        (List ℕ → Text) → (ManifestEntry → S → Option S) → Manifest → S → Option S
    unfolding read_manifest_complete walk matching
    for_each_manifest_entry digest visit m s = elim (read_manifest_complete m) [
      | none ↦ none
      | some completed ↦ matching digest m completed (walk visit (length m.file) 0 m.file s)
    ]

  -- Whether all entries are terminal, and whether one failed.
  unfoldable pub all_entries_terminal : (List ℕ → Text) → Manifest → Option (Bool × Bool)
  unfolding for_each_manifest_entry visit_terminal
  all_entries_terminal digest m = for_each_manifest_entry digest (visit_terminal m) m (true, false)

  unfoldable pub failed_paths : (List ℕ → Text) → ℕ → Manifest → Option (List Text)
  unfolding for_each_manifest_entry visit_failed
  failed_paths digest limit m = for_each_manifest_entry digest (visit_failed limit m) m []

-- ===== src/FileStore/Targets.antt =====
-- windows/flowtype-app/src/file_transfer_store.rs: the targets of a batch's entries below the folder that
-- receives them. A path is the list of its segments. `listing` gives the names that are in a directory,
-- `lower` is `to_lowercase`, and `numbers` is the count of numbers that a reservation tries. The records
-- are kept as they are; their JSON lines and index are as those of a manifest.
use flow_type.Prelude.{
  Text, ℕ, Bool, true, false, not, ◌&&◌, Option, none, some, List, [], ◌∷◌, ◌++◌, ◌==◌, any,
  text_eq, if◌then◌else◌, get,
}
use flow_type.FileTransfer.Names.{sanitize_windows_segment}
use flow_type.FileTransfer.Messages.{ManifestEntry, is_file}
use flow_type.FileTransfer.Reservations.{Used, reserved_names_of, reserve}
use flow_type.FileStore.Manifests.{Manifest}
use flow_type.FileStore.Walk.{for_each_manifest_entry}

abbrev pub WirePath : Type 0
WirePath = List Text

unfoldable pub same_path : WirePath → WirePath → Bool
unfolding text_eq
same_path [] [] = true
same_path [] (t ∷ q) = false
same_path (s ∷ p) [] = false
same_path (s ∷ p) (t ∷ q) = text_eq s t && same_path p q

unfoldable pub reserved_in : WirePath → List (WirePath × Used) → Option Used
unfolding same_path
reserved_in p [] = none
reserved_in p ((q, used) ∷ rest) =
    let later = reserved_in p rest in if same_path p q then some used else later

pub record TargetRecord : Type 0 where
  pub ordinal : ℕ
  pub relative_path : WirePath

pub record Targets : Type 0 where
  pub mapped_directories : List (Text × WirePath)
  pub reservations : List (WirePath × Used)
  pub source_paths : List Text
  pub records : List TargetRecord

abbrev pub no_targets : Targets
no_targets = record {
  mapped_directories = ([], []) ∷ [];
  reservations = [];
  source_paths = [];
  records = [];
}

-- The part before the last '/', and the part behind it.
unfoldable pub rsplit_once : Text → Option (Text × Text)
rsplit_once [] = none
rsplit_once (c ∷ s) = elim (rsplit_once s) [
  | some (parent, name) ↦ some (c ∷ parent, name)
  | none ↦ if c == b'/' then some ([], s) else none
]

unfoldable pub parent_and_name : Text → Text × Text
unfolding rsplit_once
parent_and_name path = elim (rsplit_once path) [ none ↦ ([], path) | some parts ↦ parts ]

module _ (lower : Text → Text) (numbers : ℕ) (listing : WirePath → List Text) where
  abbrev pub names_in : WirePath → Option Used → Used
  names_in p none = reserved_names_of lower (listing p)
  names_in p (some used) = used

  abbrev pub with_target :
      ManifestEntry → WirePath → Targets → Option (Text × Used) → Option Targets
  with_target e parent t none = none
  with_target e parent t (some (name, used)) =
      let path : WirePath = parent ++ name ∷ [] in
      some (record {
        mapped_directories =
            if is_file e.kind
            then t.mapped_directories
            else (e.relative_path, path) ∷ t.mapped_directories;
        reservations = (parent, used) ∷ t.reservations;
        source_paths = lower e.relative_path ∷ t.source_paths;
        records = record { ordinal = e.ordinal; relative_path = path } ∷ t.records;
      })

  unfoldable pub target_in : ManifestEntry → Text → WirePath → Targets → Option Targets
  unfolding reserved_in reserve sanitize_windows_segment
  target_in e name parent t = with_target e parent t (
      reserve lower numbers (sanitize_windows_segment name) (not (is_file e.kind))
        (names_in parent (reserved_in parent t.reservations)))

  -- One entry. The records are put in front of each other.
  unfoldable pub map_target : ManifestEntry → Targets → Option Targets
  unfolding text_eq get target_in parent_and_name
  map_target e t =
      let (parent, name) = parent_and_name e.relative_path in
      if any (text_eq (lower e.relative_path)) t.source_paths
      then none
      else elim (get parent t.mapped_directories) [
        | none ↦ none
        | some path ↦ target_in e name path t
      ]

  -- The targets that `prepare_windows_targets` writes.
  unfoldable pub prepared_targets :
      (ManifestEntry → Option (List ℕ))
      → (List ℕ → Option ManifestEntry)
      → (List ℕ → Text)
      → Manifest
      → Option Targets
  unfolding for_each_manifest_entry map_target
  prepared_targets encode decode digest m =
      for_each_manifest_entry encode decode digest map_target m no_targets

-- ===== src/Update/Checks.antt =====
-- windows/flowtype-app/src/update.rs: `check_for_update`. The download of the signed manifest, the
-- files and the version of the running app are parameters; the texts shown are the cases of Shown.
use flow_type.Prelude.{Text, ℕ, Bool, true, false, ◌&&◌, Option, none, some, if◌then◌else◌}
use flow_type.Update.Versions.{
  UpdateManifest, PlatformAsset, Ordering, less, greater, compare_versions,
}

-- `fetch_verified_manifest`: a manifest, no release, or another error.
pub data Fetched : Type 0 where
  manifest : UpdateManifest → Fetched
  no_release failed : Fetched

pub data Shown : Type 0 where
  up_to_date no_update older_update invalid_version check_failed : Shown
  available : UpdateManifest → Shown
  ready : UpdateManifest → Text → Shown

-- `PersistedUpdate` without the download job, `available`, and what is shown.
pub record Checker : Type 0 where
  pub last_successful_check : ℕ
  pub highest_verified_version : Option Text
  pub manifest : Option UpdateManifest
  pub installer_path : Option Text
  pub verified : Bool
  pub available : Option UpdateManifest
  pub shown : Shown

abbrev is_less : Option Ordering → Bool
is_less (some less) = true
is_less _ = false

abbrev compared_to : Text → Option Text → Option Ordering
compared_to version none = none
compared_to version (some highest) = compare_versions version highest

-- `is_none_or(|order| order.is_gt())`
abbrev is_none_or_greater : Option Ordering → Bool
is_none_or_greater none = true
is_none_or_greater (some greater) = true
is_none_or_greater (some _) = false

-- `current` is the app's version; `intact` whether a file is there and is the asset.
module _ (current : Text) (intact : Text → PlatformAsset → Bool) where
  abbrev ready_path : Checker → UpdateManifest → Option Text
  ready_path c m = elim c.installer_path [
    | none ↦ none
    | some path ↦ if c.verified && intact path m.windows then some path else none
  ]

  abbrev offered : UpdateManifest → Checker → Checker
  offered m c = elim (ready_path c m) [
    | some path ↦ record c { available = some m; manifest = some m; shown = ready m path }
    | none ↦ record c { available = some m; shown = Shown.available m }
  ]

  abbrev against_current : UpdateManifest → Option Ordering → Checker → Checker
  against_current m (some greater) c = offered m c
  against_current m (some _) c = record c { available = none; shown = up_to_date }
  against_current m none c = record c { shown = invalid_version }

  abbrev recorded : UpdateManifest → Checker → Checker
  recorded m c =
      if is_none_or_greater (compared_to m.version c.highest_verified_version)
      then record c { highest_verified_version = some m.version }
      else c

  abbrev fetched_manifest : UpdateManifest → Checker → Checker
  fetched_manifest m c =
      if is_less (compared_to m.version c.highest_verified_version)
      then record c { shown = older_update }
      else against_current m (compare_versions m.version current) (recorded m c)

  unfoldable pub check_for_update : ℕ → Fetched → Checker → Checker
  unfolding compare_versions
  check_for_update now (manifest m) c =
      fetched_manifest m (record c { last_successful_check = now })
  check_for_update now no_release c = record c { available = none; shown = no_update }
  check_for_update now failed c = record c { shown = check_failed }

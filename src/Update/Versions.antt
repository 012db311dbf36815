-- ===== src/Update/Versions.antt =====
-- windows/flowtype-app/src/update.rs: three-part versions, and what `validate_manifest` asks of a
-- manifest. The parts of a manifest that only the Android app reads are left out.
use flow_type.Prelude.{
  Text, codes, ℕ, ◌*◌, Bool, false, not, ◌||◌, Option, none, some, List, [], ◌∷◌, ◌++◌, ◌==◌, ltb,
  byte_len, text_eq, if◌then◌else◌, is_some,
}
use flow_type.FileTransfer.Segments.{split}
use flow_type.FileTransfer.Messages.{valid_sha256}
use flow_type.FileServer.Ranges.{parse_u64, strip_prefix}

abbrev pub Version : Type 0
Version = ℕ × ℕ × ℕ

pub data Ordering : Type 0 where
  less equal greater : Ordering

abbrev compare_nat : ℕ → ℕ → Ordering
compare_nat a b = if ltb a b then less else if ltb b a then greater else equal

abbrev and_then_compare : Ordering → Ordering → Ordering
and_then_compare equal next = next
and_then_compare less next = less
and_then_compare greater next = greater

-- `Ord` of a triple.
unfoldable pub compare_triples : Version → Version → Ordering
compare_triples (a, b, c) (x, y, z) =
    and_then_compare (compare_nat a x) (and_then_compare (compare_nat b y) (compare_nat c z))

abbrev version_of : Option ℕ → Option ℕ → Option ℕ → Option Version
version_of (some a) (some b) (some c) = some (a, b, c)
version_of _ _ _ = none

abbrev version_parts : List Text → Option Version
version_parts (a ∷ b ∷ c ∷ []) = version_of (parse_u64 a) (parse_u64 b) (parse_u64 c)
version_parts _ = none

unfoldable pub parse_version : Text → Option Version
unfolding split parse_u64
parse_version value = version_parts (split b'.' value)

abbrev pub compared : Option Version → Option Version → Option Ordering
compared (some a) (some b) = some (compare_triples a b)
compared _ _ = none

unfoldable pub compare_versions : Text → Text → Option Ordering
unfolding parse_version compare_triples
compare_versions left right = compared (parse_version left) (parse_version right)

pub record PlatformAsset : Type 0 where
  pub url : Text
  pub sha256 : Text
  pub size : ℕ

pub record UpdateManifest : Type 0 where
  pub schema : ℕ
  pub key_id : Text
  pub platform : Text
  pub version : Text
  pub published_at : Text
  pub release_url : Text
  pub notes_zh_cn : Text
  pub windows : PlatformAsset

abbrev update_key_id : Text
update_key_id = codes "flowtype-update-2026-v2"

abbrev update_platform : Text
update_platform = codes "windows"

abbrev release_download_prefix : Text
release_download_prefix = codes "https://github.com/Henry10088/FlowType/releases/download/"

abbrev release_tag_prefix : Text
release_tag_prefix = codes "https://github.com/Henry10088/FlowType/releases/tag/"

abbrev max_installer_bytes : ℕ
max_installer_bytes = 200 * 1024 * 1024

abbrev tag_of : UpdateManifest → Text
tag_of m = codes "windows-v" ++ m.version

abbrev refused_asset : Text → PlatformAsset → Bool
refused_asset expected_prefix a =
    not (is_some (strip_prefix expected_prefix a.url))
    || ltb 2048 (byte_len a.url)
    || a.size == 0
    || ltb max_installer_bytes a.size
    || not (valid_sha256 a.sha256)

-- `true` where the source returns `Ok(())`.
unfoldable pub validate_manifest : UpdateManifest → Bool
unfolding parse_version strip_prefix valid_sha256 text_eq
validate_manifest m =
    if not (m.schema == 2)
      || not (text_eq m.key_id update_key_id)
      || not (text_eq m.platform update_platform)
    then false
    else if not (is_some (parse_version m.version))
    then false
    else if ltb 40 (byte_len m.published_at)
        || ltb 8192 (byte_len m.notes_zh_cn)
        || ltb 2048 (byte_len m.release_url)
    then false
    else if not (text_eq m.release_url (release_tag_prefix ++ tag_of m))
    then false
    else not (refused_asset (release_download_prefix ++ tag_of m ++ b'/' ∷ []) m.windows)

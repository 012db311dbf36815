-- ===== src/Tests/Updates.antt =====
-- The theorems about updates and the limiter, at one run of each.
use flow_type.Prelude.{
  Text, ◌≤◌, ◌<◌, ◌≡◌, ◌↔◌, refl, Bool, true, false, none, some, List, [], ◌∷◌, codes, is_some,
  utf8, replicate, arith,
}
use flow_type.Update.Versions.{
  UpdateManifest, PlatformAsset, parse_version, compare_triples, validate_manifest,
}
use flow_type.Update.Checks.{manifest, Checker, up_to_date}
use flow_type.Update.Rollback.{NotBelow, IsNewestOffer, checks, checks-NotBelow}
use flow_type.Network.Limiter.{
  Event, connect, get, shown, held, steps, no_connections, try_acquire, try_acquire_lem,
}

abbrev current : Text
current = codes "0.3.1"

abbrev intact : Text → PlatformAsset → Bool
intact path asset = false

abbrev release : UpdateManifest
release = record {
  schema = 2;
  key_id = codes "flowtype-update-2026-v2";
  platform = codes "windows";
  version = codes "0.4.0";
  published_at = codes "2026-01-01";
  release_url = codes "https://github.com/Henry10088/FlowType/releases/tag/windows-v0.4.0";
  notes_zh_cn = [];
  windows = record {
    url = codes "https://github.com/Henry10088/FlowType/releases/download/windows-v0.4.0/a.exe";
    sha256 = replicate 64 b'a';
    size = 1000;
  };
}

abbrev checker : Checker
checker = record {
  last_successful_check = 0;
  highest_verified_version = some (codes "0.3.2");
  manifest = none;
  installer_path = none;
  verified = false;
  available = none;
  shown = up_to_date;
}

verified : validate_manifest release ≡ true
unfolding validate_manifest utf8
verified = refl

reached : NotBelow (0, 3, 2) checker.highest_verified_version
unfolding parse_version compare_triples
reached = record {
  version = codes "0.3.2";
  parsed = (0, 3, 2);
  known = refl;
  parses = refl;
  reached = λ e. ground arith;
}

checks-NotBelow_example :
    NotBelow
      (0, 3, 2)
      (checks current intact ((9, manifest release) ∷ []) checker).highest_verified_version
    × IsNewestOffer current
        (checks current intact ((9, manifest release) ∷ []) checker).available
        (checks current intact ((9, manifest release) ∷ []) checker).highest_verified_version
unfolding parse_version
checks-NotBelow_example =
    checks-NotBelow current intact (0, 3, 1) refl ((9, manifest release) ∷ []) (0, 3, 2) checker
      (verified, tt) reached tt

abbrev three_connects : List Event
three_connects = connect (codes "phone") ∷ connect (codes "phone") ∷ connect (codes "phone") ∷ []

try_acquire_lem_example :
    (get (codes "phone") (steps three_connects no_connections).phones
      ≡ shown (held (codes "phone") (steps three_connects no_connections).leases))
    × (held (codes "phone") (steps three_connects no_connections).leases ≤ 2)
    × ((is_some (try_acquire (codes "phone") (steps three_connects no_connections).phones) ≡ true)
        ↔ (held (codes "phone") (steps three_connects no_connections).leases < 2))
try_acquire_lem_example = try_acquire_lem three_connects (codes "phone")

-- ===== src/Update/Rollback.antt =====
-- Proofs about windows/flowtype-app/src/update.rs: a server that offers older versions gains nothing.
use flow_type.Prelude.{
  Text, ℕ, ◌≡◌, ◌≢◌, ◌⊎◌, arith, Bool, true, Option, none, some, List, [], ◌∷◌, All, Option-cases,
  inl, inr,
}
use flow_type.Update.Versions.{
  UpdateManifest, PlatformAsset, Version, less, equal, greater, compare_triples, parse_version,
  compare_versions, validate_manifest,
}
use flow_type.Update.Checks.{Fetched, manifest, no_release, failed, Checker, check_for_update}

-- The manifest passed `validate_manifest`, as `fetch_verified_manifest` asks.
abbrev pub IsVerified : Fetched → Type 0
IsVerified (manifest m) = validate_manifest m ≡ true
IsVerified _ = Unit

compare_self : (v : Version) → compare_triples v v ≡ equal
unfolding compare_triples
compare_self (a, b, c) = ground arith

compare_up :
    (x u v : Version)
    → compare_triples x u ≡ greater
    → compare_triples u v ≢ less
    → compare_triples x v ≢ less
unfolding compare_triples
compare_up (a, b, c) (d, e, f) (g, h, i) p q = ground arith

validate_manifest-parses :
    (m : UpdateManifest)
    → validate_manifest m ≡ true
    → (v : Version) × (parse_version m.version ≡ some v)
unfolding validate_manifest
validate_manifest-parses m h = elim (Option-cases (parse_version m.version)) [
  | inl e ↦ absurd (ground arith)
  | inr e ↦ e
]

-- The highest version that was verified is known, and not below `v`.
pub record NotBelow (v : Version) (highest : Option Text) : Type 0 where
  pub version : Text
  pub parsed : Version
  pub known : highest ≡ some version
  pub parses : parse_version version ≡ some parsed
  pub reached : compare_triples parsed v ≢ less

-- An offered update is the highest version that was verified, and newer than the app.
abbrev pub IsNewestOffer : Text → Option UpdateManifest → Option Text → Type 0
IsNewestOffer current none highest = Unit
IsNewestOffer current (some m) none = ⊥
IsNewestOffer current (some m) (some h) =
    (compare_versions m.version h ≡ some equal)
    × (compare_versions m.version current ≡ some greater)

unfoldable pub checks :
    Text → (Text → PlatformAsset → Bool) → List (ℕ × Fetched) → Checker → Checker
unfolding check_for_update
checks current intact [] c = c
checks current intact ((now, f) ∷ rest) c =
    checks current intact rest (check_for_update current intact now f c)

module _ (current : Text) (intact : Text → PlatformAsset → Bool) (w : Version)
    (app : parse_version current ≡ some w) where
  highest_after :
      (now : ℕ) (m : UpdateManifest) (c : Checker) (x : Version) (h : Text) (u : Version)
      → parse_version m.version ≡ some x
      → c.highest_verified_version ≡ some h
      → parse_version h ≡ some u
      → ((check_for_update current intact now (manifest m) c).highest_verified_version ≡ some h)
        ⊎ (((check_for_update current intact now (manifest m) c).highest_verified_version
              ≡ some m.version)
            × (compare_triples x u ≡ greater))
  unfolding check_for_update compare_versions
  highest_after now m c x h u e k p = ground arith

  check-NotBelow :
      (v : Version) (now : ℕ) (f : Fetched) (c : Checker)
      → IsVerified f
      → NotBelow v c.highest_verified_version
      → NotBelow v (check_for_update current intact now f c).highest_verified_version
  unfolding check_for_update compare_versions
  check-NotBelow v now no_release c k n = n
  check-NotBelow v now failed c k n = n
  check-NotBelow v now (manifest m) c k n =
      let (x, e) = validate_manifest-parses m k in
      elim (highest_after now m c x n.version n.parsed e n.known n.parses) [
        | inl h ↦ record {
          version = n.version;
          parsed = n.parsed;
          known = h;
          parses = n.parses;
          reached = n.reached;
        }
        | inr (h, up) ↦ record {
          version = m.version;
          parsed = x;
          known = h;
          parses = e;
          reached = compare_up x n.parsed v up n.reached;
        }
      ]

  check-IsNewestOffer :
      (now : ℕ) (f : Fetched) (c : Checker)
      → IsVerified f
      → IsNewestOffer current c.available c.highest_verified_version
      → IsNewestOffer current
          (check_for_update current intact now f c).available
          (check_for_update current intact now f c).highest_verified_version
  unfolding check_for_update compare_versions
  check-IsNewestOffer now no_release c k n = tt
  check-IsNewestOffer now failed c k n = n
  check-IsNewestOffer now (manifest m) c k n =
      let (v, e) = validate_manifest-parses m k in ground (arith, e, app, compare_self v)

  -- However many checks there are and whatever a server answers them, where every manifest passed
  -- `validate_manifest` and the app's own version is well formed: the highest version verified never
  -- goes below one it has reached, and an update that is offered is the highest version verified and
  -- newer than the app, where this was so before.
  pub checks-NotBelow :
      (answers : List (ℕ × Fetched)) (v : Version) (c : Checker)
      → All (λ a. IsVerified a.1) answers
      → NotBelow v c.highest_verified_version
      → IsNewestOffer current c.available c.highest_verified_version
      → NotBelow v (checks current intact answers c).highest_verified_version
        × IsNewestOffer current
            (checks current intact answers c).available
            (checks current intact answers c).highest_verified_version
  unfolding checks
  checks-NotBelow [] v c k n o = (n, o)
  checks-NotBelow ((now, f) ∷ rest) v c k n o =
      checks-NotBelow rest v (check_for_update current intact now f c) k.1
        (check-NotBelow v now f c k.0 n) (check-IsNewestOffer now f c k.0 o)

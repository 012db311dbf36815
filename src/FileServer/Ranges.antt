-- ===== src/FileServer/Ranges.antt =====
-- windows/flowtype-app/src/file_transfer_server.rs: `parse_range`, and the bytes that it lets a
-- download ask for. `parse::<u64>` is Rust's: an optional plus sign and decimal digits within 64 bits.
use flow_type.Prelude.{
  Text, codes, ℕ, ◌+◌, ◌-◌, ◌*◌, ◌^◌, ◌≤◌, ◌<◌, min, ◌≡◌, refl, arith, Bool, ◌&&◌, Option, none,
  some, [], ◌∷◌, ◌==◌, ltb, leb, is_empty, inl, inr, Option-cases, if◌then◌else◌,
}

abbrev pub max_u64 : ℕ
max_u64 = 2 ^ 64 - 1

-- `strip_prefix`
unfoldable pub strip_prefix : Text → Text → Option Text
strip_prefix [] s = some s
strip_prefix (p ∷ ps) [] = none
strip_prefix (p ∷ ps) (c ∷ s) = let rest = strip_prefix ps s in if c == p then rest else none

abbrev before_first : ℕ → Option (Text × Text) → Option (Text × Text)
before_first c none = none
before_first c (some (a, b)) = some (c ∷ a, b)

-- `split_once` at a character
unfoldable pub split_once : ℕ → Text → Option (Text × Text)
split_once k [] = none
split_once k (c ∷ s) =
    let rest = split_once k s in if c == k then some ([], s) else before_first c rest

abbrev is_digit : ℕ → Bool
is_digit c = leb b'0' c && leb c b'9'

-- The digits behind the number read so far.
unfoldable pub digits : ℕ → Text → Option ℕ
digits value [] = some value
digits value (c ∷ s) =
    let rest = digits (value * 10 + (c - b'0')) s in
    if is_digit c && leb (value * 10 + (c - b'0')) max_u64 then rest else none

abbrev unsigned : Text → Option ℕ
unsigned [] = none
unsigned (c ∷ s) = digits 0 (c ∷ s)

unfoldable pub parse_u64 : Text → Option ℕ
unfolding digits
parse_u64 [] = none
parse_u64 (c ∷ s) = if c == b'+' then unsigned s else unsigned (c ∷ s)

abbrev pub largest_part : ℕ
largest_part = 8 * 1024 * 1024 - 1

-- `start.saturating_add(…)`
abbrev pub saturating_add : ℕ → ℕ → ℕ
saturating_add a b = min (a + b) max_u64

-- The end that was asked for, at most the last byte.
unfoldable pub requested_end : Text → ℕ → Option ℕ
unfolding parse_u64
requested_end last total =
    if is_empty last
    then some (total - 1)
    else elim (parse_u64 last) [ none ↦ none | some n ↦ some (min n (total - 1)) ]

unfoldable pub range_from : ℕ → Option ℕ → ℕ → Option (ℕ × ℕ)
range_from start none total = none
range_from start (some last) total =
    if leb total start
    then none
    else if ltb last start
    then none
    else some (start, min last (saturating_add start largest_part))

unfoldable pub parse_range : Text → ℕ → Option (ℕ × ℕ)
unfolding strip_prefix split_once parse_u64 requested_end range_from
parse_range value total = if total == 0 then none else elim (strip_prefix (codes "bytes=") value) [
  | none ↦ none
  | some range ↦ elim (split_once b'-' range) [
    | none ↦ none
    | some (first, last) ↦ elim (parse_u64 first) [
      | none ↦ none
      | some start ↦ range_from start (requested_end last total) total
    ]
  ]
]

requested_end_lem : (last : Text) (total n : ℕ) → requested_end last total ≡ some n → n ≤ total - 1
unfolding requested_end
requested_end_lem last total n h = elim (Option-cases (parse_u64 last)) [
  | inl e ↦ ground arith
  | inr (m, e) ↦ ground arith
]

range_from_lem :
    (start first last total : ℕ) (asked : Option ℕ)
    → ((n : ℕ) → asked ≡ some n → n ≤ total - 1)
    → total ≤ max_u64
    → range_from first asked total ≡ some (start, last)
    → (start ≤ last) × (last < total) × (last - start < 8 * 1024 * 1024)
unfolding range_from
range_from_lem start first last total none k m h = ground arith
range_from_lem start first last total (some n) k m h = ground (arith, k n refl)

-- For a file whose size fits 64 bits, a range that is answered lies within the file, is not empty,
-- and has at most 8 MiB.
pub parse_range-bounds :
    (value : Text) (total start last : ℕ)
    → total ≤ max_u64
    → parse_range value total ≡ some (start, last)
    → (start ≤ last) × (last < total) × (last - start < 8 * 1024 * 1024)
unfolding parse_range
parse_range-bounds value total start last m h =
    elim (Option-cases (strip_prefix (codes "bytes=") value)) [
      | inl e ↦ absurd (ground arith)
      | inr (range, e) ↦ elim (Option-cases (split_once b'-' range)) [
        | inl f ↦ absurd (ground arith)
        | inr (parts, f) ↦ elim (Option-cases (parse_u64 parts.0)) [
          | inl g ↦ absurd (ground arith)
          | inr (first, g) ↦
              range_from_lem start first last total (requested_end parts.1 total)
                (requested_end_lem parts.1 total) m (ground arith)
        ]
      ]
    ]

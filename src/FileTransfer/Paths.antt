-- ===== src/FileTransfer/Paths.antt =====
-- windows/flowtype-core/src/file_transfer.rs: `validate_relative_path`, against what a relative path
-- of the wire is. `char` tests go by code points.
use flow_type.Prelude.{
  Text, ℕ, ◌+◌, ◌≤◌, ◌≡◌, ◌≢◌, refl, Bool, false, ◌&&◌, ◌||◌, Option, none, some, List, [], ◌∷◌,
  ◌++◌, ◌==◌, ltb, leb, any, All, is_empty, length, byte_len, text_eq, utf16_len, if◌then◌else◌,
}
use flow_type.FileTransfer.{Validated, ok, err, invalid_path, max_relative_path_bytes}
use flow_type.FileTransfer.Segments.{split, join}

-- `char::is_control`: Unicode category Cc.
abbrev pub is_control : ℕ → Bool
is_control c = ltb c 32 || (leb 127 c && leb c 159)

-- `encode_utf16().count()`
abbrev pub utf16_count : Text → ℕ
utf16_count [] = 0
utf16_count (c ∷ s) = utf16_len c + utf16_count s

abbrev pub starts_with_char : ℕ → Text → Bool
starts_with_char k [] = false
starts_with_char k (c ∷ s) = c == k

abbrev pub ends_with_char : ℕ → Text → Bool
ends_with_char k [] = false
ends_with_char k (c ∷ []) = c == k
ends_with_char k (c ∷ d ∷ s) = ends_with_char k (d ∷ s)

abbrev pub contains_char : ℕ → Text → Bool
contains_char k = any (λ c. c == k)

abbrev pub dot : Text
dot = b'.' ∷ []

abbrev pub dot_dot : Text
dot_dot = b'.' ∷ b'.' ∷ []

abbrev pub refused_segment : Text → Bool
refused_segment s = is_empty s || text_eq s dot || text_eq s dot_dot || ltb 255 (utf16_count s)

-- The loop over the segments, with its counter; `none` is its error return.
unfoldable pub count_segments : ℕ → List Text → Option ℕ
count_segments count [] = some count
count_segments count (s ∷ rest) =
    let counted = count_segments (count + 1) rest in if refused_segment s then none else counted

abbrev pub too_many : Option ℕ → Validated (Unit {0})
too_many none = err invalid_path
too_many (some count) = if ltb 128 count then err invalid_path else ok tt

unfoldable pub validate_relative_path : Text → Validated (Unit {0})
validate_relative_path path =
    if is_empty path
      || ltb max_relative_path_bytes (byte_len path)
      || starts_with_char b'/' path
      || ends_with_char b'/' path
      || contains_char 92 path
      || any (λ c. c == 0 || is_control c) path
    then err invalid_path
    else too_many (count_segments 0 (split b'/' path))

abbrev pub IsPlain : ℕ → Type 0
IsPlain c = (c ≢ 92) × (is_control c ≡ false)

-- One segment: named, no step up or to itself, of at most 255 UTF-16 units, with no separator of
-- either system and no control character.
abbrev pub IsSegment : Text → Type 0
IsSegment s =
    (s ≢ [])
    × (s ≢ dot)
    × (s ≢ dot_dot)
    × (utf16_count s ≤ 255)
    × All (λ c. IsPlain c × (c ≢ b'/')) s

abbrev pub IsAllowed : Text → Type 0
IsAllowed s = (s ≢ []) × (s ≢ dot) × (s ≢ dot_dot) × (utf16_count s ≤ 255)

-- A relative path: one to 128 segments between slashes, in at most 4096 bytes.
pub record IsRelativePath (path : Text) : Type 0 where
  pub segments : List Text
  pub joined : path ≡ join b'/' segments
  pub some_segment : segments ≢ []
  pub each : All IsSegment segments
  pub few : length segments ≤ 128
  pub short : byte_len path ≤ max_relative_path_bytes

pub ends-append : (k : ℕ) (s t : Text) → t ≢ [] → ends_with_char k (s ++ t) ≡ ends_with_char k t
ends-append k [] t n = refl
ends-append k (c ∷ []) [] n = absurd (n refl)
ends-append k (c ∷ []) (d ∷ t) n = refl
ends-append k (c ∷ d ∷ s) t n = ends-append k (d ∷ s) t n

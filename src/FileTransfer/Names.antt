-- ===== src/FileTransfer/Names.antt =====
-- windows/flowtype-core/src/file_transfer.rs: Windows names for the segments of a wire path.
use flow_type.Prelude.{
  Text, codes, ℕ, ◌-◌, ◌≤◌, ◌≡◌, ◌≢◌, refl, Bool, false, ◌&&◌, ◌||◌, List, [], ◌∷◌, ◌++◌, map,
  arith, ◌==◌, ltb, leb, any, All, is_empty, text_eq, utf16_len, if◌then◌else◌, Bool-cases, inl,
  inr,
}
use flow_type.FileTransfer.{Validated, ok, err}
use flow_type.FileTransfer.Segments.{split, All-append}
use flow_type.FileTransfer.Paths.{is_control, utf16_count, dot, dot_dot, validate_relative_path}

abbrev pub one_of : ℕ → List ℕ → Bool
one_of c = any (λ d. c == d)

-- '<' | '>' | ':' | '"' | '/' | '\\' | '|' | '?' | '*'
abbrev pub is_forbidden : ℕ → Bool
is_forbidden c = one_of c (b'<' ∷ b'>' ∷ b':' ∷ 34 ∷ b'/' ∷ 92 ∷ b'|' ∷ b'?' ∷ b'*' ∷ [])

abbrev pub replaced : ℕ → ℕ
replaced c = if is_control c || is_forbidden c then b'_' else c

-- `while result.ends_with(p) { result.pop(); }`
unfoldable pub trim_end_by : (ℕ → Bool) → Text → Text
trim_end_by p [] = []
trim_end_by p (c ∷ s) = let rest = trim_end_by p s in if is_empty rest && p c then [] else c ∷ rest

abbrev pub space_or_dot : ℕ → Bool
space_or_dot c = c == 32 || c == b'.'

-- `char::is_whitespace`, for `str::trim_end`.
abbrev pub is_whitespace : ℕ → Bool
is_whitespace c =
    (leb 9 c && leb c 13)
    || c == 32
    || c == 0x85
    || c == 0xa0
    || c == 0x1680
    || (leb 0x2000 c && leb c 0x200a)
    || c == 0x2028
    || c == 0x2029
    || c == 0x202f
    || c == 0x205f
    || c == 0x3000

abbrev pub to_ascii_uppercase : ℕ → ℕ
to_ascii_uppercase c = if leb b'a' c && leb c b'z' then c - 32 else c

-- `value.split('.').next()`
unfoldable pub before_dot : Text → Text
before_dot [] = []
before_dot (c ∷ s) = let rest = before_dot s in if c == b'.' then [] else c ∷ rest

abbrev pub reserved_names : List Text
reserved_names =
    codes "CON"
    ∷ codes "PRN"
    ∷ codes "AUX"
    ∷ codes "NUL"
    ∷ codes "COM1"
    ∷ codes "COM2"
    ∷ codes "COM3"
    ∷ codes "COM4"
    ∷ codes "COM5"
    ∷ codes "COM6"
    ∷ codes "COM7"
    ∷ codes "COM8"
    ∷ codes "COM9"
    ∷ codes "LPT1"
    ∷ codes "LPT2"
    ∷ codes "LPT3"
    ∷ codes "LPT4"
    ∷ codes "LPT5"
    ∷ codes "LPT6"
    ∷ codes "LPT7"
    ∷ codes "LPT8"
    ∷ codes "LPT9"
    ∷ []

unfoldable pub is_windows_reserved_name : Text → Bool
unfolding before_dot trim_end_by
is_windows_reserved_name value =
    any (text_eq (map to_ascii_uppercase (trim_end_by is_whitespace (before_dot value))))
      reserved_names

-- The longest prefix of at most `units` UTF-16 units.
unfoldable pub truncate_utf16 : ℕ → Text → Text
truncate_utf16 units [] = []
truncate_utf16 units (c ∷ s) =
    let rest = truncate_utf16 (units - utf16_len c) s in
    if ltb units (utf16_len c) then [] else c ∷ rest

abbrev pub or_untitled : Text → Text
or_untitled s = if is_empty s || text_eq s dot || text_eq s dot_dot then codes "untitled" else s

abbrev pub escape_reserved : Text → Text
escape_reserved s = if is_windows_reserved_name s then s ++ b'_' ∷ [] else s

unfoldable pub sanitize_windows_segment : Text → Text
unfolding truncate_utf16 is_windows_reserved_name
sanitize_windows_segment segment =
    truncate_utf16 240
      (escape_reserved (or_untitled (trim_end_by space_or_dot (map replaced segment))))

unfoldable pub sanitize_windows_relative_path : Text → Validated (List Text)
unfolding validate_relative_path sanitize_windows_segment
sanitize_windows_relative_path path = elim (validate_relative_path path) [
  | ok _ ↦ ok (map sanitize_windows_segment (split b'/' path))
  | err e ↦ err e
]

abbrev pub IsSafeChar : ℕ → Type 0
IsSafeChar c = (is_control c ≡ false) × (is_forbidden c ≡ false)

replaced-IsSafeChar : (c : ℕ) → IsSafeChar (replaced c)
replaced-IsSafeChar c = elim (Bool-cases (is_control c || is_forbidden c)) [
  | inl e ↦ rw e (refl, refl)
  | inr e ↦ rw e (ground arith, ground arith)
]

map-replaced : (s : Text) → All IsSafeChar (map replaced s)
map-replaced [] = tt
map-replaced (c ∷ s) = (replaced-IsSafeChar c, map-replaced s)

trim_end_by-All : (p : ℕ → Bool) (s : Text) → All IsSafeChar s → All IsSafeChar (trim_end_by p s)
unfolding trim_end_by
trim_end_by-All p [] h = tt
trim_end_by-All p (c ∷ s) h = elim (Bool-cases (is_empty (trim_end_by p s) && p c)) [
  | inl e ↦ rw e tt
  | inr e ↦ rw e (h.0, trim_end_by-All p s h.1)
]

truncate_utf16-All : (n : ℕ) (s : Text) → All IsSafeChar s → All IsSafeChar (truncate_utf16 n s)
unfolding truncate_utf16
truncate_utf16-All n [] h = tt
truncate_utf16-All n (c ∷ s) h = elim (Bool-cases (ltb n (utf16_len c))) [
  | inl e ↦ rw e tt
  | inr e ↦ rw e (h.0, truncate_utf16-All (n - utf16_len c) s h.1)
]

utf16-truncate_utf16 : (n : ℕ) (s : Text) → utf16_count (truncate_utf16 n s) ≤ n
unfolding truncate_utf16
utf16-truncate_utf16 n [] = omega arith
utf16-truncate_utf16 n (c ∷ s) = ground (arith, utf16-truncate_utf16 (n - utf16_len c) s)

truncate_utf16-ne-nil : (s : Text) → s ≢ [] → truncate_utf16 240 s ≢ []
unfolding truncate_utf16 utf16_len
truncate_utf16-ne-nil [] n h = n refl
truncate_utf16-ne-nil (c ∷ s) n h = ground arith

or_untitled-ok :
    (s : Text) → All IsSafeChar s → All IsSafeChar (or_untitled s) × (or_untitled s ≢ [])
or_untitled-ok [] h = (ground arith, λ e. cc)
or_untitled-ok (c ∷ s) h = elim (Bool-cases (text_eq (c ∷ s) dot || text_eq (c ∷ s) dot_dot)) [
  | inl e ↦ rw e (ground arith, λ q. cc)
  | inr e ↦ rw e (h, λ q. cc)
]

escape_reserved-ok :
    (s : Text)
    → All IsSafeChar s
    → s ≢ []
    → All IsSafeChar (escape_reserved s) × (escape_reserved s ≢ [])
escape_reserved-ok [] h n = absurd (n refl)
escape_reserved-ok (c ∷ s) h n = elim (Bool-cases (is_windows_reserved_name (c ∷ s))) [
  | inl e ↦ rw e (All-append IsSafeChar (c ∷ s) (b'_' ∷ []) h (ground arith), λ q. cc)
  | inr e ↦ rw e (h, λ q. cc)
]

-- Every name that comes out has a character, no control character and none of the nine forbidden
-- ones, and at most 240 UTF-16 units.
pub sanitize_windows_segment_lem :
    (segment : Text)
    → (sanitize_windows_segment segment ≢ [])
      × All IsSafeChar (sanitize_windows_segment segment)
      × (utf16_count (sanitize_windows_segment segment) ≤ 240)
unfolding sanitize_windows_segment
sanitize_windows_segment_lem segment =
    let titled =
      or_untitled-ok (trim_end_by space_or_dot (map replaced segment))
        (trim_end_by-All space_or_dot (map replaced segment) (map-replaced segment)) in
    let escaped =
      escape_reserved-ok (or_untitled (trim_end_by space_or_dot (map replaced segment))) titled.0
        titled.1 in
    (
      truncate_utf16-ne-nil _ escaped.1,
      truncate_utf16-All 240 _ escaped.0,
      utf16-truncate_utf16 240 _,
    )

-- ===== src/FileTransfer/Reservations.antt =====
-- windows/flowtype-core/src/file_transfer.rs: `WindowsNameReservation`. `lower` is `to_lowercase`, and
-- the loop over the numbers from 1 has as many rounds as there are numbers.
use flow_type.Prelude.{
  Text, ℕ, zero, suc, ◌+◌, ◌-◌, ◌/◌, ◌%◌, Bool, true, false, Option, none, some, List, [], ◌∷◌,
  ◌++◌, ◌==◌, ltb, any, map, is_empty, text_eq, if◌then◌else◌,
}
use flow_type.FileTransfer.Paths.{utf16_count}
use flow_type.FileTransfer.Names.{truncate_utf16, sanitize_windows_segment}

-- The names in use, in lower case.
abbrev pub Used : Type 0
Used = List Text

unfoldable pub is_used : Text → Used → Bool
unfolding text_eq
is_used name used = any (text_eq name) used

-- A number of at most `suc places` digits.
unfoldable pub decimal : ℕ → ℕ → Text
decimal zero n = (b'0' + n % 10) ∷ []
decimal (suc places) n =
    if ltb n 10 then (b'0' + n) ∷ [] else decimal places (n / 10) ++ (b'0' + n % 10) ∷ []

-- `format!(" ({number})")` of a u32.
unfoldable pub numbered : ℕ → Text
unfolding decimal
numbered number = b' ' ∷ b'(' ∷ decimal 9 number ++ b')' ∷ []

-- The text before the last dot, and the rest.
unfoldable pub split_extension : Text → Option (Text × Text)
split_extension [] = none
split_extension (c ∷ s) = elim (split_extension s) [
  | some (stem, extension) ↦ some (c ∷ stem, extension)
  | none ↦ if c == b'.' then some ([], c ∷ s) else none
]

abbrev kept_parts : Text → Option (Text × Text) → Text × Text
kept_parts name none = (name, [])
kept_parts name (some (stem, extension)) = if is_empty stem then (name, []) else (stem, extension)

unfoldable pub name_parts : Text → Bool → Text × Text
unfolding split_extension
name_parts name true = (name, [])
name_parts name false = kept_parts name (split_extension name)

unfoldable pub append_collision_suffix : Text → ℕ → Bool → Text
unfolding name_parts numbered truncate_utf16
append_collision_suffix name number directory =
    let (stem, extension) = name_parts name directory in
    truncate_utf16 (240 - (utf16_count (numbered number) + utf16_count extension)) stem
    ++ numbered number
    ++ extension

module _ (lower : Text → Text) where
  -- `WindowsNameReservation::new`
  abbrev pub reserved_names_of : List Text → Used
  reserved_names_of existing = map lower existing

  unfoldable pub find_number : ℕ → Text → Bool → ℕ → Used → Option Text
  unfolding append_collision_suffix is_used
  find_number zero base directory number used = none
  find_number (suc rounds) base directory number used =
      let later = find_number rounds base directory (number + 1) used in
      let candidate = append_collision_suffix base number directory in
      if is_used (lower candidate) used then later else some candidate

  abbrev with_name : Used → Option Text → Option (Text × Used)
  with_name used none = none
  with_name used (some name) = some (name, lower name ∷ used)

  -- `none` where the numbers run out.
  unfoldable pub reserve : ℕ → Text → Bool → Used → Option (Text × Used)
  unfolding sanitize_windows_segment find_number is_used
  reserve numbers desired directory used =
      let base = sanitize_windows_segment desired in
      if is_used (lower base) used
      then with_name used (find_number numbers base directory 1 used)
      else some (base, lower base ∷ used)

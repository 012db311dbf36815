-- ===== src/Tests/Names.antt =====
-- The theorems about paths and names, at a few of them.
use flow_type.Prelude.{◌≤◌, ◌<◌, ◌≡◌, ◌≢◌, ◌↔◌, refl, ◌&&◌, [], codes, All, utf16_len, arith}
use flow_type.FileTransfer.{Validated}
use flow_type.FileTransfer.RelativePaths.{validate_relative_path_iff}
use flow_type.FileTransfer.Paths.{
  IsRelativePath, validate_relative_path, utf16_count, contains_char,
}
use flow_type.FileTransfer.Names.{
  IsSafeChar, sanitize_windows_segment, is_windows_reserved_name, sanitize_windows_segment_lem,
  trim_end_by,
}
use flow_type.FileTransfer.Reserved.{cleaned, reserved-sanitize}
use flow_type.FileServer.Ranges.{parse_range, parse_range-bounds}

validate_relative_path_iff_example :
    (validate_relative_path (codes "docs/a.txt") ≡ Validated.ok tt)
    ↔ IsRelativePath (codes "docs/a.txt")
validate_relative_path_iff_example = validate_relative_path_iff (codes "docs/a.txt")

sanitize_windows_segment_lem_example :
    (sanitize_windows_segment (codes "a:b. ") ≢ [])
    × All IsSafeChar (sanitize_windows_segment (codes "a:b. "))
    × (utf16_count (sanitize_windows_segment (codes "a:b. ")) ≤ 240)
sanitize_windows_segment_lem_example = sanitize_windows_segment_lem (codes "a:b. ")

reserved-sanitize_example :
    is_windows_reserved_name (sanitize_windows_segment (codes "con.txt")) ≡ (
      is_windows_reserved_name (cleaned (codes "con.txt"))
      && contains_char b'.' (cleaned (codes "con.txt")))
unfolding trim_end_by utf16_len
reserved-sanitize_example = reserved-sanitize (codes "con.txt") (omega arith)

parse_range-bounds_example : (10 ≤ 19) × (19 < 100) × (9 < 8388608)
unfolding parse_range
parse_range-bounds_example = parse_range-bounds (codes "bytes=10-19") 100 10 19 (omega arith) refl

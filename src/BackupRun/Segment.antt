-- ===== src/BackupRun/Segment.antt =====
-- `pathSegment` of internal/backuprun/runner.go. A name is the list of its runes; what is written is
-- ASCII, so the bytes of a segment are its runes.
pub mod Safety
use back_orbit.Base.{
  ℕ, Bool, ◌&&◌, ◌||◌, [], Bytes, codes, length, map, take, trim, ltb, leb, ◌==◌, nat_eq,
  if◌then◌else◌,
}
use back_orbit.Base.Text.{bytes_eq}

unfoldable pub is_safe : ℕ → Bool
is_safe r =
    leb b'a' r && leb r b'z'
    || leb b'A' r && leb r b'Z'
    || leb b'0' r && leb r b'9'
    || r == b'-'
    || r == b'_'
    || r == b'.'

unfoldable pub safe_rune : ℕ → ℕ
unfolding is_safe
safe_rune r = if is_safe r then r else b'-'

abbrev pub dot_or_dash : ℕ → Bool
dot_or_dash r = r == b'.' || r == b'-'

abbrev pub max_segment : ℕ
max_segment = 96

-- The tests behind the loop.
unfoldable pub bounded_segment : Bytes → Bytes
bounded_segment s =
    if s == []
    then codes "unnamed"
    else if ltb max_segment (length s)
    then take max_segment s
    else s

unfoldable pub path_segment : Bytes → Bytes
path_segment name = bounded_segment (trim dot_or_dash (map safe_rune name))

-- ===== src/Match/Host.antt =====
-- stripPort and validatePattern of pkg/match/match.go, and the host that First looks up.
use dockprox.Base.{Option, none, some, Result, ok, err, ltb, ◌==◌, if◌then◌else◌, length, drop}
use dockprox.Base.Text.{
  Text, codes, is_empty, has_prefix, count_byte, cut_first, cut_last, to_lower,
}

-- The case `strings.HasPrefix(host, "[")`, at the cut before the first "]".
abbrev strip_brackets : Text → Option (Text × Text) → Text
strip_brackets host none = host
strip_brackets host (some (pre, post)) = if ltb 0 (length pre) then drop 1 pre else host

-- Every other host, at the cut before the last ":".
abbrev strip_last_colon : Text → Option (Text × Text) → Text
strip_last_colon host none = host
strip_last_colon host (some (pre, post)) = if ltb 0 (length pre) then pre else host

unfoldable pub strip_port : Text → Text
unfolding has_prefix cut_first cut_last
strip_port host =
    if has_prefix (codes "[") host
    then strip_brackets host (cut_first b']' host)
    else strip_last_colon host (cut_last b':' host)

-- The first two lines of First.
unfoldable pub host_key : Text → Text
host_key host = strip_port (to_lower host)

pub data PatternError : Type 0 where
  empty_pattern multiple_wildcards not_leading : PatternError

unfoldable pub validate_pattern : Text → Result PatternError (Unit {0})
validate_pattern p =
    if is_empty p
    then err empty_pattern
    else let stars = count_byte b'*' p in
      if stars == 0
      then ok tt
      else if ltb 1 stars
      then err multiple_wildcards
      else if has_prefix (codes "*.") p
      then ok tt
      else err not_leading

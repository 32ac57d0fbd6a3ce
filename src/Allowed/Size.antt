-- ===== src/Allowed/Size.antt =====
-- ParseSize of internal/server/allowed/allowed.go: the limits of the file of rules.
use leyline.Base.{
  Option, Text, [], codes, drop, if◌then◌else◌, length, ltb, none, some, take, text_eq, ℕ, ◌%◌,
  ◌&&◌, ◌*◌, ◌-◌, ◌==◌, ◌^◌, ◌∷◌,
}
use leyline.Base.Int.{negsuc, pos, ℤ}
use leyline.Protocol.Version.{parse_uint}

-- A count of bytes as an int64, which wraps around.
abbrev to_int64 : ℕ → ℤ
to_int64 n = let m = n % 2 ^ 64 in if ltb m (2 ^ 63) then pos m else negsuc (2 ^ 64 - 1 - m)

-- strconv.ParseInt(s, 10, 64), where it has a positive result and no error.
abbrev positive_count : Option ℕ → Option ℕ
positive_count none = none
positive_count (some n) = if ltb 0 n && ltb n (2 ^ 63) then some n else none

abbrev parse_count : Text → Option ℕ
parse_count [] = none
parse_count (c ∷ s) =
    if c == b'+' then positive_count (parse_uint s) else positive_count (parse_uint (c ∷ s))

with_unit : Text → Option ℕ → Option ℤ
with_unit unit none = none
with_unit unit (some n) =
    if text_eq unit (codes "kb")
    then some (to_int64 (n * 2 ^ 10))
    else if text_eq unit (codes "mb")
    then some (to_int64 (n * 2 ^ 20))
    else if text_eq unit (codes "gb")
    then some (to_int64 (n * 2 ^ 30))
    else none

-- `s` is the text without the white space around it and in lower case.
unfoldable pub parse_size : Text → Option ℤ
unfolding with_unit
parse_size s =
    if ltb (length s) 3
    then none
    else with_unit (drop (length s - 2) s) (parse_count (take (length s - 2) s))

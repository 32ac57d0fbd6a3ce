-- ===== src/Protocol/Version.antt =====
-- protocol/version/version.go: the order of dotted version strings.
pub mod Order
use leyline.Base.{
  Bool, List, Option, Text, [], false, if◌then◌else◌, leb, ltb, none, not, some, split, suc, true,
  zero, ℕ, ◌&&◌, ◌*◌, ◌+◌, ◌-◌, ◌==◌, ◌^◌, ◌∷◌,
}
use leyline.Base.Int.{negsuc, pos, ℤ}

abbrev max_uint64 : ℕ
max_uint64 = 2 ^ 64 - 1

-- The loop of strconv.ParseUint in base 10, which stops at the first number out of range and does
-- not look at what follows; none is a syntax error.
unfoldable pub parse_digits : ℕ → Text → Option ℕ
parse_digits n [] = some n
parse_digits n (c ∷ s) =
    let next = n * 10 + (c - b'0') in
    let rest = parse_digits next s in
    if not (leb b'0' c && leb c b'9')
    then none
    else if ltb max_uint64 next
    then some max_uint64
    else rest

abbrev pub parse_uint : Text → Option ℕ
parse_uint [] = none
parse_uint (c ∷ s) = parse_digits 0 (c ∷ s)

-- The bounds of an int, and 0 on a syntax error.
abbrev to_positive : Option ℕ → ℤ
to_positive none = pos 0
to_positive (some n) = if ltb n (2 ^ 63) then pos n else pos (2 ^ 63 - 1)

abbrev to_negative : Option ℕ → ℤ
to_negative none = pos 0
to_negative (some zero) = pos 0
to_negative (some (suc n)) = if ltb n (2 ^ 63) then negsuc n else negsuc (2 ^ 63 - 1)

-- strconv.Atoi(s), its error dropped.
unfoldable pub atoi : Text → ℤ
unfolding parse_digits
atoi [] = pos 0
atoi (c ∷ s) =
    if c == b'-'
    then to_negative (parse_uint s)
    else if c == b'+'
    then to_positive (parse_uint s)
    else to_positive (parse_uint (c ∷ s))

-- `x < y`
unfoldable pub int_lt : ℤ → ℤ → Bool
int_lt (pos m) (pos n) = ltb m n
int_lt (pos m) (negsuc n) = false
int_lt (negsuc m) (pos n) = true
int_lt (negsuc m) (negsuc n) = ltb n m

-- A round of the loop, with the result of the rounds after it.
unfoldable pub compare_parts : ℤ → ℤ → ℤ → ℤ
unfolding int_lt
compare_parts va vb rest = if int_lt va vb then negsuc 0 else if int_lt vb va then pos 1 else rest

-- The loop; a part that is missing is 0.
unfoldable pub compare_rounds : List Text → List Text → ℤ
unfolding atoi compare_parts
compare_rounds [] [] = pos 0
compare_rounds [] (q ∷ qs) = compare_parts (pos 0) (atoi q) (compare_rounds [] qs)
compare_rounds (p ∷ ps) [] = compare_parts (atoi p) (pos 0) (compare_rounds ps [])
compare_rounds (p ∷ ps) (q ∷ qs) = compare_parts (atoi p) (atoi q) (compare_rounds ps qs)

unfoldable pub compare_versions : Text → Text → ℤ
unfolding compare_rounds
compare_versions a b = compare_rounds (split a b'.') (split b b'.')

-- ===== src/Base/Strings.antt =====
-- Go strings and byte slices as lists of bytes, with the operations of package strings.
use Prim.Native.Nat.{ℕ, zero, suc, ◌+◌, ◌-◌}
use Prim.Native.Char.{code}
use Prim.Native.String.{String}
use mathlib.Core.Path.{◌≡◌, refl}
use mathlib.Core.Logic.{◌↔◌}
use mathlib.Core.Bool.{Bool, true, false, ◌&&◌, ◌||◌}
use mathlib.Core.List.{List, [], ◌∷◌, ◌++◌, map}
use mathlib.Core.Option.{Option, none, some}
use leyline.Base.Lists.{length}
use native.Mathlib.Omega.{arith}
use leyline.Base.Tests.{if◌then◌else◌, leb, ◌==◌}

abbrev pub Text : Type 0
Text = List ℕ

-- The code points of a text: its bytes, if it is ASCII.
abbrev pub codes : String → Text
codes String.[] = []
codes (String.◌∷◌ c s) = code c ∷ codes s

unfoldable pub text_eq : Text → Text → Bool
text_eq [] [] = true
text_eq [] (b ∷ t) = false
text_eq (a ∷ s) [] = false
text_eq (a ∷ s) (b ∷ t) = a == b && text_eq s t

pub text_eq_iff : (s t : Text) → (text_eq s t ≡ true) ↔ (s ≡ t)
unfolding text_eq
text_eq_iff [] [] = ground arith
text_eq_iff [] (b ∷ t) = ground arith
text_eq_iff (a ∷ s) [] = ground arith
text_eq_iff (a ∷ s) (b ∷ t) = ground (arith, text_eq_iff s t)

pub text_eq_refl : (s : Text) → text_eq s s ≡ true
text_eq_refl s = (text_eq_iff s s).1 refl

-- strings.HasPrefix(s, p)
unfoldable pub has_prefix : Text → Text → Bool
has_prefix s [] = true
has_prefix [] (b ∷ p) = false
has_prefix (a ∷ s) (b ∷ p) = a == b && has_prefix s p

-- strings.HasSuffix(s, p)
unfoldable pub has_suffix : Text → Text → Bool
has_suffix [] p = text_eq [] p
has_suffix (a ∷ s) p = text_eq (a ∷ s) p || has_suffix s p

-- `s == ""`
abbrev pub is_empty : Text → Bool
is_empty [] = true
is_empty (a ∷ s) = false

abbrev pub newline : ℕ
newline = 10

-- strings.Split(s, c), for a separator of one byte.
abbrev pub cons_head : ℕ → List Text → List Text
cons_head a [] = (a ∷ []) ∷ []
cons_head a (l ∷ ls) = (a ∷ l) ∷ ls

unfoldable pub split : Text → ℕ → List Text
split [] c = [] ∷ []
split (a ∷ s) c = let rest = split s c in if a == c then [] ∷ rest else cons_head a rest

-- strings.Join(ls, "\n")
unfoldable pub join_lines : List Text → Text
join_lines [] = []
join_lines (l ∷ []) = l
join_lines (l ∷ m ∷ ls) = l ++ newline ∷ join_lines (m ∷ ls)

-- strings.TrimRight(s, c), for a set of one byte.
unfoldable pub trim_right : Text → ℕ → Text
trim_right [] c = []
trim_right (a ∷ s) c = let rest = trim_right s c in if a == c && is_empty rest then [] else a ∷ rest

-- The text before and after the last byte `c`.
unfoldable pub cut_last : Text → ℕ → Option (Text × Text)
cut_last [] c = none
cut_last (a ∷ s) c = elim (cut_last s c) [
  | some (x, y) ↦ some (a ∷ x, y)
  | none ↦ if a == c then some ([], s) else none
]

-- strings.ReplaceAll(s, old, new), for a text `old` that is not empty; the first argument counts
-- the bytes of a match that are still to be passed over.
unfoldable pub replace_from : ℕ → Text → Text → Text → Text
unfolding has_prefix
replace_from skip [] old new = []
replace_from (suc k) (a ∷ s) old new = replace_from k s old new
replace_from zero (a ∷ s) old new =
    let after = replace_from (length old - 1) s old new in
    let next = replace_from 0 s old new in if has_prefix (a ∷ s) old then new ++ after else a ∷ next

unfoldable pub replace_all : Text → Text → Text → Text
unfolding replace_from
replace_all s old new = replace_from 0 s old new

-- strings.ToLower on ASCII.
unfoldable pub to_lower : Text → Text
to_lower = map (λ c. if leb b'A' c && leb c b'Z' then c + 32 else c)

-- The bytes of "·", "⟷" and "—".
abbrev pub middle_dot : Text
middle_dot = 0xC2 ∷ 0xB7 ∷ []

abbrev pub long_arrow : Text
long_arrow = 0xE2 ∷ 0x9F ∷ 0xB7 ∷ []

abbrev pub em_dash : Text
em_dash = 0xE2 ∷ 0x80 ∷ 0x94 ∷ []

-- ===== src/Merge/Lines.antt =====
-- splitLines of pkg/merge/three_way.go.
pub mod Split
pub mod Join
use leyline.Base.{
  Bool, List, Option, Text, [], has_suffix, if◌then◌else◌, is_empty, newline, none, some, split,
  ◌∷◌,
}

-- `lines[:len(lines)-1]` if the last line is empty.
unfoldable pub drop_last_empty : List Text → List Text
drop_last_empty [] = []
drop_last_empty (l ∷ []) = if is_empty l then [] else l ∷ []
drop_last_empty (l ∷ m ∷ ls) = l ∷ drop_last_empty (m ∷ ls)

-- `none` is the nil slice.
unfoldable pub split_lines : Text → Option (List Text)
unfolding drop_last_empty
split_lines [] = none
split_lines (a ∷ s) = some (drop_last_empty (split (a ∷ s) newline))

-- The elements of a slice that may be nil.
abbrev pub elements {ℓ} : {A : Type ℓ} → Option (List A) → List A
elements none = []
elements (some ls) = ls

unfoldable pub ends_in_newline : Text → Bool
ends_in_newline s = has_suffix s (newline ∷ [])

-- ===== src/Merge/Lines/Join.antt =====
-- Splitting into lines as the inverse of joining them.
use leyline.Base.{
  ==_iff, All, Bool, Bool-cases, List, Text, [], ap, cons_head, false, if◌then◌else◌, inl, inr,
  is_empty, join_lines, newline, refl, split, sym, true, ℕ, ◌++◌, ◌==◌, ◌∙◌, ◌∷◌, ◌≡◌, ◌≢◌,
}
use leyline.Merge.Lines.{drop_last_empty, ends_in_newline, split_lines}
use leyline.Merge.Lines.Split.{
  ends_in_newline-drop, ends_in_newline-one, lines, lines-ne-nil, lines-split, lines-newline,
  lines_one, lines_other,
}

-- A line has no newline in it.
abbrev pub IsLine : Text → Type 0
IsLine = All (λ c. (c == newline) ≡ false)

-- The last line, if there is one, is not blank.
abbrev pub EndsInText : List Text → Type 0
EndsInText [] = Unit
EndsInText (l ∷ []) = is_empty l ≡ false
EndsInText (l ∷ m ∷ ls) = EndsInText (m ∷ ls)

split_line : (l : Text) → IsLine l → split l newline ≡ l ∷ []
unfolding split
split_line [] h = refl
split_line (a ∷ l) h = rw (h.0, split_line l h.1)

split-line_append : (l s : Text) → IsLine l → split (l ++ newline ∷ s) newline ≡ l ∷ split s newline
unfolding split
split-line_append [] s h = refl
split-line_append (a ∷ l) s h = rw (h.0, split-line_append l s h.1)

split-join_lines :
    (l : Text) (ls : List Text) → All IsLine (l ∷ ls) → split (join_lines (l ∷ ls)) newline ≡ l ∷ ls
unfolding join_lines
split-join_lines l [] h = split_line l h.0
split-join_lines l (m ∷ ls) h =
    split-line_append l (join_lines (m ∷ ls)) h.0 ∙ ap (◌∷◌ l) (split-join_lines m ls h.1)

drop_last_empty_fixed : (ls : List Text) → EndsInText ls → drop_last_empty ls ≡ ls
unfolding drop_last_empty
drop_last_empty_fixed [] h = refl
drop_last_empty_fixed (l ∷ []) h = rw h
drop_last_empty_fixed (l ∷ m ∷ ls) h = ap (◌∷◌ l) (drop_last_empty_fixed (m ∷ ls) h)

-- Joining lines and splitting the text gives the lines back, unless the last of them is blank.
pub lines-join_lines : (ls : List Text) → All IsLine ls → EndsInText ls → lines (join_lines ls) ≡ ls
lines-join_lines [] h k = unfold join_lines split_lines in refl
lines-join_lines (l ∷ ls) h k =
    lines-split (join_lines (l ∷ ls))
    ∙ ap drop_last_empty (split-join_lines l ls h)
    ∙ drop_last_empty_fixed (l ∷ ls) k

join_lines-nil_cons : (ls : List Text) → ls ≢ [] → join_lines ([] ∷ ls) ≡ newline ∷ join_lines ls
unfolding join_lines
join_lines-nil_cons [] h = absurd (h refl)
join_lines-nil_cons (l ∷ ls) h = refl

join_lines-cons_head :
    (a : ℕ) (ls : List Text) → ls ≢ [] → join_lines (cons_head a ls) ≡ a ∷ join_lines ls
unfolding join_lines
join_lines-cons_head a [] h = absurd (h refl)
join_lines-cons_head a (l ∷ []) h = refl
join_lines-cons_head a (l ∷ m ∷ ls) h = refl

-- A text with a newline at its end, if it had one.
abbrev pub close : Bool → Text → Text
close b t = if b then t ++ newline ∷ [] else t

close-cons : (b : Bool) (a : ℕ) (t : Text) → close b (a ∷ t) ≡ a ∷ close b t
close-cons true a t = refl
close-cons false a t = refl

-- A text that is not empty is its lines joined, with the newline that it ends in.
pub close-join_lines :
    (a : ℕ) (s : Text) → close (ends_in_newline (a ∷ s)) (join_lines (lines (a ∷ s))) ≡ a ∷ s
close-join_lines a [] = elim (Bool-cases (a == newline)) [
  | inl e ↦
      rw (ends_in_newline-one, e, lines-newline a [] e)
        (unfold split_lines join_lines in ap (λ (n : ℕ). n ∷ []) (sym ((==_iff a newline).0 e)))
  | inr e ↦ rw (ends_in_newline-one, e, lines_one a e) (unfold join_lines in refl)
]
close-join_lines a (b ∷ s) = elim (Bool-cases (a == newline)) [
  | inl e ↦
      rw
        (
          ends_in_newline-drop,
          lines-newline a (b ∷ s) e,
          join_lines-nil_cons (lines (b ∷ s)) (lines-ne-nil b s),
          close-cons,
        )
        (cc ((==_iff a newline).0 e, close-join_lines b s))
  | inr e ↦
      rw
        (
          ends_in_newline-drop,
          lines_other a b s e,
          join_lines-cons_head a (lines (b ∷ s)) (lines-ne-nil b s),
          close-cons,
        )
        (ap (◌∷◌ a) (close-join_lines b s))
]

IsLine-cons_head :
    (a : ℕ) (ls : List Text) → (a == newline) ≡ false → All IsLine ls → All IsLine (cons_head a ls)
IsLine-cons_head a [] e h = ((e, tt), tt)
IsLine-cons_head a (l ∷ ls) e h = ((e, h.0), h.1)

split-IsLine : (s : Text) → All IsLine (split s newline)
unfolding split
split-IsLine [] = (tt, tt)
split-IsLine (a ∷ s) = elim (Bool-cases (a == newline)) [
  | inl e ↦ rw (e, split) (tt, split-IsLine s)
  | inr e ↦ rw (e, split) (IsLine-cons_head a _ e (split-IsLine s))
]

drop_last_empty-IsLine : (ls : List Text) → All IsLine ls → All IsLine (drop_last_empty ls)
unfolding drop_last_empty
drop_last_empty-IsLine [] h = tt
drop_last_empty-IsLine ([] ∷ []) h = tt
drop_last_empty-IsLine ((c ∷ l) ∷ []) h = h
drop_last_empty-IsLine (l ∷ m ∷ ls) h = (h.0, drop_last_empty-IsLine (m ∷ ls) h.1)

pub lines-IsLine : (s : Text) → All IsLine (lines s)
lines-IsLine s = rw lines-split (drop_last_empty-IsLine _ (split-IsLine s))

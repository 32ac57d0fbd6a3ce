-- ===== src/Merge/Lines/Split.antt =====
-- The lines of a text, and splitting over concatenation.
use leyline.Base.{
  Bool-cases, List, Text, [], ap, arith, cons_head, false, has_suffix, inl, inr, newline, refl,
  split, sym, text_eq, true, ℕ, ◌++◌, ◌==◌, ◌∙◌, ◌∷◌, ◌≡◌, ◌≢◌,
}
use leyline.Merge.Lines.{drop_last_empty, elements, ends_in_newline, split_lines}

-- The pieces of a text that is not empty: they are not one empty piece.
abbrev pub IsFull : List Text → Type 0
IsFull (l ∷ m ∷ ls) = Unit
IsFull ((c ∷ l) ∷ []) = Unit
IsFull _ = ⊥

abbrev pub lines : Text → List Text
lines s = elements (split_lines s)

pub lines-split : (s : Text) → lines s ≡ drop_last_empty (split s newline)
unfolding split_lines split
lines-split [] = refl
lines-split (a ∷ s) = refl

cons_head-ne-nil : (a : ℕ) (ls : List Text) → cons_head a ls ≢ []
cons_head-ne-nil a [] h = cc
cons_head-ne-nil a (l ∷ ls) h = cc

split-ne-nil : (s : Text) → split s newline ≢ []
unfolding split
split-ne-nil [] h = cc
split-ne-nil (a ∷ s) h = ground (arith, cons_head-ne-nil a (split s newline))

IsFull-nil_cons : (ls : List Text) → ls ≢ [] → IsFull ([] ∷ ls)
IsFull-nil_cons [] h = absurd (h refl)
IsFull-nil_cons (l ∷ ls) h = tt

IsFull-cons_head : (a : ℕ) (ls : List Text) → IsFull (cons_head a ls)
IsFull-cons_head a [] = tt
IsFull-cons_head a (l ∷ []) = tt
IsFull-cons_head a (l ∷ m ∷ ls) = tt

pub split-IsFull : (a : ℕ) (s : Text) → IsFull (split (a ∷ s) newline)
unfolding split
split-IsFull a s = elim (Bool-cases (a == newline)) [
  | inl e ↦ rw (e, split) (IsFull-nil_cons _ (split-ne-nil s))
  | inr e ↦ rw (e, split) (IsFull-cons_head a (split s newline))
]

drop_last_empty-cons_head :
    (a : ℕ) (ls : List Text)
    → IsFull ls
    → drop_last_empty (cons_head a ls) ≡ cons_head a (drop_last_empty ls)
unfolding drop_last_empty
drop_last_empty-cons_head a (l ∷ m ∷ ls) h = refl
drop_last_empty-cons_head a ((c ∷ l) ∷ []) h = refl
drop_last_empty-cons_head a ([] ∷ []) h = absurd h
drop_last_empty-cons_head a [] h = absurd h

drop_last_empty-nil_cons :
    (ls : List Text) → ls ≢ [] → drop_last_empty ([] ∷ ls) ≡ [] ∷ drop_last_empty ls
unfolding drop_last_empty
drop_last_empty-nil_cons [] h = absurd (h refl)
drop_last_empty-nil_cons (l ∷ ls) h = refl

-- The lines of a text that is not empty have a first line, which takes a byte in front.
cons_head-append :
    (a : ℕ) (ls rs : List Text)
    → IsFull ls
    → cons_head a (drop_last_empty ls ++ rs) ≡ cons_head a (drop_last_empty ls) ++ rs
unfolding drop_last_empty
cons_head-append a (l ∷ m ∷ ls) rs h = refl
cons_head-append a ((c ∷ l) ∷ []) rs h = refl
cons_head-append a ([] ∷ []) rs h = absurd h
cons_head-append a [] rs h = absurd h

pub lines-newline : (a : ℕ) (s : Text) → (a == newline) ≡ true → lines (a ∷ s) ≡ [] ∷ lines s
unfolding split
lines-newline a s e =
    lines-split (a ∷ s)
    ∙ rw (e, split)
        (drop_last_empty-nil_cons (split s newline) (split-ne-nil s)
          ∙ ap (◌∷◌ []) (sym (lines-split s)))

pub lines_other :
    (a b : ℕ) (s : Text) → (a == newline) ≡ false → lines (a ∷ b ∷ s) ≡ cons_head a (lines (b ∷ s))
unfolding split
lines_other a b s e =
    lines-split (a ∷ b ∷ s)
    ∙ rw (e, split)
        (drop_last_empty-cons_head a (split (b ∷ s) newline) (split-IsFull b s)
          ∙ ap (cons_head a) (sym (lines-split (b ∷ s))))

pub lines_one : (a : ℕ) → (a == newline) ≡ false → lines (a ∷ []) ≡ (a ∷ []) ∷ []
unfolding split drop_last_empty
lines_one a e = lines-split (a ∷ []) ∙ rw (e, split)

pub ends_in_newline-one : (a : ℕ) → ends_in_newline (a ∷ []) ≡ (a == newline)
unfolding ends_in_newline has_suffix text_eq
ends_in_newline-one a = ground arith

pub ends_in_newline-drop :
    (a b : ℕ) (s : Text) → ends_in_newline (a ∷ b ∷ s) ≡ ends_in_newline (b ∷ s)
unfolding ends_in_newline has_suffix text_eq
ends_in_newline-drop a b s = ground arith

lines_other-append :
    (a b : ℕ) (x y : Text)
    → (a == newline) ≡ false
    → lines (b ∷ x ++ y) ≡ lines (b ∷ x) ++ lines y
    → lines (a ∷ b ∷ x ++ y) ≡ lines (a ∷ b ∷ x) ++ lines y
lines_other-append a b x y e ih =
    lines_other a b (x ++ y) e
    ∙ ap (cons_head a) (ih ∙ ap (λ (t : List Text). t ++ lines y) (lines-split (b ∷ x)))
    ∙ cons_head-append a (split (b ∷ x) newline) (lines y) (split-IsFull b x)
    ∙ ap (λ (t : List Text). cons_head a t ++ lines y) (sym (lines-split (b ∷ x)))
    ∙ ap (λ (t : List Text). t ++ lines y) (sym (lines_other a b x e))

-- The lines of a text that ends in a newline come before those of what follows it.
pub lines-append : (x y : Text) → ends_in_newline x ≡ true → lines (x ++ y) ≡ lines x ++ lines y
unfolding split_lines
lines-append [] y h = unfold ends_in_newline has_suffix text_eq in cc
lines-append (a ∷ []) y h =
    let e = sym (ends_in_newline-one a) ∙ h in
    lines-newline a y e ∙ ap (λ (t : List Text). t ++ lines y) (sym (lines-newline a [] e))
lines-append (a ∷ b ∷ x) y h =
    let ih = lines-append (b ∷ x) y (sym (ends_in_newline-drop a b x) ∙ h) in
    elim (Bool-cases (a == newline)) [
      | inl e ↦
          lines-newline a (b ∷ x ++ y) e
          ∙ ap (◌∷◌ []) ih
          ∙ ap (λ (t : List Text). t ++ lines y) (sym (lines-newline a (b ∷ x) e))
      | inr e ↦ lines_other-append a b x y e ih
    ]

drop_last_empty-ne-nil : (ls : List Text) → IsFull ls → drop_last_empty ls ≢ []
unfolding drop_last_empty
drop_last_empty-ne-nil (l ∷ m ∷ ls) h e = cc
drop_last_empty-ne-nil ((c ∷ l) ∷ []) h e = cc
drop_last_empty-ne-nil ([] ∷ []) h e = h
drop_last_empty-ne-nil [] h e = h

pub lines-ne-nil : (a : ℕ) (s : Text) → lines (a ∷ s) ≢ []
lines-ne-nil a s e = drop_last_empty-ne-nil _ (split-IsFull a s) (sym (lines-split (a ∷ s)) ∙ e)

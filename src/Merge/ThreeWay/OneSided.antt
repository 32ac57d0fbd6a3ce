-- ===== src/Merge/ThreeWay/OneSided.antt =====
-- A merge in which one side left the base as it was.
use leyline.Base.{
  All, Bool, Bool-cases, List, Text, [], ap, append-nil, arith, concat, false, has_suffix, inl, inr,
  join_lines, length, length-append, newline, not, refl, sym, text_eq, text_eq_iff, true, ℕ, ◌&&◌,
  ◌++◌, ◌||◌, ◌∙◌, ◌∷◌, ◌≡◌,
}
use leyline.Merge.Lines.{ends_in_newline, split_lines}
use leyline.Merge.Lines.Split.{lines, lines-append}
use leyline.Merge.Lines.Join.{EndsInText, close, close-join_lines, lines-IsLine, lines-join_lines}
use leyline.Merge.Hunks.{
  Diff, EditHunk, apply_hunks, compute_hunks, diff_equal, fold_hunks, has_overlap, raw_hunks,
}
use leyline.Merge.Hunks.Apply.{apply_hunks-one_side, lines_of, new_texts, old_texts}
use leyline.Merge.ThreeWay.{merged, restore_newline, three_way_merge}

-- The pieces of one text are made of whole lines: only the last one may lack its newline.
abbrev pub AreWhole : List Text → Type 0
AreWhole [] = Unit
AreWhole (t ∷ []) = Unit
AreWhole (t ∷ u ∷ ts) = (ends_in_newline t ≡ true) × AreWhole (u ∷ ts)

abbrev pub AllEqual : List Diff → Type 0
AllEqual = All (λ d. d.type ≡ diff_equal)

-- What go-diff documents of a line diff: the pieces make up both texts, in whole lines, and a text
-- does not differ from itself.
pub record IsLineDiff (diff : Text → Text → List Diff) : Type 0 where
  pub old : (a b : Text) → concat (old_texts (diff a b)) ≡ a
  pub new : (a b : Text) → concat (new_texts (diff a b)) ≡ b
  pub whole_old : (a b : Text) → AreWhole (old_texts (diff a b))
  pub whole_new : (a b : Text) → AreWhole (new_texts (diff a b))
  pub same : (a : Text) → AllEqual (diff a a)

lines_of-concat : (ts : List Text) → AreWhole ts → lines_of ts ≡ lines (concat ts)
lines_of-concat [] h = unfold split_lines in refl
lines_of-concat (t ∷ []) h = append-nil (lines t) ∙ ap lines (sym (append-nil t))
lines_of-concat (t ∷ u ∷ ts) h =
    ap (◌++◌ (lines t)) (lines_of-concat (u ∷ ts) h.1) ∙ sym (lines-append t (concat (u ∷ ts)) h.0)

raw_hunks_same : (ds : List Diff) (line : ℕ) → AllEqual ds → raw_hunks line ds ≡ []
unfolding raw_hunks
raw_hunks_same [] line h = refl
raw_hunks_same (d ∷ ds) line h = rw h.0 (raw_hunks_same ds _ h.1)

compute_hunks_same :
    (diff : Text → Text → List Diff) (base : List Text)
    → IsLineDiff diff
    → compute_hunks diff base base ≡ []
unfolding compute_hunks
compute_hunks_same diff base d =
    ap fold_hunks
      (raw_hunks_same (diff (join_lines base) (join_lines base)) 0 (d.same (join_lines base)))

-- A text whose last line is not blank.
abbrev pub HasNoBlankEnd : Text → Type 0
HasNoBlankEnd s = EndsInText (lines s)

-- The hunks of one text against the base turn the lines of the base into those of the text.
pub apply_hunks-lines :
    (diff : Text → Text → List Diff) (base modified : Text)
    → IsLineDiff diff
    → HasNoBlankEnd base
    → HasNoBlankEnd modified
    → apply_hunks (lines base) (compute_hunks diff (lines base) (lines modified)) []
      ≡ lines modified
apply_hunks-lines diff base modified d hb hm =
    let a = join_lines (lines base) in
    let b = join_lines (lines modified) in
    apply_hunks-one_side diff (lines base) (lines modified) (
      sym (
        lines_of-concat (old_texts (diff a b)) (d.whole_old a b)
        ∙ ap lines (d.old a b)
        ∙ lines-join_lines (lines base) (lines-IsLine base) hb))
    ∙ lines_of-concat (new_texts (diff a b)) (d.whole_new a b)
    ∙ ap lines (d.new a b)
    ∙ lines-join_lines (lines modified) (lines-IsLine modified) hm

has_overlap_none : (hs : List EditHunk) → has_overlap hs [] ≡ false
unfolding has_overlap
has_overlap_none [] = refl
has_overlap_none (h ∷ hs) = has_overlap_none hs

close_apart : (b : Bool) (t : Text) → close b t ≡ t → b ≡ false
close_apart true t e = absurd (omega (arith, length-append t (newline ∷ []), ap length e))
close_apart false t e = refl

fixed-ends : (j : Text) → join_lines (lines j) ≡ j → ends_in_newline j ≡ false
fixed-ends [] h = unfold ends_in_newline has_suffix text_eq in refl
fixed-ends (c ∷ s) h =
    close_apart (ends_in_newline (c ∷ s)) (c ∷ s)
      (ap (close (ends_in_newline (c ∷ s))) (sym h) ∙ close-join_lines c s)

join_lines-ends : (s : Text) → HasNoBlankEnd s → ends_in_newline (join_lines (lines s)) ≡ false
join_lines-ends s h =
    fixed-ends (join_lines (lines s))
      (ap join_lines (lines-join_lines (lines s) (lines-IsLine s) h))

close-and_not : (b : Bool) (t : Text) → t ≡ close (b && not b) t
close-and_not true t = refl
close-and_not false t = refl

restore_newline-close :
    (b : Bool) (t : Text) → ends_in_newline t ≡ false → restore_newline b t ≡ close b t
unfolding restore_newline
restore_newline-close b t e = ground arith

-- The content of a merge whose client text is the base, in the branch that computes hunks.
one_sided_content :
    (diff : Text → Text → List Diff) (base : Text) (c : ℕ) (s : Text)
    → IsLineDiff diff
    → HasNoBlankEnd base
    → HasNoBlankEnd (c ∷ s)
    → restore_newline
        (ends_in_newline (c ∷ s) || ends_in_newline base)
        (join_lines (apply_hunks (lines base) (compute_hunks diff (lines base) (lines (c ∷ s))) []))
      ≡ close (ends_in_newline base && not (ends_in_newline (c ∷ s))) (c ∷ s)
one_sided_content diff base c s d hb hs =
    rw
      (
        apply_hunks-lines diff base (c ∷ s) d hb hs,
        restore_newline-close _ _ (join_lines-ends (c ∷ s) hs),
      )
      (ground (arith, close-join_lines c s))

-- With a line diff, when the client text is the base, the merge has no conflict and its content is
-- the server text, to which a newline is added if the base ended in one and the server text does
-- not. The server text is not empty, and neither text ends in a blank line.
pub merge-client_unchanged :
    (diff : Text → Text → List Diff) (base : Text) (c : ℕ) (s : Text)
    → IsLineDiff diff
    → HasNoBlankEnd base
    → HasNoBlankEnd (c ∷ s)
    → ((three_way_merge diff base (c ∷ s) base).has_conflict ≡ false)
      × ((three_way_merge diff base (c ∷ s) base).content
          ≡ close (ends_in_newline base && not (ends_in_newline (c ∷ s))) (c ∷ s))
unfolding three_way_merge
merge-client_unchanged diff base c s d hb hs = elim (Bool-cases (text_eq (c ∷ s) base)) [
  | inl e ↦ rw e (
      unfold merged in
      (
        refl,
        close-and_not (ends_in_newline (c ∷ s)) (c ∷ s)
            ∙ ap (λ b. close (ends_in_newline b && not (ends_in_newline (c ∷ s))) (c ∷ s))
                ((text_eq_iff (c ∷ s) base).0 e),
      ))
  | inr e ↦
      rw
        (
          e,
          compute_hunks_same diff (lines base) d,
          has_overlap_none (compute_hunks diff (lines base) (lines (c ∷ s))),
        )
        (unfold merged in (refl, one_sided_content diff base c s d hb hs))
]

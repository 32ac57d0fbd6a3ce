-- ===== src/Merge/Hunks/Apply.antt =====
-- Applying the hunks of one side to the base gives that side's lines.
use leyline.Base.{
  Bool-cases, List, Text, [], ap, append-nil, append_assoc, arith, drop, drop-add, drop-append_self,
  drop_all, inl, inr, join_lines, length, ltb, refl, sym, take, take-add, take-append-drop,
  take-append_self, ℕ, ◌++◌, ◌+◌, ◌-◌, ◌∙◌, ◌∷◌, ◌≡◌, ◌≤◌,
}
use leyline.Merge.Hunks.{
  Diff, DiffType, EditHunk, apply_from, apply_hunks, between, compute_hunks, diff_delete,
  diff_equal, diff_insert, fold_hunks, hunk_of, is_deletion, is_insertion, line_after, raw_hunks,
  starts_before,
}
use leyline.Merge.Hunks.Chain.{
  IsChain, IsChain-InOrder, compute_hunks-IsChain, is_deletion_parts, is_insertion_parts,
  raw_hunks-IsChain,
}
use leyline.Merge.Lines.{elements, split_lines}
use leyline.Base.Sorting.{sort_slice}
use leyline.Base.Sorting.Laws.{sort_slice_fixed}

between_none : (base : List Text) (p q : ℕ) → q ≤ p → between base p q ≡ []
unfolding between
between_none base p q h = ground arith

between-take : (base : List Text) (p r : ℕ) → between base p r ≡ take (r - p) (drop p base)
unfolding between
between-take base p r = elim (Bool-cases (ltb p r)) [
  | inl e ↦ rw e
  | inr e ↦ let z : r - p ≡ 0 = ground arith in rw (e, z)
]

between_step : (base : List Text) (p n : ℕ) → between base p (p + n) ≡ take n (drop p base)
between_step base p n = between-take base p (p + n) ∙ ap (λ k. take k (drop p base)) (omega arith)

-- What stands up to `r` is what stands up to `p + n`, and from there up to `r`.
between-split :
    (base : List Text) (p n r : ℕ)
    → p + n ≤ r
    → between base p r ≡ take n (drop p base) ++ between base (p + n) r
between-split base p n r h =
    between-take base p r
    ∙ ap (λ k. take k (drop p base)) (let e : r - p ≡ n + (r - (p + n)) = omega arith in e)
    ∙ take-add n (r - (p + n)) (drop p base)
    ∙ ap (λ (t : List Text). take n (drop p base) ++ t)
        (ap (take (r - (p + n))) (sym (drop-add p n base)) ∙ sym (between-take base (p + n) r))

-- Folding pairs of hunks changes nothing in what the hunks do.
apply_from-fold :
    (base : List Text) (pos : ℕ) (hs : List EditHunk)
    → apply_from base pos (fold_hunks hs) ≡ apply_from base pos hs
unfolding apply_from fold_hunks
apply_from-fold base pos [] = refl
apply_from-fold base pos (cur ∷ []) = refl
apply_from-fold base pos (cur ∷ next ∷ rest) = elim (Bool-cases (is_deletion cur next)) [
  | inl e ↦
      let p = is_deletion_parts cur next e in
      rw (e, fold_hunks)
        (cc (
          p.0,
          p.1,
          p.2,
          between_none base cur.base_end next.base_start (omega arith),
          apply_from-fold base cur.base_end rest,
        ))
  | inr e ↦ elim (Bool-cases (is_insertion cur next)) [
    | inl k ↦
        let p = is_insertion_parts cur next k in
        rw (e, k, fold_hunks)
          (cc (
            p.1,
            p.2,
            between_none base cur.base_end next.base_start (omega arith),
            apply_from-fold base next.base_end rest,
          ))
    | inr k ↦ rw (e, k, fold_hunks) (cc (apply_from-fold base cur.base_end (next ∷ rest)))
  ]
]

-- The texts of the pieces that stand in the old text, and of those that stand in the new one.
abbrev pub old_texts : List Diff → List Text
old_texts [] = []
old_texts (d ∷ ds) = elim d.type [ diff_insert ↦ old_texts ds | _ ↦ d.text ∷ old_texts ds ]

abbrev pub new_texts : List Diff → List Text
new_texts [] = []
new_texts (d ∷ ds) = elim d.type [ diff_delete ↦ new_texts ds | _ ↦ d.text ∷ new_texts ds ]

abbrev pub lines_of : List Text → List Text
lines_of [] = []
lines_of (t ∷ ts) = elements (split_lines t) ++ lines_of ts

apply_from_end : (base : List Text) (pos : ℕ) → apply_from base pos [] ≡ drop pos base
unfolding apply_from
apply_from_end base pos = ground (arith, drop_all pos base)

-- Up to the first hunk the base is copied.
apply_from-skip :
    (base : List Text) (pos n : ℕ) (hs : List EditHunk)
    → IsChain (pos + n) hs
    → apply_from base pos hs ≡ take n (drop pos base) ++ apply_from base (pos + n) hs
apply_from-skip base pos n [] c =
    apply_from_end base pos
    ∙ sym (take-append-drop n (drop pos base))
    ∙ ap (λ (t : List Text). take n (drop pos base) ++ t)
        (sym (drop-add pos n base) ∙ sym (apply_from_end base (pos + n)))
apply_from-skip base pos n (h ∷ hs) c =
    unfold apply_from in
    ap (λ (t : List Text). t ++ (elements h.new_lines ++ apply_from base h.base_end hs))
      (between-split base pos n h.base_start c.0)
    ∙ append_assoc (take n (drop pos base)) (between base (pos + n) h.base_start) _

drop-piece :
    (base : List Text) (pos : ℕ) (ls rest : List Text)
    → drop pos base ≡ ls ++ rest
    → (drop (pos + length ls) base ≡ rest) × (take (length ls) (drop pos base) ≡ ls)
drop-piece base pos ls rest h = (
  drop-add pos (length ls) base ∙ ap (drop (length ls)) h ∙ drop-append_self ls rest,
  ap (take (length ls)) h ∙ take-append_self ls rest,
)

-- One piece, before pieces for which the claim holds.
raw_step :
    (base : List Text) (ds : List Diff)
    → ((pos : ℕ)
        → drop pos base ≡ lines_of (old_texts ds)
        → apply_from base pos (raw_hunks pos ds) ≡ lines_of (new_texts ds))
    → (t : DiffType) (text : Text) (pos : ℕ)
    → drop pos base ≡ lines_of (old_texts (record { type = t; text = text } ∷ ds))
    → apply_from base pos (hunk_of t pos text ++ raw_hunks (line_after t pos text) ds)
      ≡ lines_of (new_texts (record { type = t; text = text } ∷ ds))
unfolding hunk_of line_after
raw_step base ds ih diff_equal text pos h =
    let ls = elements (split_lines text) in
    let (after, here) = drop-piece base pos ls (lines_of (old_texts ds)) h in
    apply_from-skip base pos (length ls) (raw_hunks (pos + length ls) ds)
      (raw_hunks-IsChain ds (pos + length ls))
    ∙ cc (here, ih (pos + length ls) after)
raw_step base ds ih diff_delete text pos h =
    let ls = elements (split_lines text) in
    let (after, here) = drop-piece base pos ls (lines_of (old_texts ds)) h in
    unfold apply_from in cc (between_none base pos pos (omega arith), ih (pos + length ls) after)
raw_step base ds ih diff_insert text pos h =
    unfold apply_from in cc (between_none base pos pos (omega arith), ih pos h)

apply_from-raw :
    (base : List Text) (ds : List Diff) (pos : ℕ)
    → drop pos base ≡ lines_of (old_texts ds)
    → apply_from base pos (raw_hunks pos ds) ≡ lines_of (new_texts ds)
unfolding raw_hunks
apply_from-raw base [] pos h = apply_from_end base pos ∙ h
apply_from-raw base (d ∷ ds) pos h = raw_step base ds (apply_from-raw base ds) d.type d.text pos h

-- With the hunks of one side alone, `applyHunks` gives the lines of the pieces of the new text.
pub apply_hunks-one_side :
    (diff : Text → Text → List Diff) (base modified : List Text)
    → base ≡ lines_of (old_texts (diff (join_lines base) (join_lines modified)))
    → apply_hunks base (compute_hunks diff base modified) []
      ≡ lines_of (new_texts (diff (join_lines base) (join_lines modified)))
unfolding apply_hunks
apply_hunks-one_side diff base modified h =
    let ds = diff (join_lines base) (join_lines modified) in
    let hs = compute_hunks diff base modified in
    let chain = compute_hunks-IsChain diff base modified in
    ap (λ l. apply_from base 0 (sort_slice starts_before l)) (append-nil hs)
    ∙ ap (apply_from base 0) (sort_slice_fixed starts_before hs (IsChain-InOrder 0 hs chain))
    ∙ unfold compute_hunks in (apply_from-fold base 0 (raw_hunks 0 ds) ∙ apply_from-raw base ds 0 h)

-- ===== src/Merge/Hunks/Chain.antt =====
-- The hunks of one side stand in order, one after the other.
use leyline.Base.{
  Bool-cases, List, Text, [], arith, inl, inr, join_lines, length, none, true, ℕ, ◌++◌, ◌+◌, ◌∷◌,
  ◌≡◌, ◌≤◌,
}
use leyline.Merge.Lines.{elements, split_lines}
use leyline.Base.Sorting.Laws.{InOrder}
use leyline.Merge.Hunks.{
  Diff, DiffType, EditHunk, compute_hunks, diff_delete, diff_equal, diff_insert, fold_hunks,
  hunk_of, is_deletion, is_insertion, line_after, raw_hunks, starts_before,
}

-- Each hunk begins at or after the end of the one in front of it.
abbrev pub IsChain : ℕ → List EditHunk → Type 0
IsChain pos [] = Unit
IsChain pos (h ∷ hs) = (pos ≤ h.base_start) × (h.base_start ≤ h.base_end) × IsChain h.base_end hs

IsChain-weaken : {p q : ℕ} (hs : List EditHunk) → p ≤ q → IsChain q hs → IsChain p hs
IsChain-weaken [] le h = tt
IsChain-weaken (x ∷ hs) le h = (omega arith, h.1, h.2)

raw_step-IsChain :
    (t : DiffType) (line : ℕ) (text : Text) (ds : List Diff)
    → ((l : ℕ) → IsChain l (raw_hunks l ds))
    → IsChain line (hunk_of t line text ++ raw_hunks (line_after t line text) ds)
unfolding hunk_of line_after
raw_step-IsChain diff_equal line text ds ih =
    IsChain-weaken (raw_hunks (line + length (elements (split_lines text))) ds) (omega arith)
      (ih (line + length (elements (split_lines text))))
raw_step-IsChain diff_delete line text ds ih =
    (omega arith, omega arith, ih (line + length (elements (split_lines text))))
raw_step-IsChain diff_insert line text ds ih = (omega arith, omega arith, ih line)

pub raw_hunks-IsChain : (ds : List Diff) (line : ℕ) → IsChain line (raw_hunks line ds)
unfolding raw_hunks
raw_hunks-IsChain [] line = tt
raw_hunks-IsChain (d ∷ ds) line = raw_step-IsChain d.type line d.text ds (raw_hunks-IsChain ds)

pub is_deletion_parts :
    (cur next : EditHunk)
    → is_deletion cur next ≡ true
    → (cur.base_end ≡ next.base_start) × (cur.new_lines ≡ none) × (next.base_start ≡ next.base_end)
unfolding is_deletion
is_deletion_parts cur next h = ground arith

pub is_insertion_parts :
    (cur next : EditHunk)
    → is_insertion cur next ≡ true
    → (cur.base_start ≡ cur.base_end) × (next.base_start ≡ cur.base_start) × (next.new_lines ≡ none)
unfolding is_insertion
is_insertion_parts cur next h = ground arith

fold_hunks-IsChain : (pos : ℕ) (hs : List EditHunk) → IsChain pos hs → IsChain pos (fold_hunks hs)
unfolding fold_hunks
fold_hunks-IsChain pos [] h = tt
fold_hunks-IsChain pos (cur ∷ []) h = h
fold_hunks-IsChain pos (cur ∷ next ∷ rest) h = elim (Bool-cases (is_deletion cur next)) [
  | inl e ↦
      let p = is_deletion_parts cur next e in
      rw (e, fold_hunks)
        (
          omega arith,
          omega arith,
          fold_hunks-IsChain cur.base_end rest (IsChain-weaken rest (omega arith) h.2.2),
        )
  | inr e ↦ elim (Bool-cases (is_insertion cur next)) [
    | inl k ↦
        let p = is_insertion_parts cur next k in
        rw (e, k, fold_hunks)
          (omega arith, omega arith, fold_hunks-IsChain next.base_end rest h.2.2)
    | inr k ↦ rw (e, k, fold_hunks) (h.0, h.1, fold_hunks-IsChain cur.base_end (next ∷ rest) h.2)
  ]
]

-- The hunks of `computeHunks` stand in order, whatever the diff library returns.
pub compute_hunks-IsChain :
    (diff : Text → Text → List Diff) (base modified : List Text)
    → IsChain 0 (compute_hunks diff base modified)
unfolding compute_hunks
compute_hunks-IsChain diff base modified =
    fold_hunks-IsChain 0 _ (raw_hunks-IsChain (diff (join_lines base) (join_lines modified)) 0)

-- A chain is in the order by which `applyHunks` sorts.
pub IsChain-InOrder : (pos : ℕ) (hs : List EditHunk) → IsChain pos hs → InOrder starts_before hs
unfolding starts_before
IsChain-InOrder pos [] h = tt
IsChain-InOrder pos (a ∷ []) h = tt
IsChain-InOrder pos (a ∷ b ∷ hs) h = (ground arith, IsChain-InOrder a.base_end (b ∷ hs) h.2)

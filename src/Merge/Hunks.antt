-- ===== src/Merge/Hunks.antt =====
-- computeHunks, rangesOverlap, hasOverlap and applyHunks of pkg/merge/three_way.go.
pub mod Overlap
pub mod Chain
pub mod Apply
use leyline.Base.{
  Bool, List, Option, Text, [], any, drop, if◌then◌else◌, is_none, join_lines, length, ltb, none,
  slice, true, ℕ, ◌&&◌, ◌++◌, ◌+◌, ◌==◌, ◌∷◌,
}
use leyline.Base.Sorting.{sort_slice}
use leyline.Merge.Lines.{elements, split_lines}

-- `none` for `new_lines` is nil, which marks a deletion.
pub record EditHunk : Type 0 where
  pub base_start : ℕ
  pub base_end : ℕ
  pub new_lines : Option (List Text)

-- One piece of a diff of the library go-diff.
pub data DiffType : Type 0 where
  diff_equal diff_delete diff_insert : DiffType

pub record Diff : Type 0 where
  pub type : DiffType
  pub text : Text

-- The loop over the pieces, from a line number of the base.
hunk_of : DiffType → ℕ → Text → List EditHunk
hunk_of diff_equal line text = []
hunk_of diff_delete line text =
    let n = length (elements (split_lines text)) in
    record { base_start = line; base_end = line + n; new_lines = none } ∷ []
hunk_of diff_insert line text =
    record { base_start = line; base_end = line; new_lines = split_lines text } ∷ []

-- The line number after a piece.
line_after : DiffType → ℕ → Text → ℕ
line_after diff_equal line text = line + length (elements (split_lines text))
line_after diff_delete line text = line + length (elements (split_lines text))
line_after diff_insert line text = line

unfoldable pub raw_hunks : ℕ → List Diff → List EditHunk
unfolding hunk_of line_after
raw_hunks line [] = []
raw_hunks line (d ∷ ds) = hunk_of d.type line d.text ++ raw_hunks (line_after d.type line d.text) ds

pub is_deletion : EditHunk → EditHunk → Bool
is_deletion cur next =
    cur.base_end == next.base_start && is_none cur.new_lines && next.base_start == next.base_end

pub is_insertion : EditHunk → EditHunk → Bool
is_insertion cur next =
    cur.base_start == cur.base_end && next.base_start == cur.base_start && is_none next.new_lines

-- The second loop: a deletion and an insertion at one position become a replacement.
unfoldable pub fold_hunks : List EditHunk → List EditHunk
unfolding is_deletion is_insertion
fold_hunks [] = []
fold_hunks (cur ∷ []) = cur ∷ []
fold_hunks (cur ∷ next ∷ rest) =
    let pair = fold_hunks rest in
    let single = fold_hunks (next ∷ rest) in
    if is_deletion cur next
    then record cur { new_lines = next.new_lines } ∷ pair
    else if is_insertion cur next
    then record next { new_lines = cur.new_lines } ∷ pair
    else cur ∷ single

-- `diff` is the three calls of go-diff: lines to characters, the diff, characters to lines.
unfoldable pub compute_hunks : (Text → Text → List Diff) → List Text → List Text → List EditHunk
unfolding raw_hunks fold_hunks
compute_hunks diff base modified =
    fold_hunks (raw_hunks 0 (diff (join_lines base) (join_lines modified)))

unfoldable pub ranges_overlap : ℕ → ℕ → ℕ → ℕ → Bool
ranges_overlap s1 e1 s2 e2 =
    if s1 == e1 && s2 == e2 && s1 == s2
    then true
    else if s1 == e1
    then ltb s2 s1 && ltb s1 e2
    else if s2 == e2
    then ltb s1 s2 && ltb s2 e1
    else ltb s1 e2 && ltb s2 e1

abbrev pub hunks_overlap : EditHunk → EditHunk → Bool
hunks_overlap a b = ranges_overlap a.base_start a.base_end b.base_start b.base_end

unfoldable pub has_overlap : List EditHunk → List EditHunk → Bool
has_overlap server_hunks client_hunks =
    any (λ sh. any (λ ch. hunks_overlap sh ch) client_hunks) server_hunks

-- The order of the calls of sort.Slice.
unfoldable pub starts_before : EditHunk → EditHunk → Bool
starts_before a b =
    if a.base_start == b.base_start
    then ltb a.base_end b.base_end
    else ltb a.base_start b.base_start

-- `base[pos:start]` if `start > pos`.
pub between : List Text → ℕ → ℕ → List Text
between base pos start = if ltb pos start then slice pos start base else []

-- The loop of `applyHunks`, from the position `pos` of the base.
unfoldable pub apply_from : List Text → ℕ → List EditHunk → List Text
unfolding between
apply_from base pos [] = if ltb pos (length base) then drop pos base else []
apply_from base pos (h ∷ hs) =
    between base pos h.base_start ++ (elements h.new_lines ++ apply_from base h.base_end hs)

unfoldable pub apply_hunks : List Text → List EditHunk → List EditHunk → List Text
apply_hunks base server_hunks client_hunks =
    apply_from base 0 (sort_slice starts_before (server_hunks ++ client_hunks))

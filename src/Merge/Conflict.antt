-- ===== src/Merge/Conflict.antt =====
-- WriteCalloutFile and renderConflictFile of pkg/merge/callout.go: the file with its conflict
-- regions written out among the base lines and the disjoint hunks.
use leyline.Base.{
  Bool, List, Option, Text, [], drop, if◌then◌else◌, join_lines, length, ltb, map, newline, none,
  slice, some, trim_right, ℕ, ◌++◌, ◌==◌, ◌∷◌,
}
use leyline.Base.Sorting.{sort_slice}
use leyline.Merge.Lines.{elements}
use leyline.Merge.Hunks.{Diff}
use leyline.Merge.Partition.{ConflictHunk}
use leyline.Merge.ThreeWay.{MergeResult, three_way_merge}
use leyline.Merge.Format.Callout.{format_callout_block}

-- `conflict` is nil for a disjoint hunk, and `new_lines` for a region.
pub record Marker : Type 0 where
  pub start : ℕ
  pub end : ℕ
  pub new_lines : Option (List Text)
  pub conflict : Option ConflictHunk

unfoldable pub markers : MergeResult → List Marker
markers res =
    map
      (λ h. record {
        start = h.base_start;
        end = h.base_end;
        new_lines = h.new_lines;
        conflict = none;
      })
      res.disjoint_hunks
    ++ map
        (λ c. record {
          start = c.base_start;
          end = c.base_end;
          new_lines = none;
          conflict = some c;
        })
        res.conflict_hunks

unfoldable pub marker_before : Marker → Marker → Bool
marker_before a b = if a.start == b.start then ltb a.end b.end else ltb a.start b.start

-- strings.Join(ls, "\n") and a newline.
unfoldable pub write_context : List Text → Text
write_context ls = join_lines ls ++ newline ∷ []

-- What is written at a marker: its region, or its new lines if it has any.
unfoldable pub marker_text : (ConflictHunk → Text) → Marker → Text
unfolding write_context
marker_text emit_conflict m = elim m.conflict [
  | some c ↦ emit_conflict c
  | none ↦ let lines = elements m.new_lines in if length lines == 0 then [] else write_context lines
]

-- The loop over the markers, from the position `pos` of the base.
unfoldable pub render_from : (ConflictHunk → Text) → List Text → ℕ → List Marker → Text
unfolding write_context marker_text
render_from emit_conflict base pos [] =
    if ltb pos (length base) then write_context (drop pos base) else []
render_from emit_conflict base pos (m ∷ ms) =
    (if ltb pos m.start then write_context (slice pos m.start base) else [])
    ++ (marker_text emit_conflict m ++ render_from emit_conflict base m.end ms)

unfoldable pub render_conflict_file : MergeResult → (ConflictHunk → Text) → Text
render_conflict_file res emit_conflict =
    let out = render_from emit_conflict res.base_lines 0 (sort_slice marker_before (markers res)) in
    if res.trailing_newline then out else trim_right out newline

-- `diff` is the line diff of go-diff; the error is always nil.
unfoldable pub write_callout_file :
    (Text → Text → List Diff) → Text → Text → Text → Text → Text → Text → Text
write_callout_file diff base server client server_keyname client_keyname ts =
    let res = three_way_merge diff base server client in
    if res.has_conflict
    then render_conflict_file res (λ h.
      format_callout_block server_keyname client_keyname ts (join_lines h.server_lines)
        (join_lines h.client_lines))
    else res.content

-- ===== src/Merge/ThreeWay.antt =====
-- ThreeWayMerge of pkg/merge/three_way.go.
pub mod Symmetry
pub mod OneSided
use leyline.Base.{
  Bool, List, Text, [], false, if◌then◌else◌, join_lines, newline, not, text_eq, true, ◌&&◌, ◌++◌,
  ◌||◌, ◌∷◌,
}
use leyline.Merge.Lines.{elements, ends_in_newline, split_lines}
use leyline.Merge.Hunks.{Diff, EditHunk, apply_hunks, compute_hunks, has_overlap}
use leyline.Merge.Partition.{ConflictHunk, partition_hunks}

pub record MergeResult : Type 0 where
  pub has_conflict : Bool
  pub content : Text
  pub conflict_hunks : List ConflictHunk
  pub disjoint_hunks : List EditHunk
  pub base_lines : List Text
  pub trailing_newline : Bool

-- A result without a conflict.
unfoldable pub merged : Text → Bool → MergeResult
merged content trailing_newline = record {
  has_conflict = false;
  content = content;
  conflict_hunks = [];
  disjoint_hunks = [];
  base_lines = [];
  trailing_newline = trailing_newline;
}

-- `result += "\n"` where an input ends in a newline and the result does not.
unfoldable pub restore_newline : Bool → Text → Text
restore_newline trailing_newline result =
    if trailing_newline && not (ends_in_newline result) then result ++ newline ∷ [] else result

-- `diff` is the line diff of go-diff.
unfoldable pub three_way_merge : (Text → Text → List Diff) → Text → Text → Text → MergeResult
three_way_merge diff base server client =
    let trailing_newline = ends_in_newline server || ends_in_newline client in
    let base_lines = elements (split_lines base) in
    let server_hunks = compute_hunks diff base_lines (elements (split_lines server)) in
    let client_hunks = compute_hunks diff base_lines (elements (split_lines client)) in
    let parts = partition_hunks server_hunks client_hunks in
    if text_eq server client
    then merged server (ends_in_newline server)
    else if has_overlap server_hunks client_hunks
    then record {
      has_conflict = true;
      content = [];
      conflict_hunks = parts.0;
      disjoint_hunks = parts.1;
      base_lines = base_lines;
      trailing_newline = trailing_newline;
    }
    else merged
        (restore_newline trailing_newline
          (join_lines (apply_hunks base_lines server_hunks client_hunks)))
        false

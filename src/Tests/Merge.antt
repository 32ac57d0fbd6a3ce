-- ===== src/Tests/Merge.antt =====
-- Tests of package pkg/merge.
use leyline.Base.{
  All, AllPairs, Bool-cases, List, String, [], append-nil, arith, codes, cut_last, false,
  has_prefix, has_suffix, inl, inr, join_lines, keep, length, refl, replace_all, replace_from,
  replicate, some, split, text_eq, text_eq_iff, text_eq_refl, true, ℕ, ◌++◌, ◌+◌, ◌<◌, ◌∙◌, ◌∷◌,
  ◌≡◌, ◌≤◌,
}
use leyline.Base.Sorting.{sort_slice}
use leyline.Merge.Lines.{drop_last_empty, ends_in_newline, split_lines}
use leyline.Merge.Hunks.{
  EditHunk, apply_from, apply_hunks, compute_hunks, fold_hunks, has_overlap, ranges_overlap,
  raw_hunks,
}
use leyline.Merge.Hunks.Chain.{IsChain, compute_hunks-IsChain}
use leyline.Merge.Partition.{
  ConflictHunk, Tagged, client_overlaps, expand, grow, joins, partition_hunks, region_of, scan_pool,
  server_overlaps,
}
use leyline.Merge.Partition.Expand.{expand_stable}
use leyline.Merge.Partition.Contents.{occurs_in, occurs_on, partition_hunks-keeps}
use leyline.Merge.Partition.Regions.{AreApart, partition_hunks-apart}
use leyline.Merge.ThreeWay.{merged, restore_newline, three_way_merge}
use leyline.Merge.ThreeWay.OneSided.{IsLineDiff, merge-client_unchanged}
use leyline.Merge.ThreeWay.Symmetry.{merge_symmetric}
use leyline.Merge.Format.Callout.{backtick, backtick_fence}
use leyline.Merge.Format.Fence.{backtick_fence_longer}
use leyline.Merge.Format.Sidecar.{
  base_name, compact_timestamp, ext_of, in_dir_of, sidecar_path, stem,
}
use leyline.Tests.Samples.{whole_diff}

whole_diff-IsLineDiff : IsLineDiff whole_diff
unfolding whole_diff
whole_diff-IsLineDiff = record {
  old = λ a b. elim (Bool-cases (text_eq a b)) [
    | inl e ↦ rw e (append-nil a)
    | inr e ↦ rw e (append-nil a)
  ];
  new = λ a b. elim (Bool-cases (text_eq a b)) [
    | inl e ↦ rw e (append-nil a ∙ (text_eq_iff a b).0 e)
    | inr e ↦ rw e (append-nil b)
  ];
  whole_old = λ a b. elim (Bool-cases (text_eq a b)) [ inl e ↦ rw e tt | inr e ↦ rw e tt ];
  whole_new = λ a b. elim (Bool-cases (text_eq a b)) [ inl e ↦ rw e tt | inr e ↦ rw e tt ];
  same = λ a. rw (text_eq_refl a) (refl, tt);
}

-- A change of one side alone is taken over, and the lost newline is put back.
merge-client_unchanged_example :
    ((three_way_merge whole_diff (codes "a\nb\n") (codes "c\nb") (codes "a\nb\n")).has_conflict
      ≡ false)
    × ((three_way_merge whole_diff (codes "a\nb\n") (codes "c\nb") (codes "a\nb\n")).content
        ≡ codes "c\nb\n")
unfolding split_lines split ends_in_newline has_suffix text_eq drop_last_empty
merge-client_unchanged_example =
    merge-client_unchanged whole_diff (codes "a\nb\n") b'c' (codes "\nb") whole_diff-IsLineDiff refl
      refl

-- A blank line at the end of both the base and the server text is lost.
three_way_merge-blank_end :
    (three_way_merge whole_diff (codes "a\n\n") (codes "b\n\n") (codes "a\n\n")).content
    ≡ codes "b\n"
unfolding sort_slice three_way_merge split_lines split ends_in_newline has_suffix text_eq
    drop_last_empty join_lines whole_diff compute_hunks raw_hunks fold_hunks has_overlap apply_hunks
    apply_from merged restore_newline
three_way_merge-blank_end = refl

merge_symmetric_example :
    ((three_way_merge whole_diff (codes "a\n") (codes "b\n") (codes "c\n")).has_conflict
      ≡ (three_way_merge whole_diff (codes "a\n") (codes "c\n") (codes "b\n")).has_conflict)
    × ((three_way_merge whole_diff (codes "a\n") (codes "b\n") (codes "c\n")).content
        ≡ (three_way_merge whole_diff (codes "a\n") (codes "c\n") (codes "b\n")).content)
merge_symmetric_example = merge_symmetric whole_diff (codes "a\n") (codes "b\n") (codes "c\n")

abbrev hunk : ℕ → ℕ → String → EditHunk
hunk s e l = record { base_start = s; base_end = e; new_lines = some (codes l ∷ []) }

abbrev server_side : List EditHunk
server_side = hunk 0 2 "s" ∷ hunk 5 6 "t" ∷ []

abbrev client_side : List EditHunk
client_side = hunk 1 3 "c" ∷ []

partition_hunks-keeps_example :
    (occurs_on true (codes "s") (partition_hunks server_side client_side).0
      ≡ occurs_in (codes "s") (keep (server_overlaps client_side) server_side))
    × (occurs_on false (codes "s") (partition_hunks server_side client_side).0
        ≡ occurs_in (codes "s") (keep (client_overlaps server_side) client_side))
    × (occurs_on true (codes "s") (partition_hunks server_side client_side).0
          + occurs_on false (codes "s") (partition_hunks server_side client_side).0
          + occurs_in (codes "s") (partition_hunks server_side client_side).1
        ≡ occurs_in (codes "s") server_side + occurs_in (codes "s") client_side)
partition_hunks-keeps_example = partition_hunks-keeps (codes "s") server_side client_side

server_side-IsChain : IsChain 0 server_side
server_side-IsChain = (omega arith, omega arith, (omega arith, omega arith, tt))

client_side-IsChain : IsChain 0 client_side
client_side-IsChain = (omega arith, omega arith, tt)

partition_hunks-apart_example : AllPairs AreApart (partition_hunks server_side client_side).0
partition_hunks-apart_example =
    partition_hunks-apart 0 0 server_side client_side server_side-IsChain client_side-IsChain

compute_hunks-IsChain_example :
    IsChain 0 (compute_hunks whole_diff (codes "a" ∷ []) (codes "b" ∷ codes "c" ∷ []))
compute_hunks-IsChain_example =
    compute_hunks-IsChain whole_diff (codes "a" ∷ []) (codes "b" ∷ codes "c" ∷ [])

backtick_fence_longer_example :
    (3 ≤ length (backtick_fence ([] ++ (codes "x" ++ (replicate 4 backtick ++ [])) ∷ [])))
    × (4 < length (backtick_fence ([] ++ (codes "x" ++ (replicate 4 backtick ++ [])) ∷ [])))
backtick_fence_longer_example = backtick_fence_longer [] [] (codes "x") [] 4

sidecar_path-name :
    sidecar_path (codes "d/a.md") (codes "2026-01-02") ≡ codes "d/a.conflict.20260102.md"
unfolding sidecar_path stem ext_of in_dir_of base_name cut_last compact_timestamp replace_all
    replace_from has_prefix
sidecar_path-name = refl

abbrev pool : List Tagged
pool =
    record { hunk = hunk 1 3 "c"; is_server = false }
    ∷ record { hunk = hunk 5 6 "t"; is_server = true }
    ∷ []

abbrev first_region : ConflictHunk
first_region = region_of (record { hunk = hunk 0 2 "s"; is_server = true })

-- The second hunk joins the region, the third does not.
expand-grows : (expand 3 first_region pool).0.base_end ≡ 3
unfolding expand region_of grow joins ranges_overlap scan_pool
expand-grows = refl

expand_stable_example :
    All (λ t. joins (expand 3 first_region pool).0 t.hunk ≡ false) (expand 3 first_region pool).1
expand_stable_example = expand_stable 3 first_region pool (omega arith)

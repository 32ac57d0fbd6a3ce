-- ===== src/Merge/Partition/Contents.antt =====
-- No line of a hunk is lost when the hunks are grouped into regions.
use mathlib.Core.Path.{ap₂}
use leyline.Base.{
  Bool, Bool-cases, List, Text, [], ap, append-nil, arith, false, if◌then◌else◌, inl, inr, keep,
  length, not, refl, suc, sum_by, sum_by-append, text_eq, true, zero, ℕ, ◌++◌, ◌+◌, ◌∙◌, ◌∷◌, ◌≡◌,
  ◌≤◌,
}
use leyline.Merge.Lines.{elements}
use leyline.Merge.Partition.{
  ConflictHunk, Tagged, client_overlaps, conflict_pool, disjoint_hunks, expand, group_regions, grow,
  joins, partition_hunks, region_before, region_of, scan_pool, server_overlaps, tag_hunks,
  tagged_before,
}
use leyline.Merge.Partition.Expand.{length-expand}
use leyline.Base.Sorting.Laws.{sort_slice-sum_by}
use leyline.Merge.Hunks.{EditHunk, starts_before}

-- How often a line stands in a list.
abbrev pub occurs : Text → List Text → ℕ
occurs x = sum_by (λ l. if text_eq l x then 1 else 0)

-- The lines of a region that come from one side; `true` is the server.
abbrev pub side_lines : Bool → ConflictHunk → List Text
side_lines true r = r.server_lines
side_lines false r = r.client_lines

abbrev from_side : Bool → Tagged → List Text
from_side true t = if t.is_server then elements t.hunk.new_lines else []
from_side false t = if t.is_server then [] else elements t.hunk.new_lines

side_lines-region_of : (side : Bool) (t : Tagged) → side_lines side (region_of t) ≡ from_side side t
unfolding region_of
side_lines-region_of true t = refl
side_lines-region_of false t = refl

side_lines-grow :
    (side : Bool) (r : ConflictHunk) (t : Tagged)
    → side_lines side (grow r t) ≡ side_lines side r ++ from_side side t
unfolding grow
side_lines-grow true r t = ground (arith, append-nil r.server_lines)
side_lines-grow false r t = ground (arith, append-nil r.client_lines)

tag_same :
    (side : Bool) (x : Text) (hs : List EditHunk)
    → sum_by (λ t. occurs x (from_side side t)) (tag_hunks side hs)
      ≡ sum_by (λ h. occurs x (elements h.new_lines)) hs
unfolding tag_hunks
tag_same side x [] = refl
tag_same true x (h ∷ hs) = ap (λ n. occurs x (elements h.new_lines) + n) (tag_same true x hs)
tag_same false x (h ∷ hs) = ap (λ n. occurs x (elements h.new_lines) + n) (tag_same false x hs)

tag_other :
    (side : Bool) (x : Text) (hs : List EditHunk)
    → sum_by (λ t. occurs x (from_side side t)) (tag_hunks (not side) hs) ≡ 0
unfolding tag_hunks
tag_other side x [] = refl
tag_other true x (h ∷ hs) = omega (arith, tag_other true x hs)
tag_other false x (h ∷ hs) = omega (arith, tag_other false x hs)

module _ (side : Bool) (x : Text) where
  abbrev in_region : ConflictHunk → ℕ
  in_region r = occurs x (side_lines side r)

  abbrev in_hunk : Tagged → ℕ
  in_hunk t = occurs x (from_side side t)

  in_region-region_of : (t : Tagged) → in_region (region_of t) ≡ in_hunk t
  in_region-region_of t = ap (occurs x) (side_lines-region_of side t)

  in_region-grow : (r : ConflictHunk) (t : Tagged) → in_region (grow r t) ≡ in_region r + in_hunk t
  in_region-grow r t =
      ap (occurs x) (side_lines-grow side r t)
      ∙ sum_by-append _ (side_lines side r) (from_side side t)

  scan_pool_keeps :
      (r : ConflictHunk) (ts : List Tagged)
      → in_region (scan_pool r ts).region + sum_by in_hunk (scan_pool r ts).unused
        ≡ in_region r + sum_by in_hunk ts
  unfolding scan_pool
  scan_pool_keeps r [] = refl
  scan_pool_keeps r (t ∷ ts) = elim (Bool-cases (joins r t.hunk)) [
    | inl e ↦ rw (e, scan_pool) (omega (arith, scan_pool_keeps (grow r t) ts, in_region-grow r t))
    | inr e ↦ rw (e, scan_pool) (omega (arith, scan_pool_keeps r ts))
  ]

  expand_keeps :
      (fuel : ℕ) (r : ConflictHunk) (ts : List Tagged)
      → in_region (expand fuel r ts).0 + sum_by in_hunk (expand fuel r ts).1
        ≡ in_region r + sum_by in_hunk ts
  unfolding expand
  expand_keeps zero r ts = refl
  expand_keeps (suc fuel) r ts = elim (Bool-cases (scan_pool r ts).changed) [
    | inl e ↦ rw (e, expand) (expand_keeps fuel _ _ ∙ scan_pool_keeps r ts)
    | inr e ↦ rw (e, expand) (scan_pool_keeps r ts)
  ]

  -- With a round of fuel for each hunk, the regions hold what the pool holds.
  group_regions_keeps :
      (fuel : ℕ) (ts : List Tagged)
      → length ts ≤ fuel
      → sum_by in_region (group_regions fuel ts) ≡ sum_by in_hunk ts
  unfolding group_regions
  group_regions_keeps fuel [] h = refl
  group_regions_keeps zero (t ∷ ts) h = absurd (omega arith)
  group_regions_keeps (suc fuel) (t ∷ ts) h = omega (
    arith,
    expand_keeps (length ts + 1) (region_of t) ts,
    in_region-region_of t,
    length-expand (length ts + 1) (region_of t) ts,
    group_regions_keeps fuel (expand (length ts + 1) (region_of t) ts).1
        (omega (arith, length-expand (length ts + 1) (region_of t) ts)),
  )

-- The occurrences of a line in the new lines of a list of hunks.
abbrev pub occurs_in : Text → List EditHunk → ℕ
occurs_in x = sum_by (λ h. occurs x (elements h.new_lines))

-- The occurrences of a line on one side of a list of regions.
abbrev pub occurs_on : Bool → Text → List ConflictHunk → ℕ
occurs_on side x = sum_by (λ r. occurs x (side_lines side r))

regions_keep :
    (side : Bool) (x : Text) (xs ys : List EditHunk)
    → occurs_on side x (partition_hunks xs ys).0
      ≡ sum_by (λ t. occurs x (from_side side t)) (tag_hunks true (keep (server_overlaps ys) xs))
        + sum_by (λ t. occurs x (from_side side t)) (tag_hunks false (keep (client_overlaps xs) ys))
unfolding partition_hunks conflict_pool
regions_keep side x xs ys =
    sort_slice-sum_by region_before _ _
    ∙ group_regions_keeps side x _ _ (omega arith)
    ∙ sort_slice-sum_by tagged_before _ _
    ∙ sum_by-append _ (tag_hunks true (keep (server_overlaps ys) xs)) _

keep-split :
    (f : EditHunk → ℕ) (p : EditHunk → Bool) (hs : List EditHunk)
    → sum_by f (keep p hs) + sum_by f (keep (λ h. not (p h)) hs) ≡ sum_by f hs
keep-split f p [] = refl
keep-split f p (h ∷ hs) = ground (arith, keep-split f p hs)

server_keeps :
    (x : Text) (xs ys : List EditHunk)
    → occurs_on true x (partition_hunks xs ys).0 ≡ occurs_in x (keep (server_overlaps ys) xs)
server_keeps x xs ys =
    regions_keep true x xs ys
    ∙ ap₂ ◌+◌ (tag_same true x (keep (server_overlaps ys) xs))
        (tag_other true x (keep (client_overlaps xs) ys))
    ∙ omega arith

client_keeps :
    (x : Text) (xs ys : List EditHunk)
    → occurs_on false x (partition_hunks xs ys).0 ≡ occurs_in x (keep (client_overlaps xs) ys)
client_keeps x xs ys =
    regions_keep false x xs ys
    ∙ ap₂ ◌+◌ (tag_other false x (keep (server_overlaps ys) xs))
        (tag_same false x (keep (client_overlaps xs) ys))
    ∙ omega arith

disjoint_keeps :
    (x : Text) (xs ys : List EditHunk)
    → occurs_in x (partition_hunks xs ys).1
      ≡ occurs_in x (keep (λ h. not (server_overlaps ys h)) xs)
        + occurs_in x (keep (λ h. not (client_overlaps xs h)) ys)
unfolding partition_hunks disjoint_hunks
disjoint_keeps x xs ys =
    sort_slice-sum_by starts_before _ _
    ∙ sum_by-append _ (keep (λ h. not (server_overlaps ys h)) xs) _

-- Every line that a side adds stays where it was, as often as it was there: the server lines of
-- the regions are those of the server hunks that overlap a client hunk, the client lines those of
-- the client hunks that overlap a server hunk, and the disjoint hunks hold all the others.
pub partition_hunks-keeps :
    (x : Text) (server_hunks client_hunks : List EditHunk)
    → (occurs_on true x (partition_hunks server_hunks client_hunks).0
        ≡ occurs_in x (keep (server_overlaps client_hunks) server_hunks))
      × (occurs_on false x (partition_hunks server_hunks client_hunks).0
          ≡ occurs_in x (keep (client_overlaps server_hunks) client_hunks))
      × (occurs_on true x (partition_hunks server_hunks client_hunks).0
            + occurs_on false x (partition_hunks server_hunks client_hunks).0
            + occurs_in x (partition_hunks server_hunks client_hunks).1
          ≡ occurs_in x server_hunks + occurs_in x client_hunks)
partition_hunks-keeps x xs ys =
    let f = λ (h : EditHunk). occurs x (elements h.new_lines) in
    (
      server_keeps x xs ys,
      client_keeps x xs ys,
      omega (
        arith,
        server_keeps x xs ys,
        client_keeps x xs ys,
        disjoint_keeps x xs ys,
        keep-split f (server_overlaps ys) xs,
        keep-split f (client_overlaps xs) ys,
      ),
    )

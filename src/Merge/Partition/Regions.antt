-- ===== src/Merge/Partition/Regions.antt =====
-- The regions of a conflict and the disjoint hunks do not overlap one another.
use leyline.Base.{
  All, All-append, All-keep, AllPairs, Bool, Bool-cases, List, [], arith, false, inl, inr, length,
  suc, true, zero, ℕ, ◌+◌, ◌∙◌, ◌∷◌, ◌≡◌, ◌≤◌,
}
use leyline.Merge.Hunks.{EditHunk, ranges_overlap}
use leyline.Merge.Partition.{
  ConflictHunk, Tagged, client_overlaps, conflict_pool, expand, group_regions, grow, joins,
  partition_hunks, region_before, region_of, scan_pool, server_overlaps, tag_hunks, tagged_before,
}
use leyline.Merge.Hunks.Chain.{IsChain}
use leyline.Merge.Hunks.Overlap.{ranges_overlap_comm}
use leyline.Merge.Partition.Expand.{expand_stable}
use leyline.Base.Sorting.Laws.{sort_slice-All, sort_slice-AllPairs}

abbrev pub ClearOf : ℕ → ℕ → ConflictHunk → Type 0
ClearOf s e r = ranges_overlap s e r.base_start r.base_end ≡ false

abbrev pub ClearOfHunk : ℕ → ℕ → Tagged → Type 0
ClearOfHunk s e t = ranges_overlap s e t.hunk.base_start t.hunk.base_end ≡ false

abbrev pub IsOrdered : Tagged → Type 0
IsOrdered t = t.hunk.base_start ≤ t.hunk.base_end

abbrev pub IsRegion : ConflictHunk → Type 0
IsRegion r = r.base_start ≤ r.base_end

-- A range that overlaps neither of two ranges that join overlaps nothing of their union.
grow_clear :
    (s e : ℕ) (r : ConflictHunk) (t : Tagged)
    → s ≤ e
    → IsRegion r
    → IsOrdered t
    → joins r t.hunk ≡ true
    → ClearOf s e r
    → ClearOfHunk s e t
    → ClearOf s e (grow r t)
unfolding joins grow ranges_overlap
grow_clear s e r t p q n j c d = ground arith

grow-IsRegion : (r : ConflictHunk) (t : Tagged) → IsRegion r → IsOrdered t → IsRegion (grow r t)
unfolding grow
grow-IsRegion r t p q = ground arith

scan_pool-Ordered :
    (r : ConflictHunk) (ts : List Tagged)
    → IsRegion r
    → All IsOrdered ts
    → IsRegion (scan_pool r ts).region × All IsOrdered (scan_pool r ts).unused
unfolding scan_pool
scan_pool-Ordered r [] p q = (p, tt)
scan_pool-Ordered r (t ∷ ts) p q = elim (Bool-cases (joins r t.hunk)) [
  | inl e ↦ rw (e, scan_pool) (scan_pool-Ordered (grow r t) ts (grow-IsRegion r t p q.0) q.1)
  | inr e ↦ let ih = scan_pool-Ordered r ts p q.1 in rw (e, scan_pool) (ih.0, (q.0, ih.1))
]

expand-Ordered :
    (fuel : ℕ) (r : ConflictHunk) (ts : List Tagged)
    → IsRegion r
    → All IsOrdered ts
    → IsRegion (expand fuel r ts).0 × All IsOrdered (expand fuel r ts).1
unfolding expand
expand-Ordered zero r ts p q = (p, q)
expand-Ordered (suc fuel) r ts p q =
    let s = scan_pool-Ordered r ts p q in
    elim (Bool-cases (scan_pool r ts).changed) [
      | inl e ↦ rw (e, expand) (expand-Ordered fuel _ _ s.0 s.1)
      | inr e ↦ rw (e, expand) s
    ]

module _ (s e : ℕ) (le : s ≤ e) where
  scan_pool_clear :
      (r : ConflictHunk) (ts : List Tagged)
      → IsRegion r
      → All IsOrdered ts
      → ClearOf s e r
      → All (ClearOfHunk s e) ts
      → ClearOf s e (scan_pool r ts).region × All (ClearOfHunk s e) (scan_pool r ts).unused
  unfolding scan_pool
  scan_pool_clear r [] p q c d = (c, tt)
  scan_pool_clear r (t ∷ ts) p q c d = elim (Bool-cases (joins r t.hunk)) [
    | inl j ↦
        rw (j, scan_pool)
          (scan_pool_clear (grow r t) ts (grow-IsRegion r t p q.0) q.1
            (grow_clear s e r t le p q.0 j c d.0) d.1)
    | inr j ↦ let ih = scan_pool_clear r ts p q.1 c d.1 in rw (j, scan_pool) (ih.0, (d.0, ih.1))
  ]

  expand_clear :
      (fuel : ℕ) (r : ConflictHunk) (ts : List Tagged)
      → IsRegion r
      → All IsOrdered ts
      → ClearOf s e r
      → All (ClearOfHunk s e) ts
      → ClearOf s e (expand fuel r ts).0 × All (ClearOfHunk s e) (expand fuel r ts).1
  unfolding expand
  expand_clear zero r ts p q c d = (c, d)
  expand_clear (suc fuel) r ts p q c d =
      let o = scan_pool-Ordered r ts p q in
      let n = scan_pool_clear r ts p q c d in
      elim (Bool-cases (scan_pool r ts).changed) [
        | inl k ↦ rw (k, expand) (expand_clear fuel _ _ o.0 o.1 n.0 n.1)
        | inr k ↦ rw (k, expand) n
      ]

  -- A range that overlaps no hunk of the pool overlaps no region made of them.
  pub group_regions_clear :
      (fuel : ℕ) (ts : List Tagged)
      → All IsOrdered ts
      → All (ClearOfHunk s e) ts
      → All (ClearOf s e) (group_regions fuel ts)
  unfolding group_regions region_of
  group_regions_clear fuel [] q d = tt
  group_regions_clear zero (t ∷ ts) q d = tt
  group_regions_clear (suc fuel) (t ∷ ts) q d =
      let o = expand-Ordered (length ts + 1) (region_of t) ts q.0 q.1 in
      let n = expand_clear (length ts + 1) (region_of t) ts q.0 q.1 d.0 d.1 in
      (n.0, group_regions_clear fuel _ o.1 n.1)

-- Two regions share no line and no point of insertion.
abbrev pub AreApart : ConflictHunk → ConflictHunk → Type 0
AreApart a b = ClearOf a.base_start a.base_end b

ClearOf-joins :
    (r : ConflictHunk) (t : Tagged) → joins r t.hunk ≡ false → ClearOfHunk r.base_start r.base_end t
unfolding joins
ClearOf-joins r t h = ground arith

All-ClearOf_joins :
    (r : ConflictHunk) (ts : List Tagged)
    → All (λ t. joins r t.hunk ≡ false) ts
    → All (ClearOfHunk r.base_start r.base_end) ts
All-ClearOf_joins r [] h = tt
All-ClearOf_joins r (t ∷ ts) h = (ClearOf-joins r t h.0, All-ClearOf_joins r ts h.1)

group_regions_apart :
    (fuel : ℕ) (ts : List Tagged) → All IsOrdered ts → AllPairs AreApart (group_regions fuel ts)
unfolding group_regions region_of
group_regions_apart fuel [] q = tt
group_regions_apart zero (t ∷ ts) q = tt
group_regions_apart (suc fuel) (t ∷ ts) q =
    let o = expand-Ordered (length ts + 1) (region_of t) ts q.0 q.1 in
    let stable = expand_stable (length ts + 1) (region_of t) ts (omega arith) in
    (
      group_regions_clear _ _ o.0 fuel _ o.1 (All-ClearOf_joins _ _ stable),
      group_regions_apart fuel _ o.1,
    )

IsChain-All : (p : ℕ) (hs : List EditHunk) → IsChain p hs → All (λ h. h.base_start ≤ h.base_end) hs
IsChain-All p [] h = tt
IsChain-All p (x ∷ hs) h = (h.1, IsChain-All x.base_end hs h.2)

tag_hunks-IsOrdered :
    (side : Bool) (hs : List EditHunk)
    → All (λ h. h.base_start ≤ h.base_end) hs
    → All IsOrdered (tag_hunks side hs)
unfolding tag_hunks
tag_hunks-IsOrdered side [] h = tt
tag_hunks-IsOrdered side (x ∷ hs) h = (h.0, tag_hunks-IsOrdered side hs h.1)

conflict_pool-IsOrdered :
    (p q : ℕ) (xs ys : List EditHunk)
    → IsChain p xs
    → IsChain q ys
    → All IsOrdered (conflict_pool xs ys)
unfolding conflict_pool
conflict_pool-IsOrdered p q xs ys c d = sort_slice-All tagged_before IsOrdered _ (
    All-append IsOrdered _ _
      (tag_hunks-IsOrdered true _ (All-keep _ (server_overlaps ys) xs (IsChain-All p xs c)))
      (tag_hunks-IsOrdered false _ (All-keep _ (client_overlaps xs) ys (IsChain-All q ys d))))

-- The conflict regions of two sides whose hunks stand in order do not overlap one another.
pub partition_hunks-apart :
    (p q : ℕ) (server_hunks client_hunks : List EditHunk)
    → IsChain p server_hunks
    → IsChain q client_hunks
    → AllPairs AreApart (partition_hunks server_hunks client_hunks).0
unfolding partition_hunks
partition_hunks-apart p q xs ys c d =
    let pool = conflict_pool xs ys in
    sort_slice-AllPairs region_before {R = AreApart}
      (λ a b h. ranges_overlap_comm b.base_start b.base_end a.base_start a.base_end ∙ h)
      (group_regions (length pool) pool)
      (group_regions_apart (length pool) pool (conflict_pool-IsOrdered p q xs ys c d))

-- ===== src/Merge/Partition/Expand.antt =====
-- The growth of a region ends, and when it ends no hunk is left that overlaps the region.
use leyline.Base.{
  All, Bool-cases, List, [], ap, arith, false, inl, inr, length, refl, suc, true, zero, ℕ, ◌<◌, ◌∷◌,
  ◌≡◌, ◌≤◌,
}
use leyline.Merge.Partition.{ConflictHunk, Tagged, expand, grow, joins, scan_pool}

-- A pass that changes nothing has found nothing to join; a pass that changes something has used up
-- a hunk.
scan_pool_still :
    (r : ConflictHunk) (ts : List Tagged)
    → (scan_pool r ts).changed ≡ false
    → (scan_pool r ts).region ≡ r
      × (scan_pool r ts).unused ≡ ts
      × All (λ t. joins r t.hunk ≡ false) ts
unfolding scan_pool
scan_pool_still r [] h = (refl, refl, tt)
scan_pool_still r (t ∷ ts) h = elim (Bool-cases (joins r t.hunk)) [
  | inl e ↦ absurd (ground arith)
  | inr e ↦
      let ih = scan_pool_still r ts (ground arith) in
      rw (e, scan_pool) (ih.0, ap (◌∷◌ t) ih.1, (refl, ih.2))
]

pub length-scan_pool :
    (r : ConflictHunk) (ts : List Tagged) → length (scan_pool r ts).unused ≤ length ts
unfolding scan_pool
length-scan_pool r [] = omega arith
length-scan_pool r (t ∷ ts) = ground (arith, length-scan_pool (grow r t) ts, length-scan_pool r ts)

length-scan_pool_changed :
    (r : ConflictHunk) (ts : List Tagged)
    → (scan_pool r ts).changed ≡ true
    → length (scan_pool r ts).unused < length ts
unfolding scan_pool
length-scan_pool_changed r [] h = cc
length-scan_pool_changed r (t ∷ ts) h =
    ground (arith, length-scan_pool (grow r t) ts, length-scan_pool_changed r ts)

-- On fuel above the number of unused hunks, an expansion leaves hunks none of which joins its region:
-- the loop has come to its end.
pub expand_stable :
    (fuel : ℕ) (r : ConflictHunk) (ts : List Tagged)
    → length ts < fuel
    → All (λ t. joins (expand fuel r ts).0 t.hunk ≡ false) (expand fuel r ts).1
unfolding expand
expand_stable zero r ts h = elim h [ ]
expand_stable (suc fuel) r ts h = elim (Bool-cases (scan_pool r ts).changed) [
  | inl e ↦
      rw (e, expand)
        (expand_stable fuel (scan_pool r ts).region (scan_pool r ts).unused
          (omega (arith, length-scan_pool_changed r ts e)))
  | inr e ↦ let (p, q, n) = scan_pool_still r ts e in rw (e, expand, p, q) n
]

pub length-expand :
    (fuel : ℕ) (r : ConflictHunk) (ts : List Tagged) → length (expand fuel r ts).1 ≤ length ts
unfolding expand
length-expand zero r ts = omega arith
length-expand (suc fuel) r ts = ground (
  arith,
  length-scan_pool r ts,
  length-expand fuel (scan_pool r ts).region (scan_pool r ts).unused,
)

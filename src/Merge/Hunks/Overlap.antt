-- ===== src/Merge/Hunks/Overlap.antt =====
-- Overlap of ranges does not depend on which range comes first.
use leyline.Base.{arith, ℕ, ◌≡◌}
use leyline.Merge.Hunks.{ranges_overlap}

pub ranges_overlap_comm :
    (s1 e1 s2 e2 : ℕ) → ranges_overlap s1 e1 s2 e2 ≡ ranges_overlap s2 e2 s1 e1
unfolding ranges_overlap
ranges_overlap_comm s1 e1 s2 e2 = ground arith

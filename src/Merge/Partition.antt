-- ===== src/Merge/Partition.antt =====
-- partitionHunks of pkg/merge/three_way.go: conflict regions, and the hunks that touch no hunk of
-- the other side.
pub mod Contents
pub mod Regions
pub mod Expand
use leyline.Base.{
  Bool, List, Text, [], any, false, if◌then◌else◌, keep, length, ltb, map, not, suc, true, zero, ℕ,
  ◌&&◌, ◌++◌, ◌+◌, ◌==◌, ◌||◌, ◌∷◌,
}
use leyline.Base.Sorting.{sort_slice}
use leyline.Merge.Lines.{elements}
use leyline.Merge.Hunks.{EditHunk, hunks_overlap, ranges_overlap, starts_before}

-- `ContextBefore` and `ContextAfter` are left empty and read by nothing.
pub record ConflictHunk : Type 0 where
  pub base_start : ℕ
  pub base_end : ℕ
  pub server_lines : List Text
  pub client_lines : List Text

-- A hunk with the side that it comes from.
pub record Tagged : Type 0 where
  pub hunk : EditHunk
  pub is_server : Bool

unfoldable pub tag_hunks : Bool → List EditHunk → List Tagged
tag_hunks side = map (λ h. record { hunk = h; is_server = side })

-- The arrays `srvOverlap` and `cliOverlap`, as tests.
unfoldable pub server_overlaps : List EditHunk → EditHunk → Bool
server_overlaps client_hunks sh = any (λ ch. hunks_overlap sh ch) client_hunks

unfoldable pub client_overlaps : List EditHunk → EditHunk → Bool
client_overlaps server_hunks ch = any (λ sh. hunks_overlap sh ch) server_hunks

unfoldable pub disjoint_hunks : List EditHunk → List EditHunk → List EditHunk
disjoint_hunks server_hunks client_hunks = sort_slice starts_before (
    keep (λ sh. not (server_overlaps client_hunks sh)) server_hunks
    ++ keep (λ ch. not (client_overlaps server_hunks ch)) client_hunks)

unfoldable pub tagged_before : Tagged → Tagged → Bool
tagged_before a b = starts_before a.hunk b.hunk

unfoldable pub conflict_pool : List EditHunk → List EditHunk → List Tagged
conflict_pool server_hunks client_hunks = sort_slice tagged_before (
    tag_hunks true (keep (server_overlaps client_hunks) server_hunks)
    ++ tag_hunks false (keep (client_overlaps server_hunks) client_hunks))

unfoldable pub region_of : Tagged → ConflictHunk
region_of t =
    let lines = elements t.hunk.new_lines in
    record {
      base_start = t.hunk.base_start;
      base_end = t.hunk.base_end;
      server_lines = if t.is_server then lines else [];
      client_lines = if t.is_server then [] else lines;
    }

-- The test under which a hunk joins a region.
unfoldable pub joins : ConflictHunk → EditHunk → Bool
joins r h =
    ranges_overlap r.base_start r.base_end h.base_start h.base_end
    || (r.base_start == r.base_end && h.base_start == h.base_end && r.base_start == h.base_start)

unfoldable pub grow : ConflictHunk → Tagged → ConflictHunk
grow r t =
    let lines = elements t.hunk.new_lines in
    record {
      base_start = if ltb t.hunk.base_start r.base_start then t.hunk.base_start else r.base_start;
      base_end = if ltb r.base_end t.hunk.base_end then t.hunk.base_end else r.base_end;
      server_lines = if t.is_server then r.server_lines ++ lines else r.server_lines;
      client_lines = if t.is_server then r.client_lines else r.client_lines ++ lines;
    }

-- What a pass over the pool leaves: the region, the hunks that are still unused, in order, and
-- whether a hunk joined.
pub record Pass : Type 0 where
  pub region : ConflictHunk
  pub unused : List Tagged
  pub changed : Bool

-- One pass of the inner `for`. The hunks marked `used` are the ones that are not in the list.
unfoldable pub scan_pool : ConflictHunk → List Tagged → Pass
scan_pool r [] = record { region = r; unused = []; changed = false }
scan_pool r (t ∷ ts) =
    let joined = scan_pool (grow r t) ts in
    let skipped = scan_pool r ts in
    if joins r t.hunk
    then record joined { changed = true }
    else record skipped { unused = t ∷ skipped.unused }

-- `for changed := true; changed;`, on fuel: each pass that changes the region uses a hunk up.
unfoldable pub expand : ℕ → ConflictHunk → List Tagged → ConflictHunk × List Tagged
unfolding scan_pool
expand zero r ts = (r, ts)
expand (suc fuel) r ts =
    let p = scan_pool r ts in
    let again = expand fuel p.region p.unused in if p.changed then again else (p.region, p.unused)

-- The outer loop over the pool: the first unused hunk starts the next region.
unfoldable pub group_regions : ℕ → List Tagged → List ConflictHunk
unfolding expand
group_regions fuel [] = []
group_regions zero (t ∷ ts) = []
group_regions (suc fuel) (t ∷ ts) =
    let (r, rest) = expand (length ts + 1) (region_of t) ts in r ∷ group_regions fuel rest

unfoldable pub region_before : ConflictHunk → ConflictHunk → Bool
region_before a b = ltb a.base_start b.base_start

unfoldable pub partition_hunks : List EditHunk → List EditHunk → List ConflictHunk × List EditHunk
partition_hunks server_hunks client_hunks =
    let pool = conflict_pool server_hunks client_hunks in
    (
      sort_slice region_before (group_regions (length pool) pool),
      disjoint_hunks server_hunks client_hunks,
    )

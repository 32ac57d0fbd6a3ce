-- ===== src/ClientStage/Manifest.antt =====
-- pkg/stage/manifest.go: the hash of each file that is in sync, as a log that is compacted.
pub mod Reopen
pub mod Calls
use leyline.Base.{
  Bool, List, Option, Text, [], false, if◌then◌else◌, length, ltb, map, none, some, true, ℕ, ◌&&◌,
  ◌*◌, ◌+◌, ◌==◌, ◌∷◌,
}
use leyline.Base.Dict
use leyline.Protocol.Op.{Hash}
use leyline.ServerStage.{zero_hash}
use leyline.ClientStage.Rows.{
  Cut, Replace, RowFile, cut_row, not_reopened, not_replaced, read_rows, replaced, whole_file,
  write_row,
}

pub record ManifestEntry : Type 0 where
  pub path : Text
  pub hash : Hash
  pub binary : Bool
  pub deleted : Bool

-- The fields `w` and `bufw`: open, or with an error that `bufw` returns from then on, or nil.
pub data Writer : Type 0 where
  ready stuck closed : Writer

-- A `Manifest` with its file.
pub record Manifest : Type 0 where
  pub live : List (Text × ManifestEntry)
  pub rows : ℕ
  pub file : RowFile ManifestEntry
  pub writer : Writer

-- What a row does to the map `live`.
unfoldable pub take_row : ManifestEntry → List (Text × ManifestEntry) → List (Text × ManifestEntry)
take_row e live = if e.deleted then Dict.remove live e.path else Dict.put live e.path e

-- The loop of `OpenManifest` over the rows.
unfoldable pub take_rows :
    List ManifestEntry → List (Text × ManifestEntry) → List (Text × ManifestEntry)
unfolding take_row
take_rows [] live = live
take_rows (e ∷ es) live = take_rows es (take_row e live)

unfoldable pub open_rows : RowFile ManifestEntry → Option (List ManifestEntry) → Option Manifest
unfolding take_rows
open_rows file none = none
open_rows file (some es) =
    some (record { live = take_rows es []; rows = length es; file = file; writer = ready })

-- `OpenManifest`, of a file that can be opened; a file that does not exist has no rows.
unfoldable pub open_manifest : RowFile ManifestEntry → Option Manifest
unfolding open_rows
open_manifest file = open_rows file (read_rows file)

-- The end of a call: it returns nil or an error, or it dereferences a nil `bufw`.
pub data CallOutcome : Type 0 where
  done error panics : CallOutcome

-- The rows that a compaction writes.
abbrev pub compacted_file : Manifest → RowFile ManifestEntry
compacted_file m = whole_file (map (λ e. e.1) m.live)

-- `compactLocked`
unfoldable pub compact : Replace → Manifest → CallOutcome × Manifest
compact replaced m =
    (done, record m { rows = length m.live; file = compacted_file m; writer = ready })
compact not_replaced m = (error, record m { writer = closed })
compact not_reopened m = (error, record m { file = compacted_file m; writer = closed })

-- What becomes of the write of a row: it fails, or the fsync after it does, or neither, and then of
-- a compaction, if there is one.
pub data Writes : Type 0 where
  row_cut : Cut → Writes
  not_synced : Writes
  synced : Replace → Writes

-- The end of `append`, from `m.rows++` on.
unfoldable pub add_row : Replace → ManifestEntry → Manifest → CallOutcome × Manifest
unfolding take_row compact
add_row r e m =
    let next : Manifest = record m {
      live = take_row e m.live;
      rows = m.rows + 1;
      file = write_row m.file e;
    } in
    if ltb (2 * length next.live) next.rows && ltb 0 (length next.live)
    then compact r next
    else (done, next)

-- `append` with an open writer.
unfoldable pub append_open : Writes → ManifestEntry → Manifest → CallOutcome × Manifest
unfolding add_row
append_open (row_cut c) e m = (error, record m { file = cut_row c m.file e; writer = stuck })
append_open not_synced e m = (error, record m { file = write_row m.file e })
append_open (synced r) e m = add_row r e m

abbrev pub append_with : Writer → Writes → ManifestEntry → Manifest → CallOutcome × Manifest
append_with ready w e m = append_open w e m
append_with stuck w e m = (error, m)
append_with closed w e m = (panics, m)

-- `append`
unfoldable pub append_row : Writes → ManifestEntry → Manifest → CallOutcome × Manifest
unfolding append_open
append_row w e m = append_with m.writer w e m

unfoldable pub put_entry : Writes → Text → ManifestEntry → Manifest → CallOutcome × Manifest
unfolding append_row
put_entry w path e m = append_row w (record e { path = path; deleted = false }) m

unfoldable pub delete_entry : Writes → Text → Manifest → CallOutcome × Manifest
unfolding append_row
delete_entry w path m =
    append_row w (record { path = path; hash = zero_hash; binary = false; deleted = true }) m

-- `Close` leaves `bufw`, whose next flush fails, since its file is closed.
abbrev pub after_close : Writer → Writer
after_close ready = stuck
after_close stuck = stuck
after_close closed = closed

unfoldable pub close_manifest : Manifest → Manifest
close_manifest m = record m { writer = after_close m.writer }

unfoldable pub is_empty_manifest : Manifest → Bool
is_empty_manifest m = length m.live == 0 && m.rows == 0

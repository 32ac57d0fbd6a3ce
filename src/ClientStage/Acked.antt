-- ===== src/ClientStage/Acked.antt =====
-- pkg/stage/acked.go: the operations that the server has acked and not yet broadcast, as a log with
-- a file.
pub mod Replay
use leyline.Base.{
  Bool, List, Option, Text, [], any, false, if◌then◌else◌, keep, length, none, not, some, text_eq,
  true, ℕ, ◌&&◌, ◌++◌, ◌+◌, ◌==◌, ◌∷◌,
}
use leyline.Sync.Enqueue.{StagedOp}
use leyline.ClientStage.Rows.{
  Cut, Replace, RowFile, cut_row, no_bytes, not_reopened, not_replaced, read_rows, replaced,
  whole_file, write_row,
}

-- An `AckedLog` with its file; `is_open` is `a.w != nil`, without which a write is an error.
pub record AckedLog : Type 0 where
  pub ops : List StagedOp
  pub file : RowFile StagedOp
  pub is_open : Bool

abbrev pub log_of : RowFile StagedOp → Option (List StagedOp) → Option AckedLog
log_of file none = none
log_of file (some ops) = some (record { ops = ops; file = file; is_open = true })

-- `OpenAcked`, of a file that can be opened; a file that does not exist has no rows.
unfoldable pub open_acked : RowFile StagedOp → Option AckedLog
open_acked file = log_of file (read_rows file)

-- `_, dup := have[seq]`: the sequence numbers of the operations that are there.
unfoldable pub has_seq : List StagedOp → ℕ → Bool
has_seq ops seq = any (λ s. s.op.seq == seq) ops

-- One row in the file and in memory.
unfoldable pub add_op : AckedLog → StagedOp → AckedLog
add_op a s = record a { ops = a.ops ++ s ∷ []; file = write_row a.file s }

-- The error of a write, where there is one: what it leaves of the row in the file.
abbrev pub write_error_of : Bool → Option Cut → Option Cut
write_error_of true o = o
write_error_of false o = some no_bytes

abbrev append_with : Option Cut → Bool → AckedLog → StagedOp → Bool × AckedLog
append_with (some c) sync_ok a s = (false, record a { file = cut_row c a.file s })
append_with none false a s = (false, record a { file = write_row a.file s })
append_with none true a s = (true, add_op a s)

-- `Append`: false is its error; `sync_ok` is whether the fsync succeeds.
unfoldable pub append_op : Option Cut → Bool → AckedLog → StagedOp → Bool × AckedLog
unfolding add_op
append_op write_error sync_ok a s = append_with (write_error_of a.is_open write_error) sync_ok a s

-- `write_error` is the error of the file for an operation.
module _ (write_error : StagedOp → Option Cut) where
  -- A round of the loop of `AppendAll` that writes, before the later rounds.
  abbrev pub after_write :
      Option Cut → AckedLog → StagedOp → Bool × ℕ × AckedLog → Bool × ℕ × AckedLog
  after_write (some c) a s rest = (false, 0, record a { file = cut_row c a.file s })
  after_write none a s rest = (rest.0, rest.1 + 1, rest.2)

  -- The loop of `AppendAll`: whether it ends without an error, the number of rows that it wrote, and
  -- the log. Every operation that it writes is also in the map `have`.
  unfoldable pub append_each : List StagedOp → AckedLog → Bool × ℕ × AckedLog
  append_each [] a = (true, 0, a)
  append_each (s ∷ batch) a =
      let skipped = append_each batch a in
      let written =
        after_write (write_error_of a.is_open (write_error s)) a s
          (append_each batch (add_op a s)) in
      if has_seq a.ops s.op.seq then skipped else written

  -- The fsync, which is left out where no row was written.
  abbrev pub after_sync : Bool → Bool × ℕ × AckedLog → Bool × ℕ × AckedLog
  after_sync sync_ok (ok, wrote, a) = (if wrote == 0 then ok else ok && sync_ok, wrote, a)

  unfoldable pub append_all : Bool → List StagedOp → AckedLog → Bool × ℕ × AckedLog
  unfolding append_each
  append_all sync_ok batch a = after_sync sync_ok (append_each batch a)

-- `rewriteLocked`: false is its error.
unfoldable pub rewrite_log : Replace → List StagedOp → AckedLog → Bool × AckedLog
rewrite_log replaced ops a = (true, record a { file = whole_file ops; is_open = true })
rewrite_log not_replaced ops a = (false, record a { is_open = false })
rewrite_log not_reopened ops a = (false, record a { file = whole_file ops; is_open = false })

-- The operations in memory after a rewrite.
abbrev pub keep_ops : List StagedOp → Bool × AckedLog → Bool × AckedLog
keep_ops ops (true, a) = (true, record a { ops = ops })
keep_ops ops (false, a) = (false, a)

unfoldable pub replace_ops : Replace → List StagedOp → AckedLog → Bool × AckedLog
unfolding rewrite_log
replace_ops r ops a = keep_ops ops (rewrite_log r ops a)

-- The drops: the operations that do not match, where one matches. An error comes with the count 0.
keep_rest : Replace → (StagedOp → Bool) → AckedLog → Bool × ℕ × AckedLog
unfolding replace_ops
keep_rest r hit a =
    let after = replace_ops r (keep (λ s. not (hit s)) a.ops) a in
    if any hit a.ops
    then (after.0, if after.0 then length (keep hit a.ops) else 0, after.1)
    else (true, 0, a)

unfoldable pub drop_matching : Replace → List (Text × ℕ) → AckedLog → Bool × ℕ × AckedLog
unfolding keep_rest
drop_matching r pairs a =
    keep_rest r (λ s. any (λ p. text_eq p.0 s.op.author && p.1 == s.op.seq) pairs) a

unfoldable pub drop_by_seqs : Replace → List ℕ → AckedLog → Bool × ℕ × AckedLog
unfolding keep_rest
drop_by_seqs r seqs a = keep_rest r (λ s. any (λ n. n == s.op.seq) seqs) a

-- `a.ops` without the first operation that matches.
drop_first : (StagedOp → Bool) → List StagedOp → List StagedOp
drop_first hit [] = []
drop_first hit (s ∷ ops) = let rest = drop_first hit ops in if hit s then ops else s ∷ rest

-- `DropByAuthorSeq`: whether it ends without an error, and whether an operation was dropped.
unfoldable pub drop_by_author_seq : Replace → Text → ℕ → AckedLog → Bool × Bool × AckedLog
unfolding drop_first replace_ops
drop_by_author_seq r keyname seq a =
    let hit : StagedOp → Bool = λ s. text_eq s.op.author keyname && s.op.seq == seq in
    let after = replace_ops r (drop_first hit a.ops) a in
    if any hit a.ops then (after.0, after.0, after.1) else (true, false, a)

unfoldable pub close_acked : AckedLog → AckedLog
close_acked a = record a { is_open = false }

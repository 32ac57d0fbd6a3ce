-- ===== src/Sync/Coalesce.antt =====
-- pkg/sync/coalesce.go: runs of writes to one path become one write.
pub mod Replay
use leyline.Base.{Bool, List, [], false, if◌then◌else◌, text_eq, true, ◌&&◌, ◌++◌, ◌∷◌}
use leyline.Protocol.Op.{Op, OpType, op_write}

abbrev is_write : OpType → Bool
is_write op_write = true
is_write _ = false

-- The test under which an operation is folded into the last one kept.
unfoldable pub same_write : Op → Op → Bool
same_write last op = is_write op.type && is_write last.type && text_eq op.path last.path

-- The last operation with the payload of a newer one: `Seq` and `PreHash` stay.
unfoldable pub absorb : Op → Op → Op
absorb last op = record last { data_bytes = op.data_bytes; binary = op.binary; ts = op.ts }

-- The loop, with the slice `out` as the operations before its last one, and that one.
coalesce_from : List Op → Op → List Op → List Op
unfolding same_write absorb
coalesce_from out last [] = out ++ last ∷ []
coalesce_from out last (op ∷ ops) =
    let merged = coalesce_from out (absorb last op) ops in
    let kept = coalesce_from (out ++ last ∷ []) op ops in
    if same_write last op then merged else kept

unfoldable pub coalesce_consecutive_writes : List Op → List Op
unfolding coalesce_from
coalesce_consecutive_writes [] = []
coalesce_consecutive_writes (op ∷ ops) = coalesce_from [] op ops

-- ===== src/Sync/Catchup.antt =====
-- What `classifyAndApply` of pkg/sync/engine.go makes of the staged log. The operations are those
-- that `filterSelfEcho` leaves; the files, the manifest and the conflict log are not modelled.
pub mod Survival
use leyline.Base.{
  Bool, List, Option, Text, [], any, false, if◌then◌else◌, keep, ltb, none, not, some, text_eq,
  true, ◌&&◌, ◌++◌, ◌∷◌,
}
use leyline.Base.Sorting.{sort_slice}
use leyline.Protocol.Op.{Hash, Op, OpType, other}
use leyline.Merge.Classify.{Context}
use leyline.Merge.Hunks.{Diff}
use leyline.Merge.Classify.Route.{classify, is_rename}
use leyline.Sync.Enqueue.{StagedOp}

-- `opPathFor`
unfoldable pub op_path_for : Op → Text
op_path_for op = if is_rename op.type then op.from else op.path

-- `opTargetPath`
unfoldable pub op_target_path : Op → Text
op_target_path op = if is_rename op.type then op.to else op.path

-- The types that the map `stagedByPath` takes in.
unfoldable pub is_keyed : OpType → Bool
is_keyed (other t) = false
is_keyed t = true

-- `stagedByPath[key]`: the last operation of the log with the key.
unfoldable pub staged_for : Text → List StagedOp → Option Op
unfolding op_path_for is_keyed
staged_for key [] = none
staged_for key (s ∷ ss) = elim (staged_for key ss) [
  | some op ↦ some op
  | none ↦ if is_keyed s.op.type && text_eq (op_path_for s.op) key then some s.op else none
]

-- `append` of the replacement of a decision, if it has one.
unfoldable pub with_replacement : Bool → Option Op → List StagedOp → List StagedOp
with_replacement frozen none ss = ss
with_replacement frozen (some op) ss =
    record { op = op; frozen = frozen; frozen_local_hash = none } ∷ ss

unfoldable pub seq_before : StagedOp → StagedOp → Bool
seq_before a b = ltb a.op.seq b.op.seq

-- `hash_bytes` is `HashBytes`, `diff` the line diff of go-diff, `excluded` the filter, `context`
-- what is read for the context of an operation; `frozen` holds in the modes pull and mirror.
module _ (hash_bytes : Text → Hash) (diff : Text → Text → List Diff) (excluded : Text → Bool)
    (context : Op → Context) (frozen : Bool) where
  -- The loop over the operations: what it adds to `newStaged`.
  unfoldable pub replacements : List StagedOp → List Op → List StagedOp
  unfolding op_path_for op_target_path staged_for with_replacement
  replacements staged [] = []
  replacements staged (op ∷ ops) =
      let rest = replacements staged ops in
      if excluded (op_target_path op)
      then rest
      else with_replacement frozen
          (classify hash_bytes diff op (staged_for (op_path_for op) staged)
            (context op)).replacement_staged
          rest

  -- `touched[key]`
  unfoldable pub is_touched : Text → List Op → Bool
  unfolding op_path_for op_target_path
  is_touched key ops =
      any (λ op. not (excluded (op_target_path op)) && text_eq (op_path_for op) key) ops

  unfoldable pub rebase_staged : List StagedOp → List Op → List StagedOp
  unfolding replacements is_touched seq_before
  rebase_staged staged ops =
      sort_slice seq_before
        (replacements staged ops ++ keep (λ s. not (is_touched (op_path_for s.op) ops)) staged)

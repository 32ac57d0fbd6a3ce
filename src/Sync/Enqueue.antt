-- ===== src/Sync/Enqueue.antt =====
-- pkg/sync/enqueue.go, with the entries and the in-memory part of pkg/stage/staged.go and the
-- counter of pkg/stage/base.go.
pub mod Sequence
use leyline.Base.{
  Bool, List, Option, Text, [], any, false, if◌then◌else◌, is_empty, keep, leb, none, not, text_eq,
  true, ℕ, ◌%◌, ◌&&◌, ◌++◌, ◌+◌, ◌^◌, ◌∷◌,
}
use leyline.Protocol.Op.{Hash, Op}

pub record StagedOp : Type 0 where
  pub op : Op
  pub frozen : Bool
  pub frozen_local_hash : Option Hash

-- The staged log in memory, and `NextSeq` of the base state.
pub record Queue : Type 0 where
  pub staged : List StagedOp
  pub next_seq : ℕ

-- How `EnqueueOps` returns, and whether it wrote the base state or tried to.
pub record Enqueued : Type 0 where
  pub ok : Bool
  pub queue : Queue
  pub writes_base : Bool

-- The map `existing`, as a test on a path.
unfoldable pub is_existing : List StagedOp → Text → Bool
is_existing staged path = any (λ s. not (is_empty s.op.path) && text_eq s.op.path path) staged

-- `ops[i].Seq = base.NextSeq`
unfoldable pub numbered : ℕ → Op → Op
numbered seq op = record op { seq = seq }

-- `appended` tells whether the append of an operation to the log on disk succeeds.
module _ (appended : Op → Bool) (frozen : Bool) where
  -- `staged.Append` of an operation with the next sequence number, and `base.NextSeq++`.
  unfoldable pub push_op : Op → Queue → Queue
  unfolding numbered
  push_op op q = record {
    staged =
        q.staged
        ++ record { op = numbered q.next_seq op; frozen = frozen; frozen_local_hash = none } ∷ [];
    next_seq = (q.next_seq + 1) % 2 ^ 64;
  }

  -- An append that fails: the number is used up.
  unfoldable pub fail_op : Queue → Queue
  fail_op q = record q { next_seq = (q.next_seq + 1) % 2 ^ 64 }

  -- The loop, with `existing` as the log was before it.
  unfoldable pub enqueue_from : List StagedOp → Bool → List Op → Queue → Enqueued
  unfolding push_op fail_op is_existing
  enqueue_from existing wrote [] q = record { ok = true; queue = q; writes_base = wrote }
  enqueue_from existing wrote (op ∷ ops) q =
      let skipped = enqueue_from existing wrote ops q in
      let pushed = enqueue_from existing true ops (push_op op q) in
      if is_existing existing op.path
      then skipped
      else if appended (numbered q.next_seq op)
      then pushed
      else record { ok = false; queue = fail_op q; writes_base = false }

  -- `written` tells whether `WriteBase` succeeds.
  unfoldable pub enqueue_ops : Bool → List Op → Queue → Enqueued
  unfolding enqueue_from
  enqueue_ops written ops q =
      let r = enqueue_from q.staged false ops q in
      if r.ok && r.writes_base then record r { ok = written } else r

-- `RewriteRetaining`, where the rewrite of the file succeeds.
unfoldable pub rewrite_retaining : ℕ → List StagedOp → List StagedOp
rewrite_retaining first_seq_to_keep = keep (λ s. leb first_seq_to_keep s.op.seq)

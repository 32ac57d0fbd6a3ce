-- ===== src/Tests/Sync.antt =====
-- Tests of package pkg/sync.
use leyline.Base.{
  List, Text, [], any, arith, codes, false, length, none, refl, some, text_eq, true, ◌++◌, ◌∷◌, ◌≡◌,
}
use leyline.Protocol.Op.{Hash, Op}
use leyline.ServerStage.{Stage, new_stage, path_hash, zero_hash}
use leyline.Merge.Classify.{Context}
use leyline.Sync.Coalesce.{coalesce_consecutive_writes}
use leyline.Sync.Coalesce.Replay.{path_hash-coalesce}
use leyline.Sync.Enqueue.{Queue, StagedOp, enqueue_ops, is_existing, numbered}
use leyline.Sync.Enqueue.Sequence.{
  IsOrdered, enqueue_ops-IsOrdered, enqueue_ops-appends, unnumbered,
}
use leyline.Sync.Catchup.{is_keyed, op_path_for, rebase_staged, staged_for}
use leyline.Sync.Catchup.Survival.{is_write_of, rebase_staged-keeps_write}
use leyline.Sync.Reconcile.{Disk, reads, reconcile_working_tree}
use leyline.Sync.Reconcile.Emitted.{IsSound, reconcile_working_tree-IsSound}
use leyline.Base.Dict
use leyline.Base.Int.{pos}
use leyline.Tests.Samples.{delete_op, no_head, same_bytes, whole_diff, write_op}
use leyline.Merge.Classify.Route.{is_rename}

abbrev two_writes : List Op
two_writes = write_op 1 "a.md" "x" ∷ write_op 2 "a.md" "y" ∷ delete_op 3 "b.md" ∷ []

length-coalesced : length (coalesce_consecutive_writes two_writes) ≡ 2
unfolding coalesce_consecutive_writes text_eq
length-coalesced = refl

abbrev held : Stage
held = record (new_stage (codes "c1") (codes "ann") zero_hash) { ops = two_writes }

path_hash-coalesce_example :
    path_hash same_bytes no_head
      (record held { ops = coalesce_consecutive_writes two_writes })
      (codes "a.md")
    ≡ path_hash same_bytes no_head held (codes "a.md")
path_hash-coalesce_example = path_hash-coalesce same_bytes no_head held (codes "a.md")

abbrev pending : StagedOp
pending = record { op = write_op 4 "a.md" "mine"; frozen = false; frozen_local_hash = none }

abbrev queue : Queue
queue = record { staged = pending ∷ []; next_seq = 5 }

abbrev no_ctx : Op → Context
no_ctx op = record {
  base = codes "base";
  diff_mode = [];
  server_keyname = codes "bob";
  client_keyname = codes "ann";
  ts = codes "7";
}

queue-IsOrdered : IsOrdered queue
queue-IsOrdered = (omega arith, omega arith)

enqueue_ops-IsOrdered_example :
    IsOrdered (enqueue_ops (λ op. true) false true two_writes queue).queue
enqueue_ops-IsOrdered_example =
    enqueue_ops-IsOrdered (λ op. true) false true two_writes queue queue-IsOrdered (omega arith)

-- The path of the first two is pending: only the delete is staged.
enqueue_ops-appends_example :
    unnumbered (enqueue_ops (λ op. true) false true two_writes queue).queue.staged
    ≡ numbered 0 pending.op ∷ numbered 0 (delete_op 3 "b.md") ∷ []
unfolding is_existing text_eq
enqueue_ops-appends_example = enqueue_ops-appends false true two_writes queue

rebase_staged-keeps_write_example :
    any (is_write_of 4) (
      rebase_staged same_bytes whole_diff
        (λ p. false)
        no_ctx
        false
        ([] ++ pending ∷ [])
        (delete_op 9 "a.md" ∷ write_op 10 "b.md" "x" ∷ []))
    ≡ true
unfolding staged_for is_keyed
rebase_staged-keeps_write_example =
    rebase_staged-keeps_write same_bytes whole_diff (λ p. false) no_ctx false [] [] pending
      (delete_op 9 "a.md" ∷ write_op 10 "b.md" "x" ∷ []) refl refl (refl, (refl, tt))

abbrev disk : Disk
disk = record {
  list_files = some (codes "a.md" ∷ codes "n.md" ∷ codes "m.md" ∷ []);
  hash_file = λ p. reads (codes "new");
  read_file = λ p. reads (codes "new");
}

abbrev manifest : List (Text × Hash)
manifest = (codes "m.md", codes "old") ∷ (codes "gone.md", codes "old") ∷ []

-- A pending path, a new file, a changed file and a deleted one.
reconcile_working_tree-counts :
    (reconcile_working_tree disk (λ p. false) manifest (pending ∷ []) (pos 7) (codes "ann"))
    ≡ some (
      record (write_op 0 "n.md" "new") { pre_hash = none }
          ∷ record (write_op 0 "m.md" "new") { pre_hash = some (codes "old") }
          ∷ delete_op 0 "gone.md"
          ∷ [],
      record { adds = 1; modifies = 1; deletes = 1; manifest_size = 2 },
    )
unfolding reconcile_working_tree op_path_for is_rename text_eq Dict.get
reconcile_working_tree-counts = refl

reconcile_working_tree-IsSound_example :
    IsSound disk
      (λ p. false)
      manifest
      (pending ∷ [])
      (pos 7)
      (codes "ann")
      (reconcile_working_tree disk (λ p. false) manifest (pending ∷ []) (pos 7) (codes "ann"))
reconcile_working_tree-IsSound_example =
    reconcile_working_tree-IsSound disk (λ p. false) manifest (pending ∷ []) (pos 7) (codes "ann")

-- ===== src/Tests/Stage.antt =====
-- Tests of the stage of the server.
use leyline.Base.Dict
use leyline.Base.{
  List, [], arith, codes, none, refl, some, text_eq, true, ◌+◌, ◌<◌, ◌↔◌, ◌∷◌, ◌≡◌, ◌⊎◌,
}
use leyline.ServerStage.{Stage, append, new_stage, path_hash, zero_hash}
use leyline.ServerStage.View.{path_hash-replay, replay}
use leyline.ServerStage.Counters.{
  AreTimely, Call, IsConsistent, append_call, call, calls, calls-IsConsistent, total_size,
}
use leyline.ServerStage.Trigger.{
  Thresholds, elapsed, eval_intrinsic, eval_intrinsic-eq_none_iff, trigger_quiet,
}
use leyline.Tests.Samples.{delete_op, no_head, rename_op, same_bytes, write_op}

abbrev start : Stage
start = new_stage (codes "c1") (codes "ann") zero_hash

abbrev three_ops : Stage
three_ops = record start {
  ops = write_op 1 "a.md" "x" ∷ rename_op 2 "a.md" "b.md" ∷ delete_op 3 "c.md" ∷ [];
  bytes = 1;
  started = 4;
  last_append = 9;
}

path_hash-renamed :
    path_hash same_bytes no_head three_ops (codes "b.md")
    ≡ record { hash = codes "x"; present = true }
unfolding path_hash Dict.get Dict.put text_eq
path_hash-renamed = refl

path_hash-replay_example :
    path_hash same_bytes no_head three_ops (codes "b.md")
    ≡ replay same_bytes three_ops.ops no_head (codes "b.md")
path_hash-replay_example = path_hash-replay same_bytes no_head three_ops (codes "b.md")

abbrev some_calls : List Call
some_calls = append_call (write_op 1 "a.md" "xyz") 5 ∷ append_call (delete_op 2 "a.md") 6 ∷ []

start-IsConsistent : IsConsistent start
unfolding new_stage total_size
start-IsConsistent = record {
  size = refl;
  empty_unstarted = λ e. refl;
  unstarted_empty = λ e. refl;
  ordered = omega arith;
}

some_calls-AreTimely : AreTimely start some_calls
unfolding new_stage call append
some_calls-AreTimely = ((omega arith, omega arith), ((omega arith, omega arith), tt))

calls-IsConsistent_example : IsConsistent (calls start some_calls)
calls-IsConsistent_example =
    calls-IsConsistent start some_calls start-IsConsistent some_calls-AreTimely

abbrev limits : Thresholds
limits = record { quiet_window = 3; max_delay = 20; byte_cap = 100; file_cap = 0 }

eval_intrinsic-quiet : eval_intrinsic three_ops limits 12 ≡ some trigger_quiet
unfolding eval_intrinsic elapsed
eval_intrinsic-quiet = refl

eval_intrinsic-eq_none_iff_example : (eval_intrinsic three_ops limits 10 ≡ none) ↔ (
    (three_ops.ops ≡ [])
    ⊎ ((0 < 100 → 1 < 100) × (0 < 0 → 3 < 0) × (0 < 20 → 10 < 4 + 20) × (0 < 3 → 10 < 9 + 3)))
eval_intrinsic-eq_none_iff_example =
    eval_intrinsic-eq_none_iff three_ops limits 10 (omega arith) (omega arith)

-- ===== src/ServerStage/Counters.antt =====
-- The counters of a stage over its whole life.
use leyline.Base.{
  Bool-cases, List, Text, [], arith, inl, inr, is_empty, none, refl, some, ℕ, ◌++◌, ◌+◌, ◌<◌, ◌∷◌,
  ◌≡◌, ◌≢◌, ◌≤◌,
}
use leyline.Protocol.Op.{Hash, Op}
use leyline.ServerStage.{Stage, append, reset, set_keyname, write_size}

-- A call of a method that changes the stage, with the time that it reads.
pub data Call : Type 0 where
  append_call : Op → ℕ → Call
  reset_call : Hash → Call
  set_keyname_call : Text → Call

-- A `SetKeyname` that panics leaves the stage as it was.
unfoldable pub call : Stage → Call → Stage
call s (append_call op now) = append s op now
call s (reset_call base) = reset s base
call s (set_keyname_call k) = elim (set_keyname s k) [ none ↦ s | some s' ↦ s' ]

unfoldable pub calls : Stage → List Call → Stage
unfolding call
calls s [] = s
calls s (c ∷ cs) = calls (call s c) cs

unfoldable pub total_size : List Op → ℕ
total_size [] = 0
total_size (op ∷ ops) = write_size op.type op.data_bytes + total_size ops

total_size-append : (xs ys : List Op) → total_size (xs ++ ys) ≡ total_size xs + total_size ys
unfolding total_size
total_size-append [] ys = omega arith
total_size-append (x ∷ xs) ys = omega (arith, total_size-append xs ys)

-- `bytes` is the size of the staged writes, and the stage has a start time exactly when it holds
-- an operation; the start is not after the last arrival.
pub record IsConsistent (s : Stage) : Type 0 where
  pub size : s.bytes ≡ total_size s.ops
  pub empty_unstarted : s.ops ≡ [] → s.started ≡ 0
  pub unstarted_empty : s.started ≡ 0 → s.ops ≡ []
  pub ordered : s.started ≤ s.last_append

-- The clock of a call has passed the zero time and does not run back.
abbrev pub IsTimely : Stage → Call → Type 0
IsTimely s (append_call op now) = (0 < now) × (s.last_append ≤ now)
IsTimely s _ = Unit

abbrev pub AreTimely : Stage → List Call → Type 0
AreTimely s [] = Unit
AreTimely s (c ∷ cs) = IsTimely s c × AreTimely (call s c) cs

append_nonempty : (ops : List Op) (op : Op) → ops ++ op ∷ [] ≢ []
append_nonempty [] op h = cc
append_nonempty (x ∷ ops) op h = cc

set_keyname-IsConsistent :
    (s : Stage) (k : Text) → IsConsistent s → IsConsistent (call s (set_keyname_call k))
unfolding call set_keyname
set_keyname-IsConsistent s k v = elim (Bool-cases (is_empty s.keyname)) [
  | inl e ↦
      rw (e, call)
        (record {
          size = v.size;
          empty_unstarted = v.empty_unstarted;
          unstarted_empty = v.unstarted_empty;
          ordered = v.ordered;
        })
  | inr e ↦ rw (e, call) v
]

call-IsConsistent : (s : Stage) (c : Call) → IsTimely s c → IsConsistent s → IsConsistent (call s c)
unfolding call append reset set_keyname total_size
call-IsConsistent s (append_call op now) t v = record {
  size = omega (arith, total_size-append s.ops (op ∷ []), v.size);
  empty_unstarted = λ e. absurd (append_nonempty s.ops op e);
  unstarted_empty = λ e. absurd (ground arith);
  ordered = ground arith;
}
call-IsConsistent s (reset_call base) t v = record {
  size = refl;
  empty_unstarted = λ e. refl;
  unstarted_empty = λ e. refl;
  ordered = omega arith;
}
call-IsConsistent s (set_keyname_call k) t v = set_keyname-IsConsistent s k v

-- From a stage whose byte count is the size of the writes that it holds, and which has a start
-- time, not after its last arrival, exactly when it is not empty, any calls of its methods, with a
-- clock that does not run back, lead to such a stage.
pub calls-IsConsistent :
    (s : Stage) (cs : List Call) → IsConsistent s → AreTimely s cs → IsConsistent (calls s cs)
unfolding calls
calls-IsConsistent s [] v t = v
calls-IsConsistent s (c ∷ cs) v t =
    calls-IsConsistent (call s c) cs (call-IsConsistent s c t.0 v) t.1

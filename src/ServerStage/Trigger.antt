-- ===== src/ServerStage/Trigger.antt =====
-- internal/server/stage/heuristic.go: when a stage is flushed without being asked.
use leyline.Base.{
  Bool, Option, [], arith, false, if◌then◌else◌, leb, length, ltb, none, some, true, ℕ, ◌&&◌, ◌+◌,
  ◌-◌, ◌<◌, ◌==◌, ◌^◌, ◌↔◌, ◌≡◌, ◌≤◌, ◌⊎◌,
}
use leyline.ServerStage.{Stage}

pub data TriggerReason : Type 0 where
  trigger_quiet trigger_max_delay trigger_byte_cap trigger_file_cap : TriggerReason

-- A limit that is 0 or negative in the source is 0 here: it never fires.
pub record Thresholds : Type 0 where
  pub quiet_window : ℕ
  pub max_delay : ℕ
  pub byte_cap : ℕ
  pub file_cap : ℕ

abbrev pub max_duration : ℕ
max_duration = 2 ^ 63 - 1

-- `now.Sub(t) >= d` for a positive `d`: the difference saturates, and a negative one is below `d`.
unfoldable pub elapsed : ℕ → ℕ → ℕ → Bool
elapsed now t d = leb d (if ltb max_duration (now - t) then max_duration else now - t)

-- `none` is the empty reason.
unfoldable pub eval_intrinsic : Stage → Thresholds → ℕ → Option TriggerReason
eval_intrinsic s t now =
    if length s.ops == 0
    then none
    else if ltb 0 t.byte_cap && leb t.byte_cap s.bytes
    then some trigger_byte_cap
    else if ltb 0 t.file_cap && leb t.file_cap (length s.ops)
    then some trigger_file_cap
    else if ltb 0 t.max_delay && elapsed now s.started t.max_delay
    then some trigger_max_delay
    else if ltb 0 t.quiet_window && elapsed now s.last_append t.quiet_window
    then some trigger_quiet
    else none

elapsed-false : (now t d : ℕ) → d ≤ max_duration → 0 < d → elapsed now t d ≡ false → now < t + d
unfolding elapsed
elapsed-false now t d h p e = ground arith

elapsed-true : (now t d : ℕ) → elapsed now t d ≡ true → (t + d ≤ now) ⊎ (d ≡ 0)
unfolding elapsed
elapsed-true now t d e = ground arith

-- With a delay and a window that a duration can hold, a stage stays silent exactly when it is
-- empty, or no limit that is set has been reached: the bytes, the operations, the age of its first
-- operation and the age of its last.
pub eval_intrinsic-eq_none_iff :
    (s : Stage) (t : Thresholds) (now : ℕ)
    → t.max_delay ≤ max_duration
    → t.quiet_window ≤ max_duration
    → (eval_intrinsic s t now ≡ none) ↔ (
        (s.ops ≡ [])
        ⊎ ((0 < t.byte_cap → s.bytes < t.byte_cap)
            × (0 < t.file_cap → length s.ops < t.file_cap)
            × (0 < t.max_delay → now < s.started + t.max_delay)
            × (0 < t.quiet_window → now < s.last_append + t.quiet_window)))
unfolding eval_intrinsic
eval_intrinsic-eq_none_iff s t now h k = (
  λ e. ground (
    arith,
    elapsed-false now s.started t.max_delay h,
    elapsed-false now s.last_append t.quiet_window k,
  ),
  λ e. ground (
    arith,
    elapsed-true now s.started t.max_delay,
    elapsed-true now s.last_append t.quiet_window,
  ),
)

-- ===== src/RateLimit.antt =====
-- internal/server/ratelimit/limiter.go: a limit on the events of a sliding window. Times and the
-- window are nanoseconds, and `now` is the reading of the clock, one for each call.
pub mod Window
use leyline.Base.{
  Bool, List, [], false, if◌then◌else◌, keep, leb, length, ltb, true, ℕ, ◌++◌, ◌+◌, ◌∷◌,
}

pub record Limiter : Type 0 where
  pub events : List ℕ
  pub max_count : ℕ
  pub window : ℕ

unfoldable pub new_limiter : ℕ → ℕ → Limiter
new_limiter max_count window = record { events = []; max_count = max_count; window = window }

-- `t.After(now.Add(-window))`
unfoldable pub is_after : ℕ → ℕ → ℕ → Bool
is_after now window t = ltb now (t + window)

unfoldable pub prune : ℕ → Limiter → Limiter
unfolding is_after
prune now l = record l { events = keep (is_after now l.window) l.events }

-- The clock is read once: the reading of `prune` stands also for that of the append after it.
unfoldable pub allow : ℕ → Limiter → Bool × Limiter
unfolding prune
allow now l =
    let p = prune now l in
    if leb p.max_count (length p.events)
    then (false, p)
    else (true, record p { events = p.events ++ now ∷ [] })

unfoldable pub exceeded : ℕ → Limiter → Bool × Limiter
unfolding prune
exceeded now l = let p = prune now l in (leb p.max_count (length p.events), p)

unfoldable pub record_event : ℕ → Limiter → Limiter
unfolding prune
record_event now l = let p = prune now l in record p { events = p.events ++ now ∷ [] }

unfoldable pub event_count : ℕ → Limiter → ℕ × Limiter
unfolding prune
event_count now l = let p = prune now l in (length p.events, p)

unfoldable pub reset_limiter : Limiter → Limiter
reset_limiter l = record l { events = [] }

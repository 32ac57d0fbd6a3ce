-- ===== src/Tests/Limits.antt =====
-- Tests of the rate limiter.
use leyline.Base.{List, [], arith, keep, length, refl, ℕ, ◌∷◌, ◌≡◌, ◌≤◌}
use leyline.RateLimit.{allow, new_limiter}
use leyline.RateLimit.Window.{Ascends, allow-limits, allowed, in_window}

abbrev some_times : List ℕ
some_times = 1 ∷ 2 ∷ 3 ∷ 12 ∷ []

allowed-two : allowed some_times (new_limiter 2 10) ≡ 1 ∷ 2 ∷ 12 ∷ []
unfolding new_limiter allow
allowed-two = refl

some_times-Ascends : Ascends 0 some_times
some_times-Ascends = (omega arith, (omega arith, (omega arith, (omega arith, tt))))

allow-limits_example : length (keep (in_window 11 10) (allowed some_times (new_limiter 2 10))) ≤ 2
allow-limits_example = allow-limits 2 10 some_times 11 some_times-Ascends

-- ===== src/RateLimit/Tests.antt =====
-- server/internal/api/ratelimit.go: tests, and the theorems at a concrete limiter.
use check_in.Prelude.{◌+◌, ◌-◌, ◌*◌, ◌≤◌, ◌≡◌, refl, [], ◌∷◌, arith, comparable_text}
use check_in.RateLimit.{RateLimiter, second, minute, token, new_rate_limiter, allow}
use check_in.RateLimit.Refines.{IsSized}
use check_in.RateLimit.Sweeps.{answers, allow_unswept, sweeps_unseen}
use check_in.RateLimit.Window.{Schedule, passes, new-IsSized, passes_bounded}

-- two tokens a minute, a burst of two
abbrev small : RateLimiter
small = new_rate_limiter 2 2 0

small-IsSized : IsSized small
small-IsSized = new-IsSized 2 2 0 (omega arith) (omega arith)

-- Three actions at once, one half a minute later, and one after the bucket was forgotten.
abbrev busy : Schedule
busy = ("a", 0) ∷ ("a", 0) ∷ ("a", 0) ∷ ("b", 1) ∷ ("a", 30 * second) ∷ ("a", 20 * minute) ∷ []

busy-passes : passes "a" small busy ≡ 4
unfolding passes allow new_rate_limiter
busy-passes = refl

sweeps_unseen_example : answers allow small busy ≡ answers allow_unswept small busy
sweeps_unseen_example =
    sweeps_unseen small busy 0 small-IsSized
      (omega arith, (omega arith, (omega arith, (omega arith, (omega arith, (omega arith, tt))))))

passes_bounded_example : passes "a" small busy * token ≤ 2 * token + (20 * minute - 0) * 2
unfolding new_rate_limiter
passes_bounded_example = passes_bounded "a" small busy 0 (20 * minute) small-IsSized (omega arith)

-- ===== src/RateLimit.antt =====
-- server/internal/api/ratelimit.go: the token bucket limiter.
--
-- Times are nanoseconds of the monotonic clock. A token is `token` units, so that a refill of
-- `perMinute` tokens in a minute is `per_minute` units in a nanosecond and every float64 value of
-- the source is a whole number of units; the rounding of float64 is not modelled. `now` is an
-- argument of each call. The clock is monotonic and read under the lock, so no call's `now` comes
-- before that of an earlier call, and a subtraction of times does not stop at 0.
pub mod Refines
pub mod Sweeps
pub mod Window
pub mod Sizing
mod Tests
use Prim.Native.String.{String}
use check_in.Prelude.{
  ℕ, ◌+◌, ◌-◌, ◌*◌, Bool, true, false, Option, none, some, ltb, leb, ◌==◌, if◌then◌else◌,
  comparable_text,
}

abbrev pub second : ℕ
second = 1_000_000_000

abbrev pub minute : ℕ
minute = 60 * second

-- one token, in units
abbrev pub token : ℕ
token = minute

pub record Bucket : Type 0 where
  pub tokens : ℕ
  pub last : ℕ

-- `buckets` is the map[string]*bucket: `none` where a key is missing.
pub record RateLimiter : Type 0 where
  pub buckets : String → Option Bucket
  pub per_minute : ℕ
  pub burst : ℕ
  pub last_evict : ℕ

abbrev pub evict_interval : ℕ
evict_interval = 5 * minute

abbrev pub idle_limit : ℕ
idle_limit = 10 * minute

pub new_rate_limiter : ℕ → ℕ → ℕ → RateLimiter
new_rate_limiter per_minute burst now = record {
  buckets = λ _. none;
  per_minute = per_minute;
  burst = burst;
  last_evict = now;
}

-- `b.last.Before(now.Add(-10 * time.Minute))`
keep_fresh : ℕ → Option Bucket → Option Bucket
keep_fresh now none = none
keep_fresh now (some b) = if ltb (b.last + idle_limit) now then none else some b

pub evict_idle : ℕ → RateLimiter → RateLimiter
unfolding keep_fresh
evict_idle now r = record r { buckets = λ k. keep_fresh now (r.buckets k) }

-- the sweep at the head of `allow`
sweep : ℕ → RateLimiter → RateLimiter
unfolding evict_idle
sweep now r =
    if ltb evict_interval (now - r.last_evict)
    then record (evict_idle now r) { last_evict = now }
    else r

put : String → Bucket → RateLimiter → RateLimiter
put k b r = record r { buckets = λ j. if k == j then some b else r.buckets j }

-- the refill, capped at the burst
refill : RateLimiter → ℕ → Bucket → ℕ
refill r now b =
    let tokens = b.tokens + (now - b.last) * r.per_minute in
    if ltb (r.burst * token) tokens then r.burst * token else tokens

pub spend : RateLimiter → String → ℕ → Option Bucket → RateLimiter × Bool
unfolding put refill
spend r k now none = (put k (record { tokens = r.burst * token - token; last = now }) r, true)
spend r k now (some b) =
    let tokens = refill r now b in
    if leb token tokens
    then (put k (record { tokens = tokens - token; last = now }) r, true)
    else (put k (record { tokens = tokens; last = now }) r, false)

pub allow : RateLimiter → String → ℕ → RateLimiter × Bool
unfolding sweep spend
allow r k now = let swept = sweep now r in spend swept k now (swept.buckets k)

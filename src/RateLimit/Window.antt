-- ===== src/RateLimit/Window.antt =====
-- server/internal/api/ratelimit.go: what a schedule of actions may do in a window of time.
use Prim.Native.String.{String}
use check_in.Prelude.{
  ℕ, ◌+◌, ◌-◌, ◌*◌, ◌≤◌, ◌≡◌, refl, ap, Bool, true, false, List, [], ◌∷◌, ◌==◌, arith,
  comparable_text, ◌&&◌, none, some, Option,
}
use check_in.RateLimit.{RateLimiter, Bucket, token, new_rate_limiter, allow}
use check_in.RateLimit.Refines.{
  level, level_of, mul_mono, IsSized, allow_refines, allow_keeps, allow-IsSized,
}

-- A schedule holds, oldest first, the key and the time of each action.
abbrev pub Schedule : Type 0
Schedule = List (String × ℕ)

-- The times do not fall, and lie in the window.
abbrev pub Within : ℕ → ℕ → Schedule → Type 0
Within from until [] = from ≤ until
Within from until ((k, t) ∷ cs) = (from ≤ t) × Within t until cs

abbrev pub one_if : Bool → ℕ
one_if true = 1
one_if false = 0

-- how many of a key's actions pass
unfoldable pub passes : String → RateLimiter → Schedule → ℕ
passes k r [] = 0
passes k r ((j, t) ∷ cs) = one_if ((k == j) && (allow r j t).1) + passes k (allow r j t).0 cs

-- how many actions a key has
unfoldable pub asks : String → Schedule → ℕ
asks k [] = 0
asks k ((j, t) ∷ cs) = one_if (k == j) + asks k cs

mul_mono_add : (a b c d : ℕ) → a ≤ b + c → a * d ≤ b * d + c * d
mul_mono_add a b c d h = omega (arith, mul_mono a (b + c) d h)

level_of_grows :
    (rate burst now later : ℕ) (o : Option Bucket)
    → now ≤ later
    → (level_of rate burst now o ≤ level_of rate burst later o)
      × (level_of rate burst later o ≤ level_of rate burst now o + (later - now) * rate)
level_of_grows rate burst now later none h = omega arith
level_of_grows rate burst now later (some b) h = omega (
  arith,
  mul_mono_add (later - b.last) (now - b.last) (later - now) rate (omega arith),
  mul_mono (now - b.last) (later - b.last) rate (omega arith),
)

level_of_capped :
    (rate burst now : ℕ) (o : Option Bucket) → level_of rate burst now o ≤ burst * token
level_of_capped rate burst now none = omega arith
level_of_capped rate burst now (some b) = omega arith

level_capped : (r : RateLimiter) (k : String) (now : ℕ) → level r k now ≤ r.burst * token
unfolding level
level_capped r k now = level_of_capped r.per_minute r.burst now (r.buckets k)

pub level_grows :
    (r : RateLimiter) (k : String) (now later : ℕ)
    → now ≤ later
    → (level r k now ≤ level r k later)
      × (level r k later ≤ level r k now + (later - now) * r.per_minute)
unfolding level
level_grows r k now later h = level_of_grows r.per_minute r.burst now later (r.buckets k) h

Within-le : {from until : ℕ} (cs : Schedule) → Within from until cs → from ≤ until
Within-le [] w = w
Within-le ((k, t) ∷ cs) w = omega (arith, Within-le cs w.1)

time_splits : (from t until : ℕ) → from ≤ t → t ≤ until → until - from ≡ (t - from) + (until - t)
time_splits from t until h g = omega arith

-- what one action of the schedule leaves in the bucket of `k`
step_level :
    (r : RateLimiter) (k j : String) (t : ℕ)
    → IsSized r
    → level (allow r j t).0 k t + one_if ((k == j) && (allow r j t).1) * token ≤ level r k t
step_level r k j t v = ground (
  arith,
  allow_refines r j k t t v (omega arith),
  comparable_text.same_iff k j,
  comparable_text.same_iff j k,
)

-- an action of a key whose bucket holds a token passes, and no other key's action takes from it
step_keeps :
    (r : RateLimiter) (k j : String) (t : ℕ) (n : ℕ)
    → IsSized r
    → (one_if (k == j) + n) * token ≤ level r k t
    → (one_if ((k == j) && (allow r j t).1) ≡ one_if (k == j))
      × (n * token ≤ level (allow r j t).0 k t)
step_keeps r k j t n v h = ground (
  arith,
  level_capped r k t,
  allow_refines r j k t t v (omega arith),
  comparable_text.same_iff k j,
  comparable_text.same_iff j k,
)

passes_bound :
    (k : String) (r : RateLimiter) (cs : Schedule) (from until : ℕ)
    → IsSized r
    → Within from until cs
    → passes k r cs * token ≤ level r k from + (until - from) * r.per_minute
unfolding passes
passes_bound k r [] from until v w = omega arith
passes_bound k r ((j, t) ∷ cs) from until v w =
    let r' : RateLimiter = (allow r j t).0 in
    let rest = passes_bound k r' cs t until (allow-IsSized r j t v) w.1 in
    let rate = (allow_keeps r j t).0 in
    let last = Within-le cs w.1 in
    omega (
      arith,
      rest,
      ap (λ x. (until - t) * x) rate,
      step_level r k j t v,
      level_grows r k from t w.0,
      ap (λ x. x * r.per_minute) (time_splits from t until w.0 last),
    )

-- Within a window of time no key gets more actions through than the burst and the refill of the
-- window, whatever the other keys do, whatever the state the window begins in, and although idle
-- buckets are forgotten on the way.
pub passes_bounded :
    (k : String) (r : RateLimiter) (cs : Schedule) (from until : ℕ)
    → IsSized r
    → Within from until cs
    → passes k r cs * token ≤ r.burst * token + (until - from) * r.per_minute
passes_bounded k r cs from until v w =
    omega (arith, passes_bound k r cs from until v w, level_capped r k from)

passes-eq-asks :
    (k : String) (r : RateLimiter) (cs : Schedule) (from until : ℕ)
    → IsSized r
    → Within from until cs
    → asks k cs * token ≤ level r k from
    → passes k r cs ≡ asks k cs
unfolding passes asks
passes-eq-asks k r [] from until v w h = refl
passes-eq-asks k r ((j, t) ∷ cs) from until v w h =
    let kept = step_keeps r k j t (asks k cs) v (omega (arith, level_grows r k from t w.0)) in
    omega
      (arith, kept, passes-eq-asks k (allow r j t).0 cs t until (allow-IsSized r j t v) w.1 kept.1)

pub new-IsSized :
    (per_minute burst start : ℕ)
    → 1 ≤ burst
    → burst ≤ 10 * per_minute
    → IsSized (new_rate_limiter per_minute burst start)
unfolding new_rate_limiter
new-IsSized per_minute burst start p q = record { positive = p; refills = omega arith }

level-new :
    (per_minute burst start now : ℕ) (k : String)
    → level (new_rate_limiter per_minute burst start) k now ≡ burst * token
unfolding level new_rate_limiter
level-new per_minute burst start now k = refl

-- A new limiter passes every action of a key that asks at most the burst, however fast, whatever
-- the other keys do.
pub passes-new :
    (per_minute burst from until : ℕ) (k : String) (cs : Schedule)
    → 1 ≤ burst
    → burst ≤ 10 * per_minute
    → Within from until cs
    → asks k cs ≤ burst
    → passes k (new_rate_limiter per_minute burst from) cs ≡ asks k cs
passes-new per_minute burst from until k cs p q w h =
    passes-eq-asks k (new_rate_limiter per_minute burst from) cs from until
      (new-IsSized per_minute burst from p q) w
      (omega (arith, level-new per_minute burst from from k))

-- A key that is refused passes again as soon as the clock has run long enough for one token.
pub allow_after_wait :
    (r : RateLimiter) (k : String) (now later : ℕ)
    → IsSized r
    → now ≤ later
    → token ≤ (later - now) * r.per_minute
    → (allow (allow r k now).0 k later).1 ≡ true
allow_after_wait r k now later v t h = ground (
  arith,
  allow_refines r k k now later v t,
  allow_refines (allow r k now).0 k k later later (allow-IsSized r k now v),
  comparable_text.same_iff k k,
  v.positive,
)

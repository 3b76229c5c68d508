-- ===== src/RateLimit/Refines.antt =====
-- server/internal/api/ratelimit.go: `allow` against an ideal bucket for each key.
use Prim.Native.String.{String}
use check_in.Prelude.{
  ℕ, ◌+◌, ◌-◌, ◌*◌, ◌≤◌, ◌≡◌, ◌≢◌, refl, ◌∙◌, subst, Option, none, some, leb, ◌==◌, if◌then◌else◌,
  min, arith, comparable_text, inl, inr, Bool-cases,
}
use check_in.RateLimit.{RateLimiter, Bucket, token, idle_limit, keep_fresh, sweep, spend, allow}

-- The units that an ideal bucket, which is never forgotten, holds at a time: it starts full, and
-- fills at the rate up to the burst.
abbrev pub level_of : ℕ → ℕ → ℕ → Option Bucket → ℕ
level_of per_minute burst now none = burst * token
level_of per_minute burst now (some b) =
    min (burst * token) (b.tokens + (now - b.last) * per_minute)

unfoldable pub level : RateLimiter → String → ℕ → ℕ
level r k now = level_of r.per_minute r.burst now (r.buckets k)

-- A limiter that fills an idle bucket before it forgets it, and that lets one action through.
pub record IsSized (r : RateLimiter) : Type 0 where
  pub positive : 1 ≤ r.burst
  pub refills : r.burst * token ≤ idle_limit * r.per_minute

-- What an ideal bucket holds after an action that finds `units` in it.
abbrev pub ideal_spend : ℕ → ℕ
ideal_spend units = if leb token units then units - token else units

-- An ideal bucket that held `units` some nanoseconds ago.
abbrev pub ideal_fill : RateLimiter → ℕ → ℕ → ℕ
ideal_fill r units elapsed = min (r.burst * token) (units + elapsed * r.per_minute)

pub mul_mono : (a b c : ℕ) → a ≤ b → a * c ≤ b * c
mul_mono a b c h = grind arith

keep_fresh-level :
    (rate burst now later : ℕ) (o : Option Bucket)
    → burst * token ≤ idle_limit * rate
    → now ≤ later
    → level_of rate burst later (keep_fresh now o) ≡ level_of rate burst later o
unfolding keep_fresh
keep_fresh-level rate burst now later none h t = refl
keep_fresh-level rate burst now later (some b) h t =
    ground (arith, mul_mono idle_limit (later - b.last) rate)

sweep-level :
    (r : RateLimiter) (k : String) (now later : ℕ)
    → IsSized r
    → now ≤ later
    → level (sweep now r) k later ≡ level r k later
unfolding sweep level
sweep-level r k now later v t =
    ground (arith, keep_fresh-level r.per_minute r.burst now later (r.buckets k) v.refills t)

pub spend_allows :
    (r : RateLimiter) (k : String) (now : ℕ)
    → 1 ≤ r.burst
    → (spend r k now (r.buckets k)).1 ≡ leb token (level r k now)
unfolding spend level
spend_allows r k now h = ground arith

pub spend-level_self :
    (r : RateLimiter) (k : String) (now later : ℕ)
    → 1 ≤ r.burst
    → level (spend r k now (r.buckets k)).0 k later
      ≡ ideal_fill r (ideal_spend (level r k now)) (later - now)
unfolding spend level
spend-level_self r k now later h = ground (arith, comparable_text.same_iff k k)

pub spend-level_ne :
    (r : RateLimiter) (k j : String) (now later : ℕ)
    → j ≢ k
    → level (spend r k now (r.buckets k)).0 j later ≡ level r j later
unfolding spend level
spend-level_ne r k j now later h = ground (arith, comparable_text.same_iff k j)

sweep_keeps :
    (r : RateLimiter) (now : ℕ)
    → ((sweep now r).per_minute ≡ r.per_minute) × ((sweep now r).burst ≡ r.burst)
unfolding sweep
sweep_keeps r now = ground arith

pub spend_keeps :
    (r : RateLimiter) (k : String) (now : ℕ) (o : Option Bucket)
    → ((spend r k now o).0.per_minute ≡ r.per_minute) × ((spend r k now o).0.burst ≡ r.burst)
unfolding spend
spend_keeps r k now none = ground arith
spend_keeps r k now (some b) = ground arith

-- No call changes the rate or the burst.
pub allow_keeps :
    (r : RateLimiter) (k : String) (now : ℕ)
    → ((allow r k now).0.per_minute ≡ r.per_minute) × ((allow r k now).0.burst ≡ r.burst)
unfolding allow
allow_keeps r k now =
    ground (arith, sweep_keeps r now, spend_keeps (sweep now r) k now ((sweep now r).buckets k))

pub allow-IsSized : (r : RateLimiter) (k : String) (now : ℕ) → IsSized r → IsSized (allow r k now).0
allow-IsSized r k now v = ground (arith, allow_keeps r k now)

-- A sized limiter, with its sweeps, behaves as one ideal bucket for each key: an action passes
-- exactly when the key's ideal bucket holds a token; the bucket then loses that token (nothing, if
-- the action is refused) and fills on up to the burst, and the bucket of any other key `j` holds at
-- each later time what it would have held.
pub allow_refines :
    (r : RateLimiter) (k j : String) (now later : ℕ)
    → IsSized r
    → now ≤ later
    → ((allow r k now).1 ≡ leb token (level r k now))
      × (level (allow r k now).0 j later ≡ (
          if k == j
          then ideal_fill r (ideal_spend (level r k now)) (later - now)
          else level r j later))
unfolding allow
allow_refines r k j now later v t = (
  ground (arith, keeps, spend_allows swept k now, sweep-level r k now now v),
  elim (Bool-cases (k == j)) [
    | inl e ↦ rw e (
        subst (λ i. level (spend swept k now (swept.buckets k)).0 i later ≡ filled)
          ((comparable_text.same_iff k j).0 e) self)
    | inr e ↦ rw e (
        spend-level_ne swept k j now later (λ p. ground (arith, comparable_text.same_iff k j))
        ∙ sweep-level r j now later v t)
  ],
)
  where
    swept : RateLimiter
    swept = sweep now r

    keeps : ((sweep now r).per_minute ≡ r.per_minute) × ((sweep now r).burst ≡ r.burst)
    keeps = sweep_keeps r now

    filled : ℕ
    filled = ideal_fill r (ideal_spend (level r k now)) (later - now)

    self : level (spend swept k now (swept.buckets k)).0 k later ≡ filled
    self = ground (arith, keeps, spend-level_self swept k now later, sweep-level r k now now v)

-- ===== src/RateLimit/Sweeps.antt =====
-- server/internal/api/ratelimit.go: forgetting idle buckets changes no answer.
use Prim.Native.String.{String}
use check_in.Prelude.{
  ℕ, ◌-◌, ◌≤◌, ◌≡◌, refl, ap₂, ap, sym, ◌∙◌, Bool, List, [], ◌∷◌, leb, ◌==◌, if◌then◌else◌, arith,
  comparable_text, inl, inr, Bool-cases, subst,
}
use check_in.RateLimit.{RateLimiter, token, spend, allow}
use check_in.RateLimit.Refines.{
  IsSized, level, ideal_fill, ideal_spend, allow_keeps, allow-IsSized, allow_refines, spend_allows,
  spend-level_self, spend-level_ne, spend_keeps,
}
use check_in.RateLimit.Window.{Schedule}

-- `allow` without its sweep: a limiter that forgets no bucket.
abbrev pub allow_unswept : RateLimiter → String → ℕ → RateLimiter × Bool
allow_unswept r k now = spend r k now (r.buckets k)

-- The answers to the actions of a schedule.
abbrev pub answers :
    (RateLimiter → String → ℕ → RateLimiter × Bool) → RateLimiter → Schedule → List Bool
answers act r [] = []
answers act r ((k, now) ∷ asks) = let done = act r k now in done.1 ∷ answers act done.0 asks

-- The times of a schedule do not go back, from a time on.
abbrev pub InOrder : ℕ → Schedule → Type 0
InOrder from [] = Unit
InOrder from ((k, now) ∷ asks) = (from ≤ now) × InOrder now asks

-- Two limiters that hold the same of every key from a time on.
record Alike (from : ℕ) (r r' : RateLimiter) : Type 0 where
  same_rate : r.per_minute ≡ r'.per_minute
  same_burst : r.burst ≡ r'.burst
  same_levels : (k : String) (later : ℕ) → from ≤ later → level r k later ≡ level r' k later

unswept-level :
    (r : RateLimiter) (k j : String) (now later : ℕ)
    → 1 ≤ r.burst
    → level (allow_unswept r k now).0 j later ≡ (
        if k == j
        then ideal_fill r (ideal_spend (level r k now)) (later - now)
        else level r j later)
unswept-level r k j now later h = elim (Bool-cases (k == j)) [
  | inl e ↦ rw e (
      subst
        (λ i.
          level (allow_unswept r k now).0 i later
          ≡ ideal_fill r (ideal_spend (level r k now)) (later - now))
        ((comparable_text.same_iff k j).0 e) (spend-level_self r k now later h))
  | inr e ↦
      rw e (spend-level_ne r k j now later (λ p. ground (arith, e, comparable_text.same_iff k j)))
]

ideal_alike :
    (r r' : RateLimiter) (n m e : ℕ)
    → r.per_minute ≡ r'.per_minute
    → r.burst ≡ r'.burst
    → n ≡ m
    → ideal_fill r (ideal_spend n) e ≡ ideal_fill r' (ideal_spend m) e
ideal_alike r r' n m e h k l = rw (h, k, l) refl

allow-Alike :
    (from : ℕ) (r r' : RateLimiter) (k : String) (now : ℕ)
    → IsSized r
    → from ≤ now
    → Alike from r r'
    → Alike now (allow r k now).0 (allow_unswept r' k now).0
allow-Alike from r r' k now v t a =
    let kept = allow_keeps r k now in
    let kept' = spend_keeps r' k now (r'.buckets k) in
    let positive : 1 ≤ r'.burst = omega (arith, v.positive, a.same_burst) in
    record {
      same_rate = kept.0 ∙ a.same_rate ∙ sym kept'.0;
      same_burst = kept.1 ∙ a.same_burst ∙ sym kept'.1;
      same_levels = λ j later l.
          let left = (allow_refines r k j now later v l).1 in
          let right = unswept-level r' k j now later positive in
          let filled =
            ideal_alike r r' (level r k now) (level r' k now) (later - now) a.same_rate a.same_burst
              (a.same_levels k now t) in
          left
          ∙ ap₂ (λ x y. if k == j then x else y) filled
              (a.same_levels j later (omega (arith, t, l)))
          ∙ sym right;
    }

answers-Alike :
    (from : ℕ) (asks : Schedule) (r r' : RateLimiter)
    → IsSized r
    → InOrder from asks
    → Alike from r r'
    → answers allow r asks ≡ answers allow_unswept r' asks
answers-Alike from [] r r' v o a = refl
answers-Alike from ((k, now) ∷ asks) r r' v o a =
    let positive : 1 ≤ r'.burst = omega (arith, v.positive, a.same_burst) in
    let here : (allow r k now).1 ≡ (allow_unswept r' k now).1 =
      (allow_refines r k k now now v (omega arith)).0
      ∙ ap (leb token) (a.same_levels k now o.0)
      ∙ sym (spend_allows r' k now positive) in
    ap₂ (λ (b : Bool) (bs : List Bool). b ∷ bs) here
      (answers-Alike now asks (allow r k now).0 (allow_unswept r' k now).0 (allow-IsSized r k now v)
        o.1 (allow-Alike from r r' k now v o.0 a))

-- A limiter that fills an idle bucket within the ten minutes after which it forgets it, and that has a burst
-- of one at least, answers the actions of any schedule as if it never forgot a bucket, whatever the keys, as
-- long as no action comes before an earlier one. The amounts of tokens are exact here, where the source adds
-- float64 numbers; a bucket is forgotten only once it is full.
pub sweeps_unseen :
    (r : RateLimiter) (asks : Schedule) (from : ℕ)
    → IsSized r
    → InOrder from asks
    → answers allow r asks ≡ answers allow_unswept r asks
sweeps_unseen r asks from v o =
    answers-Alike from asks r r v o
      (record { same_rate = refl; same_burst = refl; same_levels = λ k later l. refl })

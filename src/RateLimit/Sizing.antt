-- ===== src/RateLimit/Sizing.antt =====
-- server/internal/api/ratelimit.go: the content limits, and their sizes.
use Prim.Native.String.{String}
use check_in.Prelude.{ℕ, ◌*◌, ◌≤◌, ◌≡◌, arith}
use check_in.RateLimit.{RateLimiter, new_rate_limiter}
use check_in.RateLimit.Refines.{IsSized}
use check_in.RateLimit.Window.{Schedule, Within, passes, asks, new-IsSized, passes-new}

pub record ContentLimits : Type 0 where
  pub posts : RateLimiter
  pub comments : RateLimiter
  pub likes : RateLimiter
  pub media : RateLimiter
  pub media_read : RateLimiter
  pub gifs : RateLimiter
  pub memories : RateLimiter
  pub events : RateLimiter
  pub timeline : RateLimiter
  pub forgotten : RateLimiter
  pub places : RateLimiter

abbrev pub media_burst : ℕ
media_burst = 20

-- `now` is the time at which the server starts.
pub new_content_limits : ℕ → ContentLimits
new_content_limits now = record {
  posts = new_rate_limiter 30 10 now;
  comments = new_rate_limiter 60 20 now;
  likes = new_rate_limiter 60 30 now;
  media = new_rate_limiter 30 media_burst now;
  media_read = new_rate_limiter 600 300 now;
  gifs = new_rate_limiter 30 15 now;
  memories = new_rate_limiter 30 15 now;
  events = new_rate_limiter 20 10 now;
  timeline = new_rate_limiter 20 10 now;
  forgotten = new_rate_limiter 30 15 now;
  places = new_rate_limiter 20 10 now;
}

-- every limiter of the set has the property
pub record AllLimits (P : RateLimiter → Type 0) (c : ContentLimits) : Type 0 where
  pub posts : P c.posts
  pub comments : P c.comments
  pub likes : P c.likes
  pub media : P c.media
  pub media_read : P c.media_read
  pub gifs : P c.gifs
  pub memories : P c.memories
  pub events : P c.events
  pub timeline : P c.timeline
  pub forgotten : P c.forgotten
  pub places : P c.places

-- Each limiter of the server fills an idle bucket before the sweep forgets it, and has a burst of
-- one action at least.
pub new_content_limits-IsSized : (now : ℕ) → AllLimits IsSized (new_content_limits now)
unfolding new_content_limits
new_content_limits-IsSized now = record {
  posts = sized 30 10 (omega arith) (omega arith);
  comments = sized 60 20 (omega arith) (omega arith);
  likes = sized 60 30 (omega arith) (omega arith);
  media = sized 30 media_burst (omega arith) (omega arith);
  media_read = sized 600 300 (omega arith) (omega arith);
  gifs = sized 30 15 (omega arith) (omega arith);
  memories = sized 30 15 (omega arith) (omega arith);
  events = sized 20 10 (omega arith) (omega arith);
  timeline = sized 20 10 (omega arith) (omega arith);
  forgotten = sized 30 15 (omega arith) (omega arith);
  places = sized 20 10 (omega arith) (omega arith);
}
  where
    sized :
        (per_minute burst : ℕ)
        → 1 ≤ burst
        → burst ≤ 10 * per_minute
        → IsSized (new_rate_limiter per_minute burst now)
    sized per_minute burst = new-IsSized per_minute burst now

-- A check-in of ten clips, each with a poster frame, uploads without a refusal on a new server: all
-- of a member's media requests pass while there are twenty at most, whatever others upload.
pub media_passes :
    (user : String) (cs : Schedule) (start until : ℕ)
    → Within start until cs
    → asks user cs ≤ 2 * 10
    → passes user (new_content_limits start).media cs ≡ asks user cs
unfolding new_content_limits
media_passes user cs start until w h =
    passes-new 30 media_burst start until user cs (omega arith) (omega arith) w h

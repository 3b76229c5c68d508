-- ===== src/Api/Session.antt =====
-- server/internal/api/helpers.go: the middleware requireAuth, slideSession, requireAdmin and rateLimitUser,
-- with the statements of server/internal/db/queries.go on the table of sessions.
--
-- The server and its database are taken to read the same clock, once for each request. auth.HashToken,
-- which users are active and strconv.FormatInt are parameters. A handler behind a middleware is a call
-- in the server's state.
pub mod Lifetime
pub mod Admitted
mod Tests
use Prim.Native.String.{String}
use check_in.Prelude.{
  ℕ, ◌+◌, ◌-◌, ◌*◌, ◌/◌, Bool, true, false, not, ◌&&◌, ◌||◌, Option, none, some, List, [], ◌∷◌,
  ◌++◌, ltb, leb, ◌==◌, if◌then◌else◌, min, length, take, drop, comparable_nat,
}
use check_in.Slice.{Bytes, bytes_eq}
use check_in.Maps.{comparable_bytes}
use check_in.Clock.{hour}
use check_in.Api.{Reply, write_err, Call}
use check_in.RateLimit.{RateLimiter, allow}

-- A row of sessions.
pub record Session : Type 0 where
  pub user_id : ℕ
  pub token_hash : Bytes
  pub created_at : ℕ
  pub expires_at : ℕ

pub record SessionConfig : Type 0 where
  pub session_ttl : ℕ
  pub session_max_age : ℕ

abbrev pub session_slide_gap : ℕ
session_slide_gap = 24 * hour

-- `s.expires_at > now() AND s.created_at > now() - $2::interval`
abbrev pub is_valid : SessionConfig → ℕ → Session → Bool
is_valid cfg now s = ltb now s.expires_at && ltb now (s.created_at + cfg.session_max_age)

unfoldable pub user_for_token : SessionConfig → (ℕ → Bool) → Bytes → ℕ → List Session → Option ℕ
user_for_token cfg active hash now [] = none
user_for_token cfg active hash now (s ∷ sessions) =
    if s.token_hash == hash && (is_valid cfg now s && active s.user_id)
    then some s.user_id
    else user_for_token cfg active hash now sessions

-- One row of the UPDATE.
unfoldable pub extend_row : Bytes → ℕ → ℕ → ℕ → ℕ → Session → Session
extend_row hash new_expiry stale_before max_age now s =
    let expiry = min new_expiry (s.created_at + max_age) in
    if s.token_hash == hash
      && (ltb now s.expires_at && (ltb s.expires_at stale_before && ltb s.expires_at expiry))
    then record s { expires_at = expiry }
    else s

unfoldable pub extend_session : Bytes → ℕ → ℕ → ℕ → ℕ → List Session → List Session
extend_session hash new_expiry stale_before max_age now [] = []
extend_session hash new_expiry stale_before max_age now (s ∷ sessions) =
    extend_row hash new_expiry stale_before max_age now s
    ∷ extend_session hash new_expiry stale_before max_age now sessions

abbrev pub slide_gap : SessionConfig → ℕ
slide_gap cfg = min session_slide_gap (cfg.session_ttl / 10)

-- `failed` is whether the write fails, which is only logged.
unfoldable pub slide_session : SessionConfig → Bool → Bytes → ℕ → List Session → List Session
slide_session cfg failed hash now sessions =
    if failed
    then sessions
    else extend_session hash (now + cfg.session_ttl) (now + cfg.session_ttl - slide_gap cfg)
        cfg.session_max_age now sessions

abbrev pub issue_session : SessionConfig → ℕ → Bytes → ℕ → List Session → List Session
issue_session cfg user_id hash now sessions =
    sessions
    ++ record {
      user_id = user_id;
      token_hash = hash;
      created_at = now;
      expires_at = now + cfg.session_ttl;
    }
      ∷ []

-- "Bearer "
abbrev pub bearer : Bytes
bearer = b'B' ∷ b'e' ∷ b'a' ∷ b'r' ∷ b'e' ∷ b'r' ∷ b' ' ∷ []

abbrev pub trim_prefix : Bytes → Bytes → Bytes
trim_prefix s prefix =
    if bytes_eq (take (length prefix) s) prefix then drop (length prefix) s else s

-- What requireAuth reads and writes: the table, and which calls fail.
pub record Gate : Type 0 where
  pub cfg : SessionConfig
  pub active : ℕ → Bool
  pub hash_token : Bytes → Bytes
  pub read_fails : Bool
  pub write_fails : Bool

-- `UserForToken`, or its error
abbrev pub user_of : Gate → Bytes → ℕ → List Session → Option ℕ
user_of g token now sessions =
    if g.read_fails then none else user_for_token g.cfg g.active (g.hash_token token) now sessions

unfoldable pub require_auth :
    {A : Type 0}
    → Gate
    → Bytes
    → ℕ
    → (ℕ → Bytes → Call (List Session) (Reply A))
    → Call (List Session) (Reply A)
require_auth g header now next sessions =
    let token = trim_prefix header bearer in
    if length token == 0 || bytes_eq token header
    then (write_err 401 "missing bearer token", sessions)
    else elim (user_of g token now sessions) [
      | none ↦ (write_err 401 "invalid or expired session", sessions)
      | some user ↦
          next user token (slide_session g.cfg g.write_fails (g.hash_token token) now sessions)
    ]

-- Behind it: the request is of an admin or not, or of a user who has a bucket.
unfoldable pub require_admin : {W A : Type 0} → Bool → Call W (Reply A) → Call W (Reply A)
require_admin is_admin next w = if not is_admin then (write_err 403 "admin only", w) else next w

unfoldable pub rate_limit_user :
    {W A : Type 0} → (ℕ → String) → ℕ → ℕ → Call W (Reply A) → Call (RateLimiter × W) (Reply A)
rate_limit_user format_int user now next (lim, w) =
    let (lim', passes) = allow lim (format_int user) now in
    if not passes
    then (write_err 429 "too many requests, slow down", (lim', w))
    else let (reply, w') = next w in (reply, (lim', w'))

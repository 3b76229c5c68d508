-- ===== src/Api/Session/Lifetime.antt =====
-- server/internal/api/helpers.go: how long a session lives while it is used.
use check_in.Prelude.{
  ℕ, zero, suc, ◌+◌, ◌-◌, ◌≤◌, ◌<◌, ◌≡◌, ◌≢◌, refl, ap, ◌∙◌, sym, subst, Bool, true, false, ◌&&◌,
  some, List, [], ◌∷◌, ◌++◌, ◌==◌, min, max, length, length-append, get_elem?, arith,
  comparable_nat, Bool-cases, inl, inr, ◌⊎◌,
}
use check_in.Slice.{Bytes, bytes_eq}
use check_in.Maps.{comparable_bytes, bytes_eq_iff}
use check_in.Sorting.{All}
use check_in.Api.{Reply, write_json, status, Call}
use check_in.Api.Session.{
  Session, SessionConfig, is_valid, user_for_token, extend_row, extend_session, slide_gap,
  slide_session, bearer, trim_prefix, Gate, require_auth,
}

get_elem?-extend_session :
    (hash : Bytes) (new_expiry stale_before max_age now : ℕ) (sessions : List Session) (i : ℕ)
    (s : Session)
    → get_elem? sessions i ≡ some s
    → get_elem? (extend_session hash new_expiry stale_before max_age now sessions) i
      ≡ some (extend_row hash new_expiry stale_before max_age now s)
unfolding extend_session
get_elem?-extend_session hash new stale age now [] i s e = cc
get_elem?-extend_session hash new stale age now (x ∷ sessions) zero s e = ground (arith, e)
get_elem?-extend_session hash new stale age now (x ∷ sessions) (suc i) s e =
    get_elem?-extend_session hash new stale age now sessions i s e

-- What sliding by a token at a time does to a session, if the write fails and if it does not.
pub record Slid (cfg : SessionConfig) (failed : Bool) (hash : Bytes) (now : ℕ) (s s' : Session)
    : Type 0 where
  pub same_user : s'.user_id ≡ s.user_id
  pub same_token : s'.token_hash ≡ s.token_hash
  pub same_birth : s'.created_at ≡ s.created_at
  pub no_shorter : s.expires_at ≤ s'.expires_at
  pub capped :
      s'.expires_at
      ≤ max s.expires_at (min (now + cfg.session_ttl) (s.created_at + cfg.session_max_age))
  pub extended :
      s.token_hash ≡ hash
      → now < s.expires_at
      → failed ≡ false
      → min (now + cfg.session_ttl - slide_gap cfg) (s.created_at + cfg.session_max_age)
        ≤ s'.expires_at
  pub others : (failed ≡ true) ⊎ ((s.token_hash ≢ hash) ⊎ (s.expires_at ≤ now)) → s' ≡ s

extend_row-Slid :
    (cfg : SessionConfig) (hash : Bytes) (now : ℕ) (s : Session)
    → Slid cfg false hash now s (
        extend_row hash
          (now + cfg.session_ttl)
          (now + cfg.session_ttl - slide_gap cfg)
          cfg.session_max_age
          now
          s)
unfolding extend_row
extend_row-Slid cfg hash now s = record {
  same_user = ground arith;
  same_token = ground arith;
  same_birth = ground arith;
  no_shorter = ground arith;
  capped = ground arith;
  extended = λ h k _. ground (arith, bytes_eq_iff s.token_hash hash, h, k);
  others = λ h. elim h [
    | inl fails ↦ ground (arith, fails)
    | inr (inl other) ↦ ground (arith, bytes_eq_iff s.token_hash hash, other)
    | inr (inr late) ↦ ground (arith, late)
  ];
}

-- Sliding by the hash of any token, whether the write fails or not, leaves every session in its place: it
-- keeps its user, its token and its birth, its expiry is never brought forward, and never put past a TTL
-- from now or the greatest age unless it was there before. It is as it was where the write fails, where it
-- is of another token, and where it has expired. Where the write does not fail, a session of the token
-- that has not expired then expires no earlier than a TTL less the gap from now, or its greatest age.
pub slide_session-Slid :
    (cfg : SessionConfig) (failed : Bool) (hash : Bytes) (now : ℕ) (sessions : List Session) (i : ℕ)
    (s : Session)
    → get_elem? sessions i ≡ some s
    → (s' : Session) × (get_elem? (slide_session cfg failed hash now sessions) i ≡ some s')
      × Slid cfg failed hash now s s'
unfolding slide_session
slide_session-Slid cfg true hash now sessions i s e = (
  s,
  e,
  record {
    same_user = refl;
    same_token = refl;
    same_birth = refl;
    no_shorter = omega arith;
    capped = omega arith;
    extended = λ h k fails. ground (arith, fails);
    others = λ h. refl;
  },
)
slide_session-Slid cfg false hash now sessions i s e = (
  extend_row hash (now + cfg.session_ttl) (now + cfg.session_ttl - slide_gap cfg)
      cfg.session_max_age now s,
  get_elem?-extend_session hash (now + cfg.session_ttl) (now + cfg.session_ttl - slide_gap cfg)
      cfg.session_max_age now sessions i s e,
  extend_row-Slid cfg hash now s,
)

user_for_token-some :
    (cfg : SessionConfig) (active : ℕ → Bool) (hash : Bytes) (now : ℕ) (sessions : List Session)
    (i : ℕ) (s : Session)
    → get_elem? sessions i ≡ some s
    → s.token_hash ≡ hash
    → is_valid cfg now s ≡ true
    → active s.user_id ≡ true
    → (user : ℕ) × (user_for_token cfg active hash now sessions ≡ some user)
unfolding user_for_token
user_for_token-some cfg active hash now [] i s e h v a = cc
user_for_token-some cfg active hash now (x ∷ sessions) zero s e h v a =
    (s.user_id, ground (arith, e, v, a, h, bytes_eq_iff s.token_hash hash))
user_for_token-some cfg active hash now (x ∷ sessions) (suc i) s e h v a =
    elim (Bool-cases (x.token_hash == hash && (is_valid cfg now x && active x.user_id))) [
      | inl hit ↦ (x.user_id, rw hit refl)
      | inr miss ↦
          let rest = user_for_token-some cfg active hash now sessions i s e h v a in
          (rest.0, rw miss rest.1)
    ]

-- A handler that answers with the user and leaves the sessions alone.
abbrev pub answer : ℕ → Bytes → Call (List Session) (Reply ℕ)
answer user token sessions = (write_json 200 user, sessions)

-- The statuses of the requests of one header, at times in their order.
unfoldable pub statuses : Gate → Bytes → List ℕ → List Session → List ℕ
statuses g header [] sessions = []
statuses g header (now ∷ times) sessions =
    let result = require_auth g header now answer sessions in
    status result.0 ∷ statuses g header times result.1

-- Each time is less than a TTL less the gap after the one before, and before the greatest age.
abbrev pub InUse : SessionConfig → ℕ → ℕ → List ℕ → Type 0
InUse cfg created last [] = Unit
InUse cfg created last (now ∷ times) =
    (last ≤ now)
    × (now < last + cfg.session_ttl - slide_gap cfg)
    × (now < created + cfg.session_max_age)
    × InUse cfg created now times

trim_prefix-bearer : (token : Bytes) → trim_prefix (bearer ++ token) bearer ≡ token
trim_prefix-bearer token = refl

token_differs : (token : Bytes) → bytes_eq token (bearer ++ token) ≡ false
token_differs token = elim (Bool-cases (bytes_eq token (bearer ++ token))) [
  | inr e ↦ e
  | inl e ↦ absurd (
      omega (
        arith,
        ap (λ (t : Bytes). length t) ((bytes_eq_iff token (bearer ++ token)).0 e),
        length-append bearer token,
      ))
]

module _ (g : Gate) (token : Bytes) (reads : g.read_fails ≡ false) (writes : g.write_fails ≡ false)
    (given : token ≢ []) where
  accepted :
      (now : ℕ) (sessions : List Session) (i : ℕ) (s : Session)
      → get_elem? sessions i ≡ some s
      → s.token_hash ≡ g.hash_token token
      → is_valid g.cfg now s ≡ true
      → g.active s.user_id ≡ true
      → (user : ℕ) × (require_auth g (bearer ++ token) now answer sessions
          ≡ (write_json 200 user, slide_session g.cfg false (g.hash_token token) now sessions))
  unfolding require_auth
  accepted now sessions i s e h v a =
      let found =
        user_for_token-some g.cfg g.active (g.hash_token token) now sessions i s e h v a in
      (found.0, ground (arith, reads, writes, token_differs token, filled token given, found.1))
    where
      filled : (t : Bytes) → t ≢ [] → (length t == 0) ≡ false
      filled [] k = absurd (k refl)
      filled (b ∷ t) k = ground arith

  -- Whoever comes back each time before a TTL less the gap has passed is let in each time, until the
  -- session reaches the greatest age. The gap is a day or a tenth of the TTL, whichever is less; the
  -- database does not fail and the user stays active.
  pub statuses-InUse :
      (times : List ℕ) (last : ℕ) (sessions : List Session) (i : ℕ) (s : Session)
      → get_elem? sessions i ≡ some s
      → s.token_hash ≡ g.hash_token token
      → g.active s.user_id ≡ true
      → min (last + g.cfg.session_ttl - slide_gap g.cfg) (s.created_at + g.cfg.session_max_age)
        ≤ s.expires_at
      → InUse g.cfg s.created_at last times
      → All (λ n. n ≡ 200) (statuses g (bearer ++ token) times sessions)
  unfolding statuses
  statuses-InUse [] last sessions i s e h a alive used = tt
  statuses-InUse (now ∷ times) last sessions i s e h a alive used =
      let got = accepted now sessions i s e h (ground (arith, alive, used)) a in
      let next = slide_session-Slid g.cfg false (g.hash_token token) now sessions i s e in
      let slid = next.2 in
      (
        ap (λ (r : Reply ℕ × List Session). status r.0) got.1,
        statuses-InUse times now (require_auth g (bearer ++ token) now answer sessions).1 i next.0
            (ap (λ (r : Reply ℕ × List Session). get_elem? r.1 i) got.1 ∙ next.1)
            (slid.same_token ∙ h) (ap g.active slid.same_user ∙ a)
            (omega (arith, slid.extended h (omega (arith, alive, used)) refl, slid.same_birth))
            (subst (λ b. InUse g.cfg b now times) (sym slid.same_birth) used.3),
      )

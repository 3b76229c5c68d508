-- ===== src/Api/Session/Admitted.antt =====
-- server/internal/api/helpers.go: whom requireAuth lets through.
use Prim.Native.String.{String}
use check_in.Prelude.{
  ℕ, suc, ◌+◌, ◌<◌, ◌≡◌, ◌≢◌, refl, ap, ◌∙◌, sym, true, false, ◌&&◌, ◌||◌, some, List, [], ◌∷◌,
  ◌++◌, ◌==◌, length, take, drop, take-append-drop, get_elem?, arith, comparable_nat, Bool-cases,
  Option-cases, inl, inr,
}
use check_in.Slice.{Bytes, bytes_eq}
use check_in.Maps.{comparable_bytes, bytes_eq_iff}
use check_in.Api.{Reply, write_err, Call}
use check_in.Api.Session.{
  Session, is_valid, user_for_token, slide_session, bearer, trim_prefix, user_of, Gate,
  require_auth,
}

-- A session in the table for which a token is accepted.
pub record Accepts (g : Gate) (token : Bytes) (now : ℕ) (sessions : List Session) : Type 0 where
  pub place : ℕ
  pub session : Session
  pub there : get_elem? sessions place ≡ some session
  pub matches : session.token_hash ≡ g.hash_token token
  pub unexpired : now < session.expires_at
  pub young : now < session.created_at + g.cfg.session_max_age
  pub active : g.active session.user_id ≡ true

user_for_token-Accepts :
    (g : Gate) (token : Bytes) (now : ℕ) (sessions : List Session) (user : ℕ)
    → user_for_token g.cfg g.active (g.hash_token token) now sessions ≡ some user
    → (a : Accepts g token now sessions) × (a.session.user_id ≡ user)
unfolding user_for_token
user_for_token-Accepts g token now [] user e = cc
user_for_token-Accepts g token now (s ∷ sessions) user e =
    elim (Bool-cases
      (s.token_hash == g.hash_token token && (is_valid g.cfg now s && g.active s.user_id))) [
        | inl hit ↦ (
          record {
            place = 0;
            session = s;
            there = refl;
            matches = (bytes_eq_iff s.token_hash (g.hash_token token)).0 (ground (arith, hit));
            unexpired = ground (arith, hit);
            young = ground (arith, hit);
            active = ground (arith, hit);
          },
          ground (arith, e, hit),
        )
        | inr miss ↦
            let rest = user_for_token-Accepts g token now sessions user (ground (arith, e, miss)) in
            (
              record {
                place = suc rest.0.place;
                session = rest.0.session;
                there = rest.0.there;
                matches = rest.0.matches;
                unexpired = rest.0.unexpired;
                young = rest.0.young;
                active = rest.0.active;
              },
              rest.1,
            )
      ]

user_of-Accepts :
    (g : Gate) (token : Bytes) (now : ℕ) (sessions : List Session) (user : ℕ)
    → user_of g token now sessions ≡ some user
    → (a : Accepts g token now sessions) × (a.session.user_id ≡ user)
user_of-Accepts g token now sessions user h =
    user_for_token-Accepts g token now sessions user (ground (arith, h))

trim_prefix-append :
    (s prefix : Bytes)
    → bytes_eq (trim_prefix s prefix) s ≡ false
    → s ≡ prefix ++ trim_prefix s prefix
trim_prefix-append s prefix h = elim (Bool-cases (bytes_eq (take (length prefix) s) prefix)) [
  | inl e ↦ rw e (
      sym (take-append-drop (length prefix) s)
      ∙ ap (λ xs. xs ++ drop (length prefix) s)
          ((bytes_eq_iff (take (length prefix) s) prefix).0 e))
  | inr e ↦ absurd (ground (arith, h, e, bytes_eq_iff s s))
]

-- What requireAuth does with a request: it is refused and changes nothing, or it carries a token that is
-- accepted, and the handler runs.
pub data Passed {A : Type 0} (g : Gate) (header : Bytes) (now : ℕ)
    (next : ℕ → Bytes → Call (List Session) (Reply A)) (sessions : List Session)
    (result : Reply A × List Session) : Type 0 where
  refused :
      (msg : String)
      → result ≡ (write_err 401 msg, sessions)
      → Passed g header now next sessions result
  admitted :
      (token : Bytes) (a : Accepts g token now sessions)
      → header ≡ bearer ++ token
      → token ≢ []
      → result
        ≡ next a.session.user_id token
            (slide_session g.cfg g.write_fails (g.hash_token token) now sessions)
      → Passed g header now next sessions result

-- A request is refused with a 401, without the handler and without a change to the table, or its header
-- is "Bearer " and a token that is not empty, the table has a session of that token that has neither
-- expired nor passed the greatest age, of an active user, and the handler runs for that user on the
-- table with the session extended.
pub require_auth-Passed :
    {A : Type 0} (g : Gate) (header : Bytes) (now : ℕ)
    (next : ℕ → Bytes → Call (List Session) (Reply A)) (sessions : List Session)
    → Passed g header now next sessions (require_auth g header now next sessions)
unfolding require_auth
require_auth-Passed g header now next sessions =
    let token = trim_prefix header bearer in
    elim (Bool-cases (length token == 0 || bytes_eq token header)) [
      | inl bad ↦ rw bad (refused "missing bearer token" refl)
      | inr good ↦ rw good (elim (Option-cases (user_of g token now sessions)) [
        | inl h ↦ rw h (refused "invalid or expired session" refl)
        | inr (user, h) ↦
            let accepts = user_of-Accepts g token now sessions user h in
            rw h (
              admitted token accepts.0 (trim_prefix-append header bearer (ground (arith, good)))
                (λ k. ground (arith, good, ap (λ (t : Bytes). length t) k)) (rw accepts.1 refl))
      ])
    ]

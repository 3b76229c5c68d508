-- ===== src/Api/Session/Tests.antt =====
-- server/internal/api/helpers.go: tests, and the theorems at a session.
use check_in.Prelude.{
  ◌+◌, ◌*◌, ◌≡◌, ◌≢◌, refl, false, some, List, [], ◌∷◌, ◌++◌, get_elem?, arith, ◌==◌,
  comparable_nat,
}
use check_in.Slice.{Bytes}
use check_in.Sorting.{All}
use check_in.Clock.{hour}
use check_in.Api.Session.{
  Session, SessionConfig, Gate, bearer, slide_session, require_auth, user_for_token, extend_session,
  extend_row,
}
use check_in.Api.Session.Admitted.{Passed, require_auth-Passed}
use check_in.Api.Session.Lifetime.{Slid, slide_session-Slid, answer, statuses, statuses-InUse}

abbrev cfg : SessionConfig
cfg = record { session_ttl = 30 * 24 * hour; session_max_age = 180 * 24 * hour }

abbrev gate : Gate
gate = record {
  cfg = cfg;
  active = λ user. user == 7;
  hash_token = λ t. 1 ∷ t;
  read_fails = false;
  write_fails = false;
}

abbrev token : Bytes
token = b'k' ∷ b'9' ∷ []

abbrev session : Session
session = record {
  user_id = 7;
  token_hash = 1 ∷ token;
  created_at = 1000;
  expires_at = 1000 + 30 * 24 * hour;
}

abbrev table : List Session
table = session ∷ []

-- A request after 20 days, one after 45, and one, too late, after 80.
statuses_test :
    statuses gate (bearer ++ token) (480 * hour ∷ 1080 * hour ∷ 1920 * hour ∷ []) table
    ≡ 200 ∷ 200 ∷ 401 ∷ []
unfolding statuses require_auth user_for_token slide_session extend_session extend_row
statuses_test = refl

require_auth-Passed_example :
    Passed gate
      (bearer ++ token)
      (5 * hour)
      answer
      table
      (require_auth gate (bearer ++ token) (5 * hour) answer table)
require_auth-Passed_example = require_auth-Passed gate (bearer ++ token) (5 * hour) answer table

slide_session-Slid_example :
    (s' : Session) × (get_elem? (slide_session cfg false (1 ∷ token) (480 * hour) table) 0
      ≡ some s')
    × Slid cfg false (1 ∷ token) (480 * hour) session s'
slide_session-Slid_example =
    slide_session-Slid cfg false (1 ∷ token) (480 * hour) table 0 session refl

token_given : token ≢ []
token_given e = ground (arith, e)

statuses-InUse_example :
    All (λ n. n ≡ 200) (statuses gate (bearer ++ token) (480 * hour ∷ 1080 * hour ∷ []) table)
statuses-InUse_example =
    statuses-InUse gate token refl refl token_given (480 * hour ∷ 1080 * hour ∷ []) 1000 table 0
      session refl refl refl (omega arith) (omega arith)

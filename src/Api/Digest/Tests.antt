-- ===== src/Api/Digest/Tests.antt =====
-- server/internal/api/digest.go: a test, and the theorem at a concrete run.
use check_in.Prelude.{ℕ, ◌≡◌, refl, true, false, some, List, [], ◌∷◌, leb}
use check_in.Api.{return}
use check_in.Api.Digest.{
  DigestTarget, mark_sent, send, DigestDb, run_digest, Digested, run_digest-Digested,
}

abbrev due : List DigestTarget
due = record { user_id = 1; since = 0 } ∷ record { user_id = 2; since = 5 } ∷ []

-- Nothing is new since 5.
abbrev quiet : DigestDb ℕ
quiet = record {
  ended = λ w. false;
  digest_targets = return (some due);
  count_posts_since = λ user since. return (some (if_new since));
  mark_digest_sent = λ user. return true;
  tokens_for_user = λ user. return (9 ∷ []);
}
  where
    if_new : ℕ → ℕ
    if_new since = elim (leb 5 since) [ true ↦ 0 | false ↦ 3 ]

run_digest_test : (run_digest quiet 0).0 ≡ mark_sent 1 ∷ send 1 3 ∷ mark_sent 2 ∷ []
unfolding run_digest
run_digest_test = refl

run_digest-Digested_example : Digested due (run_digest quiet 0).0
run_digest-Digested_example = run_digest-Digested quiet due 0 refl

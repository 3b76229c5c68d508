-- ===== src/Api/Digest.antt =====
-- server/internal/api/digest.go: the summaries that members are sent.
--
-- DigestDb is what runDigest calls of server/internal/db, and whether its context has ended. The effects are
-- the calls that write or send, in the order in which they are made.
mod Tests
use check_in.Prelude.{
  ℕ, ◌≤◌, ◌≡◌, refl, ◌∙◌, Bool, true, false, Option, none, some, List, [], ◌∷◌, ◌++◌, ltb, ◌==◌,
  if◌then◌else◌, comparable_nat, arith, inl, inr, Bool-cases, Option-cases, length,
}
use check_in.Api.{Call}

pub record DigestTarget : Type 0 where
  pub user_id : ℕ
  pub since : ℕ

pub data DigestEffect : Type 0 where
  mark_sent : ℕ → DigestEffect
  send : ℕ → ℕ → DigestEffect

-- `mark_digest_sent` returns whether there was no error, `tokens_for_user` no tokens if there was one.
pub record DigestDb (W : Type 0) : Type 0 where
  pub ended : W → Bool
  pub digest_targets : Call W (Option (List DigestTarget))
  pub count_posts_since : ℕ → ℕ → Call W (Option ℕ)
  pub mark_digest_sent : ℕ → Call W Bool
  pub tokens_for_user : ℕ → Call W (List ℕ)

module _ {W : Type 0} (db : DigestDb W) where
  -- The effects for a member of whom it is known how much they missed, and that they are marked.
  abbrev pub send_to : DigestTarget → ℕ → Call W (List DigestEffect)
  send_to t n w =
      let tokens = db.tokens_for_user t.user_id w in
      (
        if length tokens.0 == 0
            then mark_sent t.user_id ∷ []
            else mark_sent t.user_id ∷ send t.user_id n ∷ [],
        tokens.1,
      )

  abbrev pub mark_and_send : DigestTarget → ℕ → Call W (List DigestEffect)
  mark_and_send t n w =
      let marked = db.mark_digest_sent t.user_id w in
      if marked.0
      then (if n == 0 then (mark_sent t.user_id ∷ [], marked.1) else send_to t n marked.1)
      else (mark_sent t.user_id ∷ [], marked.1)

  abbrev pub digest_one : DigestTarget → Call W (List DigestEffect)
  digest_one t w = elim (db.count_posts_since t.user_id t.since w).0 [
    | none ↦ ([], (db.count_posts_since t.user_id t.since w).1)
    | some n ↦ mark_and_send t n (db.count_posts_since t.user_id t.since w).1
  ]

  abbrev pub digest_each : List DigestTarget → Call W (List DigestEffect)
  digest_each [] w = ([], w)
  digest_each (t ∷ targets) w =
      let one = digest_one t w in
      let rest = digest_each targets one.1 in
      if db.ended w then ([], w) else (one.0 ++ rest.0, rest.1)

  unfoldable pub run_digest : Call W (List DigestEffect)
  run_digest w = elim (db.digest_targets w).0 [
    | none ↦ ([], (db.digest_targets w).1)
    | some targets ↦ digest_each targets (db.digest_targets w).1
  ]

-- What may happen for a list of members, in their order: nothing more; nothing for the next one; a mark; or a
-- mark and then a summary of one post or more.
pub data Digested : List DigestTarget → List DigestEffect → Type 0 where
  stopped : {targets : List DigestTarget} → Digested targets []
  skipped :
      {t : DigestTarget} {targets : List DigestTarget} {es : List DigestEffect}
      → Digested targets es
      → Digested (t ∷ targets) es
  marked :
      {t : DigestTarget} {targets : List DigestTarget} {es : List DigestEffect}
      → Digested targets es
      → Digested (t ∷ targets) (mark_sent t.user_id ∷ es)
  sent :
      {t : DigestTarget} {targets : List DigestTarget} {es : List DigestEffect} (n : ℕ)
      → 1 ≤ n
      → Digested targets es
      → Digested (t ∷ targets) (mark_sent t.user_id ∷ send t.user_id n ∷ es)

module _ {W : Type 0} (db : DigestDb W) where
  one-Digested :
      (t : DigestTarget) (targets : List DigestTarget) (es : List DigestEffect) (w : W)
      → Digested targets es
      → Digested (t ∷ targets) ((digest_one db t w).0 ++ es)
  one-Digested t targets es w h = elim (Option-cases (db.count_posts_since t.user_id t.since w).0) [
    | inl e ↦ rw (e, digest_one) (skipped h)
    | inr (n, e) ↦ rw (e, digest_one) (after_count n (db.count_posts_since t.user_id t.since w).1)
  ]
    where
      after_count : (n : ℕ) (w : W) → Digested (t ∷ targets) ((mark_and_send db t n w).0 ++ es)
      after_count n w = elim (Bool-cases (db.mark_digest_sent t.user_id w).0) [
        | inl e ↦ rw e (elim (Bool-cases (n == 0)) [
          | inl f ↦ rw f (marked h)
          | inr f ↦
              rw f
                (elim (Bool-cases (
                  length (db.tokens_for_user t.user_id (db.mark_digest_sent t.user_id w).1).0
                  == 0)) [ inl g ↦ rw g (marked h) | inr g ↦ rw g (sent n (ground (arith, f)) h) ])
        ])
        | inr e ↦ rw e (marked h)
      ]

  each-Digested :
      (targets : List DigestTarget) (w : W) → Digested targets (digest_each db targets w).0
  each-Digested [] w = stopped
  each-Digested (t ∷ targets) w = elim (Bool-cases (db.ended w)) [
    | inl e ↦ rw e stopped
    | inr e ↦ rw e (
        one-Digested t targets (digest_each db targets (digest_one db t w).1).0 w
          (each-Digested targets (digest_one db t w).1))
  ]

  -- A run sends each member who is due at most one summary, never one of no posts, and only after it has
  -- called for the member to be marked as sent; it takes the members in their order.
  pub run_digest-Digested :
      (targets : List DigestTarget) (w : W)
      → (db.digest_targets w).0 ≡ some targets
      → Digested targets (run_digest db w).0
  unfolding run_digest
  run_digest-Digested targets w h =
      rw (h, run_digest) (each-Digested targets (db.digest_targets w).1)

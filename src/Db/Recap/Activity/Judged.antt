-- ===== src/Db/Recap/Activity/Judged.antt =====
-- server/internal/db/recap.go: the entries of a member are those of the member's own posts.
use check_in.Prelude.{
  ℕ, ◌+◌, ◌-◌, ◌*◌, ◌≡◌, refl, ap, ◌∙◌, Bool, true, ◌&&◌, Option, none, some, List, [], ◌∷◌, ltb,
  leb, length, arith, comparable_nat, Bool-cases, inl, inr,
}
use check_in.Sorting.{sum_by}
use check_in.Db.RecapSelect.{RecapCandidate}
use check_in.Db.RecapSelect.Awards.{AwardEntry, AwardCandidate}
use check_in.Db.Recap.Activity.{
  RecapMember, MemberActivity, minute_of_day, MemberCounts, more_liked, longer_thread, later_in_day,
  earlier_in_day, no_activity, note_post, AwardTexts, quiet_entry, liked_entry, thread_entry,
  owl_entry, bird_entry, award_candidate_for,
}
use check_in.Db.Recap.Activity.Noted.{note_posts, max_by, value_of, note_posts-value}

abbrev pub likes : RecapCandidate → ℕ
likes c = c.like_count

abbrev pub comments : RecapCandidate → ℕ
comments c = c.comment_count

abbrev pub minutes : RecapCandidate → ℕ
minutes c = minute_of_day c.created_at

-- minutes to midnight
abbrev pub minutes_left : RecapCandidate → ℕ
minutes_left c = 1440 - minute_of_day c.created_at

-- An entry of a certain value, which qualifies or does not.
pub record IsEntry (e : AwardEntry) (qualifies : Bool) (value : ℕ) : Type 0 where
  pub judged : e.qualifies ≡ qualifies
  pub valued : e.value ≡ value

-- The entries that come of a member's posts.
pub record Judged (tx : AwardTexts) (average : ℕ × ℕ) (m : RecapMember)
    (posts : List RecapCandidate) (w : AwardCandidate) : Type 0 where
  pub member : w.user_id ≡ m.id
  pub liked : IsEntry w.most_liked (ltb 0 (max_by likes posts)) (max_by likes posts)
  pub thread : IsEntry w.longest_thread (ltb 0 (max_by comments posts)) (max_by comments posts)
  pub owl : IsEntry w.night_owl (ltb 0 (length posts)) (max_by minutes posts)
  pub bird : IsEntry w.early_bird (ltb 0 (length posts)) (max_by minutes_left posts)
  pub quiet :
      w.quiet_achiever.qualifies
      ≡ (ltb 0 (length posts) && leb (length posts * average.1) average.0)
  pub quiet_at :
      w.quiet_achiever.qualifies ≡ true
      → w.quiet_achiever.value ≡ tx.hundredths (sum_by likes posts) (length posts)

liked_entry-value :
    (tx : AwardTexts) (o : Option RecapCandidate)
    → IsEntry (liked_entry tx o) (ltb 0 (value_of likes o)) (value_of likes o)
liked_entry-value tx none = record { judged = refl; valued = refl }
liked_entry-value tx (some c) = record { judged = ground arith; valued = ground arith }

thread_entry-value :
    (tx : AwardTexts) (o : Option RecapCandidate)
    → IsEntry (thread_entry tx o) (ltb 0 (value_of comments o)) (value_of comments o)
thread_entry-value tx none = record { judged = refl; valued = refl }
thread_entry-value tx (some c) = record { judged = ground arith; valued = ground arith }

abbrev one : RecapCandidate → ℕ
one c = 1

owl_entry-value :
    (tx : AwardTexts) (o : Option RecapCandidate)
    → IsEntry (owl_entry tx o) (ltb 0 (value_of one o)) (value_of minutes o)
owl_entry-value tx none = record { judged = refl; valued = refl }
owl_entry-value tx (some c) = record { judged = refl; valued = refl }

bird_entry-value :
    (tx : AwardTexts) (o : Option RecapCandidate)
    → IsEntry (bird_entry tx o) (ltb 0 (value_of one o)) (value_of minutes_left o)
bird_entry-value tx none = record { judged = refl; valued = refl }
bird_entry-value tx (some c) = record { judged = refl; valued = refl }

max_by-one : (cs : List RecapCandidate) → ltb 0 (max_by one cs) ≡ ltb 0 (length cs)
max_by-one [] = refl
max_by-one (c ∷ cs) = ground arith

note_post-sums :
    (c : RecapCandidate) (a : MemberActivity)
    → ((note_post c a).post_count ≡ a.post_count + 1)
      × ((note_post c a).likes_received ≡ a.likes_received + c.like_count)
unfolding note_post
note_post-sums c a = (refl, refl)

note_posts-sums :
    (a : MemberActivity) (cs : List RecapCandidate)
    → ((note_posts a cs).post_count ≡ a.post_count + length cs)
      × ((note_posts a cs).likes_received ≡ a.likes_received + sum_by likes cs)
note_posts-sums a [] = (omega arith, omega arith)
note_posts-sums a (c ∷ cs) = (
  omega (arith, (note_posts-sums (note_post c a) cs).0, (note_post-sums c a).0),
  omega (arith, (note_posts-sums (note_post c a) cs).1, (note_post-sums c a).1),
)

-- The four that are kept of no activity and some posts.
module _ (cs : List RecapCandidate) where
  abbrev a : MemberActivity
  a = note_posts no_activity cs

  most_liked-max : value_of likes a.most_liked ≡ max_by likes cs
  unfolding note_post
  most_liked-max = omega (
    arith,
    note_posts-value likes more_liked (λ (b : MemberActivity). b.most_liked) (λ c b. refl)
        (λ x y h. ground (arith, h)) (λ x y h. ground (arith, h)) no_activity cs,
  )

  longest_thread-max : value_of comments a.longest_thread ≡ max_by comments cs
  unfolding note_post
  longest_thread-max = omega (
    arith,
    note_posts-value comments longer_thread (λ (b : MemberActivity). b.longest_thread) (λ c b. refl)
        (λ x y h. ground (arith, h)) (λ x y h. ground (arith, h)) no_activity cs,
  )

  night_owl-max : value_of minutes a.night_owl ≡ max_by minutes cs
  unfolding note_post
  night_owl-max = omega (
    arith,
    note_posts-value minutes later_in_day (λ (b : MemberActivity). b.night_owl) (λ c b. refl)
        (λ x y h. ground (arith, h)) (λ x y h. ground (arith, h)) no_activity cs,
  )

  night_owl-one : value_of one a.night_owl ≡ max_by one cs
  unfolding note_post
  night_owl-one = omega (
    arith,
    note_posts-value one later_in_day (λ (b : MemberActivity). b.night_owl) (λ c b. refl)
        (λ x y h. omega arith) (λ x y h. omega arith) no_activity cs,
  )

  early_bird-max : value_of minutes_left a.early_bird ≡ max_by minutes_left cs
  unfolding note_post
  early_bird-max = omega (
    arith,
    note_posts-value minutes_left earlier_in_day (λ (b : MemberActivity). b.early_bird)
        (λ c b. refl) (λ x y h. ground (arith, h)) (λ x y h. ground (arith, h)) no_activity cs,
  )

  early_bird-one : value_of one a.early_bird ≡ max_by one cs
  unfolding note_post
  early_bird-one = omega (
    arith,
    note_posts-value one earlier_in_day (λ (b : MemberActivity). b.early_bird) (λ c b. refl)
        (λ x y h. omega arith) (λ x y h. omega arith) no_activity cs,
  )

  pub posts_noted : a.post_count ≡ length cs
  posts_noted = omega (arith, (note_posts-sums no_activity cs).0)

  likes_noted : a.likes_received ≡ sum_by likes cs
  likes_noted = omega (arith, (note_posts-sums no_activity cs).1)

IsEntry-of :
    (e : AwardEntry) (p q v w : ℕ)
    → IsEntry e (ltb 0 p) v
    → ltb 0 p ≡ ltb 0 q
    → v ≡ w
    → IsEntry e (ltb 0 q) w
IsEntry-of e p q v w h k l = record { judged = h.judged ∙ k; valued = h.valued ∙ l }

quiet_entry-judged :
    (tx : AwardTexts) (b : MemberActivity) (average : ℕ × ℕ)
    → (quiet_entry tx b average).qualifies
      ≡ (ltb 0 b.post_count && leb (b.post_count * average.1) average.0)
quiet_entry-judged tx b average =
    elim (Bool-cases (ltb 0 b.post_count && leb (b.post_count * average.1) average.0)) [
      | inl e ↦ rw e refl
      | inr e ↦ rw e refl
    ]

quiet_entry-valued :
    (tx : AwardTexts) (b : MemberActivity) (average : ℕ × ℕ)
    → (quiet_entry tx b average).qualifies ≡ true
    → (quiet_entry tx b average).value ≡ tx.hundredths b.likes_received b.post_count
quiet_entry-valued tx b average q =
    elim (Bool-cases (ltb 0 b.post_count && leb (b.post_count * average.1) average.0)) [
      | inl e ↦ rw e refl
      | inr e ↦ ground (arith, e, q)
    ]

pub award_candidate_for-Judged :
    (tx : AwardTexts) (m : RecapMember) (counts : MemberCounts) (average : ℕ × ℕ)
    (cs : List RecapCandidate)
    → Judged tx average m cs (award_candidate_for tx m (note_posts no_activity cs) counts average)
unfolding award_candidate_for
award_candidate_for-Judged tx m counts average cs = record {
  member = refl;
  liked =
      IsEntry-of _ _ _ _ _ (liked_entry-value tx (a cs).most_liked) (ap (ltb 0) (most_liked-max cs))
        (most_liked-max cs);
  thread =
      IsEntry-of _ _ _ _ _ (thread_entry-value tx (a cs).longest_thread)
        (ap (ltb 0) (longest_thread-max cs)) (longest_thread-max cs);
  owl =
      IsEntry-of _ _ _ _ _ (owl_entry-value tx (a cs).night_owl)
        (ap (ltb 0) (night_owl-one cs) ∙ max_by-one cs) (night_owl-max cs);
  bird =
      IsEntry-of _ _ _ _ _ (bird_entry-value tx (a cs).early_bird)
        (ap (ltb 0) (early_bird-one cs) ∙ max_by-one cs) (early_bird-max cs);
  quiet =
      quiet_entry-judged tx (a cs) average
      ∙ ap (λ n. ltb 0 n && leb (n * average.1) average.0) (posts_noted cs);
  quiet_at = λ q.
      quiet_entry-valued tx (a cs) average q
      ∙ ap (λ n. tx.hundredths n (a cs).post_count) (likes_noted cs)
      ∙ ap (tx.hundredths (sum_by likes cs)) (posts_noted cs);
}

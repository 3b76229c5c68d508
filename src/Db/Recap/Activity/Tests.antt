-- ===== src/Db/Recap/Activity/Tests.antt =====
-- server/internal/db/recap.go: tests of the entries, and the theorem at concrete posts.
use check_in.Prelude.{
  ℕ, ◌≡◌, refl, arith, comparable_nat, ◌*◌, ◌/◌, map, false, none, List, [], ◌∷◌, ok, ◌>>=◌, Done,
}
use check_in.Clock.{minute, hour, hour_of}
use check_in.Db.RecapSelect.{RecapCandidate}
use check_in.Db.Recap.Activity.{
  RecapMember, MemberCounts, AwardTexts, minute_of_day, keep_best, note_post, with_members,
  add_activity, add_activities, aggregate_member_activity, average_post_count, award_candidate_for,
  award_candidates_from, recap_award_candidates,
}
use check_in.Db.Recap.Activity.Mean.{mean_of}
use check_in.Db.Recap.Activity.Members.{AllJudged, recap_award_candidates-AllJudged}

abbrev texts : AwardTexts
texts = record {
  pluralize = λ n unit. unit;
  clock = λ t. "noon";
  likes_given = λ n. "likes given";
  likes_per_post = λ likes posts. "likes/post";
  hundredths = λ likes posts. likes * 100 / posts;
}

abbrev counts : MemberCounts
counts = record { comments_written = λ id. 2; likes_given = λ id. 0; times_tagged = λ id. 0 }

abbrev member_of : ℕ → RecapMember
member_of id = record { id = id; name = "Ada"; photo_id = none }

abbrev post : ℕ → ℕ → ℕ → RecapCandidate
post id author at = record {
  post_id = id;
  author_id = author;
  author_name = "";
  author_photo_id = none;
  body = "";
  media_id = none;
  mime = "image/jpeg";
  width = 0;
  height = 0;
  duration_ms = 0;
  has_poster = false;
  location = "Ridgeway";
  like_count = id;
  comment_count = 0;
  created_at = at;
}

-- Two members, and three posts at two minutes, an hour and two hours after midnight.
abbrev members : List RecapMember
members = member_of 7 ∷ member_of 8 ∷ []

abbrev posts : List RecapCandidate
posts = post 3 7 (2 * minute) ∷ post 5 7 hour ∷ post 4 8 (2 * hour) ∷ []

recap_award_candidates-AllJudged_example :
    Done
      (recap_award_candidates texts members counts posts)
      (AllJudged texts (mean_of members posts) posts members)
recap_award_candidates-AllJudged_example =
    recap_award_candidates-AllJudged texts members counts posts (λ id. ground arith)

recap_award_candidates_test :
    (recap_award_candidates texts members counts posts >>= λ ws.
    ok (map {B = ℕ × ℕ × ℕ} (λ w. (w.most_liked.value, w.night_owl.value, w.early_bird.value)) ws))
    ≡ ok ((5, 60, 1438) ∷ (4, 120, 1320) ∷ [])
unfolding recap_award_candidates award_candidates_from award_candidate_for aggregate_member_activity
    add_activities add_activity with_members note_post keep_best minute_of_day average_post_count
    hour_of
recap_award_candidates_test = refl

-- ===== src/Db/Recap/Activity/Members.antt =====
-- server/internal/db/recap.go: every member of a recap has an entry, and it is of the member's own posts.
use check_in.Prelude.{
  subst, ℕ, ◌≡◌, ap, ◌∙◌, some, List, [], ◌∷◌, Done, Done-ok, Done_bind, arith, comparable_nat,
}
use check_in.Maps.{lookup, upsert}
use check_in.Sorting.{All, All-imp, keep_if}
use check_in.Db.RecapSelect.{RecapCandidate}
use check_in.Db.RecapSelect.Passes.{by_author}
use check_in.Db.RecapSelect.Awards.{AwardCandidate}
use check_in.Db.Recap.Activity.{
  RecapMember, MemberCounts, no_activity, Activities, with_members, aggregate_member_activity,
  average_post_count, AwardTexts, award_candidates_from, recap_award_candidates,
}
use check_in.Db.Recap.Activity.Noted.{lookup-upsert, note_posts, noted_posts, add_activities-lookup}
use check_in.Db.Recap.Activity.Mean.{AreDistinct, mean_of, average-mean_of}
use check_in.Db.Recap.Activity.Judged.{Judged, award_candidate_for-Judged}

-- The members in their order, each with the entries of the posts it wrote.
pub data AllJudged (tx : AwardTexts) (average : ℕ × ℕ) (posts : List RecapCandidate)
    : List RecapMember → List AwardCandidate → Type 0 where
  no_members : AllJudged tx average posts [] []
  one_more :
      {m : RecapMember} {w : AwardCandidate} {members : List RecapMember} {ws : List AwardCandidate}
      → Judged tx average m (keep_if (by_author m.id) posts) w
      → AllJudged tx average posts members ws
      → AllJudged tx average posts (m ∷ members) (w ∷ ws)

with_members_kept :
    (members : List RecapMember) (agg : Activities) (id : ℕ)
    → lookup id agg ≡ some no_activity
    → lookup id (with_members members agg) ≡ some no_activity
unfolding with_members
with_members_kept [] agg id h = h
with_members_kept (m ∷ members) agg id h =
    with_members_kept members (upsert m.id (λ _. no_activity) agg) id
      (ground (arith, h, lookup-upsert id m.id (λ _. no_activity) agg))

with_members-All :
    (members : List RecapMember) (agg : Activities)
    → All (λ m. lookup m.id (with_members members agg) ≡ some no_activity) members
unfolding with_members
with_members-All [] agg = tt
with_members-All (m ∷ members) agg = (
  with_members_kept members (upsert m.id (λ _. no_activity) agg) m.id
      (ground (arith, lookup-upsert m.id m.id (λ _. no_activity) agg)),
  with_members-All members (upsert m.id (λ _. no_activity) agg),
)

abbrev OwnPosts : List RecapCandidate → Activities → RecapMember → Type 0
OwnPosts cs agg m = lookup m.id agg ≡ some (note_posts no_activity (keep_if (by_author m.id) cs))

aggregate_member_activity-OwnPosts :
    (members : List RecapMember) (cs : List RecapCandidate)
    → All (OwnPosts cs (aggregate_member_activity members cs)) members
unfolding aggregate_member_activity
aggregate_member_activity-OwnPosts members cs =
    All-imp _ _ members
      (λ m h.
        add_activities-lookup (with_members members []) cs m.id
        ∙ ap (λ o. noted_posts o (keep_if (by_author m.id) cs)) h)
      (with_members-All members [])

award_candidates_from-AllJudged :
    (tx : AwardTexts) (counts : MemberCounts) (agg : Activities) (cs : List RecapCandidate)
    (members : List RecapMember)
    → All (OwnPosts cs agg) members
    → Done
        (award_candidates_from tx counts agg members)
        (AllJudged tx (average_post_count agg) cs members)
unfolding award_candidates_from
award_candidates_from-AllJudged tx counts agg cs [] h = Done-ok no_members
award_candidates_from-AllJudged tx counts agg cs (m ∷ members) h =
    rw (h.0, award_candidates_from)
      (Done_bind (award_candidates_from-AllJudged tx counts agg cs members h.1) (λ ws all. Done-ok (
        one_more
          (award_candidate_for-Judged tx m counts (average_post_count agg)
            (keep_if (by_author m.id) cs))
          all)))

-- Of members with distinct ids, and whatever the counts and the posts, the code finishes without a nil
-- pointer: it returns an
-- award candidate for each member, in the order of the members. The entries are those of the posts that
-- this member wrote, of the given ones: the most liked post and the longest thread carry the greatest
-- number of likes and of comments of one post, and qualify where it is over 0; the night owl and the early
-- bird carry the latest minute of the day and the most minutes from the time of a post to midnight, and
-- qualify where there is a post; the quiet achiever qualifies where there is a post and the posts are
-- no more than the mean over the members who posted, and carries `hundredths` of its likes and its posts.
pub recap_award_candidates-AllJudged :
    (tx : AwardTexts) (members : List RecapMember) (counts : MemberCounts)
    (cs : List RecapCandidate)
    → AreDistinct members
    → Done
        (recap_award_candidates tx members counts cs)
        (AllJudged tx (mean_of members cs) cs members)
unfolding recap_award_candidates
recap_award_candidates-AllJudged tx members counts cs h =
    let agg = aggregate_member_activity members cs in
    subst
      (λ mean. Done (award_candidates_from tx counts agg members) (AllJudged tx mean cs members))
      (average-mean_of members cs h)
      (award_candidates_from-AllJudged tx counts agg cs members
        (aggregate_member_activity-OwnPosts members cs))

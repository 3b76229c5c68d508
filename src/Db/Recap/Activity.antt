-- ===== src/Db/Recap/Activity.antt =====
-- server/internal/db/recap.go: what the members did in a period, and the entries by which the titles of a
-- recap are judged.
--
-- The texts that an entry shows are a parameter, and so is the value of the quiet achiever, which the
-- source computes in float64. The mean of posts is a float64 too; it is compared here as the fraction that
-- it is, which comes to the same while the posts and the members are fewer than 2 ^ 26.
pub mod Noted
pub mod Judged
pub mod Mean
pub mod Members
pub mod Tests
use Prim.Native.String.{String}
use check_in.Prelude.{
  ℕ, ◌+◌, ◌-◌, ◌*◌, ◌/◌, ◌%◌, Bool, true, false, ◌&&◌, ◌||◌, Option, none, some, List, [], ◌∷◌, ltb,
  leb, ◌==◌, if◌then◌else◌, length, Result, NoError, ok, err, panic, out_of_fuel, ◌>>=◌,
  comparable_nat, comparable_text,
}
use check_in.Maps.{lookup, upsert, include}
use check_in.Clock.{minute, hour, hour_of}
use check_in.Db.RecapSelect.{RecapCandidate, candidate_outranks}
use check_in.Db.RecapSelect.Awards.{AwardEntry, AwardCandidate}

pub record RecapMember : Type 0 where
  pub id : ℕ
  pub name : String
  pub photo_id : Option ℕ

pub record MemberActivity : Type 0 where
  pub post_count : ℕ
  pub likes_received : ℕ
  pub places : List String
  pub most_liked : Option RecapCandidate
  pub longest_thread : Option RecapCandidate
  pub night_owl : Option RecapCandidate
  pub early_bird : Option RecapCandidate

unfoldable pub minute_of_day : ℕ → ℕ
minute_of_day t = hour_of t * 60 + t % hour / minute

-- Maps of counts, where a key that is missing counts 0.
pub record MemberCounts : Type 0 where
  pub comments_written : ℕ → ℕ
  pub likes_given : ℕ → ℕ
  pub times_tagged : ℕ → ℕ

abbrev pub more_liked : RecapCandidate → RecapCandidate → Bool
more_liked a b =
    ltb b.like_count a.like_count || (a.like_count == b.like_count && candidate_outranks a b)

abbrev pub longer_thread : RecapCandidate → RecapCandidate → Bool
longer_thread a b =
    ltb b.comment_count a.comment_count
    || (a.comment_count == b.comment_count && candidate_outranks a b)

abbrev pub later_in_day : RecapCandidate → RecapCandidate → Bool
later_in_day a b = ltb (minute_of_day b.created_at) (minute_of_day a.created_at)

abbrev pub earlier_in_day : RecapCandidate → RecapCandidate → Bool
earlier_in_day a b = ltb (minute_of_day a.created_at) (minute_of_day b.created_at)

unfoldable pub keep_best :
    Option RecapCandidate
    → RecapCandidate
    → (RecapCandidate → RecapCandidate → Bool)
    → Option RecapCandidate
keep_best none c wins = some c
keep_best (some best) c wins = if wins c best then some c else some best

abbrev pub no_activity : MemberActivity
no_activity = record {
  post_count = 0;
  likes_received = 0;
  places = [];
  most_liked = none;
  longest_thread = none;
  night_owl = none;
  early_bird = none;
}

-- One post of a member.
unfoldable pub note_post : RecapCandidate → MemberActivity → MemberActivity
note_post c a = record {
  post_count = a.post_count + 1;
  likes_received = a.likes_received + c.like_count;
  places = if c.location == "" then a.places else include c.location a.places;
  most_liked = keep_best a.most_liked c more_liked;
  longest_thread = keep_best a.longest_thread c longer_thread;
  night_owl = keep_best a.night_owl c later_in_day;
  early_bird = keep_best a.early_bird c earlier_in_day;
}

abbrev pub Activities : Type 0
Activities = List (ℕ × MemberActivity)

unfoldable pub with_members : List RecapMember → Activities → Activities
with_members [] agg = agg
with_members (m ∷ members) agg = with_members members (upsert m.id (λ _. no_activity) agg)

abbrev pub noted : RecapCandidate → Option MemberActivity → MemberActivity
noted c none = no_activity
noted c (some a) = note_post c a

-- A post of somebody who is no member is skipped.
unfoldable pub add_activity : Activities → RecapCandidate → Activities
add_activity agg c = elim (lookup c.author_id agg) [
  | none ↦ agg
  | some a ↦ upsert c.author_id (noted c) agg
]

unfoldable pub add_activities : Activities → List RecapCandidate → Activities
add_activities agg [] = agg
add_activities agg (c ∷ cs) = add_activities (add_activity agg c) cs

unfoldable pub aggregate_member_activity : List RecapMember → List RecapCandidate → Activities
aggregate_member_activity members candidates = add_activities (with_members members []) candidates

-- `totalPosts` and `postingMembers`, whose quotient is the mean
unfoldable pub average_post_count : Activities → ℕ × ℕ
average_post_count [] = (0, 0)
average_post_count ((id, a) ∷ agg) =
    let rest = average_post_count agg in
    if ltb 0 a.post_count then (a.post_count + rest.0, rest.1 + 1) else rest

-- The texts: `pluralize`, a time of day, likes given, likes for each post; and `int(avgLikes*100 + 0.5)`
-- of likes and posts.
pub record AwardTexts : Type 0 where
  pub pluralize : ℕ → String → String
  pub clock : ℕ → String
  pub likes_given : ℕ → String
  pub likes_per_post : ℕ → ℕ → String
  pub hundredths : ℕ → ℕ → ℕ

abbrev pub blank_entry : AwardEntry
blank_entry = record {
  qualifies = false;
  value = 0;
  display_value = "";
  post_id = 0;
  media_id = none;
}

abbrev pub entry_of : ℕ → String → AwardEntry
entry_of value text = record blank_entry { qualifies = true; value = value; display_value = text }

abbrev pub count_entry : ℕ → String → AwardEntry
count_entry n text = if ltb 0 n then entry_of n text else blank_entry

abbrev pub post_entry : ℕ → String → RecapCandidate → AwardEntry
post_entry value text c = record (entry_of value text) {
  post_id = c.post_id;
  media_id = c.media_id;
}

abbrev pub liked_entry : AwardTexts → Option RecapCandidate → AwardEntry
liked_entry tx none = blank_entry
liked_entry tx (some c) =
    if ltb 0 c.like_count
    then post_entry c.like_count (tx.pluralize c.like_count "like") c
    else blank_entry

abbrev pub thread_entry : AwardTexts → Option RecapCandidate → AwardEntry
thread_entry tx none = blank_entry
thread_entry tx (some c) =
    if ltb 0 c.comment_count
    then post_entry c.comment_count (tx.pluralize c.comment_count "comment") c
    else blank_entry

abbrev pub owl_entry : AwardTexts → Option RecapCandidate → AwardEntry
owl_entry tx none = blank_entry
owl_entry tx (some c) = post_entry (minute_of_day c.created_at) (tx.clock c.created_at) c

abbrev pub bird_entry : AwardTexts → Option RecapCandidate → AwardEntry
bird_entry tx none = blank_entry
bird_entry tx (some c) = post_entry (1440 - minute_of_day c.created_at) (tx.clock c.created_at) c

abbrev pub quiet_entry : AwardTexts → MemberActivity → ℕ × ℕ → AwardEntry
quiet_entry tx a average =
    if ltb 0 a.post_count && leb (a.post_count * average.1) average.0
    then entry_of (tx.hundredths a.likes_received a.post_count)
        (tx.likes_per_post a.likes_received a.post_count)
    else blank_entry

unfoldable pub award_candidate_for :
    AwardTexts → RecapMember → MemberActivity → MemberCounts → ℕ × ℕ → AwardCandidate
award_candidate_for tx m a counts average = record {
  user_id = m.id;
  user_name = m.name;
  user_photo_id = m.photo_id;
  most_liked = liked_entry tx a.most_liked;
  night_owl = owl_entry tx a.night_owl;
  early_bird = bird_entry tx a.early_bird;
  most_travelled = count_entry (length a.places) (tx.pluralize (length a.places) "place");
  chatterbox =
      count_entry (counts.comments_written m.id)
        (tx.pluralize (counts.comments_written m.id) "comment");
  biggest_fan = count_entry (counts.likes_given m.id) (tx.likes_given (counts.likes_given m.id));
  quiet_achiever = quiet_entry tx a average;
  most_tagged =
      count_entry (counts.times_tagged m.id) (tx.pluralize (counts.times_tagged m.id) "tag");
  longest_thread = thread_entry tx a.longest_thread;
}

-- `agg[m.ID]` is a nil pointer where the map has no entry.
unfoldable pub award_candidates_from :
    AwardTexts → MemberCounts → Activities → List RecapMember → Result NoError (List AwardCandidate)
award_candidates_from tx counts agg [] = ok []
award_candidates_from tx counts agg (m ∷ members) = elim (lookup m.id agg) [
  | none ↦ panic
  | some a ↦ award_candidates_from tx counts agg members >>= λ rest.
      ok (award_candidate_for tx m a counts (average_post_count agg) ∷ rest)
]

-- Behind its reads.
unfoldable pub recap_award_candidates :
    AwardTexts
    → List RecapMember
    → MemberCounts
    → List RecapCandidate
    → Result NoError (List AwardCandidate)
recap_award_candidates tx members counts candidates =
    award_candidates_from tx counts (aggregate_member_activity members candidates) members

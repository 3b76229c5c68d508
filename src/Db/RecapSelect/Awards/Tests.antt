-- ===== src/Db/RecapSelect/Awards/Tests.antt =====
-- server/internal/db/recap_select.go: tests of the titles, and the theorems at concrete members.
use check_in.Prelude.{ℕ, ◌≡◌, refl, true, false, none, some, List, [], ◌∷◌, arith}
use check_in.Sorting.{sort_by}
use check_in.Db.RecapSelect.Awards.{
  AwardEntry, AwardCandidate, qualifying, award_ahead, by_user, rank_awards, award_rankings, better,
  best_award, bestow_one, bestow, best_award_per_member,
}
use check_in.Db.RecapSelect.Awards.Titles.{IsBest, best_award_per_member-IsBest}

abbrev no_entry : AwardEntry
no_entry = record { qualifies = false; value = 0; display_value = ""; post_id = 0; media_id = none }

abbrev worth : ℕ → AwardEntry
worth n = record no_entry { qualifies = true; value = n }

abbrev nobody : ℕ → AwardCandidate
nobody user = record {
  user_id = user;
  user_name = "";
  user_photo_id = none;
  most_liked = no_entry;
  night_owl = no_entry;
  early_bird = no_entry;
  most_travelled = no_entry;
  chatterbox = no_entry;
  biggest_fan = no_entry;
  quiet_achiever = no_entry;
  most_tagged = no_entry;
  longest_thread = no_entry;
}

-- Member 1 is the most loved, member 2 comes second there but travels most, member 3 has nothing.
abbrev members : List AwardCandidate
members =
    record (nobody 1) { most_liked = worth 9; most_travelled = worth 2 }
    ∷ record (nobody 2) { most_liked = worth 4; most_travelled = worth 5 }
    ∷ nobody 3
    ∷ []

titles_test :
    (best_award_per_member members 1 ≡ some "most_liked")
    × (best_award_per_member members 2 ≡ some "most_travelled")
    × (best_award_per_member members 3 ≡ none)
unfolding best_award_per_member bestow bestow_one best_award better award_rankings rank_awards
    by_user qualifying award_ahead sort_by
titles_test = (refl, refl, refl)

best_award_per_member-IsBest_example : IsBest members 2 (best_award_per_member members 2)
best_award_per_member-IsBest_example =
    best_award_per_member-IsBest members 2 (λ u. ground arith) (omega arith)

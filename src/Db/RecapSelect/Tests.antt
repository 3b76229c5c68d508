-- ===== src/Db/RecapSelect/Tests.antt =====
-- server/internal/db/recap_select.go: tests, and the theorems at concrete posts.
use check_in.Prelude.{
  Done, min, ◌==◌, if◌then◌else◌, comparable_nat, ℕ, ◌≤◌, ◌≡◌, refl, false, none, some, List, [],
  ◌∷◌, map, arith,
}
use check_in.Sorting.{count_by, Sorted, Ordered, sort_by}
use check_in.Db.RecapSelect.{
  RecapCandidate, collage_card_cap, select_collage_cards, candidate_to_card, cards_from,
  candidate_outranks, guarantee, fill, mark_all, guaranteed_post,
}
use check_in.Db.RecapSelect.People.{NoFewer, recap_people, recap_people_lem, person_with}
use check_in.Db.RecapSelect.Passes.{by_author}
use check_in.Db.RecapSelect.Everyone.{card_by, select_everyone}
use check_in.Db.RecapSelect.Cards.{of_post, card_of_post, select_per_author, select_no_repeats}
use check_in.Db.RecapSelect.Ranks.{RankedFrom, more_popular, select-Ordered}

abbrev post : ℕ → ℕ → ℕ → RecapCandidate
post id author likes = record {
  post_id = id;
  author_id = author;
  author_name = "";
  author_photo_id = none;
  body = "hi";
  media_id = some id;
  mime = "image/jpeg";
  width = 4;
  height = 3;
  duration_ms = 0;
  has_poster = false;
  location = "";
  like_count = likes;
  comment_count = 0;
  created_at = id;
}

-- Author 1 has four popular posts, author 2 an unpopular one.
abbrev posts : List RecapCandidate
posts = post 10 1 5 ∷ post 11 1 9 ∷ post 12 2 0 ∷ post 13 1 7 ∷ post 14 1 6 ∷ []

posts_test : map (λ c. c.post_id) (select_collage_cards posts 2 "weekly") ≡ 11 ∷ 13 ∷ 14 ∷ 12 ∷ []
unfolding select_collage_cards sort_by collage_card_cap candidate_outranks guarantee fill mark_all
    cards_from candidate_to_card guaranteed_post
posts_test = refl

select_everyone_example : 1 ≤ count_by (card_by 2) (select_collage_cards posts 2 "weekly")
select_everyone_example =
    select_everyone posts (1 ∷ 2 ∷ []) "weekly" 2 (refl, (refl, (refl, (refl, (refl, tt)))))
      (omega arith) (omega arith)

select_per_author_example : count_by (card_by 1) (select_collage_cards posts 2 "weekly") ≤ 3
select_per_author_example = select_per_author posts 2 "weekly" 1

select_no_repeats_example :
    count_by (card_of_post 11) (select_collage_cards posts 2 "weekly") ≤ count_by (of_post 11) posts
select_no_repeats_example = select_no_repeats posts 2 "weekly" 11

select-Ordered_example :
    RankedFrom 0 (select_collage_cards posts 2 "weekly")
    × Ordered more_popular (select_collage_cards posts 2 "weekly")
select-Ordered_example = select-Ordered posts 2 "weekly"

recap_people_lem_example : Done (recap_people posts) (λ people.
    ((a n : ℕ)
      → count_by (person_with a n) people
        ≡ (if count_by (by_author a) posts == n then min 1 n else 0))
    × Sorted NoFewer people)
recap_people_lem_example = recap_people_lem posts

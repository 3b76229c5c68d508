-- ===== src/Db/Recap/Tests.antt =====
-- server/internal/db/recap.go: tests, and the theorems at concrete recaps.
use Prim.Native.String.{String}
use check_in.Prelude.{
  ℕ, ◌≡◌, refl, Bool, true, false, Option, none, some, List, [], ◌∷◌, arith, Done, inr,
  comparable_text,
}
use check_in.Sorting.{sort_by}
use check_in.Db.RecapSelect.{RecapCandidate, RecapCard}
use check_in.Db.RecapSelect.People.{RecapPerson}
use check_in.Db.Recap.{RecapSpec, RecapPanel, RecapPayload, Created, build_recap, collage_type}
use check_in.Db.Recap.Consistent.{Outcome, build_recap-Outcome}
use check_in.Db.Recap.Viewer.{
  filter_recap_for_viewer, filter_recap_people, filter_recap_panels, filter_recap_cards,
  filter_recap_awards, sum_posts,
}
use check_in.Db.Recap.Viewer.Filtered.{Filtered, filter_recap_for_viewer-Filtered}
use check_in.Db.Recap.Post.{
  Tables, Faults, create_recap_post, replace_recap, find_recap_duplicate, sorted_panel_types,
}
use check_in.Db.Recap.Post.Once.{IsSound, create_recap_post-IsSound}
use check_in.Db.Recap.Post.Twice.{Repeated, create_recap_post_twice}

abbrev post : ℕ → ℕ → Option ℕ → RecapCandidate
post id author media = record {
  post_id = id;
  author_id = author;
  author_name = "";
  author_photo_id = none;
  body = "";
  media_id = media;
  mime = "image/jpeg";
  width = 0;
  height = 0;
  duration_ms = 0;
  has_poster = false;
  location = "";
  like_count = id;
  comment_count = 0;
  created_at = id;
}

abbrev posts : List RecapCandidate
posts = post 1 7 (some 4) ∷ post 2 7 none ∷ post 3 8 none ∷ []

abbrev weekly : String → RecapSpec
weekly origin = record {
  period_start = 100;
  period_end = 200;
  panels = collage_type ∷ [];
  cadence = "weekly";
  origin = origin;
}

abbrev label : String → ℕ → ℕ → String
label cadence start end = cadence

build_recap-Outcome_example :
    Done
      (build_recap label (weekly "manual") (some "us") (some "red") (some 2) (some posts))
      (Outcome posts)
build_recap-Outcome_example = build_recap-Outcome label (weekly "manual") "us" "red" 2 posts

abbrev card : ℕ → ℕ → RecapCard
card id author = record {
  kind = "quote";
  rank = 1;
  guaranteed = true;
  post_id = id;
  author_id = author;
  author_name = "";
  author_photo_id = none;
  media_id = none;
  mime = "";
  width = 0;
  height = 0;
  duration_ms = 0;
  has_poster = false;
  body = "";
  like_count = 0;
  comment_count = 0;
  location = "";
}

abbrev person : ℕ → ℕ → RecapPerson
person id n = record { user_id = id; name = ""; photo_id = none; posts = n }

abbrev panel : List RecapCard → RecapPanel
panel cards = record { panel_type = collage_type; title = "The Wall"; cards = cards; awards = [] }

abbrev payload : RecapPayload
payload = record {
  version = 1;
  period = record { start = 100; end = 200; label = "weekly"; cadence = "weekly" };
  group = record { name = "us"; color = "red" };
  stats = record {
    posts = 3;
    photos = 1;
    clips = 0;
    likes = 6;
    comments = 0;
    places = 0;
    members = 2;
    posters = 2;
  };
  panels = panel (card 3 8 ∷ card 2 7 ∷ []) ∷ panel (card 1 7 ∷ []) ∷ [];
  people = person 7 2 ∷ person 8 1 ∷ [];
}

abbrev blocked : List (ℕ × Bool)
blocked = (7, true) ∷ []

filter_recap_for_viewer-Filtered_example :
    Filtered payload blocked (filter_recap_for_viewer payload blocked)
filter_recap_for_viewer-Filtered_example =
    filter_recap_for_viewer-Filtered payload blocked
      (record { posts = refl; posters = refl; active = omega arith; filled = omega arith })

-- The page of the blocked member goes, and the counts are of the other one.
filter_recap_for_viewer_test : filter_recap_for_viewer payload blocked ≡ record payload {
  stats = record payload.stats { posts = 1; posters = 1 };
  panels = panel (card 3 8 ∷ []) ∷ [];
  people = person 8 1 ∷ [];
}
unfolding filter_recap_for_viewer filter_recap_people filter_recap_panels filter_recap_cards
    filter_recap_awards sum_posts
filter_recap_for_viewer_test = refl

abbrev no_faults : Faults
no_faults = record {
  begin = false;
  lock = false;
  find = false;
  delete = false;
  insert_post = false;
  marshal = false;
  insert_recap = false;
  commit = false;
}

abbrev empty : Tables
empty = record { posts = []; recaps = []; next_id = 5 }

empty-IsSound : IsSound empty
empty-IsSound = record {
  posts_given = tt;
  recaps_given = tt;
  ids_once = λ j. omega arith;
  of_posts = λ j. omega arith;
  once = λ c s. omega arith;
}

create_recap_post-IsSound_example :
    IsSound (create_recap_post no_faults 900 (weekly "scheduled") payload.panels none empty).1
create_recap_post-IsSound_example =
    create_recap_post-IsSound no_faults 900 (weekly "scheduled") payload.panels none empty
      empty-IsSound

abbrev first : Created
first = record { post_id = 5; inserted = true; conflict_id = 0 }

created_first :
    (create_recap_post no_faults 900 (weekly "manual") payload.panels none empty).0 ≡ some first
unfolding create_recap_post replace_recap find_recap_duplicate sorted_panel_types sort_by
created_first = refl

create_recap_post_twice_example :
    Repeated
      (weekly "manual")
      5
      (create_recap_post no_faults 900 (weekly "manual") payload.panels none empty).1
      (create_recap_post no_faults 901
        (weekly "manual")
        payload.panels
        none
        (create_recap_post no_faults 900 (weekly "manual") payload.panels none empty).1)
create_recap_post_twice_example =
    create_recap_post_twice no_faults no_faults 900 901 (weekly "manual") payload.panels empty first
      (inr refl) created_first refl

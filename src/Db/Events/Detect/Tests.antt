-- ===== src/Db/Events/Detect/Tests.antt =====
-- server/internal/db/events_cluster.go: tests, and the theorems at concrete posts.
use check_in.Prelude.{
  ℕ, ◌+◌, ◌*◌, ◌≡◌, refl, none, some, List, [], ◌∷◌, map, ◌==◌, comparable_nat, ok, Result, NoError,
  ◌>>=◌, Done,
}
use check_in.Slice.{Bytes}
use check_in.Sorting.{All, sum_by, count_by, sort_by}
use check_in.Clock.{day_start, months_before}
use check_in.Db.Events.{
  EventPostRow, Texts, compute_home_area, compute_home_bases, display_location,
}
use check_in.Db.Events.Build.{Event, build_event, event_outranks}
use check_in.Db.Events.Trips.{trip_runs, detect_trips}
use check_in.Db.Events.Trips.Runs.{IsRun, trip_runs-IsRun}
use check_in.Db.Events.Detect.{detect_events}
use check_in.Db.Events.Detect.Disjoint.{Detected, detect_events-Detected}

abbrev texts : Texts
texts = record { to_lower = λ s. s; fields = λ s. s ∷ [] }

abbrev start : ℕ
start = 63072000000000000000

abbrev lisbon : Bytes
lisbon = 0x4C ∷ []

abbrev rome : Bytes
rome = 0x52 ∷ []

abbrev post : ℕ → ℕ → Bytes → ℕ → EventPostRow
post id author place day_number = record {
  post_id = id;
  author_id = author;
  author_name = [];
  author_photo_id = none;
  location = place;
  created_at = start + day_number * 86400000000000 + id;
  like_count = 0;
  photo_count = 1;
  cover_media_id = some id;
}

-- Two days in Lisbon, two months later an evening in Rome.
abbrev rows : List EventPostRow
rows =
    post 1 7 lisbon 1
    ∷ post 2 8 lisbon 2
    ∷ post 3 7 rome 60
    ∷ post 4 8 rome 60
    ∷ post 5 8 rome 60
    ∷ []

abbrev now : ℕ
now = 63080000000000000000

detect_events-Detected_example : Done (detect_events texts rows now) (Detected rows)
detect_events-Detected_example = detect_events-Detected texts rows now

trip_runs-IsRun_example :
    All IsRun (trip_runs rows)
    × (sum_by (count_by (λ r. r.author_id == 7)) (trip_runs rows)
        ≡ count_by (λ r. r.author_id == 7) rows)
trip_runs-IsRun_example = trip_runs-IsRun rows (λ r. r.author_id == 7)

ids_of : Result NoError (List Event) → Result NoError (List (List ℕ))
ids_of r = r >>= λ es. ok (map (λ e. e.post_ids) es)

events_test : ids_of (detect_events texts rows now) ≡ ok ((3 ∷ 4 ∷ 5 ∷ []) ∷ (1 ∷ 2 ∷ []) ∷ [])
unfolding ids_of detect_events detect_trips build_event event_outranks compute_home_area
    compute_home_bases months_before day_start sort_by display_location
events_test = refl

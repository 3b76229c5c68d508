-- ===== src/Db/Events/Trips.antt =====
-- server/internal/db/events_cluster.go: the runs of posts at one place, and the trips among them.
--
-- `run[0]` of no posts would panic; `Trips/Runs` shows that no run is empty.
pub mod Runs
pub mod Claimed
use check_in.Prelude.{
  ℕ, zero, suc, ◌+◌, ◌-◌, Bool, true, false, not, ◌&&◌, ◌||◌, Option, none, some, List, [], ◌∷◌,
  ◌++◌, ltb, leb, ◌==◌, if◌then◌else◌, length, comparable_nat, map, Result, NoError, ok, panic,
  ◌>>=◌,
}
use check_in.Slice.{Bytes}
use check_in.Sorting.{sort_by}
use check_in.Maps.{comparable_bytes, bytes_lt, lookup, upsert, contains, include, append_to}
use check_in.Db.Events.{
  EventPostRow, Texts, trip_window, trip_max_span, trip_min_away_authors, day_of,
  normalize_location,
}
use check_in.Db.Events.Build.{Event, trip, last_of, build_event}

-- The authors that are away from the place.
pub away_authors : Bytes → Bool → List (ℕ × Bytes) → List ℕ → List EventPostRow → List ℕ
away_authors loc multi_day home_base away [] = away
away_authors loc multi_day home_base away (r ∷ run) =
    let is_away : Bool = elim (lookup r.author_id home_base) [
      | some hb ↦ not (hb == loc)
      | none ↦ multi_day
    ] in
    away_authors loc multi_day home_base (if is_away then include r.author_id away else away) run

pub build_trip_if_qualifies :
    Bytes → List EventPostRow → List (ℕ × Bytes) → Result NoError (Option Event)
unfolding away_authors
build_trip_if_qualifies loc [] home_base = panic
build_trip_if_qualifies loc (r ∷ rows) home_base =
    let multi_day = ltb (day_of r.created_at) (day_of (last_of r rows).created_at) in
    let built = build_event trip (r ∷ rows) >>= λ e. ok (some e) in
    if ltb (length (away_authors loc multi_day home_base [] (r ∷ rows))) trip_min_away_authors
    then ok none
    else built

abbrev pub by_time : EventPostRow → EventPostRow → Bool
by_time a b = ltb a.created_at b.created_at

-- The loop of `tripRuns` with a run that is not empty, and its first and last day.
pub runs_from : List EventPostRow → ℕ → ℕ → List EventPostRow → List (List EventPostRow)
runs_from run first_day last_day [] = run ∷ []
runs_from run first_day last_day (r ∷ rows) =
    let d = day_of r.created_at in
    let split = run ∷ runs_from (r ∷ []) d d rows in
    let grow = runs_from (run ++ r ∷ []) first_day d rows in
    if ltb trip_window (d - last_day) || ltb trip_max_span (d - first_day) then split else grow

pub runs_of : List EventPostRow → List (List EventPostRow)
unfolding runs_from
runs_of [] = []
runs_of (r ∷ rows) = runs_from (r ∷ []) (day_of r.created_at) (day_of r.created_at) rows

pub trip_runs : List EventPostRow → List (List EventPostRow)
unfolding runs_of
trip_runs loc_rows = runs_of (sort_by by_time loc_rows)

-- The trips, and the posts that they claim.
pub record Claims : Type 0 where
  pub events : List Event
  pub consumed : List ℕ

abbrev pub claim : Claims → List EventPostRow → Option Event → Claims
claim c run none = c
claim c run (some e) = record {
  events = c.events ++ e ∷ [];
  consumed = c.consumed ++ map (λ r. r.post_id) run;
}

pub claim_runs :
    Bytes → List (ℕ × Bytes) → Claims → List (List EventPostRow) → Result NoError Claims
unfolding build_trip_if_qualifies
claim_runs loc home_base c [] = ok c
claim_runs loc home_base c (run ∷ runs) = do
  ev ← build_trip_if_qualifies loc run home_base
  claim_runs loc home_base (claim c run ev) runs

pub claim_locations :
    List (ℕ × Bytes)
    → List Bytes
    → Claims
    → List (Bytes × List EventPostRow)
    → Result NoError Claims
unfolding claim_runs trip_runs
claim_locations home_base home_area c [] = ok c
claim_locations home_base home_area c ((loc, rows) ∷ places) =
    (if contains home_area loc then ok c else claim_runs loc home_base c (trip_runs rows)) >>= λ c'.
    claim_locations home_base home_area c' places

pub by_location :
    Texts → List (Bytes × List EventPostRow) → List EventPostRow → List (Bytes × List EventPostRow)
by_location tx places [] = places
by_location tx places (r ∷ rows) =
    by_location tx (upsert (normalize_location tx r.location) (append_to r) places) rows

pub loc_before : Bytes × List EventPostRow → Bytes × List EventPostRow → Bool
loc_before a b = bytes_lt a.0 b.0

unfoldable pub detect_trips :
    Texts → List EventPostRow → List (ℕ × Bytes) → List Bytes → Result NoError Claims
unfolding by_location claim_locations loc_before
detect_trips tx rows home_base home_area =
    claim_locations home_base home_area (record { events = []; consumed = [] })
      (sort_by loc_before (by_location tx [] rows))

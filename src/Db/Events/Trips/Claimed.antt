-- ===== src/Db/Events/Trips/Claimed.antt =====
-- server/internal/db/events_cluster.go: detectTrips claims the posts of its trips, each once.
use check_in.Prelude.{
  ℕ, ◌+◌, ◌≤◌, ◌≡◌, refl, inl, inr, Bool-cases, Option, none, some, List, [], ◌∷◌, ◌++◌, ltb, ◌==◌,
  length, comparable_nat, map, arith, Done, Done-ok, Done_bind, Done_if, Done_map,
}
use check_in.Slice.{Bytes}
use check_in.Sorting.{
  All, count_by, count_by-append, sum_by, sum_by-append, sort_by, sum_by-sort_by,
}
use check_in.Maps.{comparable_bytes, contains, upsert, append_to}
use check_in.Db.Events.{
  EventPostRow, Texts, day_of, normalize_location, trip_max_span, trip_min_away_authors,
}
use check_in.Db.Events.Build.{Event, trip, last_of}
use check_in.Db.Events.Build.Posts.{
  is_post, of_post, on_day, within, Built, build_event-Built, count_both,
}
use check_in.Db.Events.Trips.{
  away_authors, build_trip_if_qualifies, Claims, claim, claim_runs, claim_locations, by_location,
  loc_before, detect_trips, trip_runs,
}
use check_in.Db.Events.Trips.Runs.{IsRun, IsRun-within, trip_runs-IsRun}

-- how often a post is in the events
abbrev pub posts_in : ℕ → List Event → ℕ
posts_in p = sum_by (λ e. count_by (is_post p) e.post_ids)

-- A trip, which takes thirty days at most.
pub record IsTrip (e : Event) : Type 0 where
  pub is_trip : e.kind ≡ trip
  pub span : e.end_date ≤ e.start_date + trip_max_span

-- What is claimed is what is in the events, and no post is there more often than the bound says.
pub record Claimed (bound : ℕ → ℕ) (c : Claims) : Type 0 where
  pub exact : (p : ℕ) → count_by (is_post p) c.consumed ≡ posts_in p c.events
  pub bounded : (p : ℕ) → posts_in p c.events ≤ bound p
  pub trips : All IsTrip c.events

Built-IsTrip : (run : List EventPostRow) (e : Event) → IsRun run → Built trip run e → IsTrip e
Built-IsTrip [] e i b = elim i [ ]
Built-IsTrip (r ∷ rows) e i b =
    let d = day_of r.created_at in
    let all = IsRun-within r rows i in
    let (s, in_s, at_s) =
      count_both (within d (d + trip_max_span)) (on_day e.start_date) (r ∷ rows) all b.starts in
    let (t, in_t, at_t) =
      count_both (within d (d + trip_max_span)) (on_day e.end_date) (r ∷ rows) all b.stops in
    record { is_trip = b.of_kind; span = ground (arith, in_s, at_s, in_t, at_t) }

abbrev BuiltIfAny : List EventPostRow → Option Event → Type 0
BuiltIfAny run none = Unit
BuiltIfAny run (some e) = Built trip run e

build_trip-Built :
    (loc : Bytes) (run : List EventPostRow) (home_base : List (ℕ × Bytes))
    → IsRun run
    → Done (build_trip_if_qualifies loc run home_base) (BuiltIfAny run)
unfolding build_trip_if_qualifies
build_trip-Built loc [] home_base i = elim i [ ]
build_trip-Built loc (r ∷ rows) home_base i =
    let multi_day = ltb (day_of r.created_at) (day_of (last_of r rows).created_at) in
    let away = away_authors loc multi_day home_base [] (r ∷ rows) in
    Done_if (ltb (length away) trip_min_away_authors) (λ _. Done-ok tt)
      (λ _. Done_bind (build_event-Built trip (r ∷ rows) (omega arith)) (λ e b. Done-ok b))

count-map_post_id :
    (p : ℕ) (run : List EventPostRow)
    → count_by (is_post p) (map (λ r. r.post_id) run) ≡ count_by (of_post p) run
count-map_post_id p [] = refl
count-map_post_id p (r ∷ run) = omega (arith, count-map_post_id p run)

All-snoc : (es : List Event) (e : Event) → All IsTrip es → IsTrip e → All IsTrip (es ++ e ∷ [])
All-snoc [] e a h = (h, tt)
All-snoc (x ∷ es) e a h = (a.0, All-snoc es e a.1 h)

claim-Claimed :
    (bound : ℕ → ℕ) (c : Claims) (run : List EventPostRow) (ev : Option Event)
    → IsRun run
    → Claimed bound c
    → BuiltIfAny run ev
    → Claimed (λ p. bound p + count_by (of_post p) run) (claim c run ev)
claim-Claimed bound c run none i h b = record {
  exact = h.exact;
  bounded = λ p. omega (arith, h.bounded p);
  trips = h.trips;
}
claim-Claimed bound c run (some e) i h b = record {
  exact = λ p. omega (
    arith,
    h.exact p,
    b.posts p,
    count-map_post_id p run,
    count_by-append (is_post p) c.consumed (map (λ r. r.post_id) run),
    sum_by-append (λ e. count_by (is_post p) e.post_ids) c.events (e ∷ []),
  );
  bounded = λ p. omega (
    arith,
    h.bounded p,
    b.posts p,
    sum_by-append (λ e. count_by (is_post p) e.post_ids) c.events (e ∷ []),
  );
  trips = All-snoc c.events e h.trips (Built-IsTrip run e i b);
}

Claimed-widen : {b b' : ℕ → ℕ} {c : Claims} → ((p : ℕ) → b p ≤ b' p) → Claimed b c → Claimed b' c
Claimed-widen w h = record {
  exact = h.exact;
  bounded = λ p. omega (arith, w p, h.bounded p);
  trips = h.trips;
}

claim_runs-Claimed :
    (loc : Bytes) (home_base : List (ℕ × Bytes)) (bound : ℕ → ℕ) (c : Claims)
    (runs : List (List EventPostRow))
    → All IsRun runs
    → Claimed bound c
    → Done
        (claim_runs loc home_base c runs)
        (Claimed (λ p. bound p + sum_by (count_by (of_post p)) runs))
unfolding claim_runs
claim_runs-Claimed loc home_base bound c [] a h = Done-ok (Claimed-widen (λ p. omega arith) h)
claim_runs-Claimed loc home_base bound c (run ∷ runs) a h =
    Done_bind (build_trip-Built loc run home_base a.0) (λ ev b.
      Done_map
        (claim_runs-Claimed loc home_base (λ p. bound p + count_by (of_post p) run) (claim c run ev)
          runs a.1 (claim-Claimed bound c run ev a.0 h b))
        (λ c' k. Claimed-widen (λ p. omega arith) k))

-- how often a post is among the places
abbrev posts_at : ℕ → List (Bytes × List EventPostRow) → ℕ
posts_at p = sum_by (λ e. count_by (of_post p) e.1)

claim_locations-Claimed :
    (home_base : List (ℕ × Bytes)) (home_area : List Bytes) (bound : ℕ → ℕ) (c : Claims)
    (places : List (Bytes × List EventPostRow))
    → Claimed bound c
    → Done
        (claim_locations home_base home_area c places)
        (Claimed (λ p. bound p + posts_at p places))
unfolding claim_locations
claim_locations-Claimed home_base home_area bound c [] h =
    Done-ok (Claimed-widen (λ p. omega arith) h)
claim_locations-Claimed home_base home_area bound c ((loc, rows) ∷ places) h =
    Done_bind {P = Claimed (λ p. bound p + count_by (of_post p) rows)}
      (Done_if (contains home_area loc) (λ _. Done-ok (Claimed-widen (λ p. omega arith) h))
        (λ _.
          Done_map
            (claim_runs-Claimed loc home_base bound c (trip_runs rows)
              (trip_runs-IsRun rows (of_post 0)).0 h)
            (λ c' k. Claimed-widen (λ p. omega (arith, (trip_runs-IsRun rows (of_post p)).1)) k)))
      (λ c' k.
        Done_map
          (claim_locations-Claimed home_base home_area (λ p. bound p + count_by (of_post p) rows) c'
            places k)
          (λ c'' l. Claimed-widen (λ p. omega arith) l))

upsert-posts :
    (p : ℕ) (loc : Bytes) (r : EventPostRow) (places : List (Bytes × List EventPostRow))
    → posts_at p (upsert loc (append_to r) places)
      ≡ posts_at p places + count_by (of_post p) (r ∷ [])
upsert-posts p loc r [] = omega arith
upsert-posts p loc r ((l, rows) ∷ places) = elim (Bool-cases (l == loc)) [
  | inl e ↦ rw e (omega (arith, count_by-append (of_post p) rows (r ∷ [])))
  | inr e ↦ rw e (omega (arith, upsert-posts p loc r places))
]

by_location-posts :
    (tx : Texts) (p : ℕ) (places : List (Bytes × List EventPostRow)) (rows : List EventPostRow)
    → posts_at p (by_location tx places rows) ≡ posts_at p places + count_by (of_post p) rows
unfolding by_location
by_location-posts tx p places [] = omega arith
by_location-posts tx p places (r ∷ rows) =
    let loc = normalize_location tx r.location in
    omega (
      arith,
      by_location-posts tx p (upsert loc (append_to r) places) rows,
      upsert-posts p loc r places,
    )

-- The trips of any rows are found. The posts that they claim are those in the events, and no post is
-- there more often than among the rows; and no trip takes more than thirty days.
pub detect_trips-Claimed :
    (tx : Texts) (rows : List EventPostRow) (home_base : List (ℕ × Bytes)) (home_area : List Bytes)
    → Done (detect_trips tx rows home_base home_area) (Claimed (λ p. count_by (of_post p) rows))
unfolding detect_trips
detect_trips-Claimed tx rows home_base home_area =
    let places = by_location tx [] rows in
    Done_map
      (claim_locations-Claimed home_base home_area (λ _. 0) (record { events = []; consumed = [] })
        (sort_by loc_before places)
        (record { exact = λ p. refl; bounded = λ p. omega arith; trips = tt }))
      (λ c h.
        Claimed-widen
          (λ p. omega (
            arith,
            sum_by-sort_by loc_before (λ e. count_by (of_post p) e.1) places,
            by_location-posts tx p [] rows,
          ))
          h)

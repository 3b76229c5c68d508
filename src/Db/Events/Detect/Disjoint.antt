-- ===== src/Db/Events/Detect/Disjoint.antt =====
-- server/internal/db/events_cluster.go: the events of any rows, and the posts in them.
use check_in.Prelude.{
  ℕ, ◌+◌, ◌≤◌, ◌≡◌, refl, ap, subst, true, false, ◌&&◌, ◌⊎◌, inl, inr, Bool-cases, List, [], ◌∷◌,
  ◌++◌, leb, ◌==◌, if◌then◌else◌, length, length-append, comparable_nat, arith, Done, Done-ok,
  Done_bind, Done_if, Done_map,
}
use check_in.Sorting.{
  All, All-sort_by, All-append, All-imp, count_by, count_by-append, sum_by, sum_by-append, sort_by,
  sum_by-sort_by, Sorted, Ordered-Sorted, sort_by-Ordered,
}
use check_in.Maps.{comparable_bytes, contains}
use check_in.Db.Events.{
  EventPostRow, Texts, day_of, normalize_location, gathering_min_posts, gathering_min_authors,
  compute_home_area, compute_home_bases,
}
use check_in.Db.Events.Build.{Event, gathering, event_outranks}
use check_in.Db.Events.Build.Outranks.{
  event_outranks-IsOrder, EndsNoEarlier, event_outranks-EndsNoEarlier,
}
use check_in.Db.Events.Build.Posts.{is_post, of_post, on_day, Built, build_event-Built, count_both}
use check_in.Db.Events.Trips.Claimed.{posts_in, IsTrip, detect_trips-Claimed}
use check_in.Db.Events.Detect.{
  BucketKey, same_key, add_to_bucket, bucket_rows, key_before, authors_of, gather_buckets,
  detect_gatherings, detect_events,
}

-- A get-together: three posts at least, all on one day.
pub record IsGathering (e : Event) : Type 0 where
  pub is_gathering : e.kind ≡ gathering
  pub one_day : e.start_date ≡ e.end_date
  pub enough : gathering_min_posts ≤ length e.post_ids

abbrev Buckets : Type 0
Buckets = List (BucketKey × List EventPostRow)

abbrev posts_at : ℕ → Buckets → ℕ
posts_at p = sum_by (λ e. count_by (of_post p) e.1)

-- The posts of a bucket are of its day, and there is one.
abbrev IsBucket : BucketKey × List EventPostRow → Type 0
IsBucket b = (1 ≤ length b.1) × (count_by (on_day b.0.day) b.1 ≡ length b.1)

add_to_bucket-posts :
    (p : ℕ) (k : BucketKey) (r : EventPostRow) (buckets : Buckets)
    → posts_at p (add_to_bucket k r buckets) ≡ posts_at p buckets + count_by (of_post p) (r ∷ [])
unfolding add_to_bucket
add_to_bucket-posts p k r [] = omega arith
add_to_bucket-posts p k r ((j, run) ∷ buckets) = elim (Bool-cases (same_key j k)) [
  | inl e ↦ rw e (omega (arith, count_by-append (of_post p) run (r ∷ [])))
  | inr e ↦ rw e (omega (arith, add_to_bucket-posts p k r buckets))
]

add_to_bucket-IsBucket :
    (k : BucketKey) (r : EventPostRow) (buckets : Buckets)
    → k.day ≡ day_of r.created_at
    → All IsBucket buckets
    → All IsBucket (add_to_bucket k r buckets)
unfolding add_to_bucket
add_to_bucket-IsBucket k r [] d a = ((omega arith, ground (arith, d)), tt)
add_to_bucket-IsBucket k r ((j, run) ∷ buckets) d a = elim (Bool-cases (same_key j k)) [
  | inl e ↦ rw e (
    (
      omega (arith, length-append run (r ∷ [])),
      ground (
        arith,
        e,
        d,
        a.0,
        length-append run (r ∷ []),
        count_by-append (on_day j.day) run (r ∷ []),
      ),
    ),
    a.1,
  )
  | inr e ↦ rw e (a.0, add_to_bucket-IsBucket k r buckets d a.1)
]

module _ (tx : Texts) (consumed : List ℕ) where
  bucket_rows-posts :
      (p : ℕ) (buckets : Buckets) (rows : List EventPostRow)
      → posts_at p (bucket_rows tx consumed buckets rows)
        ≡ posts_at p buckets + (if contains consumed p then 0 else count_by (of_post p) rows)
  unfolding bucket_rows
  bucket_rows-posts p buckets [] = ground arith
  bucket_rows-posts p buckets (r ∷ rows) =
      let k : BucketKey = record {
        loc = normalize_location tx r.location;
        day = day_of r.created_at;
      } in
      elim (Bool-cases (r.post_id == p)) [
        | inl e ↦
            let same : r.post_id ≡ p = ground arith in
            let at_p = ap (contains consumed) same in
            elim (Bool-cases (contains consumed r.post_id)) [
              | inl c ↦ rw c (ground (arith, c, at_p, bucket_rows-posts p buckets rows))
              | inr c ↦ rw c (
                  ground (
                    arith,
                    c,
                    at_p,
                    bucket_rows-posts p (add_to_bucket k r buckets) rows,
                    add_to_bucket-posts p k r buckets,
                  ))
            ]
        | inr e ↦ elim (Bool-cases (contains consumed r.post_id)) [
          | inl c ↦ rw c (ground (arith, bucket_rows-posts p buckets rows))
          | inr c ↦ rw c (
              ground (
                arith,
                bucket_rows-posts p (add_to_bucket k r buckets) rows,
                add_to_bucket-posts p k r buckets,
              ))
        ]
      ]

  bucket_rows-IsBucket :
      (buckets : Buckets) (rows : List EventPostRow)
      → All IsBucket buckets
      → All IsBucket (bucket_rows tx consumed buckets rows)
  unfolding bucket_rows
  bucket_rows-IsBucket buckets [] a = a
  bucket_rows-IsBucket buckets (r ∷ rows) a =
      let k : BucketKey = record {
        loc = normalize_location tx r.location;
        day = day_of r.created_at;
      } in
      elim (Bool-cases (contains consumed r.post_id)) [
        | inl c ↦ rw c (bucket_rows-IsBucket buckets rows a)
        | inr c ↦ rw c (
            bucket_rows-IsBucket (add_to_bucket k r buckets) rows
              (add_to_bucket-IsBucket k r buckets refl a))
      ]

Built-IsGathering :
    (d : ℕ) (run : List EventPostRow) (e : Event)
    → count_by (on_day d) run ≡ length run
    → gathering_min_posts ≤ length run
    → Built gathering run e
    → IsGathering e
Built-IsGathering d run e all n b =
    let (s, on_d, at_s) = count_both (on_day d) (on_day e.start_date) run all b.starts in
    let (t, on_d', at_t) = count_both (on_day d) (on_day e.end_date) run all b.stops in
    record {
      is_gathering = b.of_kind;
      one_day = ground (arith, on_d, at_s, on_d', at_t);
      enough = omega (arith, b.size);
    }

-- The gatherings found, with the posts in them bounded.
record Gathered (bound : ℕ → ℕ) (es : List Event) : Type 0 where
  all : All IsGathering es
  bounded : (p : ℕ) → posts_in p es ≤ bound p

Gathered-widen :
    {b b' : ℕ → ℕ} {es : List Event} → ((p : ℕ) → b p ≤ b' p) → Gathered b es → Gathered b' es
Gathered-widen w h = record { all = h.all; bounded = λ p. omega (arith, w p, h.bounded p) }

gather_buckets-Gathered :
    (bound : ℕ → ℕ) (es : List Event) (buckets : Buckets)
    → All IsBucket buckets
    → Gathered bound es
    → Done (gather_buckets es buckets) (Gathered (λ p. bound p + posts_at p buckets))
unfolding gather_buckets
gather_buckets-Gathered bound es [] a g = Done-ok (Gathered-widen (λ p. omega arith) g)
gather_buckets-Gathered bound es ((k, run) ∷ buckets) a g =
    let enough =
      leb gathering_min_posts (length run)
      && leb gathering_min_authors (length (authors_of [] run)) in
    Done_bind {P = Gathered (λ p. bound p + count_by (of_post p) run)}
      (Done_if enough
        (λ c. Done_bind (build_event-Built gathering run a.0.0) (λ e b. Done-ok (record {
          all =
              All-append IsGathering es (e ∷ []) g.all
                (Built-IsGathering k.day run e a.0.1 (ground (arith, c)) b, tt);
          bounded = λ p. omega (
            arith,
            g.bounded p,
            b.posts p,
            sum_by-append (λ e. count_by (is_post p) e.post_ids) es (e ∷ []),
          );
        })))
        (λ c. Done-ok (Gathered-widen (λ p. omega arith) g)))
      (λ es' h.
        Done_map
          (gather_buckets-Gathered (λ p. bound p + count_by (of_post p) run) es' buckets a.1 h)
          (λ es'' l. Gathered-widen (λ p. omega arith) l))

detect_gatherings-Gathered :
    (tx : Texts) (rows : List EventPostRow) (consumed : List ℕ)
    → Done
        (detect_gatherings tx rows consumed)
        (Gathered (λ p. if contains consumed p then 0 else count_by (of_post p) rows))
unfolding detect_gatherings
detect_gatherings-Gathered tx rows consumed =
    let buckets = bucket_rows tx consumed [] rows in
    Done_map
      (gather_buckets-Gathered (λ _. 0) [] (sort_by key_before buckets)
        (All-sort_by IsBucket key_before buckets (bucket_rows-IsBucket tx consumed [] rows tt))
        (record { all = tt; bounded = λ p. omega arith }))
      (λ es h.
        Gathered-widen
          (λ p. omega (
            arith,
            sum_by-sort_by key_before (λ e. count_by (of_post p) e.1) buckets,
            bucket_rows-posts tx consumed p [] rows,
          ))
          h)

contains-count : (p : ℕ) (ids : List ℕ) → contains ids p ≡ false → count_by (is_post p) ids ≡ 0
contains-count p [] h = refl
contains-count p (x ∷ ids) h = ground (arith, contains-count p ids)

count-contains : (p : ℕ) (ids : List ℕ) → contains ids p ≡ true → 1 ≤ count_by (is_post p) ids
count-contains p [] h = absurd (ground (arith, h))
count-contains p (x ∷ ids) h = ground (arith, count-contains p ids)

-- Events that are in order, each a trip or a gathering, in which no post is more often than in the rows.
pub record Detected (rows : List EventPostRow) (es : List Event) : Type 0 where
  pub newest_first : Sorted EndsNoEarlier es
  pub each : All (λ e. IsTrip e ⊎ IsGathering e) es
  pub once : (p : ℕ) → posts_in p es ≤ count_by (of_post p) rows

-- Events are found for any rows: no index is out of range. They come by their ends, the newest first, of
-- events with one end the trips first, and those of one kind by their starts, the newest first. Each is a trip of
-- thirty days at most, or a gathering of three posts at least on one day; and no post is in two of
-- them, nor twice in one, unless the rows hold it twice.
pub detect_events-Detected :
    (tx : Texts) (rows : List EventPostRow) (now : ℕ)
    → Done (detect_events tx rows now) (Detected rows)
unfolding detect_events
detect_events-Detected tx rows now =
    Done_bind
      (detect_trips-Claimed tx rows (compute_home_bases tx rows now)
        (compute_home_area tx rows now))
      (λ trips c. Done_bind (detect_gatherings-Gathered tx rows trips.consumed) (λ gatherings g.
        let es = trips.events ++ gatherings in
        Done-ok (record {
          newest_first =
              Ordered-Sorted event_outranks EndsNoEarlier (sort_by event_outranks es)
                event_outranks-EndsNoEarlier
                (sort_by-Ordered event_outranks event_outranks-IsOrder es);
          each =
              All-sort_by (λ e. IsTrip e ⊎ IsGathering e) event_outranks es
                (All-append (λ e. IsTrip e ⊎ IsGathering e) trips.events gatherings
                  (All-imp IsTrip (λ e. IsTrip e ⊎ IsGathering e) trips.events (λ e h. inl h)
                    c.trips)
                  (All-imp IsGathering (λ e. IsTrip e ⊎ IsGathering e) gatherings (λ e h. inr h)
                    g.all));
          once = λ p.
              let sorted =
                sum_by-sort_by event_outranks (λ e. count_by (is_post p) e.post_ids) es in
              let parts =
                sum_by-append (λ e. count_by (is_post p) e.post_ids) trips.events gatherings in
              elim (Bool-cases (contains trips.consumed p)) [
                | inl e ↦
                    let none_left =
                      subst
                        (λ b. posts_in p gatherings ≤ (if b then 0 else count_by (of_post p) rows))
                        e (g.bounded p) in
                    omega (arith, sorted, parts, c.bounded p, none_left)
                | inr e ↦
                    let rest =
                      subst
                        (λ b. posts_in p gatherings ≤ (if b then 0 else count_by (of_post p) rows))
                        e (g.bounded p) in
                    omega (arith, sorted, parts, c.exact p, contains-count p trips.consumed e, rest)
              ];
        })))

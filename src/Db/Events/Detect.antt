-- ===== src/Db/Events/Detect.antt =====
-- server/internal/db/events_cluster.go: the gatherings, and the list of events.
pub mod Disjoint
mod Tests
use check_in.Prelude.{
  ℕ, zero, suc, ◌+◌, ◌-◌, Bool, true, false, not, ◌&&◌, ◌||◌, Option, none, some, List, [], ◌∷◌,
  ◌++◌, ltb, leb, ◌==◌, if◌then◌else◌, length, comparable_nat, map, Comparable, Result, NoError, ok,
  panic, ◌>>=◌,
}
use check_in.Slice.{Bytes}
use check_in.Sorting.{sort_by}
use check_in.Maps.{comparable_bytes, bytes_lt, lookup, upsert, contains, include, append_to}
use check_in.Db.Events.{
  EventPostRow, Texts, gathering_min_posts, gathering_min_authors, day_of, normalize_location,
  compute_home_area, compute_home_bases,
}
use check_in.Db.Events.Build.{Event, gathering, build_event, event_outranks}
use check_in.Db.Events.Trips.{Claims, detect_trips}

-- A place on a day.
pub record BucketKey : Type 0 where
  pub loc : Bytes
  pub day : ℕ

abbrev pub same_key : BucketKey → BucketKey → Bool
same_key a b = a.loc == b.loc && a.day == b.day

pub add_to_bucket :
    BucketKey
    → EventPostRow
    → List (BucketKey × List EventPostRow)
    → List (BucketKey × List EventPostRow)
add_to_bucket k r [] = (k, r ∷ []) ∷ []
add_to_bucket k r ((j, run) ∷ buckets) =
    if same_key j k then (j, run ++ r ∷ []) ∷ buckets else (j, run) ∷ add_to_bucket k r buckets

pub bucket_rows :
    Texts
    → List ℕ
    → List (BucketKey × List EventPostRow)
    → List EventPostRow
    → List (BucketKey × List EventPostRow)
unfolding add_to_bucket
bucket_rows tx consumed buckets [] = buckets
bucket_rows tx consumed buckets (r ∷ rows) =
    let k : BucketKey = record {
      loc = normalize_location tx r.location;
      day = day_of r.created_at;
    } in
    bucket_rows tx consumed
      (if contains consumed r.post_id then buckets else add_to_bucket k r buckets) rows

pub key_before : BucketKey × List EventPostRow → BucketKey × List EventPostRow → Bool
key_before a b = if not (a.0.day == b.0.day) then ltb a.0.day b.0.day else bytes_lt a.0.loc b.0.loc

pub authors_of : List ℕ → List EventPostRow → List ℕ
authors_of authors [] = authors
authors_of authors (r ∷ run) = authors_of (include r.author_id authors) run

pub gather_buckets : List Event → List (BucketKey × List EventPostRow) → Result NoError (List Event)
unfolding authors_of
gather_buckets events [] = ok events
gather_buckets events ((k, run) ∷ buckets) =
    (if leb gathering_min_posts (length run)
        && leb gathering_min_authors (length (authors_of [] run))
      then (build_event gathering run >>= λ e. ok (events ++ e ∷ []))
      else ok events)
    >>= λ events'. gather_buckets events' buckets

pub detect_gatherings : Texts → List EventPostRow → List ℕ → Result NoError (List Event)
unfolding bucket_rows gather_buckets key_before
detect_gatherings tx rows consumed =
    gather_buckets [] (sort_by key_before (bucket_rows tx consumed [] rows))

pub detect_events : Texts → List EventPostRow → ℕ → Result NoError (List Event)
unfolding detect_gatherings
detect_events tx rows now = do
  let home_base = compute_home_bases tx rows now
  let home_area = compute_home_area tx rows now
  trips ← detect_trips tx rows home_base home_area
  gatherings ← detect_gatherings tx rows trips.consumed
  ok (sort_by event_outranks (trips.events ++ gatherings))

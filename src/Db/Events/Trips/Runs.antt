-- ===== src/Db/Events/Trips/Runs.antt =====
-- server/internal/db/events_cluster.go: tripRuns deals the posts out to runs that are compact.
use check_in.Prelude.{
  ℕ, ◌+◌, ◌-◌, ◌≤◌, ◌≡◌, refl, sym, ◌∙◌, Bool, false, ◌&&◌, ◌||◌, inl, inr, Bool-cases, List, [],
  ◌∷◌, ◌++◌, ltb, leb, length, comparable_nat, arith,
}
use check_in.Sorting.{
  All, one_if, count_by, count_by-append, sum_by, sort_by, count_by-sort_by, IsOrder, Ordered,
  sort_by-Ordered,
}
use check_in.Clock.{day_start-le}
use check_in.Db.Events.{EventPostRow, day_of, trip_window, trip_max_span}
use check_in.Db.Events.Build.Posts.{within}
use check_in.Db.Events.Trips.{by_time, runs_from, runs_of, trip_runs}

-- Each day is at most the window after the one before it.
abbrev pub Gaps : ℕ → List EventPostRow → Type 0
Gaps d [] = Unit
Gaps d (r ∷ rows) =
    (d ≤ day_of r.created_at)
    × (day_of r.created_at ≤ d + trip_window)
    × Gaps (day_of r.created_at) rows

-- Each day is at most the longest span after the first one.
abbrev pub Spans : ℕ → List EventPostRow → Type 0
Spans d = All (λ r. (d ≤ day_of r.created_at) × (day_of r.created_at ≤ d + trip_max_span))

-- A run has a post; no gap in it is longer than the window, and all of it is within the span.
abbrev pub IsRun : List EventPostRow → Type 0
IsRun [] = ⊥
IsRun (r ∷ rows) = Gaps (day_of r.created_at) rows × Spans (day_of r.created_at) rows

abbrev last_day : ℕ → List EventPostRow → ℕ
last_day d [] = d
last_day d (r ∷ rows) = last_day (day_of r.created_at) rows

Gaps-append :
    (d : ℕ) (rows : List EventPostRow) (r : EventPostRow)
    → Gaps d rows
    → last_day d rows ≤ day_of r.created_at
    → day_of r.created_at ≤ last_day d rows + trip_window
    → Gaps d (rows ++ r ∷ [])
Gaps-append d [] r g h k = (h, k, tt)
Gaps-append d (s ∷ rows) r g h k = (g.0, g.1, Gaps-append (day_of s.created_at) rows r g.2 h k)

Spans-append :
    (d : ℕ) (rows : List EventPostRow) (r : EventPostRow)
    → Spans d rows
    → d ≤ day_of r.created_at
    → day_of r.created_at ≤ d + trip_max_span
    → Spans d (rows ++ r ∷ [])
Spans-append d [] r g h k = ((h, k), tt)
Spans-append d (s ∷ rows) r g h k = (g.0, Spans-append d rows r g.1 h k)

last_day-append :
    (d : ℕ) (rows : List EventPostRow) (r : EventPostRow)
    → last_day d (rows ++ r ∷ []) ≡ day_of r.created_at
last_day-append d [] r = refl
last_day-append d (s ∷ rows) r = last_day-append (day_of s.created_at) rows r

last_day-ge : (d : ℕ) (rows : List EventPostRow) → Gaps d rows → d ≤ last_day d rows
last_day-ge d [] g = omega arith
last_day-ge d (r ∷ rows) g = omega (arith, g.0, last_day-ge (day_of r.created_at) rows g.2)

-- The posts in the loop from here on come on the day or later, and in order.
abbrev Later : ℕ → List EventPostRow → Type 0
Later d [] = Unit
Later d (r ∷ rows) = (d ≤ day_of r.created_at) × Later (day_of r.created_at) rows

runs_from-IsRun :
    (x : EventPostRow) (run : List EventPostRow) (d : ℕ) (rows : List EventPostRow)
    → IsRun (x ∷ run)
    → d ≡ last_day (day_of x.created_at) run
    → Later d rows
    → All IsRun (runs_from (x ∷ run) (day_of x.created_at) d rows)
unfolding runs_from
runs_from-IsRun x run d [] i e l = (i, tt)
runs_from-IsRun x run d (r ∷ rows) i e l =
    let today = day_of r.created_at in
    elim (Bool-cases
      (ltb trip_window (today - d) || ltb trip_max_span (today - day_of x.created_at))) [
        | inl c ↦ rw c (i, runs_from-IsRun r [] today rows (tt, tt) refl l.1)
        | inr c ↦
            let first = last_day-ge (day_of x.created_at) run i.0 in
            rw c (
              runs_from-IsRun x (run ++ r ∷ []) today rows
                (
                  Gaps-append (day_of x.created_at) run r i.0 (omega (arith, l))
                      (ground (arith, l.0)),
                  Spans-append (day_of x.created_at) run r i.1 (omega (arith, l))
                      (ground (arith, l.0)),
                )
                (sym (last_day-append (day_of x.created_at) run r)) l.1)
      ]

Later-after :
    (r : EventPostRow) (rows : List EventPostRow)
    → All (λ s. by_time s r ≡ false) rows
    → All (λ s. r.created_at ≤ s.created_at) rows
Later-after r [] a = tt
Later-after r (s ∷ rows) a = (ground (arith, a.0), Later-after r rows a.1)

Later-Ordered :
    (t : ℕ) (rows : List EventPostRow)
    → All (λ r. t ≤ r.created_at) rows
    → Ordered by_time rows
    → Later (day_of t) rows
Later-Ordered t [] h o = tt
Later-Ordered t (r ∷ rows) h o =
    (day_start-le t r.created_at h.0, Later-Ordered r.created_at rows (Later-after r rows o.0) o.1)

-- All posts of a run lie within the longest span from its first day.
pub IsRun-within :
    (r : EventPostRow) (rows : List EventPostRow)
    → IsRun (r ∷ rows)
    → count_by (within (day_of r.created_at) (day_of r.created_at + trip_max_span)) (r ∷ rows)
      ≡ length (r ∷ rows)
IsRun-within r rows i =
    omega (arith, spans (day_of r.created_at) rows i.1, at_first (day_of r.created_at))
  where
    spans :
        (d : ℕ) (rows : List EventPostRow)
        → Spans d rows
        → count_by (within d (d + trip_max_span)) rows ≡ length rows
    spans d [] s = refl
    spans d (r ∷ rows) s = ground (arith, s.0, spans d rows s.1)

    at_first : (d : ℕ) → one_if (leb d d && leb d (d + trip_max_span)) ≡ 1
    at_first d = ground arith

runs_from-sum :
    (p : EventPostRow → Bool) (run : List EventPostRow) (first d : ℕ) (rows : List EventPostRow)
    → sum_by (count_by p) (runs_from run first d rows) ≡ count_by p run + count_by p rows
unfolding runs_from
runs_from-sum p run first d [] = omega arith
runs_from-sum p run first d (r ∷ rows) = ground (
  arith,
  runs_from-sum p (r ∷ []) (day_of r.created_at) (day_of r.created_at) rows,
  runs_from-sum p (run ++ r ∷ []) first (day_of r.created_at) rows,
  count_by-append p run (r ∷ []),
)

runs_of-sum :
    (p : EventPostRow → Bool) (rows : List EventPostRow)
    → sum_by (count_by p) (runs_of rows) ≡ count_by p rows
unfolding runs_of
runs_of-sum p [] = refl
runs_of-sum p (r ∷ rows) =
    omega (arith, runs_from-sum p (r ∷ []) (day_of r.created_at) (day_of r.created_at) rows)

runs_of-IsRun : (rows : List EventPostRow) → Ordered by_time rows → All IsRun (runs_of rows)
unfolding runs_of
runs_of-IsRun [] o = tt
runs_of-IsRun (r ∷ rows) o =
    runs_from-IsRun r [] (day_of r.created_at) rows (tt, tt) refl
      (Later-Ordered r.created_at (r ∷ rows) (omega arith, Later-after r rows o.0) o).1

by_time-IsOrder : IsOrder by_time
by_time-IsOrder = record { asym = λ x y h. ground arith; trans = λ x y z h k. ground arith }

-- The runs of a place take up its posts, each as often as it is there, whatever the test by which
-- posts are counted; and every run has a post, no gap of more than three days, and no more than
-- thirty days from its first day to its last.
pub trip_runs-IsRun :
    (rows : List EventPostRow) (p : EventPostRow → Bool)
    → All IsRun (trip_runs rows) × (sum_by (count_by p) (trip_runs rows) ≡ count_by p rows)
unfolding trip_runs
trip_runs-IsRun rows p = (
  runs_of-IsRun (sort_by by_time rows) (sort_by-Ordered by_time by_time-IsOrder rows),
  runs_of-sum p (sort_by by_time rows) ∙ count_by-sort_by by_time p rows,
)

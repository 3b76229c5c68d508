-- ===== src/Db/Events/Build/Posts.antt =====
-- server/internal/db/events_cluster.go: the posts and the dates of an event.
use check_in.Prelude.{
  ℕ, ◌+◌, ◌≤◌, ◌≡◌, refl, sym, subst, ◌∙◌, Bool, true, ◌&&◌, inl, inr, Bool-cases, List, [], ◌∷◌,
  leb, ◌==◌, length, length-append, comparable_nat, Done, Done-ok, Done_map, arith,
}
use check_in.Sorting.{
  count_by, count_by-le, count_by-append, sort_by, count_by-sort_by, length-sort_by, IsOrder,
  Ordered, sort_by-Ordered,
}
use check_in.Clock.{day_start-le}
use check_in.Db.Events.{EventPostRow, day_of}
use check_in.Db.Events.Build.{
  EventKind, Event, Gathered, none_gathered, gather_post, gather, earlier, last_of, event_of,
  build_event,
}

abbrev pub is_post : ℕ → ℕ → Bool
is_post p j = j == p

abbrev pub of_post : ℕ → EventPostRow → Bool
of_post p r = r.post_id == p

gather-post_ids :
    (p : ℕ) (g : Gathered) (rows : List EventPostRow)
    → count_by (is_post p) (gather g rows).post_ids
      ≡ count_by (is_post p) g.post_ids + count_by (of_post p) rows
unfolding gather
gather-post_ids p g [] = omega arith
gather-post_ids p g (r ∷ rows) = ground (
  arith,
  gather-post_ids p (gather_post g r) rows,
  count_by-append (is_post p) g.post_ids (r.post_id ∷ []),
)

length-gather :
    (g : Gathered) (rows : List EventPostRow)
    → length (gather g rows).post_ids ≡ length g.post_ids + length rows
unfolding gather
length-gather g [] = omega arith
length-gather g (r ∷ rows) =
    omega (arith, length-gather (gather_post g r) rows, length-append g.post_ids (r.post_id ∷ []))

earlier-IsOrder : IsOrder earlier
unfolding earlier
earlier-IsOrder = record { asym = λ x y h. ground arith; trans = λ x y z h k. ground arith }

-- The day of the post is one of the days from the first date to the last one.
abbrev pub within : ℕ → ℕ → EventPostRow → Bool
within start stop r = leb start (day_of r.created_at) && leb (day_of r.created_at) stop

last_of-after :
    (t : ℕ) (r : EventPostRow) (rows : List EventPostRow)
    → t ≤ r.created_at
    → Ordered earlier (r ∷ rows)
    → t ≤ (last_of r rows).created_at
unfolding earlier
last_of-after t r [] h o = h
last_of-after t r (s ∷ rows) h o = last_of-after t s rows (ground (arith, o.0.0)) o.1

count-within :
    (start : ℕ) (r : EventPostRow) (rows : List EventPostRow)
    → start ≤ r.created_at
    → Ordered earlier (r ∷ rows)
    → count_by (within (day_of start) (day_of (last_of r rows).created_at)) (r ∷ rows)
      ≡ length (r ∷ rows)
unfolding earlier
count-within start r [] h o = ground (arith, day_start-le start r.created_at)
count-within start r (s ∷ rows) h o =
    let later : r.created_at ≤ s.created_at = ground (arith, o.0.0) in
    let last = last_of-after r.created_at s rows later o.1 in
    ground (
      arith,
      count-within start s rows (omega arith) o.1,
      day_start-le start r.created_at,
      day_start-le r.created_at (last_of s rows).created_at,
    )

abbrev pub on_day : ℕ → EventPostRow → Bool
on_day d r = day_of r.created_at == d

last_of-counted :
    (r : EventPostRow) (rows : List EventPostRow)
    → 1 ≤ count_by (on_day (day_of (last_of r rows).created_at)) (r ∷ rows)
last_of-counted r [] = ground arith
last_of-counted r (s ∷ rows) = omega (arith, last_of-counted s rows)

-- The event has the kind, the posts of the run, and dates of posts of the run, which all posts lie between.
pub record Built (kind : EventKind) (run : List EventPostRow) (e : Event) : Type 0 where
  pub of_kind : e.kind ≡ kind
  pub posts : (p : ℕ) → count_by (is_post p) e.post_ids ≡ count_by (of_post p) run
  pub size : length e.post_ids ≡ length run
  pub starts : 1 ≤ count_by (on_day e.start_date) run
  pub stops : 1 ≤ count_by (on_day e.end_date) run
  pub dates : count_by (within e.start_date e.end_date) run ≡ length run

event_of-Built :
    (kind : EventKind) (rows : List EventPostRow)
    → 1 ≤ length rows
    → Ordered earlier rows
    → Done (event_of kind rows) (Built kind rows)
unfolding event_of
event_of-Built kind [] h o = absurd (omega arith)
event_of-Built kind (r ∷ rows) h o = Done-ok (record {
  of_kind = refl;
  posts = λ p. omega (arith, gather-post_ids p none_gathered (r ∷ rows));
  size = omega (arith, length-gather none_gathered (r ∷ rows));
  starts = ground arith;
  stops = last_of-counted r rows;
  dates = count-within r.created_at r rows (omega arith) o;
})

-- An event can be built of any posts, if there is one.
pub build_event-Built :
    (kind : EventKind) (run : List EventPostRow)
    → 1 ≤ length run
    → Done (build_event kind run) (Built kind run)
unfolding build_event
build_event-Built kind run h =
    let sorted = sort_by earlier run in
    Done_map
      (event_of-Built kind sorted (omega (arith, length-sort_by earlier run))
        (sort_by-Ordered earlier earlier-IsOrder run))
      (λ e b. record {
        of_kind = b.of_kind;
        posts = λ p. b.posts p ∙ count_by-sort_by earlier (of_post p) run;
        size = b.size ∙ length-sort_by earlier run;
        starts = subst (λ n. 1 ≤ n) (count_by-sort_by earlier (on_day e.start_date) run) b.starts;
        stops = subst (λ n. 1 ≤ n) (count_by-sort_by earlier (on_day e.end_date) run) b.stops;
        dates =
            sym (count_by-sort_by earlier (within e.start_date e.end_date) run)
            ∙ b.dates
            ∙ length-sort_by earlier run;
      })

-- Where every row passes one test and some row another, some row passes both.
pub count_both :
    (p q : EventPostRow → Bool) (rows : List EventPostRow)
    → count_by p rows ≡ length rows
    → 1 ≤ count_by q rows
    → (r : EventPostRow) × (p r ≡ true) × (q r ≡ true)
count_both p q [] h k = absurd (omega arith)
count_both p q (r ∷ rows) h k = elim (Bool-cases (q r)) [
  | inl e ↦ (r, ground (arith, h, count_by-le p rows), e)
  | inr e ↦ count_both p q rows (ground (arith, h, count_by-le p rows)) (ground (arith, e, k))
]

-- ===== src/Db/Timeline.antt =====
-- server/internal/db/timeline.go: the months of a group's history, and the posts of one.
--
-- The two queries are parameters: `fetch` returns the rows that the SQL selects.
use check_in.Prelude.{
  ℕ, zero, suc, ◌+◌, ◌*◌, ◌/◌, ◌≡◌, ◌↔◌, refl, ap₂, Bool, true, false, not, ◌&&◌, ◌||◌, Option,
  none, some, List, [], ◌∷◌, ◌++◌, ltb, leb, ◌==◌, if◌then◌else◌, length, take, map, arith,
  Comparable, comparable_nat, ℤ, Result, ok, err, ◌>>=◌,
}
use check_in.Slice.{Bytes}
use check_in.Sorting.{sort_by}
use check_in.Maps.{comparable_bytes, upsert, include, append_to}
use check_in.Clock.{Civil, day, civil, date_days, months_after, add_minutes, sub_minutes}
pub mod Months
pub mod Stats
pub mod Page
pub mod Agree
mod Tests

abbrev pub max_timeline_month_posts : ℕ
max_timeline_month_posts = 200

abbrev pub timeline_cover_cap : ℕ
timeline_cover_cap = 5

pub record TimelineMonth : Type 0 where
  pub year : ℕ
  pub month : ℕ
  pub post_count : ℕ
  pub photo_count : ℕ
  pub clip_count : ℕ
  pub place_count : ℕ
  pub poster_count : ℕ
  pub cover_media_ids : List ℕ

pub record TimelinePostRow : Type 0 where
  pub post_id : ℕ
  pub author_id : ℕ
  pub location : Bytes
  pub created_at : ℕ
  pub photo_count : ℕ
  pub clip_count : ℕ
  pub like_count : ℕ
  pub cover_media_id : Option ℕ

pub record TimelineKey : Type 0 where
  pub year : ℕ
  pub month : ℕ

abbrev pub same_month : TimelineKey → TimelineKey → Bool
same_month a b = a.year == b.year && a.month == b.month

pub same_month_iff : (a b : TimelineKey) → (same_month a b ≡ true) ↔ (a ≡ b)
same_month_iff a b = (
  λ h. ap₂ (λ y m. record { year = y; month = m }) (ground (arith, h)) (ground (arith, h)),
  λ e. ground (arith, e),
)

instance abbrev pub comparable_key : Comparable TimelineKey
comparable_key = record { same = same_month; same_iff = same_month_iff }

-- The calendar month of a row, in the group's own time.
unfoldable pub local_month : ℤ → TimelinePostRow → TimelineKey
unfolding civil
local_month offset r =
    let c = civil (add_minutes r.created_at offset / day) in
    record { year = c.year; month = c.month }

-- A post's photo that may stand for its month.
pub record Cover : Type 0 where
  pub media_id : ℕ
  pub like_count : ℕ
  pub post_id : ℕ

-- What the loop of `buildTimelineMonth` adds up, the sets of places and posters as lists.
pub record MonthStats : Type 0 where
  pub photos : ℕ
  pub clips : ℕ
  pub places : List Bytes
  pub posters : List ℕ
  pub covers : List Cover

abbrev pub no_stats : MonthStats
no_stats = record { photos = 0; clips = 0; places = []; posters = []; covers = [] }

unfoldable pub add_post : MonthStats → TimelinePostRow → MonthStats
add_post st r = record {
  photos = st.photos + r.photo_count;
  clips = st.clips + r.clip_count;
  places = if not (r.location == []) then include r.location st.places else st.places;
  posters = include r.author_id st.posters;
  covers = elim r.cover_media_id [
    | none ↦ st.covers
    | some media ↦
        st.covers
        ++ record { media_id = media; like_count = r.like_count; post_id = r.post_id } ∷ []
  ];
}

unfoldable pub add_posts : MonthStats → List TimelinePostRow → MonthStats
unfolding add_post
add_posts st [] = st
add_posts st (r ∷ run) = add_posts (add_post st r) run

abbrev pub better_liked : Cover → Cover → Bool
better_liked a b =
    if not (a.like_count == b.like_count)
    then ltb b.like_count a.like_count
    else ltb a.post_id b.post_id

unfoldable pub covers_of : List Cover → List Cover
unfolding sort_by
covers_of covers =
    let sorted = sort_by better_liked covers in
    if ltb timeline_cover_cap (length sorted) then take timeline_cover_cap sorted else sorted

unfoldable pub build_timeline_month : TimelineKey → List TimelinePostRow → TimelineMonth
unfolding add_posts covers_of
build_timeline_month k run =
    let st = add_posts no_stats run in
    record {
      year = k.year;
      month = k.month;
      post_count = length run;
      photo_count = st.photos;
      clip_count = st.clips;
      place_count = length st.places;
      poster_count = length st.posters;
      cover_media_ids = map (λ c. c.media_id) (covers_of st.covers);
    }

unfoldable pub bucket_rows :
    ℤ
    → List (TimelineKey × List TimelinePostRow)
    → List TimelinePostRow
    → List (TimelineKey × List TimelinePostRow)
unfolding local_month
bucket_rows offset buckets [] = buckets
bucket_rows offset buckets (r ∷ rows) =
    bucket_rows offset (upsert (local_month offset r) (append_to r) buckets) rows

abbrev pub later_month : TimelineMonth → TimelineMonth → Bool
later_month a b = if not (a.year == b.year) then ltb b.year a.year else ltb b.month a.month

unfoldable pub build_months : List (TimelineKey × List TimelinePostRow) → List TimelineMonth
unfolding build_timeline_month
build_months [] = []
build_months ((k, run) ∷ buckets) = build_timeline_month k run ∷ build_months buckets

unfoldable pub bucket_timeline : List TimelinePostRow → ℤ → List TimelineMonth
unfolding bucket_rows build_months sort_by
bucket_timeline rows offset = sort_by later_month (build_months (bucket_rows offset [] rows))

-- The posts to return, and whether there are more.
unfoldable pub cut_page {ℓ} : {Post : Type ℓ} → List Post → List Post × Bool
cut_page posts =
    if ltb max_timeline_month_posts (length posts)
    then (take max_timeline_month_posts posts, true)
    else (posts, false)

module _ {E : Type 0} (get_offset : Result E ℤ) where
  unfoldable pub timeline : Result E (List TimelinePostRow) → Result E (List TimelineMonth)
  unfolding bucket_timeline
  timeline fetch = do offset ← get_offset; eligible ← fetch; ok (bucket_timeline eligible offset)

  -- `fetch start end limit` returns the month's posts, newest first.
  unfoldable pub timeline_month_posts :
      {Post : Type 0} → (ℕ → ℕ → ℕ → Result E (List Post)) → ℕ → ℕ → Result E (List Post × Bool)
  unfolding date_days months_after cut_page
  timeline_month_posts fetch year month = do
    offset ← get_offset
    let local_month_start = date_days year month 1 * day
    let local_month_end = months_after 1 local_month_start
    posts ←
        fetch (sub_minutes local_month_start offset) (sub_minutes local_month_end offset)
          (max_timeline_month_posts + 1)
    ok (cut_page posts)

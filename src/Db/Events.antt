-- ===== src/Db/Events.antt =====
-- server/internal/db/events_cluster.go: the rows, the places by name, and where home is.
--
-- Names and places are strings of bytes. A row's coordinates, which nothing here reads, are left out.
-- strings.ToLower and strings.Fields are parameters, the record Texts. Where the source goes through a
-- map in no order, the entries come in the order in which they were made.
pub mod Keys
pub mod Build
pub mod Trips
pub mod Detect
use check_in.Prelude.{
  ℕ, zero, suc, ◌+◌, ◌-◌, Bool, true, false, ◌&&◌, ◌||◌, Option, none, some, List, [], ◌∷◌, ◌++◌,
  ltb, leb, ◌==◌, if◌then◌else◌, length, comparable_nat, map,
}
use check_in.Slice.{Bytes}
use check_in.Sorting.{sort_by}
use check_in.Maps.{comparable_bytes, bytes_lt, lookup, upsert, contains, include}
use check_in.Clock.{day_start, months_before}

pub record EventPostRow : Type 0 where
  pub post_id : ℕ
  pub author_id : ℕ
  pub author_name : Bytes
  pub author_photo_id : Option ℕ
  pub location : Bytes
  pub created_at : ℕ
  pub like_count : ℕ
  pub photo_count : ℕ
  pub cover_media_id : Option ℕ

-- strings.ToLower, strings.Fields
pub record Texts : Type 0 where
  pub to_lower : Bytes → Bytes
  pub fields : Bytes → List Bytes

abbrev pub home_base_lookback : ℕ
home_base_lookback = 6

abbrev pub trip_window : ℕ
trip_window = 259200000000000

abbrev pub trip_max_span : ℕ
trip_max_span = 2592000000000000

abbrev pub gathering_min_posts : ℕ
gathering_min_posts = 3

abbrev pub gathering_min_authors : ℕ
gathering_min_authors = 2

abbrev pub trip_min_away_authors : ℕ
trip_min_away_authors = 2

abbrev pub home_base_min_days : ℕ
home_base_min_days = 3

abbrev pub home_area_min_episodes : ℕ
home_area_min_episodes = 3

abbrev pub home_area_min_members : ℕ
home_area_min_members = 2

abbrev pub home_area_episode_gap : ℕ
home_area_episode_gap = trip_window

abbrev pub day_of : ℕ → ℕ
day_of t = day_start t

-- `strings.Join(…, " ")`
abbrev pub join_words : List Bytes → Bytes
join_words [] = []
join_words (w ∷ []) = w
join_words (w ∷ v ∷ ws) = w ++ (0x20 ∷ join_words (v ∷ ws))

pub normalize_location : Texts → Bytes → Bytes
normalize_location tx loc = tx.to_lower (join_words (tx.fields loc))

-- One entry in the loop of `mostCommonKey`.
pub more_common : Bytes × ℕ → Bytes × ℕ → Bytes × ℕ
more_common (k, n) (best, best_count) =
    if ltb best_count n || (n == best_count && bytes_lt k best) then (k, n) else (best, best_count)

pub most_common_from : Bytes × ℕ → List (Bytes × ℕ) → Bytes × ℕ
unfolding more_common
most_common_from best [] = best
most_common_from best (e ∷ counts) = most_common_from (more_common e best) counts

pub most_common_key : List (Bytes × ℕ) → Bytes × ℕ
unfolding most_common_from
most_common_key counts = most_common_from ([], 0) counts

abbrev pub one_more : Option ℕ → ℕ
one_more none = 1
one_more (some n) = n + 1

pub count_locations : List (Bytes × ℕ) → List EventPostRow → List (Bytes × ℕ)
count_locations counts [] = counts
count_locations counts (r ∷ run) = count_locations (upsert r.location one_more counts) run

pub display_location : List EventPostRow → Bytes
unfolding count_locations most_common_key
display_location run = (most_common_key (count_locations [] run)).0

-- `set[x] = true`, in a set that is made if it is not there
abbrev pub include_in : ℕ → Option (List ℕ) → List ℕ
include_in x none = x ∷ []
include_in x (some s) = include x s

-- `daysByLoc` and `authorsByLoc`
pub record Visits : Type 0 where
  pub days : List (Bytes × List ℕ)
  pub authors : List (Bytes × List ℕ)

pub count_visits : Texts → ℕ → Visits → List EventPostRow → Visits
unfolding normalize_location
count_visits tx cutoff v [] = v
count_visits tx cutoff v (r ∷ rows) =
    let loc = normalize_location tx r.location in
    let v' : Visits = if ltb r.created_at cutoff then v else record {
      days = upsert loc (include_in (day_of r.created_at)) v.days;
      authors = upsert loc (include_in r.author_id) v.authors;
    } in
    count_visits tx cutoff v' rows

pub episodes_after : ℕ → List ℕ → ℕ
episodes_after last [] = 0
episodes_after last (d ∷ ds) =
    let rest = episodes_after d ds in
    if ltb home_area_episode_gap (d - last) then rest + 1 else rest

episodes_of : List ℕ → ℕ
unfolding episodes_after
episodes_of [] = 0
episodes_of (d ∷ ds) = episodes_after d ds + 1

pub count_episodes : List ℕ → ℕ
unfolding episodes_of
count_episodes days = episodes_of (sort_by ltb days)

abbrev pub size_of : Option (List ℕ) → ℕ
size_of none = 0
size_of (some s) = length s

pub home_locations : List (Bytes × List ℕ) → List (Bytes × List ℕ) → List Bytes
unfolding count_episodes
home_locations authors [] = []
home_locations authors ((loc, days) ∷ entries) =
    let rest = home_locations authors entries in
    if ltb (size_of (lookup loc authors)) home_area_min_members
    then rest
    else if leb home_area_min_episodes (count_episodes days)
    then loc ∷ rest
    else rest

pub compute_home_area : Texts → List EventPostRow → ℕ → List Bytes
unfolding count_visits home_locations
compute_home_area tx rows now =
    let cutoff = months_before home_base_lookback now in
    let v = count_visits tx cutoff (record { days = []; authors = [] }) rows in
    home_locations v.authors v.days

-- The days of each author at each place.
abbrev pub Tally : Type 0
Tally = List (ℕ × List (Bytes × List ℕ))

abbrev pub visit : Bytes → ℕ → Option (List (Bytes × List ℕ)) → List (Bytes × List ℕ)
visit loc d none = (loc, d ∷ []) ∷ []
visit loc d (some by_loc) = upsert loc (include_in d) by_loc

pub tally_days_by_author_location : Texts → Tally → List EventPostRow → ℕ → Tally
unfolding normalize_location
tally_days_by_author_location tx days [] cutoff = days
tally_days_by_author_location tx days (r ∷ rows) cutoff =
    let days' : Tally =
      if ltb r.created_at cutoff
      then days
      else upsert r.author_id (visit (normalize_location tx r.location) (day_of r.created_at))
          days in
    tally_days_by_author_location tx days' rows cutoff

pub enough_days : List (Bytes × List ℕ) → List (Bytes × ℕ)
enough_days [] = []
enough_days ((loc, days) ∷ by_loc) =
    let rest = enough_days by_loc in
    if leb home_base_min_days (length days) then (loc, length days) ∷ rest else rest

pub best_home_location : List (Bytes × List ℕ) → Bytes × ℕ
unfolding enough_days most_common_key
best_home_location by_loc = most_common_key (enough_days by_loc)

pub home_bases_of : Tally → List (ℕ × Bytes)
unfolding best_home_location
home_bases_of [] = []
home_bases_of ((author, by_loc) ∷ days) =
    let (loc, n) = best_home_location by_loc in
    let rest = home_bases_of days in if ltb 0 n then (author, loc) ∷ rest else rest

pub compute_home_bases : Texts → List EventPostRow → ℕ → List (ℕ × Bytes)
unfolding tally_days_by_author_location home_bases_of
compute_home_bases tx rows now =
    home_bases_of (tally_days_by_author_location tx [] rows (months_before home_base_lookback now))

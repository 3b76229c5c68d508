-- ===== src/Db/Events/Build.antt =====
-- server/internal/db/events_cluster.go: events, and how one is built of its posts.
pub mod Posts
pub mod Outranks
use check_in.Prelude.{
  ℕ, zero, suc, ◌+◌, ◌-◌, Bool, true, false, not, ◌&&◌, ◌||◌, Option, none, some, List, [], ◌∷◌,
  ◌++◌, ltb, leb, ◌==◌, if◌then◌else◌, length, comparable_nat, map, Result, NoError, ok, panic,
  ◌>>=◌,
}
use check_in.Slice.{Bytes}
use check_in.Sorting.{sort_by}
use check_in.Maps.{comparable_bytes, bytes_lt, lookup, upsert}
use check_in.Db.Events.{EventPostRow, day_of, display_location}

pub data EventKind : Type 0 where
  trip gathering : EventKind

pub record EventParticipant : Type 0 where
  pub user_id : ℕ
  pub name : Bytes
  pub photo_id : Option ℕ
  pub posts : ℕ

pub record Event : Type 0 where
  pub kind : EventKind
  pub place : Bytes
  pub start_date : ℕ
  pub end_date : ℕ
  pub participants : List EventParticipant
  pub post_ids : List ℕ
  pub photo_count : ℕ
  pub cover_media_id : Option ℕ

abbrev pub is_trip : EventKind → Bool
is_trip trip = true
is_trip gathering = false

abbrev pub same_kind : EventKind → EventKind → Bool
same_kind trip k = is_trip k
same_kind gathering k = not (is_trip k)

-- `PostIDs[0]`, of a list that is never empty
abbrev pub first_id : List ℕ → ℕ
first_id [] = 0
first_id (p ∷ ps) = p

unfoldable pub event_outranks : Event → Event → Bool
event_outranks a b =
    if not (a.end_date == b.end_date)
    then ltb b.end_date a.end_date
    else if not (same_kind a.kind b.kind)
    then is_trip a.kind
    else if not (a.start_date == b.start_date)
    then ltb b.start_date a.start_date
    else if not (a.place == b.place)
    then bytes_lt a.place b.place
    else ltb (first_id a.post_ids) (first_id b.post_ids)

pub earlier : EventPostRow → EventPostRow → Bool
earlier a b =
    if not (a.created_at == b.created_at)
    then ltb a.created_at b.created_at
    else ltb a.post_id b.post_id

-- The cover so far: the post and its picture.
pub better_cover : Option (EventPostRow × ℕ) → EventPostRow → Option (EventPostRow × ℕ)
better_cover cover r = elim r.cover_media_id [
  | none ↦ cover
  | some media ↦ elim cover [
    | none ↦ some (r, media)
    | some (best, m) ↦
        if ltb best.like_count r.like_count
          || (r.like_count == best.like_count && ltb r.post_id best.post_id)
        then some (r, media)
        else some (best, m)
  ]
]

pub count_in : EventPostRow → Option EventParticipant → EventParticipant
count_in r none = record {
  user_id = r.author_id;
  name = r.author_name;
  photo_id = r.author_photo_id;
  posts = 1;
}
count_in r (some p) = record p { posts = p.posts + 1 }

-- What the loop of `buildEvent` gathers.
pub record Gathered : Type 0 where
  pub post_ids : List ℕ
  pub photo_count : ℕ
  pub cover : Option (EventPostRow × ℕ)
  pub participants : List (ℕ × EventParticipant)

abbrev pub none_gathered : Gathered
none_gathered = record { post_ids = []; photo_count = 0; cover = none; participants = [] }

pub gather_post : Gathered → EventPostRow → Gathered
unfolding better_cover count_in
gather_post g r = record {
  post_ids = g.post_ids ++ r.post_id ∷ [];
  photo_count = g.photo_count + r.photo_count;
  cover = better_cover g.cover r;
  participants = upsert r.author_id (count_in r) g.participants;
}

pub gather : Gathered → List EventPostRow → Gathered
unfolding gather_post
gather g [] = g
gather g (r ∷ rows) = gather (gather_post g r) rows

pub contributed_more : EventParticipant → EventParticipant → Bool
contributed_more p q =
    if not (p.posts == q.posts) then ltb q.posts p.posts else ltb p.user_id q.user_id

-- the last of `r` and the rows after it
abbrev pub last_of : EventPostRow → List EventPostRow → EventPostRow
last_of r [] = r
last_of r (s ∷ rows) = last_of s rows

-- An event of posts in the order of time.
pub event_of : EventKind → List EventPostRow → Result NoError Event
unfolding gather contributed_more
event_of kind [] = panic
event_of kind (r ∷ rows) =
    let g = gather none_gathered (r ∷ rows) in
    ok (record {
      kind = kind;
      place = display_location (r ∷ rows);
      start_date = day_of r.created_at;
      end_date = day_of (last_of r rows).created_at;
      participants = sort_by contributed_more (map (λ e. e.1) g.participants);
      post_ids = g.post_ids;
      photo_count = g.photo_count;
      cover_media_id = elim g.cover [ none ↦ none | some (best, media) ↦ some media ];
    })

unfoldable pub build_event : EventKind → List EventPostRow → Result NoError Event
unfolding event_of earlier contributed_more
build_event kind run = event_of kind (sort_by earlier run)

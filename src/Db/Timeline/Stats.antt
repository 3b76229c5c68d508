-- ===== src/Db/Timeline/Stats.antt =====
-- server/internal/db/timeline.go: what buildTimelineMonth says of a month's posts.
use check_in.Prelude.{
  ℕ, ◌+◌, ◌≤◌, ◌<◌, ◌⊎◌, ◌≡◌, refl, ap, sym, ◌∙◌, subst, Bool, false, not, inl, inr, none, some,
  List, [], ◌∷◌, ◌++◌, ltb, ◌==◌, if◌then◌else◌, length, take, drop, map, min, arith,
  comparable_nat, Bool-cases, Option-cases, Comparable, length-take, take-append-drop,
}
use check_in.Slice.{Bytes}
use check_in.Sorting.{
  Sorted, Ordered-Sorted, IsOrder, one_if, count_by, sum_by, take_all, sort_by, count_by-sort_by,
  sort_by-Ordered, length-sort_by, append_snoc,
}
use check_in.Maps.{comparable_bytes, count_by-include}
use check_in.Db.Timeline.{
  TimelineMonth, TimelinePostRow, TimelineKey, Cover, MonthStats, no_stats, add_post, add_posts,
  better_liked, covers_of, build_timeline_month,
}

-- The photos that may stand for the month.
abbrev pub candidates : List TimelinePostRow → List Cover
candidates [] = []
candidates (r ∷ run) = elim r.cover_media_id [
  | none ↦ candidates run
  | some media ↦
      record { media_id = media; like_count = r.like_count; post_id = r.post_id } ∷ candidates run
]

abbrev pub is_at : Bytes → TimelinePostRow → Bool
is_at place r = if not (r.location == []) then r.location == place else false

-- What the loop has added up, in terms of the posts it went over.
record Adds (st st' : MonthStats) (run : List TimelinePostRow) : Type 0 where
  photos : st'.photos ≡ st.photos + sum_by (λ r. r.photo_count) run
  clips : st'.clips ≡ st.clips + sum_by (λ r. r.clip_count) run
  covers : st'.covers ≡ st.covers ++ candidates run
  posters :
      (a : ℕ)
      → count_by (λ x. x == a) st.posters ≤ 1
      → count_by (λ x. x == a) st'.posters
        ≡ min 1 (count_by (λ x. x == a) st.posters + count_by (λ r. r.author_id == a) run)
  places :
      (l : Bytes)
      → count_by (λ x. x == l) st.places ≤ 1
      → count_by (λ x. x == l) st'.places
        ≡ min 1 (count_by (λ x. x == l) st.places + count_by (is_at l) run)

append_nil : {A : Type 0} (xs : List A) → xs ++ [] ≡ xs
append_nil [] = refl
append_nil (x ∷ xs) = ap (λ ys. x ∷ ys) (append_nil xs)

covers_step :
    (st : MonthStats) (r : TimelinePostRow) (run : List TimelinePostRow)
    → (add_post st r).covers ++ candidates run ≡ st.covers ++ candidates (r ∷ run)
unfolding add_post
covers_step st r run = elim (Option-cases r.cover_media_id) [
  | inl e ↦ rw e refl
  | inr (media, e) ↦ rw e (
      append_snoc st.covers
        (record { media_id = media; like_count = r.like_count; post_id = r.post_id })
        (candidates run))
]

posters_step :
    (st : MonthStats) (r : TimelinePostRow) (a : ℕ)
    → count_by (λ x. x == a) st.posters ≤ 1
    → count_by (λ x. x == a) (add_post st r).posters
      ≡ min 1 (count_by (λ x. x == a) st.posters + one_if (r.author_id == a))
unfolding add_post
posters_step st r a h = ground (arith, h, count_by-include a r.author_id st.posters)

places_step :
    (st : MonthStats) (r : TimelinePostRow) (l : Bytes)
    → count_by (λ x. x == l) st.places ≤ 1
    → count_by (λ x. x == l) (add_post st r).places
      ≡ min 1 (count_by (λ x. x == l) st.places + one_if (is_at l r))
unfolding add_post
places_step st r l h = ground (arith, h, count_by-include l r.location st.places)

photos_step :
    (st : MonthStats) (r : TimelinePostRow) → (add_post st r).photos ≡ st.photos + r.photo_count
unfolding add_post
photos_step st r = refl

clips_step :
    (st : MonthStats) (r : TimelinePostRow) → (add_post st r).clips ≡ st.clips + r.clip_count
unfolding add_post
clips_step st r = refl

add_posts-Adds : (st : MonthStats) (run : List TimelinePostRow) → Adds st (add_posts st run) run
unfolding add_posts
add_posts-Adds st [] = record {
  photos = omega arith;
  clips = omega arith;
  covers = sym (append_nil st.covers);
  posters = λ a h. omega (arith, h);
  places = λ l h. omega (arith, h);
}
add_posts-Adds st (r ∷ run) =
    let h : Adds (add_post st r) (add_posts (add_post st r) run) run =
      add_posts-Adds (add_post st r) run in
    record {
      photos = omega (arith, h.photos, photos_step st r);
      clips = omega (arith, h.clips, clips_step st r);
      covers = h.covers ∙ covers_step st r run;
      posters = λ a k.
          omega (arith, posters_step st r a k, h.posters a (omega (arith, posters_step st r a k)));
      places = λ l k.
          omega (arith, places_step st r l k, h.places l (omega (arith, places_step st r l k)));
    }

better_liked-IsOrder : IsOrder better_liked
better_liked-IsOrder = record {
  asym = λ x y h. ground (arith, h);
  trans = λ x y z h k. ground (arith, h, k);
}

-- The first photo has more likes, or as many and is of a post with an id that is no larger.
abbrev pub NoLessLiked : Cover → Cover → Type 0
NoLessLiked a b =
    (b.like_count < a.like_count) ⊎ ((b.like_count ≡ a.like_count) × (a.post_id ≤ b.post_id))

better_liked-NoLessLiked : (a b : Cover) → better_liked b a ≡ false → NoLessLiked a b
better_liked-NoLessLiked a b h = elim (Bool-cases (b.like_count == a.like_count)) [
  | inl e ↦ inr (ground (arith, e), ground (arith, e, h))
  | inr e ↦ inl (ground (arith, e, h))
]

-- The covers that are shown, and those that are not: together every photo of the month that may stand for
-- it, in the order of the likes.
pub record Covers (run : List TimelinePostRow) (ids : List ℕ) : Type 0 where
  pub shown : List Cover
  pub hidden : List Cover
  pub shown_ids : ids ≡ map (λ c. c.media_id) shown
  pub best_first : Sorted NoLessLiked (shown ++ hidden)
  pub all_there : (p : Cover → Bool) → count_by p (shown ++ hidden) ≡ count_by p (candidates run)
  pub at_most_five : length shown ≡ min 5 (length (candidates run))

covers_of-Covers :
    (run : List TimelinePostRow) → Covers run (map (λ c. c.media_id) (covers_of (candidates run)))
unfolding covers_of
covers_of-Covers run =
    let sorted = sort_by better_liked (candidates run) in
    let all : take 5 sorted ++ drop 5 sorted ≡ sorted = take-append-drop 5 sorted in
    record {
      shown = take 5 sorted;
      hidden = drop 5 sorted;
      shown_ids = ap (map (λ c. c.media_id)) (cut_lem sorted);
      best_first = subst (Sorted NoLessLiked) (sym all) (
          Ordered-Sorted better_liked NoLessLiked sorted better_liked-NoLessLiked
            (sort_by-Ordered better_liked better_liked-IsOrder (candidates run)));
      all_there = λ p. ap (count_by p) all ∙ count_by-sort_by better_liked p (candidates run);
      at_most_five =
          omega (arith, length-take 5 sorted, length-sort_by better_liked (candidates run));
    }
  where
    cut_lem : (cs : List Cover) → (if ltb 5 (length cs) then take 5 cs else cs) ≡ take 5 cs
    cut_lem cs = elim (Bool-cases (ltb 5 (length cs))) [
      | inl e ↦ rw e refl
      | inr e ↦ rw e (sym (take_all 5 cs (ground arith)))
    ]

-- The distinct values that a test of them meets among some posts, each once.
pub record Distinct {K : Type 0} ⦃c : Comparable K⦄ (meets : K → TimelinePostRow → Bool)
    (run : List TimelinePostRow) (n : ℕ) : Type 0 where
  pub values : List K
  pub counted : n ≡ length values
  pub each_once : (k : K) → count_by (λ x. x == k) values ≡ min 1 (count_by (meets k) run)

-- What a month says of its posts.
pub record IsMonthOf (run : List TimelinePostRow) (m : TimelineMonth) : Type 0 where
  pub posts : m.post_count ≡ length run
  pub photos : m.photo_count ≡ sum_by (λ r. r.photo_count) run
  pub clips : m.clip_count ≡ sum_by (λ r. r.clip_count) run
  pub posters : Distinct (λ a r. r.author_id == a) run m.poster_count
  pub places : Distinct is_at run m.place_count
  pub covers : Covers run m.cover_media_ids

-- A month counts its posts, their photos and clips, their distinct authors and their distinct places that
-- are not empty; its covers are the photos, five of them at most, that no other photo of the month
-- beats in likes, or ties in likes with a smaller id of its post; they come in this order.
pub build_timeline_month-IsMonthOf :
    (k : TimelineKey) (run : List TimelinePostRow) → IsMonthOf run (build_timeline_month k run)
unfolding build_timeline_month
build_timeline_month-IsMonthOf k run =
    let h : Adds no_stats (add_posts no_stats run) run = add_posts-Adds no_stats run in
    record {
      posts = refl;
      photos = omega (arith, h.photos);
      clips = omega (arith, h.clips);
      posters = record {
        values = (add_posts no_stats run).posters;
        counted = refl;
        each_once = λ a. omega (arith, h.posters a (omega arith));
      };
      places = record {
        values = (add_posts no_stats run).places;
        counted = refl;
        each_once = λ l. omega (arith, h.places l (omega arith));
      };
      covers =
          subst (λ cs. Covers run (map (λ c. c.media_id) (covers_of cs))) (sym h.covers)
            (covers_of-Covers run);
    }

-- ===== src/Db/Timeline/Tests.antt =====
-- server/internal/db/timeline.go: tests, and the theorems at concrete posts.
use check_in.Prelude.{
  ℕ, ◌≡◌, refl, some, List, [], ◌∷◌, map, take, length, ltb, ◌==◌, ok, NoError, arith, pos, negsuc,
}
use check_in.Db.Timeline.{
  TimelinePostRow, TimelineMonth, TimelineKey, comparable_key, timeline_month_posts, local_month,
  build_timeline_month, bucket_timeline,
}
use check_in.Db.Timeline.Months.{Exact, bucket_timeline-Exact}
use check_in.Db.Timeline.Stats.{IsMonthOf, build_timeline_month-IsMonthOf}
use check_in.Db.Timeline.Agree.{fetch_of, timeline_month_posts-local_month}
use check_in.Sorting.{keep_if}

-- An hour before the end of August 2026, in UTC.
abbrev evening : ℕ
evening = 63950252400000000000

abbrev post : ℕ → ℕ → ℕ → TimelinePostRow
post id t likes = record {
  post_id = id;
  author_id = 7;
  location = 0x4C ∷ [];
  created_at = t;
  photo_count = 1;
  clip_count = 0;
  like_count = likes;
  cover_media_id = some id;
}

abbrev rows : List TimelinePostRow
rows = post 1 63947750400000000000 0 ∷ post 2 63947923200000000000 3 ∷ post 3 evening 1 ∷ []

abbrev august : TimelineKey
august = record { year = 2026; month = 8 }

summary : List TimelineMonth → List (ℕ × ℕ × ℕ × List ℕ)
summary ms = map (λ m. (m.year, m.month, m.post_count, m.cover_media_ids)) ms

-- Two hours ahead of UTC the last post is one of September.
timeline_test :
    summary (bucket_timeline rows (pos 120)) ≡ (2026, 9, 1, 3 ∷ []) ∷ (2026, 8, 2, 2 ∷ 1 ∷ []) ∷ []
unfolding summary bucket_timeline
timeline_test = refl

timeline_behind_test :
    summary (bucket_timeline rows (negsuc 119)) ≡ (2026, 8, 3, 2 ∷ 3 ∷ 1 ∷ []) ∷ []
unfolding summary bucket_timeline
timeline_behind_test = refl

bucket_timeline-Exact_example : Exact (pos 120) rows (bucket_timeline rows (pos 120))
bucket_timeline-Exact_example = bucket_timeline-Exact (pos 120) rows

build_timeline_month-IsMonthOf_example : IsMonthOf rows (build_timeline_month august rows)
build_timeline_month-IsMonthOf_example = build_timeline_month-IsMonthOf august rows

-- The page of August at an hour ahead of UTC leaves out the post of the last evening.
abbrev august_rows : List TimelinePostRow
august_rows = keep_if (λ r. local_month (pos 60) r == august) rows

timeline_month_posts-local_month_example :
    timeline_month_posts {E = NoError} (ok (pos 60)) (fetch_of rows) 2026 8
    ≡ ok (take 200 august_rows, ltb 200 (length august_rows))
timeline_month_posts-local_month_example =
    timeline_month_posts-local_month (pos 60) 2026 8 (omega arith) (omega arith) (omega arith) rows
      (omega arith, (omega arith, (omega arith, tt)))

august_test : map (λ r. r.post_id) august_rows ≡ 1 ∷ 2 ∷ []
unfolding local_month
august_test = refl

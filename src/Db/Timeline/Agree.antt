-- ===== src/Db/Timeline/Agree.antt =====
-- server/internal/db/timeline.go: the two views of a month agree.
use check_in.Prelude.{
  Bool, ◌&&◌, ltb, leb, ◌==◌, if◌then◌else◌, List, [], ◌∷◌, take, length, Result, ok, refl, sym,
  ◌∙◌, Bool-cases, inl, inr, arith, ℕ, ◌*◌, ◌≤◌, ◌<◌, ◌≡◌, ◌↔◌, comparable_nat, ℤ, ap, ap₂,
}
use check_in.Clock.{day, date_days, months_after, sub_minutes}
use check_in.Clock.Months.{Moderate, IsIn-add_minutes}
use check_in.Sorting.{All, keep_if}
use check_in.Db.Timeline.{
  TimelinePostRow, TimelineKey, comparable_key, local_month, timeline_month_posts,
}
use check_in.Db.Timeline.Page.{timeline_month_posts_lem}

-- With an offset of at most a day, a post is counted in a month of the timeline exactly if it is in a
-- stretch of time.
local_month_iff :
    (offset : ℤ) (r : TimelinePostRow) (year month : ℕ)
    → 1 ≤ month
    → month ≤ 12
    → 1 ≤ year
    → Moderate offset r.created_at
    → (local_month offset r ≡ record { year = year; month = month }) ↔ (
        (sub_minutes (date_days year month 1 * day) offset ≤ r.created_at)
        × (r.created_at < sub_minutes (months_after 1 (date_days year month 1 * day)) offset))
unfolding local_month
local_month_iff offset r year month one twelve year_one near =
    let i = IsIn-add_minutes offset r.created_at year month one twelve year_one near in
    (
      λ e. i.0 (ap (λ k. k.year) e, ap (λ k. k.month) e),
      λ w. ap₂ (λ a b. record { year = a; month = b }) (i.1 w).0 (i.1 w).1,
    )

-- A row of a stretch of time.
abbrev pub in_stretch : ℕ → ℕ → TimelinePostRow → Bool
in_stretch start end r = leb start r.created_at && ltb r.created_at end

abbrev pub rows_between : List TimelinePostRow → ℕ → ℕ → List TimelinePostRow
rows_between rows start end = keep_if (in_stretch start end) rows

-- `PostsBetween` of a table: the rows of a stretch of time in the table's order, as many as are asked for.
abbrev pub fetch_of :
    {E : Type 0} → List TimelinePostRow → ℕ → ℕ → ℕ → Result E (List TimelinePostRow)
fetch_of rows start end limit = ok (take limit (rows_between rows start end))

module _ (offset : ℤ) (year month : ℕ) (one : 1 ≤ month) (twelve : month ≤ 12)
    (year_one : 1 ≤ year) where
  abbrev first : ℕ
  first = date_days year month 1 * day

  in_stretch-local_month :
      (r : TimelinePostRow)
      → Moderate offset r.created_at
      → in_stretch (sub_minutes first offset) (sub_minutes (months_after 1 first) offset) r
        ≡ (local_month offset r == record { year = year; month = month })
  in_stretch-local_month r near =
      let i = local_month_iff offset r year month one twelve year_one near in
      let key : TimelineKey = record { year = year; month = month } in
      let same = comparable_key.same_iff (local_month offset r) key in
      elim (Bool-cases (local_month offset r == key)) [
        | inl e ↦ let w = i.0 (same.0 e) in rw e (ground (arith, w.0, w.1))
        | inr e ↦
            elim (Bool-cases (
              in_stretch (sub_minutes first offset) (sub_minutes (months_after 1 first) offset)
                r)) [
                  | inl d ↦
                      absurd
                        (ground (arith, e, same.1 (i.1 (ground (arith, d), ground (arith, d)))))
                  | inr d ↦ d ∙ sym e
                ]
      ]

  rows_between-local_month :
      (rows : List TimelinePostRow)
      → All (λ r. Moderate offset r.created_at) rows
      → rows_between rows (sub_minutes first offset) (sub_minutes (months_after 1 first) offset)
        ≡ keep_if (λ r. local_month offset r == record { year = year; month = month }) rows
  rows_between-local_month [] h = refl
  rows_between-local_month (r ∷ rows) h = rw (in_stretch-local_month r h.0) (
      ap
        (λ rs. if local_month offset r == record { year = year; month = month } then r ∷ rs else rs)
        (rows_between-local_month rows h.1))

  -- The page of a month, in a year from 1 on, agrees with the timeline. Where the query returns the rows of a
  -- table in a stretch of time, in the table's order and as many as it is asked for, and the offset is at
  -- most a day ahead, or behind and puts no row before the year 0, the page has the first 200 of the rows that
  -- the timeline counts in this month, and says there are more exactly if there are more than 200 of them.
  pub timeline_month_posts-local_month :
      {E : Type 0} (rows : List TimelinePostRow)
      → All (λ r. Moderate offset r.created_at) rows
      → let shown =
          keep_if (λ r. local_month offset r == record { year = year; month = month }) rows in
        timeline_month_posts {E = E} (ok offset) (fetch_of rows) year month
        ≡ ok (take 200 shown, ltb 200 (length shown))
  timeline_month_posts-local_month rows near =
      timeline_month_posts_lem (rows_between rows) offset year month
      ∙ ap (λ rs. ok (take 200 rs, ltb 200 (length rs))) (rows_between-local_month rows near)

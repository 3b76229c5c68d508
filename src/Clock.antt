-- ===== src/Clock.antt =====
-- The calendar of Go's time package, in UTC. A time is the nanoseconds since 1 March of the year 0, so
-- that a leap day is the last of its year; a duration is in nanoseconds.
pub mod Calendar
pub mod Months
mod Tests
use check_in.Prelude.{
  ℤ, pos, negsuc, ℕ, zero, suc, ◌+◌, ◌-◌, ◌*◌, ◌/◌, ◌%◌, min, ◌≤◌, ◌<◌, ◌≡◌, refl, Bool, true,
  false, ltb, leb, ◌==◌, if◌then◌else◌, arith, comparable_nat,
}

abbrev pub second : ℕ
second = 1000000000

abbrev pub minute : ℕ
minute = 60000000000

abbrev pub hour : ℕ
hour = 3600000000000

abbrev pub day : ℕ
day = 86400000000000

-- A calendar date, with the month from 1 to 12.
pub record Civil : Type 0 where
  pub year : ℕ
  pub month : ℕ
  pub mday : ℕ

-- `time.Date(y, m, d, 0, 0, 0, 0, time.UTC)` as a number of days; a day that the month does not have
-- runs on into the months after it. The date is after February of the year 0.
unfoldable pub date_days : ℕ → ℕ → ℕ → ℕ
date_days y m d =
    let months = y * 12 + m - 3 in
    let march_year = months / 12 in
    march_year * 365
    + march_year / 4
    - march_year / 100
    + march_year / 400
    + (153 * (months % 12) + 2) / 5
    + d
    - 1

-- A day as a year that starts in March and the days of it that are over: by the 400 years, centuries, four
-- years and years that fit into it.
unfoldable pub march_date : ℕ → ℕ × ℕ
march_date z =
    let of_era = z % 146097 in
    let century = min 3 (of_era / 36524) in
    let of_century = of_era - century * 36524 in
    let of_four = of_century % 1461 in
    let single = min 3 (of_four / 365) in
    (z / 146097 * 400 + century * 100 + of_century / 1461 * 4 + single, of_four - single * 365)

-- The date in such a year when so many of its days are over.
unfoldable pub date_in_year : ℕ → ℕ → Civil
date_in_year y of_year =
    let from_march = (5 * of_year + 2) / 153 in
    let d = of_year - (153 * from_march + 2) / 5 + 1 in
    if ltb from_march 10
    then record { year = y; month = from_march + 3; mday = d }
    else record { year = y + 1; month = from_march - 9; mday = d }

-- `Date` of a day
unfoldable pub civil : ℕ → Civil
unfolding march_date date_in_year
civil z = date_in_year (march_date z).0 (march_date z).1

-- `t.Hour()`, and `t.Weekday()` with Sunday as 0
unfoldable pub hour_of : ℕ → ℕ
hour_of t = t / hour % 24

unfoldable pub weekday : ℕ → ℕ
weekday t = (t / day + 3) % 7

-- `t.AddDate(0, -n, 0)`
unfoldable pub months_before : ℕ → ℕ → ℕ
unfolding civil date_days
months_before n t =
    let c = civil (t / day) in
    let months = c.year * 12 + (c.month - 1) - n in
    date_days (months / 12) (months % 12 + 1) c.mday * day + t % day

-- `t.AddDate(0, 0, -n)`
unfoldable pub days_before : ℕ → ℕ → ℕ
days_before n t = t - n * day

-- `t.AddDate(0, n, 0)`
unfoldable pub months_after : ℕ → ℕ → ℕ
unfolding civil date_days
months_after n t =
    let c = civil (t / day) in
    let months = c.year * 12 + (c.month - 1) + n in
    date_days (months / 12) (months % 12 + 1) c.mday * day + t % day

-- `t.Add(offset)` and `t.Add(-offset)` for an offset in minutes
abbrev pub add_minutes : ℕ → ℤ → ℕ
add_minutes t (pos m) = t + m * minute
add_minutes t (negsuc m) = t - (m + 1) * minute

abbrev pub sub_minutes : ℕ → ℤ → ℕ
sub_minutes t (pos m) = t - m * minute
sub_minutes t (negsuc m) = t + (m + 1) * minute

-- `t` truncated to its day
unfoldable pub day_start : ℕ → ℕ
day_start t = t - t % day

-- Truncation to the day keeps the order.
pub day_start-le : (s t : ℕ) → s ≤ t → day_start s ≤ day_start t
unfolding day_start
day_start-le s t h = omega arith

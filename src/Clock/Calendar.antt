-- ===== src/Clock/Calendar.antt =====
-- The calendar: the dates of days and the days of dates agree.
use check_in.Prelude.{
  ℕ, zero, suc, ◌+◌, ◌-◌, ◌*◌, ◌/◌, ◌%◌, min, ◌≤◌, ◌<◌, ◌≡◌, refl, inl, inr, ltb, arith, Bool-cases,
  ltb→lt, subst, ap,
}
use check_in.Clock.{Civil, march_date, date_in_year, civil, date_days}

-- the days before a year that starts in March
abbrev pub year_days : ℕ → ℕ
year_days y = y * 365 + y / 4 - y / 100 + y / 400

year_days_lem :
    (a b c d : ℕ)
    → b ≤ 3
    → c ≤ 24
    → d ≤ 3
    → year_days (a * 400 + b * 100 + c * 4 + d) ≡ a * 146097 + b * 36524 + c * 1461 + d * 365
year_days_lem a b c d hb hc hd = omega arith

march_date_lem : (z : ℕ) → year_days (march_date z).0 + (march_date z).1 ≡ z
unfolding march_date
march_date_lem z = omega (
  arith,
  year_days_lem (z / 146097) (min 3 (z % 146097 / 36524))
      ((z % 146097 - min 3 (z % 146097 / 36524) * 36524) / 1461)
      (min 3 ((z % 146097 - min 3 (z % 146097 / 36524) * 36524) % 1461 / 365)) (omega arith)
      (omega arith) (omega arith),
)

-- the first day of a month, counting the months from March of the year 0
pub first_day : ℕ → ℕ
first_day n = year_days (n / 12) + (153 * (n % 12) + 2) / 5

-- the month of a date, counted so
abbrev pub month_index : Civil → ℕ
month_index c = c.year * 12 + c.month - 3

of_year_bound :
    (z : ℕ) → (march_date z).1 < year_days ((march_date z).0 + 1) - year_days (march_date z).0
unfolding march_date
of_year_bound z = omega arith

-- A date is of its month.
pub record InMonth (z : ℕ) (c : Civil) : Type 0 where
  pub from_first : first_day (month_index c) + c.mday ≡ z + 1
  pub day_one : 1 ≤ c.mday
  pub month_one : 1 ≤ c.month
  pub month_twelve : c.month ≤ 12
  pub year_zero : 3 ≤ c.year * 12 + c.month
  pub before_next : z < first_day (month_index c + 1)

next_first_day :
    (y m : ℕ) → m < 11 → first_day (y * 12 + m + 1) ≡ year_days y + (153 * (m + 1) + 2) / 5
unfolding first_day
next_first_day y m h = omega arith

next_year_day : (y : ℕ) → first_day (y * 12 + 11 + 1) ≡ year_days (y + 1)
unfolding first_day
next_year_day y = omega arith

this_first_day : (y m : ℕ) → m < 12 → first_day (y * 12 + m) ≡ year_days y + (153 * m + 2) / 5
unfolding first_day
this_first_day y m h = omega arith

leap_year : (y : ℕ) → year_days (y + 1) ≤ year_days y + 366
leap_year y = omega arith

twelve_months : (t m : ℕ) → t ≤ 365 → m ≡ (5 * t + 2) / 153 → m < 12
twelve_months t m h e = omega arith

before_next_lem :
    (y t m : ℕ)
    → t < year_days (y + 1) - year_days y
    → m ≡ (5 * t + 2) / 153
    → m < 12
    → year_days y + t < first_day (y * 12 + m + 1)
before_next_lem y t m h e k = elim (Bool-cases (ltb m 11)) [
  | inl l ↦ omega (arith, next_first_day y m (ltb→lt m 11 l), ltb→lt m 11 l)
  | inr l ↦
      subst (λ n. year_days y + t < first_day (y * 12 + n + 1)) {x = 11} {y = m}
        (ground (arith, k, l)) (omega (arith, next_year_day y))
]

date_in_year-InMonth :
    (y t : ℕ) → t < year_days (y + 1) - year_days y → InMonth (year_days y + t) (date_in_year y t)
unfolding date_in_year
date_in_year-InMonth y t h =
    let m = (5 * t + 2) / 153 in
    let twelve : m < 12 = twelve_months t m (omega (arith, leap_year y, h)) refl in
    let first : first_day (y * 12 + m) ≡ year_days y + (153 * m + 2) / 5 =
      this_first_day y m twelve in
    let next : year_days y + t < first_day (y * 12 + m + 1) = before_next_lem y t m h refl twelve in
    elim (Bool-cases (ltb ((5 * t + 2) / 153) 10)) [
      | inl e ↦ rw e (
          let same : y * 12 + (m + 3) - 3 ≡ y * 12 + m = omega arith in
          record {
            from_first = rw same (rw first (omega arith));
            day_one = omega arith;
            month_one = omega arith;
            month_twelve = ground (arith, e);
            year_zero = omega arith;
            before_next = rw same next;
          })
      | inr e ↦ rw e (
          let ten : 10 ≤ m = ground (arith, e) in
          let same : (y + 1) * 12 + (m - 9) - 3 ≡ y * 12 + m = omega (arith, ten) in
          record {
            from_first = rw same (rw first (omega arith));
            day_one = omega arith;
            month_one = omega (arith, ten);
            month_twelve = omega (arith, twelve);
            year_zero = omega arith;
            before_next = rw same next;
          })
    ]

pub civil-InMonth : (z : ℕ) → InMonth z (civil z)
unfolding civil
civil-InMonth z =
    subst (λ n. InMonth n (civil z)) (march_date_lem z)
      (date_in_year-InMonth (march_date z).0 (march_date z).1 (of_year_bound z))

pub first_day_date :
    (y m d : ℕ) → 3 ≤ y * 12 + m → date_days y m d ≡ first_day (y * 12 + m - 3) + d - 1
unfolding date_days first_day
first_day_date y m d h = refl

-- `time.Date` of the date of a day is that day.
pub date_days-civil : (z : ℕ) → date_days (civil z).year (civil z).month (civil z).mday ≡ z
date_days-civil z =
    let c = civil z in
    let h : InMonth z c = civil-InMonth z in
    omega (arith, first_day_date c.year c.month c.mday h.year_zero, h.from_first)

first_day_step : (n : ℕ) → first_day n < first_day (n + 1)
unfolding first_day
first_day_step n = omega arith

date_eq :
    (c : Civil) (y m d : ℕ)
    → c.year ≡ y
    → c.month ≡ m
    → c.mday ≡ d
    → c ≡ record { year = y; month = m; mday = d }
date_eq c y m d hy hm hd =
    subst (λ n. c ≡ record { year = n; month = m; mday = d }) hy
      (subst (λ n. c ≡ record { year = c.year; month = n; mday = d }) hm
        (subst (λ n. c ≡ record { year = c.year; month = c.month; mday = n }) hd refl))

first_day_up : (n k : ℕ) → first_day n ≤ first_day (n + k)
first_day_up n zero =
    subst (λ i. first_day n ≤ first_day i) {x = n} {y = n + zero} (omega arith) (omega arith)
first_day_up n (suc k) =
    subst (λ i. first_day n ≤ first_day i) {x = n + k + 1} {y = n + suc k} (omega arith)
      (omega (arith, first_day_up n k, first_day_step (n + k)))

first_day_le : (m n : ℕ) → m ≤ n → first_day m ≤ first_day n
first_day_le m n h =
    subst (λ i. first_day m ≤ first_day i) {x = m + (n - m)} {y = n} (omega arith)
      (first_day_up m (n - m))

-- The days of a month are those from its first up to the first of the next.
pub civil_month : (z n : ℕ) → first_day n ≤ z → z < first_day (n + 1) → month_index (civil z) ≡ n
civil_month z n lo hi =
    let i = month_index (civil z) in
    let h : InMonth z (civil z) = civil-InMonth z in
    elim (Bool-cases (ltb i n)) [
      | inl e ↦
          absurd
            (omega (arith, first_day_le (i + 1) n (omega (arith, ltb→lt i n e)), h.before_next))
      | inr e ↦ elim (Bool-cases (ltb n i)) [
        | inl f ↦ absurd (
            omega (
              arith,
              first_day_le (n + 1) i (omega (arith, ltb→lt n i f)),
              h.from_first,
              h.day_one,
            ))
        | inr f ↦ ground (arith, e, f)
      ]
    ]

-- The first of a month is its own date.
pub civil-date_days :
    (y m : ℕ)
    → 1 ≤ m
    → m ≤ 12
    → 3 ≤ y * 12 + m
    → civil (date_days y m 1) ≡ record { year = y; month = m; mday = 1 }
civil-date_days y m one twelve zero_year =
    let z = date_days y m 1 in
    let first : z ≡ first_day (y * 12 + m - 3) + 1 - 1 = first_day_date y m 1 zero_year in
    let h : InMonth z (civil z) = civil-InMonth z in
    let same : month_index (civil z) ≡ y * 12 + m - 3 =
      civil_month z (y * 12 + m - 3) (omega (arith, first))
        (omega (arith, first, first_day_step (y * 12 + m - 3))) in
    let date_lem : (c : Civil)
        → InMonth z c
        → month_index c ≡ y * 12 + m - 3
        → c ≡ record { year = y; month = m; mday = 1 } =
      λ c k e.
        date_eq c y m 1 (omega (arith, k.month_one, k.month_twelve, k.year_zero, e))
          (omega (arith, k.month_one, k.month_twelve, k.year_zero, e))
          (omega (arith, k.from_first, first, ap first_day e)) in
    date_lem (civil z) h same

pub month_length :
    (n : ℕ) → (first_day n + 28 ≤ first_day (n + 1)) × (first_day (n + 1) ≤ first_day n + 31)
unfolding first_day
month_length n = (omega arith, omega arith)

-- A day of the second year or later is in a month that has months before it.
pub late_index : (z : ℕ) → 400 ≤ z → 2 ≤ month_index (civil z)
unfolding first_day
late_index z h =
    let k : InMonth z (civil z) = civil-InMonth z in
    elim (Bool-cases (ltb (month_index (civil z)) 2)) [
      | inl e ↦ absurd (
          omega (
            arith,
            first_day_le (month_index (civil z) + 1) 2
                (omega (arith, ltb→lt (month_index (civil z)) 2 e)),
            k.before_next,
          ))
      | inr e ↦ ground (arith, e)
    ]

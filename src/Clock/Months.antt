-- ===== src/Clock/Months.antt =====
-- The calendar months as stretches of time.
use check_in.Prelude.{
  ℕ, ◌+◌, ◌-◌, ◌*◌, ◌/◌, ◌%◌, ◌≤◌, ◌<◌, ◌≡◌, ◌↔◌, ◌∙◌, ap, ap₂, arith, ℤ, pos, negsuc,
}
use check_in.Clock.{
  day, minute, civil, date_days, months_after, months_before, add_minutes, sub_minutes,
}
use check_in.Clock.Calendar.{
  first_day, month_length, late_index, month_index, InMonth, civil-InMonth, first_day_date,
  civil-date_days, civil_month,
}

whole_days : (z : ℕ) → z * 86400000000000 / 86400000000000 ≡ z
whole_days z = omega arith

no_rest : (z : ℕ) → z * 86400000000000 % 86400000000000 ≡ 0
no_rest z = omega arith

month_date : (n d : ℕ) → 2 ≤ n → date_days (n / 12) (n % 12 + 1) d ≡ first_day (n - 2) + d - 1
month_date n d h =
    first_day_date (n / 12) (n % 12 + 1) d (omega arith)
    ∙ ap (λ k. first_day k + d - 1) {x = n / 12 * 12 + (n % 12 + 1) - 3} {y = n - 2} (omega arith)

month_first : (n : ℕ) → 2 ≤ n → date_days (n / 12) (n % 12 + 1) 1 ≡ first_day (n - 2)
month_first n h =
    first_day_date (n / 12) (n % 12 + 1) 1 (omega arith)
    ∙ back (first_day (n / 12 * 12 + (n % 12 + 1) - 3))
    ∙ ap first_day {x = n / 12 * 12 + (n % 12 + 1) - 3} {y = n - 2} (omega arith)
  where
    back : (k : ℕ) → k + 1 - 1 ≡ k
    back k = omega arith

-- A month later than the first of a month is the first of the next.
pub months_after-date_days :
    (y m : ℕ)
    → 1 ≤ m
    → m ≤ 12
    → 3 ≤ y * 12 + m
    → months_after 1 (date_days y m 1 * day) ≡ first_day (y * 12 + m - 2) * day
unfolding months_after
months_after-date_days y m one twelve zero_year = rw (whole_days (date_days y m 1)) (
    rw (civil-date_days y m one twelve zero_year) (
      ap₂ (λ a b. a * day + b)
        (month_first (y * 12 + (m - 1) + 1) (omega arith)
          ∙ ap first_day {x = y * 12 + (m - 1) + 1 - 2} {y = y * 12 + m - 2} (omega arith))
        (no_rest (date_days y m 1))
      ∙ plus_zero (first_day (y * 12 + m - 2) * day)))
  where
    plus_zero : (k : ℕ) → k + 0 ≡ k
    plus_zero k = omega arith

-- A time is in a month of the calendar.
abbrev pub IsIn : ℕ → ℕ → ℕ → Type 0
IsIn t y m = ((civil (t / day)).year ≡ y) × ((civil (t / day)).month ≡ m)

-- A time is in a month exactly if it is not before its first midnight, and before that of the next.
pub IsIn-date_days :
    (t y m : ℕ)
    → 1 ≤ m
    → m ≤ 12
    → 3 ≤ y * 12 + m
    → IsIn t y m ↔ ((date_days y m 1 * day ≤ t) × (t < months_after 1 (date_days y m 1 * day)))
IsIn-date_days t y m one twelve zero_year =
    let z = t / day in
    let c = civil z in
    let h : InMonth z c = civil-InMonth z in
    let first : date_days y m 1 ≡ first_day (y * 12 + m - 3) + 1 - 1 =
      first_day_date y m 1 zero_year in
    let next : months_after 1 (date_days y m 1 * day) ≡ first_day (y * 12 + m - 2) * day =
      months_after-date_days y m one twelve zero_year in
    let index : y * 12 + m - 3 + 1 ≡ y * 12 + m - 2 = omega arith in
    (
      λ e.
          let i : month_index c ≡ y * 12 + m - 3 = omega (arith, e.0, e.1) in
          (
            omega (arith, first, ap first_day i, h.from_first, h.day_one),
            omega (arith, next, ap first_day (ap (λ n. n + 1) i ∙ index), h.before_next),
          ),
      λ w.
          let i : month_index c ≡ y * 12 + m - 3 =
            civil_month z (y * 12 + m - 3) (omega (arith, first, w.0))
              (omega (arith, next, w.1, ap first_day index)) in
          (
            omega (arith, i, h.month_one, h.month_twelve, h.year_zero),
            omega (arith, i, h.month_one, h.month_twelve, h.year_zero),
          ),
    )

-- An offset of at most a day, from a time that it does not put before the year 0.
abbrev pub Moderate : ℤ → ℕ → Type 0
Moderate (pos n) t = n ≤ 1440
Moderate (negsuc n) t = (n + 1) * minute ≤ t

late_day : (y m : ℕ) → 1 ≤ y → 1 ≤ m → 1 ≤ date_days y m 1
unfolding date_days
late_day y m hy hm = omega arith

-- The same in a time that is `offset` minutes ahead: the stretch is moved back by the offset.
pub IsIn-add_minutes :
    (offset : ℤ) (t y m : ℕ)
    → 1 ≤ m
    → m ≤ 12
    → 1 ≤ y
    → Moderate offset t
    → IsIn (add_minutes t offset) y m ↔ (
        (sub_minutes (date_days y m 1 * day) offset ≤ t)
        × (t < sub_minutes (months_after 1 (date_days y m 1 * day)) offset))
IsIn-add_minutes (pos n) t y m one twelve year_one near =
    let first = date_days y m 1 * day in
    let i : IsIn (t + n * minute) y m
        ↔ ((first ≤ t + n * minute) × (t + n * minute < months_after 1 first)) =
      IsIn-date_days (t + n * minute) y m one twelve (omega arith) in
    (
      λ e. (omega (arith, i.0 e), omega (arith, i.0 e)),
      λ w. i.1 (omega (arith, w.0, late_day y m year_one one, near), omega (arith, w.1)),
    )
IsIn-add_minutes (negsuc n) t y m one twelve year_one near =
    let first = date_days y m 1 * day in
    let i : IsIn (t - (n + 1) * minute) y m
        ↔ ((first ≤ t - (n + 1) * minute) × (t - (n + 1) * minute < months_after 1 first)) =
      IsIn-date_days (t - (n + 1) * minute) y m one twelve (omega arith) in
    (
      λ e. (omega (arith, (i.0 e).0, near), omega (arith, (i.0 e).1, near)),
      λ w. i.1 (omega (arith, w.0, near), omega (arith, w.1, near)),
    )

-- The same day of the month before is from 28 to 31 days earlier.
pub months_before_bounds :
    (t : ℕ)
    → 400 * day ≤ t
    → (months_before 1 t + 28 * day ≤ t) × (t ≤ months_before 1 t + 31 * day)
unfolding months_before
months_before_bounds t late =
    let z = t / day in
    let c = civil z in
    let h : InMonth z c = civil-InMonth z in
    let i = month_index c in
    let after : 2 ≤ i = late_index z (omega arith) in
    let months = c.year * 12 + (c.month - 1) - 1 in
    let earlier : date_days (months / 12) (months % 12 + 1) c.mday
        ≡ first_day (i - 1) + c.mday - 1 =
      month_date months c.mday (omega (arith, after, h.year_zero, h.month_one))
      ∙ ap (λ k. first_day k + c.mday - 1) {x = months - 2} {y = i - 1}
          (omega (arith, h.month_one)) in
    let length : (first_day (i - 1) + 28 ≤ first_day (i - 1 + 1))
        × (first_day (i - 1 + 1) ≤ first_day (i - 1) + 31) =
      month_length (i - 1) in
    let same : i - 1 + 1 ≡ i = omega (arith, after) in
    (
      omega (arith, earlier, length, h.from_first, h.day_one, ap first_day same),
      omega (arith, earlier, length, h.from_first, h.day_one, ap first_day same),
    )

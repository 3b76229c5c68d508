-- ===== src/Api/Recap/Due.antt =====
-- server/internal/api/recap.go: the window of a recap that is due.
use Prim.Native.String.{String}
use check_in.Prelude.{
  ℕ, ◌+◌, ◌*◌, ◌/◌, ◌%◌, ◌≤◌, ◌<◌, ◌≡◌, ◌∙◌, refl, ap, sym, subst, inl, inr, ◌⊎◌, Bool, true, false,
  not, Option, none, some, ◌==◌, if◌then◌else◌, arith, comparable_nat, comparable_text, ℤ, pos,
  negsuc,
}
use check_in.Clock.{
  day, hour, civil, date_days, hour_of, months_before, days_before, add_minutes, sub_minutes,
}
use check_in.Clock.Calendar.{date_days-civil}
use check_in.Clock.Months.{months_before_bounds}
use check_in.Api.Recap.{RecapSettings, iso_weekday, window_end, recap_due_period}

-- `recapDuePeriod` in terms of the hours that are over in the group's time.
due_in_hour : RecapSettings → ℕ → Option (ℕ × ℕ)
due_in_hour settings q =
    let c = civil (q / 24) in
    let wd = (q / 24 + 3) % 7 in
    let end =
      sub_minutes (date_days c.year c.month c.mday * day + settings.hour * hour) settings.offset in
    if not (q % 24 == settings.hour)
    then none
    else if settings.cadence == "weekly"
    then (if not ((if not (wd == 0) then wd else 7) == settings.weekday)
        then none
        else some (days_before 7 end, end))
    else if settings.cadence == "monthly"
    then (if not (c.mday == 1) then none else some (months_before 1 end, end))
    else none

day_hours : (t : ℕ) → t / 86400000000000 ≡ t / 3600000000000 / 24
day_hours t = omega arith

due_by_hour :
    (settings : RecapSettings) (now : ℕ)
    → recap_due_period settings now ≡ due_in_hour settings (add_minutes now settings.offset / hour)
unfolding recap_due_period due_in_hour
due_by_hour settings now = rw (day_hours (add_minutes now settings.offset)) refl

-- All ticks within one hour of the group's time find the same recap due, with the same window, or none.
pub recap_due_period-same :
    (settings : RecapSettings) (s t : ℕ)
    → add_minutes s settings.offset / hour ≡ add_minutes t settings.offset / hour
    → recap_due_period settings s ≡ recap_due_period settings t
recap_due_period-same settings s t h =
    due_by_hour settings s ∙ ap (due_in_hour settings) h ∙ sym (due_by_hour settings t)

-- The offsets that the settings take: from 12 hours behind UTC to 14 ahead.
abbrev pub Plausible : ℤ → Type 0
Plausible (pos n) = n ≤ 840
Plausible (negsuc n) = n + 1 ≤ 720

top_of_hour :
    (settings : RecapSettings) (local : ℕ)
    → hour_of local ≡ settings.hour
    → date_days (civil (local / day)).year (civil (local / day)).month (civil (local / day)).mday
          * day
        + settings.hour * hour
      ≡ local / hour * hour
unfolding hour_of
top_of_hour settings local h = omega (arith, date_days-civil (local / day), h)

window_end_lem :
    (settings : RecapSettings) (now : ℕ)
    → Plausible settings.offset
    → 500 * day ≤ now
    → hour_of (add_minutes now settings.offset) ≡ settings.hour
    → (window_end settings (add_minutes now settings.offset) ≤ now)
      × (now < window_end settings (add_minutes now settings.offset) + hour)
unfolding window_end
window_end_lem settings now near late h =
    rw (top_of_hour settings (add_minutes now settings.offset) h)
      (moved settings.offset now near late)
  where
    moved :
        (offset : ℤ) (now : ℕ)
        → Plausible offset
        → 500 * day ≤ now
        → (sub_minutes (add_minutes now offset / hour * hour) offset ≤ now)
          × (now < sub_minutes (add_minutes now offset / hour * hour) offset + hour)
    moved (pos n) now near late = (omega arith, omega arith)
    moved (negsuc n) now near late = (omega arith, omega arith)

-- A window of a recap.
pub record IsWindow (settings : RecapSettings) (now : ℕ) (window : ℕ × ℕ) : Type 0 where
  pub ends_by_now : window.1 ≤ now
  pub ends_this_hour : now < window.1 + hour
  pub week : settings.cadence ≡ "weekly" → window.0 + 7 * day ≡ window.1
  pub month :
      settings.cadence ≡ "monthly"
      → (window.0 + 28 * day ≤ window.1) × (window.1 ≤ window.0 + 31 * day)

some_injective : (p q : ℕ × ℕ) → some p ≡ some q → q ≡ p
some_injective p q e = ap (λ o. elim o [ none ↦ p | some x ↦ x ]) (sym e)

due_cases :
    (at_hour weekly on_weekday monthly on_first : Bool) (p q window : ℕ × ℕ)
    → (if not at_hour
        then none
        else if weekly
        then (if not on_weekday then none else some p)
        else if monthly
        then (if not on_first then none else some q)
        else none)
      ≡ some window
    → (at_hour ≡ true) × (((weekly ≡ true) × (window ≡ p)) ⊎ ((weekly ≡ false) × (window ≡ q)))
due_cases true true true monthly on_first p q window e =
    (refl, inl (refl, some_injective p window e))
due_cases true false on_weekday true true p q window e =
    (refl, inr (refl, some_injective q window e))
due_cases true true false monthly on_first p q window e = cc
due_cases true false on_weekday true false p q window e = cc
due_cases true false on_weekday false on_first p q window e = cc
due_cases false weekly on_weekday monthly on_first p q window e = cc

clash : (b : Bool) → b ≡ false → b ≡ true → ⊥
clash b e f = cc

not_both : (cadence : String) → (cadence == "weekly") ≡ true → cadence ≡ "monthly" → ⊥
not_both cadence weekly m = clash false refl (
    (comparable_text.same_iff "weekly" "monthly").1
      (sym ((comparable_text.same_iff cadence "weekly").0 weekly) ∙ m))

week_lem : (end : ℕ) → 7 * day ≤ end → days_before 7 end + 7 * day ≡ end
unfolding days_before
week_lem end h = omega (arith, h)

-- With an offset that the settings take, a recap that is due covers a window that ends within the hour up to
-- now; a weekly one covers 7 days, a monthly one from 28 to 31.
pub recap_due_period-IsWindow :
    (settings : RecapSettings) (now : ℕ) (window : ℕ × ℕ)
    → Plausible settings.offset
    → 500 * day ≤ now
    → recap_due_period settings now ≡ some window
    → IsWindow settings now window
unfolding recap_due_period
recap_due_period-IsWindow settings now window near late due =
    let local = add_minutes now settings.offset in
    let end = window_end settings local in
    let cases =
      due_cases (hour_of local == settings.hour) (settings.cadence == "weekly")
        (iso_weekday local == settings.weekday) (settings.cadence == "monthly")
        ((civil (local / day)).mday == 1) (days_before 7 end, end) (months_before 1 end, end) window
        due in
    let w =
      window_end_lem settings now near late
        ((comparable_nat.same_iff (hour_of local) settings.hour).0 cases.0) in
    elim cases.1 [
      | inl (weekly, e) ↦ subst (IsWindow settings now) (sym e) (record {
        ends_by_now = w.0;
        ends_this_hour = w.1;
        week = λ _. week_lem end (omega (arith, w.1, late));
        month = λ m. absurd (not_both settings.cadence weekly m);
      })
      | inr (other, e) ↦ subst (IsWindow settings now) (sym e) (record {
        ends_by_now = w.0;
        ends_this_hour = w.1;
        week = λ m. absurd (
            clash (settings.cadence == "weekly") other
              ((comparable_text.same_iff settings.cadence "weekly").1 m));
        month = λ _. months_before_bounds end (omega (arith, w.1, late));
      })
    ]

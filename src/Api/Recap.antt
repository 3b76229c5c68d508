-- ===== src/Api/Recap.antt =====
-- server/internal/api/recap.go: when a recap is due, and what may be asked for.
pub mod Due
pub mod Valid
pub mod Accepted
pub mod Run
use Prim.Native.String.{String}
use check_in.Prelude.{
  ℕ, ◌+◌, ◌-◌, ◌*◌, ◌/◌, Bool, true, false, not, ◌||◌, Option, none, some, List, [], ◌∷◌, ◌++◌, ltb,
  leb, ◌==◌, if◌then◌else◌, comparable_nat, comparable_text, ℤ,
}
use check_in.Slice.{Bytes}
use check_in.Sorting.{sort_by}
use check_in.Maps.{comparable_bytes, bytes_lt, contains}
use check_in.Clock.{
  day, hour, Civil, civil, date_days, hour_of, weekday, months_before, days_before, add_minutes,
  sub_minutes,
}

pub record RecapSettings : Type 0 where
  pub cadence : String
  pub weekday : ℕ
  pub hour : ℕ
  pub offset : ℤ
  pub since : ℕ

abbrev pub recap_max_manual_span : ℕ
recap_max_manual_span = 366 * 24 * hour

abbrev pub iso_weekday : ℕ → ℕ
iso_weekday t = let wd = weekday t in if not (wd == 0) then wd else 7

-- The end of the window: the top of the hour of the local time `local`.
unfoldable pub window_end : RecapSettings → ℕ → ℕ
unfolding civil date_days
window_end settings local =
    let c = civil (local / day) in
    sub_minutes (date_days c.year c.month c.mday * day + settings.hour * hour) settings.offset

unfoldable pub recap_due_period : RecapSettings → ℕ → Option (ℕ × ℕ)
unfolding hour_of weekday window_end months_before days_before
recap_due_period settings now =
    let local = add_minutes now settings.offset in
    let end = window_end settings local in
    if not (hour_of local == settings.hour)
    then none
    else if settings.cadence == "weekly"
    then (if not (iso_weekday local == settings.weekday)
        then none
        else some (days_before 7 end, end))
    else if settings.cadence == "monthly"
    then (if not ((civil (local / day)).mday == 1) then none else some (months_before 1 end, end))
    else none

-- strings.TrimSpace, and time.Parse with RFC3339
pub record RequestTexts : Type 0 where
  pub trim_space : Bytes → Bytes
  pub parse_time : Bytes → Option ℕ

-- The loop of `orderedUniquePanels` and of `sortedUniquePanels`: `out` holds what `seen` does.
unfoldable pub unique_panels : RequestTexts → List Bytes → List Bytes → List Bytes
unique_panels tx out [] = out
unique_panels tx out (p ∷ panels) =
    let q = tx.trim_space p in
    unique_panels tx (if q == [] || contains out q then out else out ++ q ∷ []) panels

unfoldable pub ordered_unique_panels : RequestTexts → List Bytes → List Bytes
unfolding unique_panels
ordered_unique_panels tx panels = unique_panels tx [] panels

unfoldable pub sorted_unique_panels : RequestTexts → List Bytes → List Bytes
unfolding unique_panels sort_by
sorted_unique_panels tx panels = sort_by bytes_lt (unique_panels tx [] panels)

abbrev pub collage : Bytes
collage = 0x63 ∷ 0x6F ∷ 0x6C ∷ 0x6C ∷ 0x61 ∷ 0x67 ∷ 0x65 ∷ []

abbrev pub recap_valid_panels : List Bytes
recap_valid_panels = collage ∷ []

pub record GenerateRecapReq : Type 0 where
  pub period_start : Bytes
  pub period_end : Bytes
  pub panels : List Bytes
  pub replace : Bool
  pub bestow_titles : Bool

pub record RecapRequest : Type 0 where
  pub start : ℕ
  pub end : ℕ
  pub requested : List Bytes
  pub sorted : List Bytes

-- The client errors.
pub data RequestError : Type 0 where
  period_start_not_rfc3339 period_end_not_rfc3339 period_end_not_after period_too_long no_panels :
      RequestError
  unknown_panel_type : Bytes → RequestError

pub data Validated : Type 0 where
  valid : RecapRequest → Validated
  invalid : RequestError → Validated

unfoldable pub check_panels : List Bytes → RecapRequest → Validated
check_panels [] req = valid req
check_panels (p ∷ panels) req =
    if not (contains recap_valid_panels p)
    then invalid (unknown_panel_type p)
    else check_panels panels req

unfoldable pub no_entries : List Bytes → Bool
no_entries [] = true
no_entries (p ∷ panels) = false

-- The request when its times are parsed.
unfoldable pub validate_times : RequestTexts → List Bytes → Option ℕ → Option ℕ → Validated
unfolding ordered_unique_panels sorted_unique_panels check_panels no_entries
validate_times tx panels none parsed = invalid period_start_not_rfc3339
validate_times tx panels (some start) none = invalid period_end_not_rfc3339
validate_times tx panels (some start) (some end) =
    let requested = ordered_unique_panels tx panels in
    if not (ltb start end)
    then invalid period_end_not_after
    else if ltb recap_max_manual_span (end - start)
    then invalid period_too_long
    else if no_entries requested
    then invalid no_panels
    else check_panels requested (record {
      start = start;
      end = end;
      requested = requested;
      sorted = sorted_unique_panels tx panels;
    })

unfoldable pub validate_recap_request : RequestTexts → GenerateRecapReq → Validated
unfolding validate_times
validate_recap_request tx req =
    validate_times tx req.panels (tx.parse_time req.period_start) (tx.parse_time req.period_end)

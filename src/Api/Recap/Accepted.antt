-- ===== src/Api/Recap/Accepted.antt =====
-- server/internal/api/recap.go: the requests for which validateRecapRequest has no error.
use check_in.Prelude.{
  ℕ, ◌+◌, ◌-◌, ◌*◌, ◌≤◌, ◌<◌, ◌≡◌, ◌∙◌, refl, ap, sym, subst, Bool, true, false, not, Option, none,
  some, List, [], ◌∷◌, ltb, if◌then◌else◌, length, min, arith, comparable_nat,
}
use check_in.Slice.{Bytes}
use check_in.Sorting.{All, Ordered, count_by}
use check_in.Maps.{comparable_bytes, bytes_lt, contains}
use check_in.Clock.{hour}
use check_in.Api.Recap.{
  RequestTexts, ordered_unique_panels, sorted_unique_panels, recap_valid_panels, GenerateRecapReq,
  RecapRequest, RequestError, Validated, valid, invalid, check_panels, no_entries,
  recap_max_manual_span, period_end_not_after, period_too_long, no_panels, validate_times,
  validate_recap_request,
}
use check_in.Api.Recap.Valid.{
  asks, times, unique_panels-times, sorted_unique_panels-times, sorted_unique_panels-Ordered,
}

-- What a valid request asks for.
pub record IsValid (tx : RequestTexts) (req : GenerateRecapReq) (v : RecapRequest) : Type 0 where
  pub start_parsed : tx.parse_time req.period_start ≡ some v.start
  pub end_parsed : tx.parse_time req.period_end ≡ some v.end
  pub in_order : v.start < v.end
  pub within_a_year : v.end ≤ v.start + 366 * 24 * hour
  pub one_or_more : 1 ≤ length v.requested
  pub all_known : All (λ p. contains recap_valid_panels p ≡ true) v.requested
  pub each_once : (p : Bytes) → times p v.requested ≡ min 1 (count_by (asks tx p) req.panels)
  pub same_set : (p : Bytes) → times p v.sorted ≡ times p v.requested
  pub is_sorted : Ordered bytes_lt v.sorted

guarded :
    (b : Bool) (q : RequestError) (x : Validated) (v : RecapRequest)
    → (if b then invalid q else x) ≡ valid v
    → (b ≡ false) × (x ≡ valid v)
guarded true q x v e = cc
guarded false q x v e = (refl, e)

valid_injective : (r v : RecapRequest) → valid r ≡ valid v → r ≡ v
valid_injective r v e = ap (λ o. elim o [ valid x ↦ x | invalid q ↦ r ]) e

check_panels_known :
    (panels : List Bytes) (r v : RecapRequest)
    → check_panels panels r ≡ valid v
    → All (λ p. contains recap_valid_panels p ≡ true) panels × (r ≡ v)
unfolding check_panels
check_panels_known [] r v e = (tt, valid_injective r v e)
check_panels_known (p ∷ panels) r v e =
    let g = guarded (not (contains recap_valid_panels p)) _ (check_panels panels r) v e in
    let rest = check_panels_known panels r v g.1 in ((ground (arith, g.0), rest.0), rest.1)

no_entries-length : (panels : List Bytes) → no_entries panels ≡ false → 1 ≤ length panels
unfolding no_entries
no_entries-length [] h = cc
no_entries-length (p ∷ panels) h = omega arith

-- The same with the times as they came out of the parser.
record IsValidFor (tx : RequestTexts) (panels : List Bytes) (o p : Option ℕ) (v : RecapRequest)
    : Type 0 where
  start_parsed : o ≡ some v.start
  end_parsed : p ≡ some v.end
  in_order : v.start < v.end
  within_a_year : v.end ≤ v.start + 366 * 24 * hour
  requested : v.requested ≡ ordered_unique_panels tx panels
  one_or_more : 1 ≤ length (ordered_unique_panels tx panels)
  all_known : All (λ p. contains recap_valid_panels p ≡ true) (ordered_unique_panels tx panels)
  sorted : v.sorted ≡ sorted_unique_panels tx panels

validate_times-IsValidFor :
    (tx : RequestTexts) (panels : List Bytes) (o p : Option ℕ) (v : RecapRequest)
    → validate_times tx panels o p ≡ valid v
    → IsValidFor tx panels o p v
unfolding validate_times
validate_times-IsValidFor tx panels none p v e = cc
validate_times-IsValidFor tx panels (some start) none v e = cc
validate_times-IsValidFor tx panels (some start) (some end) v e =
    let requested = ordered_unique_panels tx panels in
    let r : RecapRequest = record {
      start = start;
      end = end;
      requested = requested;
      sorted = sorted_unique_panels tx panels;
    } in
    let a = guarded (not (ltb start end)) period_end_not_after _ v e in
    let b = guarded (ltb recap_max_manual_span (end - start)) period_too_long _ v a.1 in
    let c = guarded (no_entries requested) no_panels (check_panels requested r) v b.1 in
    let k = check_panels_known requested r v c.1 in
    subst (IsValidFor tx panels (some start) (some end)) k.1 (record {
      start_parsed = refl;
      end_parsed = refl;
      in_order = ground (arith, a.0);
      within_a_year = ground (arith, b.0);
      requested = refl;
      one_or_more = no_entries-length requested c.0;
      all_known = k.0;
      sorted = refl;
    })

-- A request that passes has a period in order of at most 366 days, and asks for known panels only, at least
-- one; `requested` and `sorted` have each panel that it asks for once, and `sorted` is in order.
pub validate_recap_request-IsValid :
    (tx : RequestTexts) (req : GenerateRecapReq) (v : RecapRequest)
    → validate_recap_request tx req ≡ valid v
    → IsValid tx req v
unfolding validate_recap_request ordered_unique_panels
validate_recap_request-IsValid tx req v e =
    let h : IsValidFor tx req.panels (tx.parse_time req.period_start) (tx.parse_time req.period_end)
        v =
      validate_times-IsValidFor tx req.panels (tx.parse_time req.period_start)
        (tx.parse_time req.period_end) v e in
    let once : (p : Bytes) → times p v.requested ≡ min 1 (count_by (asks tx p) req.panels) = λ p.
      ap (times p) h.requested
      ∙ omega (arith, unique_panels-times tx p [] req.panels (omega arith)) in
    record {
      start_parsed = h.start_parsed;
      end_parsed = h.end_parsed;
      in_order = h.in_order;
      within_a_year = h.within_a_year;
      one_or_more = subst (λ ps. 1 ≤ length ps) (sym h.requested) h.one_or_more;
      all_known =
          subst (All (λ p. contains recap_valid_panels p ≡ true)) (sym h.requested) h.all_known;
      each_once = once;
      same_set =
          λ p. ap (times p) h.sorted ∙ sorted_unique_panels-times tx p req.panels ∙ sym (once p);
      is_sorted =
          subst (Ordered bytes_lt) (sym h.sorted) (sorted_unique_panels-Ordered tx req.panels);
    }

-- ===== src/Db/Events/Build/Outranks.antt =====
-- server/internal/db/events_cluster.go: `eventOutranks` is an order.
use check_in.Prelude.{◌≤◌, ◌≡◌, true, false, arith, comparable_nat}
use check_in.Sorting.{IsOrder}
use check_in.Maps.{bytes_lt_asym, bytes_lt_trans, bytes_lt_total, bytes_eq_iff, comparable_bytes}
use check_in.Db.Events.Build.{Event, is_trip, event_outranks}

outranks_asym : (a b : Event) → event_outranks a b ≡ true → event_outranks b a ≡ false
unfolding event_outranks
outranks_asym a b h = ground (
  arith,
  bytes_lt_asym a.place b.place,
  bytes_eq_iff a.place b.place,
  bytes_eq_iff b.place a.place,
)

outranks_trans :
    (a b c : Event)
    → event_outranks b a ≡ false
    → event_outranks c b ≡ false
    → event_outranks c a ≡ false
unfolding event_outranks
outranks_trans a b c h k = ground (
  arith,
  bytes_lt_trans a.place b.place c.place,
  bytes_eq_iff b.place a.place,
  bytes_eq_iff c.place b.place,
  bytes_eq_iff c.place a.place,
  bytes_lt_total b.place a.place,
  bytes_lt_total c.place b.place,
)

pub event_outranks-IsOrder : IsOrder event_outranks
event_outranks-IsOrder = record { asym = outranks_asym; trans = outranks_trans }

-- The first event ends no earlier than the second; on a tie of the ends a trip is before a gathering, and
-- then the first starts no earlier.
pub record EndsNoEarlier (x y : Event) : Type 0 where
  pub ends : y.end_date ≤ x.end_date
  pub trips_first : y.end_date ≡ x.end_date → is_trip y.kind ≡ true → is_trip x.kind ≡ true
  pub starts :
      y.end_date ≡ x.end_date → is_trip y.kind ≡ is_trip x.kind → y.start_date ≤ x.start_date

pub event_outranks-EndsNoEarlier : (x y : Event) → event_outranks y x ≡ false → EndsNoEarlier x y
unfolding event_outranks
event_outranks-EndsNoEarlier x y h = record {
  ends = ground (arith, h);
  trips_first = λ e t. ground (arith, h, e, t);
  starts = λ e t. ground (arith, h, e, t);
}

-- ===== src/Db/Timeline/Months.antt =====
-- server/internal/db/timeline.go: bucketTimeline loses no post and shows each month once.
use check_in.Prelude.{
  ◌+◌, ◌≡◌, ◌≤◌, ◌<◌, ◌⊎◌, refl, ap, sym, ◌∙◌, subst, true, false, inl, inr, List, [], ◌∷◌, ◌++◌,
  ◌==◌, if◌then◌else◌, length, min, arith, comparable_nat, ℤ, Bool-cases, length-append,
}
use check_in.Sorting.{
  All, Sorted, Ordered-Sorted, IsOrder, sort_by, one_if, count_by, keep_if, keep_if-append,
  append_snoc, All-sort_by, count_by-sort_by, sort_by-Ordered,
}
use check_in.Maps.{upsert, append_to, count_by-upsert, All-upsert}
use check_in.Db.Timeline.{
  TimelineMonth, TimelinePostRow, TimelineKey, same_month_iff, comparable_key, local_month,
  build_timeline_month, bucket_rows, later_month, build_months, bucket_timeline,
}

later_month-IsOrder : IsOrder later_month
later_month-IsOrder = record {
  asym = λ x y h. ground (arith, h);
  trans = λ x y z h k. ground (arith, h, k);
}

abbrev pub key_of : TimelineMonth → TimelineKey
key_of m = record { year = m.year; month = m.month }

-- The first month is no earlier than the second.
abbrev pub NotBefore : TimelineMonth → TimelineMonth → Type 0
NotBefore x y = (y.year < x.year) ⊎ ((y.year ≡ x.year) × (y.month ≤ x.month))

later_month-NotBefore : (x y : TimelineMonth) → later_month y x ≡ false → NotBefore x y
later_month-NotBefore x y h = elim (Bool-cases (y.year == x.year)) [
  | inl e ↦ inr (ground (arith, e), ground (arith, e, h))
  | inr e ↦ inl (ground (arith, e, h))
]

module _ (offset : ℤ) where
  -- the rows of a month, in the order in which they came
  abbrev pub rows_in : TimelineKey → List TimelinePostRow → List TimelinePostRow
  rows_in k rows = keep_if (λ r. local_month offset r == k) rows

  -- What the buckets hold when the rows `done` have been put into them.
  record Holds (done : List TimelinePostRow) (buckets : List (TimelineKey × List TimelinePostRow))
      : Type 0 where
    runs : All (λ e. e.1 ≡ rows_in e.0 done) buckets
    keys : (k : TimelineKey) → count_by (λ e. e.0 == k) buckets ≡ min 1 (length (rows_in k done))

  rows_in-snoc :
      (k : TimelineKey) (done : List TimelinePostRow) (r : TimelinePostRow)
      → rows_in k (done ++ r ∷ [])
        ≡ rows_in k done ++ (if local_month offset r == k then r ∷ [] else [])
  rows_in-snoc k done r = keep_if-append (λ s. local_month offset s == k) done (r ∷ [])

  append_nil : {A : Type 0} (xs : List A) → xs ++ [] ≡ xs
  append_nil [] = refl
  append_nil (x ∷ xs) = ap (λ ys. x ∷ ys) (append_nil xs)

  sym_month : (a b : TimelineKey) → (a == b) ≡ false → (b == a) ≡ false
  sym_month a b h = ground (arith, h)

  same_key : (k : TimelineKey) → (k == k) ≡ true
  same_key k = (same_month_iff k k).1 refl

  other_rows :
      (k : TimelineKey) (done : List TimelinePostRow) (r : TimelinePostRow)
      → (local_month offset r == k) ≡ false
      → rows_in k (done ++ r ∷ []) ≡ rows_in k done
  other_rows k done r h = rw (rows_in-snoc k done r) (rw h (append_nil (rows_in k done)))

  own_rows :
      (k : TimelineKey) (done : List TimelinePostRow) (r : TimelinePostRow)
      → (local_month offset r == k) ≡ true
      → rows_in k (done ++ r ∷ []) ≡ rows_in k done ++ r ∷ []
  own_rows k done r h = rw (rows_in-snoc k done r) (rw h refl)

  none_of : {A : Type 0} (xs : List A) → min 1 (length xs) ≡ 0 → xs ≡ []
  none_of [] h = refl
  none_of (x ∷ xs) h = absurd (omega arith)

  put-Holds :
      (done : List TimelinePostRow) (r : TimelinePostRow)
      (buckets : List (TimelineKey × List TimelinePostRow))
      → Holds done buckets
      → Holds (done ++ r ∷ []) (upsert (local_month offset r) (append_to r) buckets)
  put-Holds done r buckets h =
      let j = local_month offset r in
      record {
        runs =
            All-upsert (λ e. e.1 ≡ rows_in e.0 done) (λ e. e.1 ≡ rows_in e.0 (done ++ r ∷ [])) j
              (append_to r) buckets (λ i v e p. p ∙ sym (other_rows i done r (sym_month i j e)))
              (λ v p. ap (λ ys. ys ++ r ∷ []) p ∙ sym (own_rows j done r (same_key j)))
              (λ z. sym (
                own_rows j done r (same_key j)
                ∙ ap (λ ys. ys ++ r ∷ []) (none_of (rows_in j done) (sym (h.keys j) ∙ z))))
              (omega (arith, h.keys j)) h.runs;
        keys = λ k. elim (Bool-cases (local_month offset r == k)) [
          | inl e ↦ rw (count_by-upsert k j (append_to r) buckets) (
              rw (own_rows k done r e)
                (rw e (omega (arith, h.keys k, length-append (rows_in k done) (r ∷ [])))))
          | inr e ↦
              rw (count_by-upsert k j (append_to r) buckets)
                (rw (other_rows k done r e) (rw e (h.keys k)))
        ];
      }

  bucket_rows-Holds :
      (done rows : List TimelinePostRow) (buckets : List (TimelineKey × List TimelinePostRow))
      → Holds done buckets
      → Holds (done ++ rows) (bucket_rows offset buckets rows)
  unfolding bucket_rows
  bucket_rows-Holds done [] buckets h = subst (λ xs. Holds xs buckets) (sym (append_nil done)) h
  bucket_rows-Holds done (r ∷ rows) buckets h =
      subst
        (λ xs.
          Holds xs (bucket_rows offset (upsert (local_month offset r) (append_to r) buckets) rows))
        (append_snoc done r rows)
        (bucket_rows-Holds (done ++ r ∷ []) rows
          (upsert (local_month offset r) (append_to r) buckets) (put-Holds done r buckets h))

  -- The months shown of some rows: newest first; each is made of all the rows of its month; and a month is
  -- shown, once, exactly if a row falls in it.
  pub record Exact (rows : List TimelinePostRow) (months : List TimelineMonth) : Type 0 where
    pub newest_first : Sorted NotBefore months
    pub each : All (λ m. m ≡ build_timeline_month (key_of m) (rows_in (key_of m) rows)) months
    pub shown :
        (k : TimelineKey) → count_by (λ m. key_of m == k) months ≡ min 1 (length (rows_in k rows))

  build_months-each :
      (rows : List TimelinePostRow) (buckets : List (TimelineKey × List TimelinePostRow))
      → All (λ e. e.1 ≡ rows_in e.0 rows) buckets
      → All
          (λ m. m ≡ build_timeline_month (key_of m) (rows_in (key_of m) rows))
          (build_months buckets)
  unfolding build_months build_timeline_month
  build_months-each rows [] a = tt
  build_months-each rows ((k, run) ∷ buckets) a =
      (ap (build_timeline_month k) a.0, build_months-each rows buckets a.1)

  build_months-keys :
      (k : TimelineKey) (buckets : List (TimelineKey × List TimelinePostRow))
      → count_by (λ m. key_of m == k) (build_months buckets) ≡ count_by (λ e. e.0 == k) buckets
  unfolding build_months build_timeline_month
  build_months-keys k [] = refl
  build_months-keys k ((j, run) ∷ buckets) =
      ap (λ n. one_if (j == k) + n) (build_months-keys k buckets)

  -- Whatever the rows and the offset are, the timeline has a month, once, exactly if a row falls in it in the
  -- group's time; the month is built of all the rows that do, and no month comes before
  -- one of a later year, or of its year and a later month.
  pub bucket_timeline-Exact :
      (rows : List TimelinePostRow) → Exact rows (bucket_timeline rows offset)
  unfolding bucket_timeline
  bucket_timeline-Exact rows =
      let buckets = bucket_rows offset [] rows in
      let h : Holds rows buckets =
        bucket_rows-Holds [] rows [] (record { runs = tt; keys = λ k. refl }) in
      record {
        newest_first =
            Ordered-Sorted later_month NotBefore (sort_by later_month (build_months buckets))
              later_month-NotBefore
              (sort_by-Ordered later_month later_month-IsOrder (build_months buckets));
        each =
            All-sort_by (λ m. m ≡ build_timeline_month (key_of m) (rows_in (key_of m) rows))
              later_month (build_months buckets) (build_months-each rows buckets h.runs);
        shown = λ k.
            count_by-sort_by later_month (λ m. key_of m == k) (build_months buckets)
            ∙ build_months-keys k buckets
            ∙ h.keys k;
      }

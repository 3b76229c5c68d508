-- ===== src/Gazetteer/Found.antt =====
-- server/internal/gazetteer/gazetteer.go: the search of `lookup` in a packed dataset, against a pass over
-- all of its rows.
use mathlib.Core.List.{append-nil}
use check_in.Prelude.{
  ℕ, zero, suc, ◌+◌, ◌-◌, ◌/◌, ◌%◌, ◌^◌, ◌<◌, ◌≤◌, ◌≡◌, refl, ap, ◌∙◌, sym, List, [], ◌∷◌, ◌++◌,
  length, drop, arith, ok, some, get_elem?, ltb, ◌==◌, ◌&&◌, if◌then◌else◌, Bool, true, false, not,
  Bool-cases, inl, inr, comparable_nat, Done, Done-ok, Done_bind, length-drop,
}
use check_in.Sorting.{All, All-imp, Ordered, append_snoc}
use check_in.Gazetteer.{
  ReaderAt, Table, LookupResult, flag_primary, search_hash, scan, lookup, add_row, read_uint64_at,
}
use check_in.Gazetteer.Packed.{Row, Entry, packed, header_of, Holds, IsDataset, hash_lt}
use check_in.Gazetteer.Packed.Cells.{table, hash_at, entry_at, flag_at, get_elem?_lt, All-get_elem?}

-- The places of the rows with a hash, of the one tier or the other, in the order of the table.
abbrev pub tier : Bool → ℕ → List Row → List ℕ
tier primary hash [] = []
tier primary hash (r ∷ rows) =
    if r.hash == hash && (if primary then r.flag == flag_primary else not (r.flag == flag_primary))
    then r.entry ∷ tier primary hash rows
    else tier primary hash rows

-- Behind the last row with a hash there is none.
tier-none :
    (p : Bool) (hash : ℕ) (rows : List Row) → All (λ r. hash < r.hash) rows → tier p hash rows ≡ []
tier-none p hash [] a = refl
tier-none p hash (r ∷ rows) a = ground (arith, tier-none p hash rows a.1)

tier-drop :
    (p : Bool) (hash n : ℕ) (rows : List Row)
    → ((i : ℕ) (r : Row) → get_elem? rows i ≡ some r → i < n → r.hash < hash)
    → tier p hash (drop n rows) ≡ tier p hash rows
tier-drop p hash zero rows h = refl
tier-drop p hash (suc n) [] h = refl
tier-drop p hash (suc n) (r ∷ rows) h =
    let less : r.hash < hash = h 0 r refl (omega arith) in
    ground (arith, tier-drop p hash n rows (λ i q e lt. h (suc i) q e (omega arith)), less)

pub get_elem?-some {ℓ} :
    {A : Type ℓ} (xs : List A) (i : ℕ) → i < length xs → (x : A) × (get_elem? xs i ≡ some x)
get_elem?-some [] i h = elim h [ ]
get_elem?-some (x ∷ xs) zero h = (x, refl)
get_elem?-some (x ∷ xs) (suc i) h = get_elem?-some xs i (omega arith)

get_elem?-drop {ℓ} :
    {A : Type ℓ} (xs : List A) (n i : ℕ) → get_elem? (drop n xs) i ≡ get_elem? xs (n + i)
get_elem?-drop xs zero i = ap (get_elem? xs) (omega arith)
get_elem?-drop [] (suc n) i = refl
get_elem?-drop (x ∷ xs) (suc n) i =
    let same : suc (n + i) ≡ suc n + i = omega arith in
    get_elem?-drop xs n i ∙ ap (get_elem? (x ∷ xs)) same

Ordered-le :
    (rows : List Row) (i j : ℕ) (r s : Row)
    → Ordered hash_lt rows
    → get_elem? rows i ≡ some r
    → get_elem? rows j ≡ some s
    → i ≤ j
    → r.hash ≤ s.hash
Ordered-le [] i j r s o e e' h = absurd (ground (arith, e))
Ordered-le (q ∷ rows) zero zero r s o e e' h = ground (arith, e, e')
Ordered-le (q ∷ rows) zero (suc j) r s o e e' h =
    let after = All-get_elem? (λ y. hash_lt y q ≡ false) rows j s o.0 e' in ground (arith, e, after)
Ordered-le (q ∷ rows) (suc i) zero r s o e e' h = absurd (omega arith)
Ordered-le (q ∷ rows) (suc i) (suc j) r s o e e' h = Ordered-le rows i j r s o.1 e e' (omega arith)

drop_cons {ℓ} :
    {A : Type ℓ} (xs : List A) (n : ℕ) (x : A) (rest : List A)
    → x ∷ rest ≡ drop n xs
    → (get_elem? xs n ≡ some x) × (drop (n + 1) xs ≡ rest) × (n < length xs)
drop_cons [] zero x rest e = absurd (ground (arith, e))
drop_cons [] (suc n) x rest e = absurd (ground (arith, e))
drop_cons (y ∷ xs) zero x rest e = ground (arith, e)
drop_cons (y ∷ xs) (suc n) x rest e = ground (arith, drop_cons xs n x rest e)

-- Before a place in the table every hash is smaller, and from there on none is.
record Splits (rows : List Row) (hash n : ℕ) : Type 0 where
  within : n ≤ length rows
  below : (i : ℕ) (r : Row) → get_elem? rows i ≡ some r → i < n → r.hash < hash
  above : (i : ℕ) (r : Row) → get_elem? rows i ≡ some r → n ≤ i → hash ≤ r.hash

module _ (f : ReaderAt) (rows : List Row) (entries : List Entry) (dataset : IsDataset rows entries)
    (holds : Holds f (packed rows entries)) (hash : ℕ) where
  abbrev t : Table
  t = table f rows entries dataset holds

  read_at_row :
      (i : ℕ) (r : Row)
      → get_elem? rows i ≡ some r
      → Done (read_uint64_at t t.h.hashes_offset i) (λ h. h ≡ r.hash)
  read_at_row i r e = record {
    value = r.hash;
    returned = hash_at f rows entries dataset holds i r e;
    holds = refl;
  }

  -- The binary search ends, and where it ends the table splits.
  search_hash-Splits :
      (fuel lo hi : ℕ)
      → hi - lo < fuel
      → lo ≤ hi
      → hi ≤ length rows
      → ((i : ℕ) (r : Row) → get_elem? rows i ≡ some r → i < lo → r.hash < hash)
      → ((i : ℕ) (r : Row) → get_elem? rows i ≡ some r → hi ≤ i → hash ≤ r.hash)
      → Done (search_hash t hash fuel lo hi) (Splits rows hash)
  unfolding search_hash
  search_hash-Splits zero lo hi h le inside below above = elim h [ ]
  search_hash-Splits (suc fuel) lo hi h le inside below above = elim (Bool-cases (ltb lo hi)) [
    | inr done ↦ rw done (
        Done-ok (record {
          within = omega (arith, inside, le);
          below = below;
          above = λ i r e p. above i r e (ground (arith, done, le, p));
        }))
    | inl more ↦
        let lt : lo < hi = ground (arith, more) in
        let row = get_elem?-some rows (lo + (hi - lo) / 2) (omega arith) in
        let place : (lo + (hi - lo) / 2) % 2 ^ 32 ≡ lo + (hi - lo) / 2 =
          omega (arith, dataset.few_rows) in
        let next : (lo + (hi - lo) / 2 + 1) % 2 ^ 32 ≡ lo + (hi - lo) / 2 + 1 =
          omega (arith, dataset.few_rows) in
        rw (more, place)
          (Done_bind {P = λ h. h ≡ row.0.hash} (read_at_row (lo + (hi - lo) / 2) row.0 row.1)
            (λ key same. elim (Bool-cases (ltb key hash)) [
              | inl small ↦
                  rw (small, place, next)
                    (search_hash-Splits fuel (lo + (hi - lo) / 2 + 1) hi (omega arith) (omega arith)
                      inside
                      (λ i r e p. ground (
                        arith,
                        Ordered-le rows i (lo + (hi - lo) / 2) r row.0 dataset.sorted e row.1,
                        small,
                        same,
                        p,
                      ))
                      above)
              | inr large ↦
                  rw (large, place)
                    (search_hash-Splits fuel lo (lo + (hi - lo) / 2) (omega arith) (omega arith)
                      (omega arith) below
                      (λ i r e p. ground (
                        arith,
                        Ordered-le rows (lo + (hi - lo) / 2) i row.0 r dataset.sorted row.1 e,
                        large,
                        same,
                        p,
                      )))
            ]))
  ]

  -- One round of the scan, on a row that is there.
  scan_row :
      (left i : ℕ) (r : Row) (acc : LookupResult)
      → get_elem? rows i ≡ some r
      → scan t hash (suc left) i acc ≡ (elim (r.hash == hash) [
        | false ↦ ok acc
        | true ↦ scan t hash left ((i + 1) % 2 ^ 32) (add_row r.entry r.flag acc)
      ])
  unfolding scan
  scan_row left i r acc e = ground (
    arith,
    hash_at f rows entries dataset holds i r e,
    entry_at f rows entries dataset holds i r e,
    flag_at f rows entries dataset holds i r e,
  )

  scan_end : (i : ℕ) (acc : LookupResult) → scan t hash 0 i acc ≡ ok acc
  unfolding scan
  scan_end i acc = refl

  -- What the scan finds from a row on, where no hash is smaller than the one that it looks for.
  scan-tier :
      (left i : ℕ) (rest : List Row) (acc : LookupResult)
      → rest ≡ drop i rows
      → left ≡ length rest
      → All (λ r. hash ≤ r.hash) rest
      → Ordered hash_lt rest
      → scan t hash left i acc
        ≡ ok (record {
          primary = acc.primary ++ tier true hash rest;
          alias = acc.alias ++ tier false hash rest;
        })
  scan-tier zero i [] acc d e a o =
      ground (arith, scan_end i acc, append-nil acc.primary, append-nil acc.alias)
  scan-tier zero i (r ∷ rest) acc d e a o = absurd (omega arith)
  scan-tier (suc left) i [] acc d e a o = absurd (omega arith)
  scan-tier (suc left) i (r ∷ rest) acc d e a o =
      let here = drop_cons rows i r rest d in
      let step = scan_row left i r acc here.0 in
      elim (Bool-cases (r.hash == hash)) [
        | inl same ↦
            let next : (i + 1) % 2 ^ 32 ≡ i + 1 = omega (arith, here.2, dataset.few_rows) in
            ground (
              arith,
              step,
              same,
              next,
              scan-tier left (i + 1) rest (add_row r.entry r.flag acc) (sym here.1) (omega arith)
                  a.1 o.1,
              append_snoc acc.primary r.entry (tier true hash rest),
              append_snoc acc.alias r.entry (tier false hash rest),
            )
        | inr other ↦
            let beyond : All (λ y. hash < y.hash) rest =
              All-imp (λ y. hash_lt y r ≡ false) (λ y. hash < y.hash) rest
                (λ y h. ground (arith, h, other, a.0)) o.0 in
            ground (
              arith,
              step,
              other,
              tier-none true hash rest beyond,
              tier-none false hash rest beyond,
              append-nil acc.primary,
              append-nil acc.alias,
            )
      ]

  All-from :
      (n : ℕ) (rest : List Row)
      → rest ≡ drop n rows
      → ((i : ℕ) (r : Row) → get_elem? rows i ≡ some r → n ≤ i → hash ≤ r.hash)
      → All (λ r. hash ≤ r.hash) rest
  All-from n [] e h = tt
  All-from n (r ∷ rest) e h =
      let here = drop_cons rows n r rest e in
      (
        h n r here.0 (omega arith),
        All-from (n + 1) rest (sym here.1) (λ i q d p. h i q d (omega arith)),
      )

  Ordered-drop : (n : ℕ) (xs : List Row) → Ordered hash_lt xs → Ordered hash_lt (drop n xs)
  Ordered-drop zero xs o = o
  Ordered-drop (suc n) [] o = o
  Ordered-drop (suc n) (x ∷ xs) o = Ordered-drop n xs o.1

  -- In a file that holds a packed dataset the binary search and its scan end, and find what a pass over
  -- all the rows finds: the places of the rows with the hash, in the order of the table, and split by
  -- the flag.
  pub lookup-tier :
      lookup t hash ≡ ok (record { primary = tier true hash rows; alias = tier false hash rows })
  unfolding lookup header_of
  lookup-tier =
      let found =
        search_hash-Splits (suc (length rows)) 0 (length rows) (omega arith) (omega arith)
          (omega arith) (λ i r e p. absurd (omega arith))
          (λ i r e p. absurd (omega (arith, get_elem?_lt rows i r e))) in
      let lo = found.value in
      ground (
        arith,
        found.returned,
        scan-tier (length rows - lo) lo (drop lo rows) (record { primary = []; alias = [] }) refl
            (omega (arith, length-drop lo rows)) (All-from lo (drop lo rows) refl found.holds.above)
            (Ordered-drop lo rows dataset.sorted),
        tier-drop true hash lo rows found.holds.below,
        tier-drop false hash lo rows found.holds.below,
      )

-- ===== src/Gazetteer/Candidates/Matching.antt =====
-- server/internal/gazetteer/gazetteer.go: what `Candidates` answers from a dataset that was packed and
-- loaded, against the rows and the places that were packed.
use mathlib.Core.List.{append-nil}
use check_in.Prelude.{
  ℕ, ◌<◌, ◌≡◌, ◌≢◌, refl, Bool, true, false, not, ◌&&◌, Option, none, some, List, [], ◌∷◌, ◌++◌,
  ◌==◌, if◌then◌else◌, length, get_elem?, arith, Result, ok, err, panic, out_of_fuel, inl, inr,
  comparable_nat, Option-cases,
}
use check_in.Slice.{Bytes}
use check_in.Sorting.{All, All-append}
use check_in.Db.Events.{Texts}
use check_in.Gazetteer.{ReaderAt, Table, Header, GazetteerError, fnv1a64, flag_primary, read_header}
use check_in.Gazetteer.Packed.{Row, Entry, packed, Holds, IsDataset, RowFits}
use check_in.Gazetteer.Packed.Cells.{table, lat_at, lng_at, population_at, read_header-packed}
use check_in.Gazetteer.Found.{tier, lookup-tier, get_elem?-some}
use check_in.Gazetteer.Load.{load, open_table, table_with}
use check_in.Gazetteer.Candidates.{
  Candidate, candidate_at, candidates_of, all_zero_population, is_zero, by_tiers, split_location,
  key_text, table_candidates, candidates,
}

abbrev pub candidate_of : Entry → Candidate
candidate_of e = record { lat = e.lat; lng = e.lng; population = e.population }

-- the places at some indices
abbrev pub places : List Entry → List ℕ → List Candidate
places entries [] = []
places entries (i ∷ is) = elim (get_elem? entries i) [
  | none ↦ places entries is
  | some e ↦ candidate_of e ∷ places entries is
]

-- whether the places at some indices all have a population of 0
abbrev pub deserted : List Entry → List ℕ → Bool
deserted entries [] = true
deserted entries (i ∷ is) = elim (get_elem? entries i) [
  | none ↦ deserted entries is
  | some e ↦ if is_zero e.population then deserted entries is else false
]

-- The places with the name as their own, and those that it only is another name of: these count only
-- where every one of the former has a population of 0, as where there is none.
abbrev pub matching : List Row → List Entry → ℕ → List Candidate
matching rows entries hash =
    let own = tier true hash rows in
    let other = tier false hash rows in
    places entries (if deserted entries own then own ++ other else own)

abbrev pub meant : List Row → List Entry → Option (Bytes × Bytes) → List Candidate
meant rows entries none = []
meant rows entries (some key) = matching rows entries (fnv1a64 (key_text key.0 key.1))

All-if {ℓ} :
    {A : Type ℓ} (P : A → Type 0) (c : Bool) (xs ys : List A)
    → All P xs
    → All P ys
    → All P (if c then xs else ys)
All-if P true xs ys a b = a
All-if P false xs ys a b = b

tier-All :
    (p : Bool) (hash n : ℕ) (rows : List Row)
    → All (RowFits n) rows
    → All (λ i. i < n) (tier p hash rows)
tier-All p hash n [] a = tt
tier-All p hash n (r ∷ rows) a =
    let rest = tier-All p hash n rows a.1 in
    All-if (λ i. i < n)
      (r.hash == hash && (if p then r.flag == flag_primary else not (r.flag == flag_primary)))
      (r.entry ∷ tier p hash rows) (tier p hash rows) (a.0.1, rest) rest

table_candidates-none :
    (tx : Texts) (countries : List (Bytes × Bytes)) (t : Table) (location : Bytes)
    → split_location tx countries location ≡ none
    → table_candidates tx countries t location ≡ ok []
unfolding table_candidates
table_candidates-none tx countries t location e = ground (arith, e)

module _ (f : ReaderAt) (rows : List Row) (entries : List Entry) (dataset : IsDataset rows entries)
    (holds : Holds f (packed rows entries)) where
  abbrev t : Table
  t = table f rows entries dataset holds

  candidate_at_lem :
      (i : ℕ) (e : Entry) → get_elem? entries i ≡ some e → candidate_at t i ≡ ok (candidate_of e)
  unfolding candidate_at
  candidate_at_lem i e h = ground (
    arith,
    lat_at f rows entries dataset holds i e h,
    lng_at f rows entries dataset holds i e h,
    population_at f rows entries dataset holds i e h,
  )

  candidates_of-places :
      (is : List ℕ) → All (λ i. i < length entries) is → candidates_of t is ≡ ok (places entries is)
  unfolding candidates_of
  candidates_of-places [] a = refl
  candidates_of-places (i ∷ is) a =
      let place = get_elem?-some entries i a.0 in
      ground (arith, place.1, candidate_at_lem i place.0 place.1, candidates_of-places is a.1)

  all_zero_population-deserted :
      (is : List ℕ)
      → All (λ i. i < length entries) is
      → all_zero_population t is ≡ ok (deserted entries is)
  unfolding all_zero_population
  all_zero_population-deserted [] a = refl
  all_zero_population-deserted (i ∷ is) a =
      let place = get_elem?-some entries i a.0 in
      ground (
        arith,
        place.1,
        population_at f rows entries dataset holds i place.0 place.1,
        all_zero_population-deserted is a.1,
      )

  by_tiers-places :
      (own other : List ℕ)
      → All (λ i. i < length entries) own
      → All (λ i. i < length entries) other
      → by_tiers t own other
        ≡ ok (places entries (if deserted entries own then own ++ other else own))
  unfolding by_tiers
  by_tiers-places [] [] a b = refl
  by_tiers-places [] (j ∷ other) a b = candidates_of-places (j ∷ other) b
  by_tiers-places (i ∷ own) [] a b =
      ground (arith, candidates_of-places (i ∷ own) a, append-nil (i ∷ own))
  by_tiers-places (i ∷ own) (j ∷ other) a b = ground (
    arith,
    all_zero_population-deserted (i ∷ own) a,
    candidates_of-places (i ∷ own) a,
    candidates_of-places ((i ∷ own) ++ (j ∷ other))
        (All-append (λ k. k < length entries) (i ∷ own) (j ∷ other) a b),
  )

  -- What a location that names a city and a country means.
  table_candidates-matching :
      (tx : Texts) (countries : List (Bytes × Bytes)) (location iso city : Bytes)
      → split_location tx countries location ≡ some (iso, city)
      → table_candidates tx countries t location
        ≡ ok (matching rows entries (fnv1a64 (key_text iso city)))
  unfolding table_candidates
  table_candidates-matching tx countries location iso city e =
      let hash = fnv1a64 (key_text iso city) in
      ground (
        arith,
        e,
        lookup-tier f rows entries dataset holds hash,
        by_tiers-places (tier true hash rows) (tier false hash rows)
            (tier-All true hash (length entries) rows dataset.rows_fit)
            (tier-All false hash (length entries) rows dataset.rows_fit),
      )

  open_table-table : open_table (some f) ≡ some t
  unfolding open_table
  open_table-table = ground (arith, read_header-packed f rows entries dataset holds)

  -- What `candidates` answers on the index that `load` makes of the countries and of a file that holds
  -- a packed dataset: nothing for a location without a city and a known country, and else every place of
  -- the country with that name as its own, joined by those that have it as another name only where all
  -- of the former have a population of 0.
  pub candidates-load :
      (tx : Texts) (trim_space : Bytes → Bytes) (countries_raw location : Bytes)
      → candidates tx (load tx trim_space countries_raw (some f)) location
        ≡ meant rows entries (
            split_location tx
              (load tx trim_space countries_raw (some f)).country_iso_by_name
              location)
  unfolding candidates load
  candidates-load tx trim_space countries_raw location =
      let countries = (load tx trim_space countries_raw (some f)).country_iso_by_name in
      elim (Option-cases (split_location tx countries location)) [
        | inl e ↦ ground (arith, e, open_table-table, table_candidates-none tx countries t location)
        | inr (key, e) ↦ ground (
          arith,
          e,
          open_table-table,
          table_candidates-matching tx countries location key.0 key.1 e,
        )
      ]

table_with-none :
    (f : ReaderAt) (r : Result GazetteerError Header)
    → ((h : Header) → r ≢ ok h)
    → table_with f r ≡ none
table_with-none f (ok h) e = absurd (e h refl)
table_with-none f (err e) h = refl
table_with-none f panic h = refl
table_with-none f out_of_fuel h = refl

-- Where the dataset cannot be opened, or has no header of this format, no location means anything.
pub candidates-load_none :
    (tx : Texts) (trim_space : Bytes → Bytes) (countries_raw location : Bytes)
    (opened : Option ReaderAt)
    → ((f : ReaderAt) (h : Header) → opened ≡ some f → read_header f ≢ ok h)
    → candidates tx (load tx trim_space countries_raw opened) location ≡ []
unfolding candidates load open_table
candidates-load_none tx trim_space countries_raw location none h = refl
candidates-load_none tx trim_space countries_raw location (some f) h =
    ground (arith, table_with-none f (read_header f) (λ hd e. h f hd refl e))

-- ===== src/Gazetteer/Candidates.antt =====
-- server/internal/gazetteer/gazetteer.go: what a "City, Country" string can mean, and the pick among that.
pub mod Best
pub mod Matching
pub mod Named
use check_in.Prelude.{
  ℕ, suc, ◌+◌, Bool, true, false, Option, none, some, List, [], ◌∷◌, ◌++◌, ◌||◌, ltb, ◌==◌,
  if◌then◌else◌, take, drop, Result, ok, err, panic, out_of_fuel, ◌>>=◌, ℤ, pos, negsuc,
  comparable_nat, nat_beq,
}
use check_in.Slice.{Bytes, bytes_eq}
use check_in.Maps.{comparable_bytes}
use check_in.Maps
use check_in.Db.Events.{Texts, join_words}
use check_in.Gazetteer.{GazetteerError, Table, LookupResult, fnv1a64, lookup, read_int32_at}

-- The file and its header are there when the source's `ok` is set.
pub record Index : Type 0 where
  pub country_iso_by_name : List (Bytes × Bytes)
  pub table : Option Table

-- `Lat` and `Lng` in hundred-thousandths of a degree
pub record Candidate : Type 0 where
  pub lat : ℤ
  pub lng : ℤ
  pub population : ℤ

unfoldable pub normalize_key : Texts → Bytes → Bytes
normalize_key tx s = tx.to_lower (join_words (tx.fields s))

unfoldable pub candidate_at : Table → ℕ → Result GazetteerError Candidate
candidate_at t entry = do
  lat ← read_int32_at t t.h.lat_offset entry
  lng ← read_int32_at t t.h.lng_offset entry
  population ← read_int32_at t t.h.population_offset entry
  ok (record { lat = lat; lng = lng; population = population })

unfoldable pub candidates_of : Table → List ℕ → Result GazetteerError (List Candidate)
unfolding candidate_at
candidates_of t [] = ok []
candidates_of t (entry ∷ entries) = do
  c ← candidate_at t entry
  cs ← candidates_of t entries
  ok (c ∷ cs)

abbrev pub is_zero : ℤ → Bool
is_zero (pos n) = n == 0
is_zero (negsuc n) = false

unfoldable pub all_zero_population : Table → List ℕ → Result GazetteerError Bool
all_zero_population t [] = ok true
all_zero_population t (entry ∷ entries) = do
  population ← read_int32_at t t.h.population_offset entry
  elim (is_zero population) [ true ↦ all_zero_population t entries | false ↦ ok false ]

-- the switch over the two tiers
unfoldable pub by_tiers : Table → List ℕ → List ℕ → Result GazetteerError (List Candidate)
by_tiers t [] [] = ok []
by_tiers t [] (a ∷ alias) = candidates_of t (a ∷ alias)
by_tiers t (p ∷ primary) [] = candidates_of t (p ∷ primary)
by_tiers t (p ∷ primary) (a ∷ alias) = do
  all_zero ← all_zero_population t (p ∷ primary)
  if all_zero then candidates_of t ((p ∷ primary) ++ (a ∷ alias)) else candidates_of t (p ∷ primary)

-- `strings.LastIndex(location, ",")`
unfoldable pub last_comma : Bytes → Option ℕ
last_comma [] = none
last_comma (b ∷ bs) = elim (last_comma bs) [
  | some i ↦ some (suc i)
  | none ↦ if b == b',' then some 0 else none
]

-- the country's code and the city that a location names, where it names both
unfoldable pub split_location : Texts → List (Bytes × Bytes) → Bytes → Option (Bytes × Bytes)
unfolding last_comma normalize_key
split_location tx countries location = elim (last_comma location) [
  | none ↦ none
  | some comma ↦
      let city = normalize_key tx (take comma location) in
      let country = normalize_key tx (drop (comma + 1) location) in
      if bytes_eq city [] || bytes_eq country []
      then none
      else elim (Maps.lookup country countries) [ none ↦ none | some iso ↦ some (iso, city) ]
]

-- `iso + "\x00" + city`
abbrev pub key_text : Bytes → Bytes → Bytes
key_text iso city = iso ++ 0 ∷ city

unfoldable pub table_candidates :
    Texts → List (Bytes × Bytes) → Table → Bytes → Result GazetteerError (List Candidate)
table_candidates tx countries t location = elim (split_location tx countries location) [
  | none ↦ ok []
  | some (iso, city) ↦ do
    matches ← lookup t (fnv1a64 (key_text iso city))
    by_tiers t matches.primary matches.alias
]

-- `Candidates`, on the index that `get` returns
unfoldable pub candidates : Texts → Index → Bytes → List Candidate
candidates tx idx location = elim idx.table [
  | none ↦ []
  | some t ↦ elim (table_candidates tx idx.country_iso_by_name t location) [ ok cs ↦ cs | _ ↦ [] ]
]

-- `<` on int
abbrev pub int_lt : ℤ → ℤ → Bool
int_lt (pos a) (pos b) = ltb a b
int_lt (pos a) (negsuc b) = false
int_lt (negsuc a) (pos b) = true
int_lt (negsuc a) (negsuc b) = ltb b a

unfoldable pub most_populous : Candidate → List Candidate → Candidate
most_populous best [] = best
most_populous best (c ∷ cs) =
    most_populous (if int_lt best.population c.population then c else best) cs

unfoldable pub pick : List Candidate → Option (ℤ × ℤ)
unfolding most_populous
pick [] = none
pick (c ∷ cs) = let best = most_populous c cs in some (best.lat, best.lng)

-- `Resolve`; `none` where the source reports `ok` as false.
unfoldable pub resolve : Texts → Index → Bytes → Option (ℤ × ℤ)
resolve tx idx location = pick (candidates tx idx location)

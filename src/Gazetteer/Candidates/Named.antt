-- ===== src/Gazetteer/Candidates/Named.antt =====
-- server/internal/gazetteer/gazetteer.go: what `Candidates` answers for a "City, Country" string, in terms of
-- the names of the places and not of their hashes.
use check_in.Prelude.{
  ℕ, ◌+◌, ◌≡◌, ◌≢◌, refl, ap, ap₂, ◌∙◌, Bool, true, false, not, ◌&&◌, Option, none, some, List, [],
  ◌∷◌, ◌++◌, ◌==◌, if◌then◌else◌, length, take, drop, suc, arith, inl, inr, comparable_nat,
  Option-cases, Bool-cases,
}
use check_in.Slice.{Bytes, bytes_eq}
use check_in.Maps.{lookup, comparable_bytes, bytes_eq_iff}
use check_in.Sorting.{All}
use check_in.Db.Events.{Texts}
use check_in.Gazetteer.{ReaderAt, fnv1a64, flag_primary}
use check_in.Gazetteer.Packed.{Row, Entry, packed, Holds, IsDataset}
use check_in.Gazetteer.Found.{tier}
use check_in.Gazetteer.Load.{load}
use check_in.Gazetteer.Candidates.{
  Candidate, normalize_key, last_comma, split_location, key_text, candidates,
}
use check_in.Gazetteer.Candidates.Matching.{places, deserted, meant, candidates-load}

-- A name that a place of a country has, as its own or as another one.
pub record Named : Type 0 where
  pub iso : Bytes
  pub name : Bytes
  pub entry : ℕ
  pub flag : ℕ

-- The row that such a name is packed as: the hash of the country's code, a zero byte and the name.
abbrev pub named_row : Named → Row
named_row r = record { hash = fnv1a64 (r.iso ++ 0 ∷ r.name); entry = r.entry; flag = r.flag }

abbrev pub rows_of : List Named → List Row
rows_of [] = []
rows_of (r ∷ names) = named_row r ∷ rows_of names

-- The places of a country that have a name, as their own or as another one, in the order of the table.
abbrev pub places_named : Bool → Bytes → Bytes → List Named → List ℕ
places_named own iso name [] = []
places_named own iso name (r ∷ names) =
    if (bytes_eq r.iso iso && bytes_eq r.name name)
      && (if own then r.flag == flag_primary else not (r.flag == flag_primary))
    then r.entry ∷ places_named own iso name names
    else places_named own iso name names

-- No other name of the table has the hash of this one.
abbrev pub Collides : Bytes → Bytes → Named → Type 0
Collides iso name r =
    (fnv1a64 (r.iso ++ 0 ∷ r.name) ≡ fnv1a64 (iso ++ 0 ∷ name)) → ((r.iso ≡ iso) × (r.name ≡ name))

abbrev pub matching_named : List Named → List Entry → Bytes → Bytes → List Candidate
matching_named names entries iso name =
    let own = places_named true iso name names in
    let other = places_named false iso name names in
    places entries (if deserted entries own then own ++ other else own)

tier-places_named :
    (own : Bool) (iso name : Bytes) (names : List Named)
    → All (Collides iso name) names
    → tier own (fnv1a64 (key_text iso name)) (rows_of names) ≡ places_named own iso name names
tier-places_named own iso name [] h = refl
tier-places_named own iso name (r ∷ names) h =
    let rest = tier-places_named own iso name names h.1 in
    elim (Bool-cases (fnv1a64 (r.iso ++ 0 ∷ r.name) == fnv1a64 (iso ++ 0 ∷ name))) [
      | inl e ↦
          let same = h.0 ((comparable_nat.same_iff _ _).0 e) in
          let iso_eq = (bytes_eq_iff r.iso iso).1 same.0 in
          let name_eq = (bytes_eq_iff r.name name).1 same.1 in rw (e, iso_eq, name_eq, rest) refl
      | inr e ↦ elim (Bool-cases (bytes_eq r.iso iso && bytes_eq r.name name)) [
        | inl d ↦
            let iso_eq : r.iso ≡ iso = (bytes_eq_iff r.iso iso).0 (ground (arith, d)) in
            let name_eq : r.name ≡ name = (bytes_eq_iff r.name name).0 (ground (arith, d)) in
            absurd (different _ e (ap₂ (λ i n. fnv1a64 (i ++ 0 ∷ n)) iso_eq name_eq))
        | inr d ↦ rw (e, d, rest) refl
      ]
    ]
  where
    different : {n : ℕ} (m : ℕ) → (m == n) ≡ false → m ≢ n
    different m e h = ground (arith, e, h)

-- A text without a comma.
abbrev pub HasNoComma : Bytes → Type 0
HasNoComma s = All (λ b. b ≢ b',') s

last_comma-none : (s : Bytes) → HasNoComma s → last_comma s ≡ none
unfolding last_comma
last_comma-none [] h = refl
last_comma-none (b ∷ s) h = ground (arith, h.0, last_comma-none s h.1)

last_comma_between :
    (city country : Bytes)
    → HasNoComma country
    → last_comma (city ++ b',' ∷ country) ≡ some (length city)
unfolding last_comma
last_comma_between [] country h = ground (arith, last_comma-none country h)
last_comma_between (b ∷ city) country h = ground (arith, last_comma_between city country h)

take_first : (xs ys : Bytes) → take (length xs) (xs ++ ys) ≡ xs
take_first [] ys = refl
take_first (x ∷ xs) ys = ap (λ zs. x ∷ zs) (take_first xs ys)

drop_first : (xs ys : Bytes) (y : ℕ) → drop (length xs + 1) (xs ++ y ∷ ys) ≡ ys
drop_first [] ys y = refl
drop_first (x ∷ xs) ys y =
    let e : suc (length xs) + 1 ≡ suc (length xs + 1) = omega arith in rw e (drop_first xs ys y)

filled : (s : Bytes) → s ≢ [] → bytes_eq s [] ≡ false
filled [] h = absurd (h refl)
filled (b ∷ s) h = refl

abbrev pub with_city : Option Bytes → Bytes → Option (Bytes × Bytes)
with_city none city = none
with_city (some iso) city = some (iso, city)

split_location-with_city :
    (tx : Texts) (countries : List (Bytes × Bytes)) (city country : Bytes)
    → HasNoComma country
    → normalize_key tx city ≢ []
    → normalize_key tx country ≢ []
    → split_location tx countries (city ++ b',' ∷ country)
      ≡ with_city (lookup (normalize_key tx country) countries) (normalize_key tx city)
unfolding split_location
split_location-with_city tx countries city country h c n =
    rw
      (
        last_comma_between city country h,
        take_first city (b',' ∷ country),
        drop_first city country b',',
        filled (normalize_key tx city) c,
        filled (normalize_key tx country) n,
        split_location,
      )
      (elim (Option-cases (lookup (normalize_key tx country) countries)) [
        | inl e ↦ ground (arith, e, take_first city (b',' ∷ country), drop_first city country b',')
        | inr (iso, e) ↦
            ground (arith, e, take_first city (b',' ∷ country), drop_first city country b',')
      ])

-- Of the country with a code, if it is known, no other name of the table has the hash of the name.
abbrev pub IsApart : Option Bytes → Bytes → List Named → Type 0
IsApart none name names = Unit
IsApart (some iso) name names = All (Collides iso name) names

abbrev pub named_in : List Named → List Entry → Option Bytes → Bytes → List Candidate
named_in names entries none name = []
named_in names entries (some iso) name = matching_named names entries iso name

meant-named_in :
    (names : List Named) (entries : List Entry) (o : Option Bytes) (name : Bytes)
    → IsApart o name names
    → meant (rows_of names) entries (with_city o name) ≡ named_in names entries o name
meant-named_in names entries none name h = refl
meant-named_in names entries (some iso) name h =
    rw (tier-places_named true iso name names h, tier-places_named false iso name names h) refl

-- For a city, a comma and a country, both with words in them and the country without a comma, `candidates`
-- answers on the index that `load` makes of the countries and of a file that holds packed names: nothing if
-- the country is not known, and else every place of the country with the city's name as its own, joined by
-- those that have it as another name only where all of the former have a population of 0. The names are
-- compared in lower case with single blanks, and no other name of the table has the hash of this one.
pub candidates-named_in :
    (f : ReaderAt) (names : List Named) (entries : List Entry)
    → IsDataset (rows_of names) entries
    → Holds f (packed (rows_of names) entries)
    → (tx : Texts) (trim_space : Bytes → Bytes) (countries_raw city country : Bytes)
    → HasNoComma country
    → normalize_key tx city ≢ []
    → normalize_key tx country ≢ []
    → let iso =
        lookup
          (normalize_key tx country)
          (load tx trim_space countries_raw (some f)).country_iso_by_name in
      IsApart iso (normalize_key tx city) names
      → candidates tx (load tx trim_space countries_raw (some f)) (city ++ b',' ∷ country)
        ≡ named_in names entries iso (normalize_key tx city)
candidates-named_in f names entries dataset holds tx trim_space raw city country h c n apart =
    let countries = (load tx trim_space raw (some f)).country_iso_by_name in
    candidates-load f (rows_of names) entries dataset holds tx trim_space raw
      (city ++ b',' ∷ country)
    ∙ ap (meant (rows_of names) entries) (split_location-with_city tx countries city country h c n)
    ∙ meant-named_in names entries (lookup (normalize_key tx country) countries)
        (normalize_key tx city) apart

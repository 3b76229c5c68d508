-- ===== src/Gazetteer/Tests.antt =====
-- server/internal/gazetteer/gazetteer.go: tests, and the theorems at a small dataset.
use check_in.Prelude.{
  ◌≢◌, subst, subst₂, ℕ, ◌+◌, ◌≡◌, refl, true, false, none, some, List, [], ◌∷◌, ◌++◌, map, length,
  take, drop, leb, ◌==◌, ◌&&◌, if◌then◌else◌, arith, ok, pos, negsuc, comparable_nat,
}
use check_in.Slice.{Bytes}
use check_in.Db.Events.{Texts}
use check_in.Gazetteer.{
  ReaderAt, Header, fnv1a64, lookup, read_header, search_hash, scan, read_uint64_at, read_uint32_at,
  read_int32_at, read_flag_at, read,
}
use check_in.Gazetteer.Packed.{Row, Entry, packed, pack_header, Holds, IsDataset}
use check_in.Gazetteer.Packed.Preamble.{read_header-pack_header}
use check_in.Gazetteer.Packed.Cells.{table}
use check_in.Gazetteer.Found.{tier, lookup-tier}
use check_in.Gazetteer.Load.{load, open_table, add_countries, split_lines}
use check_in.Gazetteer.Candidates.{
  Index, split_location, candidates, resolve, table_candidates, by_tiers, candidates_of,
  candidate_at, all_zero_population, pick, normalize_key,
}
use check_in.Gazetteer.Candidates.Best.{Resolved, resolve-Resolved}
use check_in.Maps
use check_in.Maps.{comparable_bytes}
use check_in.Gazetteer.Candidates.Named.{
  Named, HasNoComma, IsApart, rows_of, named_in, candidates-named_in,
}

-- a file whose reads give its bytes
abbrev file_of : Bytes → ReaderAt
file_of d = record {
  read_at = λ at n. if leb (at + n) (length d) then some (take n (drop at d)) else none;
}

file_of-Holds : (d : Bytes) → Holds (file_of d) d
file_of-Holds d = record { reads = λ at n h. ground arith }

abbrev lower : ℕ → ℕ
lower b = if leb b'A' b && leb b b'Z' then b + 32 else b

-- words between blanks
abbrev words_from : Bytes → Bytes → List Bytes
words_from word [] = if length word == 0 then [] else word ∷ []
words_from word (b ∷ bs) = elim (b == b' ') [
  | false ↦ words_from (word ++ b ∷ []) bs
  | true ↦ if length word == 0 then words_from [] bs else word ∷ words_from [] bs
]

abbrev texts : Texts
texts = record { to_lower = map lower; fields = words_from [] }

abbrev trim_space : Bytes → Bytes
trim_space s = s

fnv1a64_empty : fnv1a64 [] ≡ 14695981039346656037
unfolding fnv1a64
fnv1a64_empty = refl

fnv1a64_a : fnv1a64 (b'a' ∷ []) ≡ 0xaf63dc4c8601ec8c
unfolding fnv1a64
fnv1a64_a = refl

abbrev lisbon : Bytes
lisbon = b'l' ∷ b'i' ∷ b's' ∷ b'b' ∷ b'o' ∷ b'n' ∷ []

abbrev lisbon_hash : ℕ
lisbon_hash = 14439095208091989672

hash_of_lisbon : fnv1a64 ((b'P' ∷ b'T' ∷ []) ++ 0 ∷ lisbon) ≡ lisbon_hash
unfolding fnv1a64
hash_of_lisbon = refl

abbrev rows : List Row
rows =
    record { hash = 4441917826266657081; entry = 2; flag = 1 }
    ∷ record { hash = lisbon_hash; entry = 1; flag = 0 }
    ∷ record { hash = lisbon_hash; entry = 0; flag = 1 }
    ∷ []

abbrev entries : List Entry
entries =
    record { lat = pos 3940000; lng = negsuc 839999; population = pos 0 }
    ∷ record { lat = pos 3871667; lng = negsuc 913332; population = pos 517802 }
    ∷ record { lat = pos 4114961; lng = negsuc 861098; population = pos 249633 }
    ∷ []

rows-IsDataset : IsDataset rows entries
rows-IsDataset = record {
  sorted = ((refl, (refl, tt)), ((refl, tt), (tt, tt)));
  rows_fit = omega arith;
  entries_fit = omega arith;
  few_rows = omega arith;
  few_entries = omega arith;
}

abbrev dataset : ReaderAt
dataset = file_of (packed rows entries)

lookup-tier_example :
    lookup
      (table dataset rows entries rows-IsDataset (file_of-Holds (packed rows entries)))
      lisbon_hash
    ≡ ok (record { primary = tier true lisbon_hash rows; alias = tier false lisbon_hash rows })
lookup-tier_example =
    lookup-tier dataset rows entries rows-IsDataset (file_of-Holds (packed rows entries))
      lisbon_hash

-- "PT<tab>Portugal"
abbrev countries_raw : Bytes
countries_raw =
    b'P' ∷ b'T' ∷ 9 ∷ b'P' ∷ b'o' ∷ b'r' ∷ b't' ∷ b'u' ∷ b'g' ∷ b'a' ∷ b'l' ∷ 0x0d ∷ 0x0a ∷ []

-- " LISBON,Portugal"
abbrev location : Bytes
location =
    b' ' ∷ b'L' ∷ b'I' ∷ b'S' ∷ b'B' ∷ b'O' ∷ b'N' ∷ b',' ∷ b'P' ∷ b'o' ∷ b'r' ∷ b't' ∷ b'u' ∷ b'g'
    ∷ b'a' ∷ b'l' ∷ []

abbrev idx : Index
idx = load texts trim_space countries_raw (some dataset)

abbrev portugal : Bytes
portugal = b'P' ∷ b'T' ∷ []

abbrev names : List Named
names =
    record { iso = portugal; name = b'p' ∷ b'o' ∷ b'r' ∷ b't' ∷ b'o' ∷ []; entry = 2; flag = 1 }
    ∷ record { iso = portugal; name = lisbon; entry = 1; flag = 0 }
    ∷ record { iso = portugal; name = lisbon; entry = 0; flag = 1 }
    ∷ []

rows_of-names : rows ≡ rows_of names
unfolding fnv1a64
rows_of-names = refl

abbrev city_text : Bytes
city_text = b' ' ∷ b'L' ∷ b'I' ∷ b'S' ∷ b'B' ∷ b'O' ∷ b'N' ∷ []

abbrev country_text : Bytes
country_text = b'P' ∷ b'o' ∷ b'r' ∷ b't' ∷ b'u' ∷ b'g' ∷ b'a' ∷ b'l' ∷ []

city_key : lisbon ≡ normalize_key texts city_text
unfolding normalize_key
city_key = refl

country_given : normalize_key texts country_text ≢ []
unfolding normalize_key
country_given = λ e. cc

country_known :
    some portugal ≡ Maps.lookup (normalize_key texts country_text) idx.country_iso_by_name
unfolding normalize_key load add_countries split_lines
country_known = refl

lisbon-IsApart : IsApart (some portugal) lisbon names
unfolding fnv1a64
lisbon-IsApart = (λ h. absurd (omega (arith, h)), (λ h. (refl, refl), (λ h. (refl, refl), tt)))

no_comma : HasNoComma country_text
no_comma = (
  λ e. omega (arith, e),
  (
    λ e. omega (arith, e),
    (
      λ e. omega (arith, e),
      (
        λ e. omega (arith, e),
        (
          λ e. omega (arith, e),
          (λ e. omega (arith, e), (λ e. omega (arith, e), (λ e. omega (arith, e), tt))),
        ),
      ),
    ),
  ),
)

city_given : normalize_key texts city_text ≢ []
city_given = subst (λ c. c ≢ []) city_key (λ e. cc)

text-IsApart :
    IsApart
      (Maps.lookup (normalize_key texts country_text) idx.country_iso_by_name)
      (normalize_key texts city_text)
      names
text-IsApart = subst₂ (λ o c. IsApart o c names) country_known city_key lisbon-IsApart

names-IsDataset : IsDataset (rows_of names) entries
names-IsDataset = subst (λ rs. IsDataset rs entries) rows_of-names rows-IsDataset

dataset-Holds : Holds dataset (packed (rows_of names) entries)
dataset-Holds =
    subst (λ rs. Holds dataset (packed rs entries)) rows_of-names
      (file_of-Holds (packed rows entries))

candidates-named_in_example :
    candidates texts idx (city_text ++ b',' ∷ country_text)
    ≡ named_in names entries
        (Maps.lookup (normalize_key texts country_text) idx.country_iso_by_name)
        (normalize_key texts city_text)
candidates-named_in_example =
    candidates-named_in dataset names entries names-IsDataset dataset-Holds texts trim_space
      countries_raw city_text country_text no_comma city_given country_given text-IsApart

resolve-Resolved_example : Resolved (candidates texts idx location) (resolve texts idx location)
resolve-Resolved_example = resolve-Resolved texts idx location

abbrev header : Header
header = record {
  key_count = 3;
  hashes_offset = 60;
  entry_indices_offset = 84;
  flags_offset = 96;
  lat_offset = 99;
  lng_offset = 111;
  population_offset = 123;
}

read_header-pack_header_example : read_header (file_of (pack_header 3 header ++ [])) ≡ ok header
read_header-pack_header_example =
    read_header-pack_header (file_of (pack_header 3 header ++ [])) 3 header []
      (file_of-Holds (pack_header 3 header ++ [])) (omega arith)

-- The place with the name as its own has nobody in it, so the other one counts too, and is taken.
resolve_lisbon : resolve texts idx location ≡ some (pos 3871667, negsuc 913332)
unfolding resolve candidates load table_candidates split_location lookup search_hash scan
    read_uint64_at read_uint32_at read_int32_at read_flag_at read by_tiers candidates_of
    candidate_at all_zero_population pick packed fnv1a64 open_table read_header add_countries
    split_lines
resolve_lisbon = refl

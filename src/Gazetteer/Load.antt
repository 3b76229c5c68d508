-- ===== src/Gazetteer/Load.antt =====
-- server/internal/gazetteer/gazetteer.go: `load`, the table of countries and the opening of the dataset.
--
-- The file arrives as `os.Open` answers, and what is logged is left out.
use check_in.Prelude.{
  ℕ, true, false, ◌||◌, Option, none, some, List, [], ◌∷◌, ◌==◌, if◌then◌else◌, Result, ok, err,
  panic, out_of_fuel, comparable_nat,
}
use check_in.Slice.{Bytes, bytes_eq}
use check_in.Maps.{comparable_bytes, upsert}
use check_in.Db.Events.{Texts}
use check_in.Gazetteer.{ReaderAt, Table, Header, GazetteerError, read_header}
use check_in.Gazetteer.Candidates.{Index, normalize_key}

-- `strings.Cut(s, sep)` at one byte: what is before it, what is after it, and whether it is there
unfoldable pub cut : ℕ → Bytes → Option (Bytes × Bytes)
cut sep [] = none
cut sep (b ∷ bs) =
    if b == sep
    then some ([], bs)
    else elim (cut sep bs) [ none ↦ none | some (before, after) ↦ some (b ∷ before, after) ]

onto_first : ℕ → List Bytes → List Bytes
onto_first b [] = (b ∷ []) ∷ []
onto_first b (line ∷ lines) = (b ∷ line) ∷ lines

-- `strings.Split(s, sep)` at one byte
unfoldable pub split_lines : ℕ → Bytes → List Bytes
unfolding onto_first
split_lines sep [] = [] ∷ []
split_lines sep (b ∷ bs) = elim (b == sep) [
  | true ↦ [] ∷ split_lines sep bs
  | false ↦ onto_first b (split_lines sep bs)
]

-- `strings.TrimRight(line, "\r")`
unfoldable pub trim_cr : Bytes → Bytes
trim_cr [] = []
trim_cr (b ∷ bs) = elim (trim_cr bs) [ [] ↦ if b == 0x0d then [] else b ∷ [] | c ∷ cs ↦ b ∷ c ∷ cs ]

-- One line of the table. A line that is empty has no tab.
unfoldable pub add_country :
    Texts → (Bytes → Bytes) → Bytes → List (Bytes × Bytes) → List (Bytes × Bytes)
unfolding cut trim_cr
add_country tx trim_space line countries = elim (cut 0x09 (trim_cr line)) [
  | none ↦ countries
  | some (before, after) ↦
      let iso = trim_space before in
      let name = trim_space after in
      if bytes_eq iso [] || bytes_eq name []
      then countries
      else upsert (normalize_key tx name) (λ _. iso) countries
]

unfoldable pub add_countries :
    Texts → (Bytes → Bytes) → List Bytes → List (Bytes × Bytes) → List (Bytes × Bytes)
unfolding add_country
add_countries tx trim_space [] countries = countries
add_countries tx trim_space (line ∷ lines) countries =
    add_countries tx trim_space lines (add_country tx trim_space line countries)

abbrev pub table_with : ReaderAt → Result GazetteerError Header → Option Table
table_with f (ok h) = some (record { f = f; h = h })
table_with f (err e) = none
table_with f panic = none
table_with f out_of_fuel = none

unfoldable pub open_table : Option ReaderAt → Option Table
open_table none = none
open_table (some f) = table_with f (read_header f)

unfoldable pub load : Texts → (Bytes → Bytes) → Bytes → Option ReaderAt → Index
load tx trim_space countries_raw opened = record {
  country_iso_by_name = add_countries tx trim_space (split_lines 0x0a countries_raw) [];
  table = open_table opened;
}

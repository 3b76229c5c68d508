-- ===== src/Gazetteer/Packed.antt =====
-- server/internal/gazetteer/gazetteer.go: a dataset in the layout that the package reads, and that its
-- reads find the rows in it. The layout is that of server/internal/gazetteer/data/pack_places.py.
pub mod Columns
pub mod Preamble
pub mod Cells
use check_in.Prelude.{
  ℕ, zero, suc, ◌+◌, ◌-◌, ◌*◌, ◌/◌, ◌%◌, ◌^◌, ◌≤◌, ◌<◌, ◌≡◌, List, [], ◌∷◌, ◌++◌, length, take,
  drop, some, arith, ltb, ℤ, pos, negsuc, Bool,
}
use check_in.Slice.{Bytes}
use check_in.Sorting.{All, Ordered}
use check_in.Gazetteer.{ReaderAt, Header, magic, header_size}

-- A row of the key table.
pub record Row : Type 0 where
  pub hash : ℕ
  pub entry : ℕ
  pub flag : ℕ

-- A place.
pub record Entry : Type 0 where
  pub lat : ℤ
  pub lng : ℤ
  pub population : ℤ

-- `n` bytes of a number, the lowest first
abbrev pub le_bytes : ℕ → ℕ → Bytes
le_bytes zero v = []
le_bytes (suc n) v = (v % 256) ∷ le_bytes n (v / 256)

-- the word of an int32
abbrev pub word32 : ℤ → ℕ
word32 (pos n) = n
word32 (negsuc n) = 2 ^ 32 - 1 - n

-- One column: the same field of every row, `n` bytes each.
abbrev pub column {ℓ} : {A : Type ℓ} → ℕ → (A → ℕ) → List A → Bytes
column n field [] = []
column n field (x ∷ xs) = le_bytes n (field x) ++ column n field xs

abbrev pub pack_header : ℕ → Header → Bytes
pack_header entry_count h =
    magic
    ++ (le_bytes 4 h.key_count
        ++ (le_bytes 8 h.hashes_offset
            ++ (le_bytes 8 h.entry_indices_offset
                ++ (le_bytes 8 h.flags_offset
                    ++ (le_bytes 4 entry_count
                        ++ (le_bytes 8 h.lat_offset
                            ++ (le_bytes 8 h.lng_offset ++ le_bytes 8 h.population_offset)))))))

-- where each column begins
unfoldable pub header_of : ℕ → ℕ → Header
header_of keys entries = record {
  key_count = keys;
  hashes_offset = header_size;
  entry_indices_offset = header_size + 8 * keys;
  flags_offset = header_size + 8 * keys + 4 * keys;
  lat_offset = header_size + 8 * keys + 4 * keys + keys;
  lng_offset = header_size + 8 * keys + 4 * keys + keys + 4 * entries;
  population_offset = header_size + 8 * keys + 4 * keys + keys + 4 * entries + 4 * entries;
}

-- the whole file
unfoldable pub packed : List Row → List Entry → Bytes
unfolding header_of
packed rows entries =
    pack_header (length entries) (header_of (length rows) (length entries))
    ++ (column 8 (λ r. r.hash) rows
        ++ (column 4 (λ r. r.entry) rows
            ++ (column 1 (λ r. r.flag) rows
                ++ (column 4 (λ e. word32 e.lat) entries
                    ++ (column 4 (λ e. word32 e.lng) entries
                        ++ column 4 (λ e. word32 e.population) entries)))))

-- `ReadAt` of a file that holds these bytes, and of which no read fails.
pub record Holds (f : ReaderAt) (d : Bytes) : Type 0 where
  pub reads : (at n : ℕ) → at + n ≤ length d → f.read_at at n ≡ some (take n (drop at d))

abbrev pub hash_lt : Row → Row → Bool
hash_lt a b = ltb a.hash b.hash

abbrev pub FitsInt32 : ℤ → Type 0
FitsInt32 (pos n) = n < 2 ^ 31
FitsInt32 (negsuc n) = n < 2 ^ 31

abbrev pub RowFits : ℕ → Row → Type 0
RowFits entries r = (r.hash < 2 ^ 64) × (r.entry < entries) × (r.flag < 256)

abbrev pub EntryFits : Entry → Type 0
EntryFits e = FitsInt32 e.lat × FitsInt32 e.lng × FitsInt32 e.population

-- What the packer sees to: rows in the order of their hashes, each of a place that is there, and numbers
-- that fit their columns.
pub record IsDataset (rows : List Row) (entries : List Entry) : Type 0 where
  pub sorted : Ordered hash_lt rows
  pub rows_fit : All (RowFits (length entries)) rows
  pub entries_fit : All EntryFits entries
  pub few_rows : length rows < 2 ^ 32
  pub few_entries : length entries < 2 ^ 32

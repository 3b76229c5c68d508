-- ===== src/Gazetteer.antt =====
-- server/internal/gazetteer/gazetteer.go: the dataset of places on disk, and the search in it.
--
-- Strings are their bytes. A position in the file is the 64-bit word of an int64, a count or an index a
-- uint32. Coordinates stay the fixed-point numbers of the file: the division by 100000 into a float64 is
-- left out. A file is a parameter, as what (*os.ReaderAt).ReadAt answers, and so are strings.ToLower,
-- strings.Fields and strings.TrimSpace.
pub mod Load
pub mod Packed
pub mod Found
pub mod Candidates
mod Tests
use Prim.Native.Nat.{bit_xor}
use check_in.Prelude.{
  ℕ, zero, suc, ◌+◌, ◌-◌, ◌*◌, ◌/◌, ◌%◌, ◌^◌, Bool, true, false, Option, none, some, List, [], ◌∷◌,
  ◌++◌, ltb, leb, ◌==◌, if◌then◌else◌, length, take, drop, Result, ok, err, panic, out_of_fuel,
  ◌>>=◌, ℤ, pos, negsuc, comparable_nat,
}
use check_in.Slice.{Bytes, byte_at, bytes_eq}

-- `ReadAt` of a position and a length; `none` is any error, a short read among them.
pub record ReaderAt : Type 0 where
  pub read_at : ℕ → ℕ → Option Bytes

pub data GazetteerError : Type 0 where
  read_failed bad_magic : GazetteerError

pub read : ReaderAt → ℕ → ℕ → Result GazetteerError Bytes
read f at n = elim (f.read_at at n) [ none ↦ err read_failed | some b ↦ ok b ]

-- `binary.LittleEndian`
abbrev pub little_endian : Bytes → ℕ
little_endian [] = 0
little_endian (b ∷ bs) = b + 256 * little_endian bs

abbrev pub fnv_offset : ℕ
fnv_offset = 14695981039346656037

abbrev pub fnv_prime : ℕ
fnv_prime = 1099511628211

pub fnv1a_from : ℕ → Bytes → ℕ
fnv1a_from h [] = h
fnv1a_from h (b ∷ bs) = fnv1a_from ((bit_xor h b * fnv_prime) % 2 ^ 64) bs

pub fnv1a64 : Bytes → ℕ
unfolding fnv1a_from
fnv1a64 s = fnv1a_from fnv_offset s

pub record Header : Type 0 where
  pub key_count : ℕ
  pub hashes_offset : ℕ
  pub entry_indices_offset : ℕ
  pub flags_offset : ℕ
  pub lat_offset : ℕ
  pub lng_offset : ℕ
  pub population_offset : ℕ

abbrev pub magic : Bytes
magic = b'P' ∷ b'L' ∷ b'C' ∷ b'3' ∷ []

abbrev pub header_size : ℕ
header_size = 60

-- `binary.Read` of `n` bytes: their number, and the reader behind them
pub read_field : ℕ → Bytes → Result GazetteerError (ℕ × Bytes)
read_field n r =
    if leb n (length r) then ok (little_endian (take n r), drop n r) else err read_failed

-- the fields behind the magic
pub parse_fields : Bytes → Result GazetteerError Header
unfolding read_field
parse_fields r = do
  keys ← read_field 4 r
  hashes ← read_field 8 keys.1
  indices ← read_field 8 hashes.1
  flags ← read_field 8 indices.1
  entries ← read_field 4 flags.1
  lat ← read_field 8 entries.1
  lng ← read_field 8 lat.1
  population ← read_field 8 lng.1
  ok (record {
    key_count = keys.0;
    hashes_offset = hashes.0;
    entry_indices_offset = indices.0;
    flags_offset = flags.0;
    lat_offset = lat.0;
    lng_offset = lng.0;
    population_offset = population.0;
  })

pub parse_header : Bytes → Result GazetteerError Header
unfolding parse_fields
parse_header buf = if bytes_eq (take 4 buf) magic then parse_fields (drop 4 buf) else err bad_magic

pub read_header : ReaderAt → Result GazetteerError Header
unfolding read parse_header
read_header f = do buf ← read f 0 header_size; parse_header buf

-- `f` and `h` of an index whose `ok` is set
pub record Table : Type 0 where
  pub f : ReaderAt
  pub h : Header

-- `offset + int64(i)*size`
abbrev pub cell : ℕ → ℕ → ℕ → ℕ
cell offset i size = (offset + i * size) % 2 ^ 64

pub read_uint64_at : Table → ℕ → ℕ → Result GazetteerError ℕ
unfolding read
read_uint64_at t offset i = do buf ← read t.f (cell offset i 8) 8; ok (little_endian buf)

pub read_uint32_at : Table → ℕ → ℕ → Result GazetteerError ℕ
unfolding read
read_uint32_at t offset i = do buf ← read t.f (cell offset i 4) 4; ok (little_endian buf)

-- `int32(v)`
abbrev pub signed32 : ℕ → ℤ
signed32 v = if ltb v (2 ^ 31) then pos v else negsuc (2 ^ 32 - v - 1)

pub read_int32_at : Table → ℕ → ℕ → Result GazetteerError ℤ
unfolding read_uint32_at
read_int32_at t offset i = do v ← read_uint32_at t offset i; ok (signed32 v)

pub read_flag_at : Table → ℕ → Result GazetteerError ℕ
unfolding read
read_flag_at t i = do buf ← read t.f (cell t.h.flags_offset i 1) 1; ok (byte_at buf 0)

abbrev pub flag_primary : ℕ
flag_primary = 1

abbrev pub flag_alias : ℕ
flag_alias = 0

pub record LookupResult : Type 0 where
  pub primary : List ℕ
  pub alias : List ℕ

-- The binary search, on fuel.
pub search_hash : Table → ℕ → ℕ → ℕ → ℕ → Result GazetteerError ℕ
search_hash t hash zero lo hi = out_of_fuel
search_hash t hash (suc fuel) lo hi =
    let mid = (lo + (hi - lo) / 2) % 2 ^ 32 in
    let rest = read_uint64_at t t.h.hashes_offset mid >>= λ h. elim (ltb h hash) [
      | true ↦ search_hash t hash fuel ((mid + 1) % 2 ^ 32) hi
      | false ↦ search_hash t hash fuel lo mid
    ] in
    if ltb lo hi then rest else ok lo

abbrev pub add_row : ℕ → ℕ → LookupResult → LookupResult
add_row entry flag result =
    if flag == flag_primary
    then record result { primary = result.primary ++ entry ∷ [] }
    else record result { alias = result.alias ++ entry ∷ [] }

-- The scan, with the rows left from `i` on.
pub scan : Table → ℕ → ℕ → ℕ → LookupResult → Result GazetteerError LookupResult
scan t hash zero i result = ok result
scan t hash (suc left) i result = do
  h ← read_uint64_at t t.h.hashes_offset i
  elim (h == hash) [
    | false ↦ ok result
    | true ↦ do
      entry ← read_uint32_at t t.h.entry_indices_offset i
      flag ← read_flag_at t i
      scan t hash left ((i + 1) % 2 ^ 32) (add_row entry flag result)
  ]

pub lookup : Table → ℕ → Result GazetteerError LookupResult
lookup t hash = do
  lo ← search_hash t hash (suc t.h.key_count) 0 t.h.key_count
  scan t hash (t.h.key_count - lo) lo (record { primary = []; alias = [] })

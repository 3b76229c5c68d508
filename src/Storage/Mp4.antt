-- ===== src/Storage/Mp4.antt =====
-- server/internal/storage/mp4.go: the boxes of an MP4 file, and the blanking of the metadata boxes.
--
-- The source cuts slices out of one buffer and writes through them. Here `d` is the buffer, and a
-- slice is a stretch of it, from `lo` to `hi`; a write returns the new buffer. `to_lower` stands for
-- strings.ToLower. The loop over the boxes takes fuel, one more than the bytes of the stretch.
pub mod Boxes
pub mod Blanked
pub mod Layout
pub mod Strip
pub mod Durations
pub mod Probe
mod Tests
use Prim.Native.Char.{code}
use Prim.Native.String.{String}
use check_in.Prelude.{
  NoError, ℕ, zero, suc, ◌+◌, ◌-◌, ◌*◌, Bool, true, false, not, ◌&&◌, ◌||◌, Option, none, some,
  List, [], ◌∷◌, ◌++◌, ltb, leb, ◌==◌, if◌then◌else◌, length, get_elem?, Result, ok, err, panic,
  out_of_fuel, ◌>>=◌, comparable_nat, min,
}
use check_in.Slice.{Bytes, slice, clear, bytes_eq}

-- A box: its type, and the stretch of its payload.
pub record Box : Type 0 where
  pub typ : Bytes
  pub start : ℕ
  pub stop : ℕ

abbrev pub max_box_depth : ℕ
max_box_depth = 8

abbrev pub max_box_siblings : ℕ
max_box_siblings = 4096

abbrev pub ascii : String → Bytes
ascii String.[] = []
ascii (String.◌∷◌ c s) = code c ∷ ascii s

pub member : List Bytes → Bytes → Bool
member [] t = false
member (x ∷ xs) t = bytes_eq x t || member xs t

abbrev pub mp4_containers : List Bytes
mp4_containers =
    ascii "moov"
    ∷ ascii "trak"
    ∷ ascii "mdia"
    ∷ ascii "minf"
    ∷ ascii "stbl"
    ∷ ascii "udta"
    ∷ ascii "edts"
    ∷ ascii "moof"
    ∷ ascii "traf"
    ∷ []

abbrev pub privacy_boxes : List Bytes
privacy_boxes =
    (0xA9 ∷ ascii "xyz")
    ∷ ascii "loci"
    ∷ ascii "gps "
    ∷ (0xA9 ∷ ascii "mak")
    ∷ (0xA9 ∷ ascii "mod")
    ∷ (0xA9 ∷ ascii "swr")
    ∷ (0xA9 ∷ ascii "too")
    ∷ (0xA9 ∷ ascii "day")
    ∷ []

abbrev pub privacy_key_tokens : List Bytes
privacy_key_tokens =
    ascii "location" ∷ ascii "make" ∷ ascii "model" ∷ ascii "software" ∷ ascii "creationdate" ∷ []

-- binary.BigEndian on the bytes of a number
abbrev pub big_endian : ℕ → Bytes → ℕ
big_endian n [] = n
big_endian n (b ∷ bs) = big_endian (n * 256 + b) bs

-- `data[i:j]` of a stretch that ends at `hi`
unfoldable pub window : Bytes → ℕ → ℕ → ℕ → Result NoError Bytes
window d hi i j = if leb j hi then slice d i j else panic

-- `clear` of the stretch from `lo` to `hi`
pub clear_window : Bytes → ℕ → ℕ → Result NoError Bytes
clear_window d lo hi = clear d lo (hi - lo)

pub valid_box_type : Bytes → Bool
valid_box_type [] = true
valid_box_type (c ∷ cs) =
    let rest = valid_box_type cs in
    if c == 0xA9 then rest else if ltb c 0x20 || ltb 0x7E c then false else rest

-- The size of the box at `p`, and of its header; none if the file ends in the header.
pub box_size : Bytes → ℕ → ℕ → ℕ → Result NoError (Option (ℕ × ℕ))
box_size d hi p size =
    let long = window d hi (p + 8) (p + 16) >>= λ w. ok (some (big_endian 0 w, 16)) in
    if size == 0
    then ok (some (hi - p, 8))
    else if size == 1
    then if ltb hi (p + 16) then ok none else long
    else ok (some (size, 8))

-- The bounds on the size: the header, and the bytes that are left.
pub bounded_box : ℕ → ℕ → Bytes → Option (ℕ × ℕ) → Option Box
bounded_box hi p typ none = none
bounded_box hi p typ (some (size, header)) =
    if ltb size header || ltb (hi - p) size
    then none
    else some (record { typ = typ; start = p + header; stop = p + size })

-- The box at `p`, and whether one can be read there; `n` boxes were read before.
pub parse_box : Bytes → ℕ → ℕ → Bool → ℕ → Result NoError (Option Box)
unfolding box_size
parse_box d hi p printable n = if leb max_box_siblings n || ltb hi (p + 8) then ok none else do
  word ← window d hi p (p + 4)
  typ ← window d hi (p + 4) (p + 8)
  let sized = do
    size_header ← box_size d hi p (big_endian 0 word)
    ok (bounded_box hi p typ size_header)
  if printable && not (valid_box_type typ) then ok none else sized

or_stop : (Box → Result NoError (List Box × Bool)) → Option Box → Result NoError (List Box × Bool)
or_stop more none = ok ([], false)
or_stop more (some b) = more b

-- The boxes from `p` to `hi`, and whether all of it was read; `n` boxes were read before.
pub parse_box_list : ℕ → Bytes → ℕ → ℕ → Bool → ℕ → Result NoError (List Box × Bool)
unfolding or_stop
parse_box_list zero d hi p printable n = out_of_fuel
parse_box_list (suc fuel) d hi p printable n =
    let more = λ (b : Box).
      parse_box_list fuel d hi b.stop printable (n + 1) >>= λ (bs, whole). ok (b ∷ bs, whole) in
    let rest = parse_box d hi p printable n >>= or_stop more in
    if leb hi p then ok ([], true) else rest

-- `parseBoxes` and `parseIndexedBoxes` of the stretch from `lo` to `hi`
pub parse_boxes : Bytes → ℕ → ℕ → Result NoError (List Box × Bool)
parse_boxes d lo hi = parse_box_list (suc (hi - lo)) d hi lo true 0

pub parse_indexed_boxes : Bytes → ℕ → ℕ → Result NoError (List Box × Bool)
parse_indexed_boxes d lo hi = parse_box_list (suc (hi - lo)) d hi lo false 0

pub find_box : List Box → Bytes → Option Box
find_box [] typ = none
find_box (b ∷ bs) typ = if bytes_eq b.typ typ then some b else find_box bs typ

pub looks_like_box_header : Bytes → ℕ → ℕ → Result NoError Bool
looks_like_box_header d lo hi = if ltb hi (lo + 8) then ok false else do
  word ← window d hi lo (lo + 4)
  typ ← window d hi (lo + 4) (lo + 8)
  let size = big_endian 0 word
  ok (if ltb size 8 || ltb (hi - lo) size then false else valid_box_type typ)

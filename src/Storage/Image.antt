-- ===== src/Storage/Image.antt =====
-- server/internal/storage/storage.go: still images: the EXIF orientation, and the pixels put upright.
--
-- A picture has a colour at each place; image.NewRGBA is one of a single colour. Codecs and the scaler of
-- golang.org/x/image are not modelled.
pub mod Exif
pub mod Upright
pub mod Orientation
pub mod Scale
mod Tests
use check_in.Prelude.{
  ℕ, zero, suc, ◌+◌, ◌-◌, ◌*◌, ◌/◌, ◌%◌, Bool, true, false, not, ◌&&◌, ◌||◌, Option, none, some,
  List, [], ◌∷◌, ltb, leb, ◌==◌, if◌then◌else◌, length, comparable_nat, Result, NoError, ok, panic,
  out_of_fuel, ◌>>=◌,
}
use check_in.Slice.{Bytes, index, slice, bytes_eq}
use check_in.Maps.{comparable_bytes}

-- The marker and the size of the segment at `i`, if there is one.
unfoldable pub jpeg_segment : Bytes → ℕ → Result NoError (Option (ℕ × ℕ))
unfolding index
jpeg_segment d i = do
  b ← index d i
  marker ← index d (i + 1)
  hi ← index d (i + 2)
  lo ← index d (i + 3)
  let size = hi * 256 + lo
  ok (
      if not (b == 0xFF) || (marker == 0xDA || marker == 0xD9)
      then none
      else if ltb size 2 || ltb (length d) (i + 2 + size)
      then none
      else some (marker, size))

pub data ByteOrder : Type 0 where
  little_endian big_endian : ByteOrder

abbrev pub uint16_of : ByteOrder → ℕ → ℕ → ℕ
uint16_of little_endian a b = b * 256 + a
uint16_of big_endian a b = a * 256 + b

-- `bo.Uint16(d[i : i+2])` and `bo.Uint32(d[i : i+4])`
unfoldable pub uint16_at : ByteOrder → Bytes → ℕ → Result NoError ℕ
unfolding index
uint16_at bo d i = do a ← index d i; b ← index d (i + 1); ok (uint16_of bo a b)

abbrev pub uint32_of : ByteOrder → ℕ → ℕ → ℕ
uint32_of little_endian first second = second * 65536 + first
uint32_of big_endian first second = first * 65536 + second

unfoldable pub uint32_at : ByteOrder → Bytes → ℕ → Result NoError ℕ
unfolding uint16_at
uint32_at bo d i = do
  first ← uint16_at bo d i
  second ← uint16_at bo d (i + 2)
  ok (uint32_of bo first second)

abbrev pub orientation_tag : ℕ
orientation_tag = 0x0112

-- The entries of the directory from `e` on, `n` of them.
unfoldable pub find_orientation : ByteOrder → Bytes → ℕ → ℕ → Result NoError ℕ
unfolding uint16_at
find_orientation bo tiff e zero = ok 0
find_orientation bo tiff e (suc n) =
    let rest = find_orientation bo tiff (e + 12) n in
    if ltb (length tiff) (e + 12)
    then ok 0
    else (uint16_at bo tiff e >>= λ tag.
        if tag == orientation_tag
        then (uint16_at bo tiff (e + 8) >>= λ v. ok (if leb 1 v && leb v 8 then v else 0))
        else rest)

-- The directory of a TIFF header in a byte order.
unfoldable pub first_directory : ByteOrder → Bytes → Result NoError ℕ
unfolding uint16_at uint32_at find_orientation
first_directory bo tiff = uint32_at bo tiff 4 >>= λ ifd.
    if ltb (length tiff) (ifd + 2)
    then ok 0
    else uint16_at bo tiff ifd >>= λ count. find_orientation bo tiff (ifd + 2) count

abbrev pub exif_header : Bytes
exif_header = 0x45 ∷ 0x78 ∷ 0x69 ∷ 0x66 ∷ 0 ∷ 0 ∷ []

unfoldable pub parse_exif_orientation : Bytes → Result NoError ℕ
unfolding slice first_directory
parse_exif_orientation seg = if ltb (length seg) 14 then ok 0 else do
  header ← slice seg 0 6
  tiff ← slice seg 6 (length seg)
  order ← slice tiff 0 2
  if not (header == exif_header)
      then ok 0
      else if order == (0x49 ∷ 0x49 ∷ [])
      then first_directory little_endian tiff
      else if order == (0x4D ∷ 0x4D ∷ [])
      then first_directory big_endian tiff
      else ok 0

-- What the walk does at a segment: stop, return an orientation, or go on behind it.
unfoldable pub at_segment : Bytes → ℕ → (ℕ → Result NoError ℕ) → Option (ℕ × ℕ) → Result NoError ℕ
unfolding parse_exif_orientation slice
at_segment d i more none = ok 1
at_segment d i more (some (marker, size)) =
    if marker == 0xE1
    then (slice d (i + 4) (i + 2 + size) >>= parse_exif_orientation >>= λ o.
        if not (o == 0) then ok o else more (i + 2 + size))
    else more (i + 2 + size)

unfoldable pub walk_segments : ℕ → Bytes → ℕ → Result NoError ℕ
unfolding jpeg_segment at_segment
walk_segments zero d i = out_of_fuel
walk_segments (suc fuel) d i =
    let rest = jpeg_segment d i >>= at_segment d i (walk_segments fuel d) in
    if leb (i + 4) (length d) then rest else ok 1

unfoldable pub exif_orientation : Bytes → Result NoError ℕ
unfolding index walk_segments
exif_orientation d = if ltb (length d) 4 then ok 1 else do
  a ← index d 0
  b ← index d 1
  if not (a == 0xFF) || not (b == 0xD8) then ok 1 else walk_segments (suc (length d)) d 2

abbrev pub max_dimension : ℕ
max_dimension = 1600

-- The width and height of what `downscale` returns.
unfoldable pub scaled_size : ℕ → ℕ → ℕ × ℕ
scaled_size w h =
    if leb w max_dimension && leb h max_dimension
    then (w, h)
    else if leb h w
    then (max_dimension, h * max_dimension / w)
    else (w * max_dimension / h, max_dimension)

-- A picture: its size, and the colour at each place of it.
pub record Picture (Colour : Type 0) : Type 0 where
  pub width : ℕ
  pub height : ℕ
  pub at : ℕ → ℕ → Colour

-- `dst.Set(x, y, c)`, which does nothing outside the picture
abbrev pub set_at : {Colour : Type 0} → ℕ → ℕ → Colour → Picture Colour → Picture Colour
set_at x y c dst = record dst {
  at = λ i j. if i == x && (j == y && (ltb x dst.width && ltb y dst.height)) then c else dst.at i j;
}

module _ {Colour : Type 0} (place : ℕ → ℕ → ℕ × ℕ) (src : Picture Colour) where
  -- The loop over the pixels of a row from `x` on, `n` of them.
  unfoldable pub copy_row : ℕ → ℕ → ℕ → Picture Colour → Picture Colour
  copy_row y x zero dst = dst
  copy_row y x (suc n) dst =
      copy_row y (x + 1) n (set_at (place x y).0 (place x y).1 (src.at x y) dst)

  -- The loop over the rows from `y` on, `n` of them.
  unfoldable pub copy_rows : ℕ → ℕ → Picture Colour → Picture Colour
  unfolding copy_row
  copy_rows y zero dst = dst
  copy_rows y (suc n) dst = copy_rows (y + 1) n (copy_row y 0 src.width dst)

-- `image.NewRGBA`
abbrev pub new_rgba : {Colour : Type 0} → Colour → ℕ → ℕ → Picture Colour
new_rgba blank w h = record { width = w; height = h; at = λ x y. blank }

pub data Turn : Type 0 where
  by_90 by_180 by_270 : Turn

unfoldable pub rotated_point : Turn → ℕ → ℕ → ℕ → ℕ → ℕ × ℕ
rotated_point by_90 w h x y = (h - 1 - y, x)
rotated_point by_180 w h x y = (w - 1 - x, h - 1 - y)
rotated_point by_270 w h x y = (y, w - 1 - x)

-- The size of a picture that is turned.
abbrev pub turned_size : Turn → ℕ → ℕ → ℕ × ℕ
turned_size by_90 w h = (h, w)
turned_size by_180 w h = (w, h)
turned_size by_270 w h = (h, w)

unfoldable pub flipped_point : Bool → ℕ → ℕ → ℕ → ℕ → ℕ × ℕ
flipped_point true w h x y = (w - 1 - x, y)
flipped_point false w h x y = (x, h - 1 - y)

module _ {Colour : Type 0} (blank : Colour) where
  unfoldable pub rotate : Turn → Picture Colour → Picture Colour
  unfolding copy_rows rotated_point
  rotate turn src =
      let size = turned_size turn src.width src.height in
      copy_rows (rotated_point turn src.width src.height) src 0 src.height
        (new_rgba blank size.0 size.1)

  unfoldable pub flip : Bool → Picture Colour → Picture Colour
  unfolding copy_rows flipped_point
  flip horizontal src =
      copy_rows (flipped_point horizontal src.width src.height) src 0 src.height
        (new_rgba blank src.width src.height)

  unfoldable pub apply_orientation : ℕ → Picture Colour → Picture Colour
  unfolding rotate flip
  apply_orientation o img =
      if o == 2
      then flip true img
      else if o == 3
      then rotate by_180 img
      else if o == 4
      then flip false img
      else if o == 5
      then rotate by_270 (flip true img)
      else if o == 6
      then rotate by_90 img
      else if o == 7
      then rotate by_90 (flip true img)
      else if o == 8
      then rotate by_270 img
      else img

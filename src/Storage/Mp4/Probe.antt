-- ===== src/Storage/Mp4/Probe.antt =====
-- server/internal/storage/mp4.go: probeMP4, which validates a clip and returns its duration and its size.
--
-- Mp4Decoder is mp4.Unmarshal of go-mp4 for the four boxes that are decoded; it answers `none` where it
-- reports an error. uint64 wraps around, and so does its conversion to int. The texts of the errors are left
-- out: `none` is an error.
pub mod Safe
use check_in.Prelude.{
  ℕ, zero, suc, ◌+◌, ◌-◌, ◌*◌, ◌/◌, Bool, true, false, not, ◌&&◌, ◌||◌, Option, none, some, List,
  [], ◌∷◌, ltb, leb, ◌==◌, if◌then◌else◌, length, ℤ, pos, negsuc, Result, NoError, ok, panic,
  out_of_fuel, ◌>>=◌, comparable_nat,
}
use check_in.Slice.{Bytes, slice, bytes_eq}
use check_in.Sorting.{keep_if}
use check_in.Storage.Mp4.{Box, ascii, member, window, parse_boxes, find_box}
use check_in.Storage.Mp4.Durations.{uint64, scale_to_ms}

-- What is read of a track header: the sizes in 65536ths, and four cells of the matrix.
pub record Tkhd : Type 0 where
  pub width : ℕ
  pub height : ℕ
  pub matrix0 : ℤ
  pub matrix1 : ℤ
  pub matrix3 : ℤ
  pub matrix4 : ℤ

-- The headers are pairs of a duration and a timescale, the table one of counts and deltas.
pub record Mp4Decoder : Type 0 where
  pub mvhd : Bytes → Option (ℕ × ℕ)
  pub mdhd : Bytes → Option (ℕ × ℕ)
  pub tkhd : Bytes → Option Tkhd
  pub stts : Bytes → Option (List (ℕ × ℕ))

-- The clip as it is known while it is probed.
pub record Probed : Type 0 where
  pub duration : ℤ
  pub width : ℕ
  pub height : ℕ

pub record VideoInfo : Type 0 where
  pub duration_ms : ℕ
  pub width : ℕ
  pub height : ℕ

abbrev pub max_video_duration_ms : ℕ
max_video_duration_ms = 12000

abbrev pub video_brands : List Bytes
video_brands =
    ascii "isom"
    ∷ ascii "iso2"
    ∷ ascii "iso4"
    ∷ ascii "iso5"
    ∷ ascii "iso6"
    ∷ ascii "mp41"
    ∷ ascii "mp42"
    ∷ ascii "avc1"
    ∷ ascii "M4V "
    ∷ ascii "3gp4"
    ∷ ascii "3gp5"
    ∷ ascii "3gp6"
    ∷ ascii "qt  "
    ∷ []

-- `int` of a uint64
abbrev pub to_int : ℕ → ℤ
to_int n = if ltb n 9223372036854775808 then pos n else negsuc (18446744073709551615 - n)

abbrev pub is_positive : ℤ → Bool
is_positive (pos n) = ltb 0 n
is_positive (negsuc n) = false

-- `>` on int
abbrev pub longer : ℤ → ℤ → Bool
longer (pos a) (pos b) = ltb b a
longer (pos a) (negsuc b) = true
longer (negsuc a) (pos b) = false
longer (negsuc a) (negsuc b) = ltb a b

abbrev pub is_zero_cell : ℤ → Bool
is_zero_cell (pos n) = n == 0
is_zero_cell (negsuc n) = false

-- The brands from the place `p` of the stretch on, but for the minor version at 4.
unfoldable pub has_brand_from : ℕ → Bytes → ℕ → ℕ → ℕ → Result NoError Bool
has_brand_from zero d lo hi p = out_of_fuel
has_brand_from (suc fuel) d lo hi p =
    let rest = has_brand_from fuel d lo hi (p + 4) in
    let here = window d hi (lo + p) (lo + p + 4) >>= λ brand.
    if member video_brands brand then ok true else rest in
    if ltb hi (lo + p + 4) then ok false else if p == 4 then rest else here

unfoldable pub has_video_brand : Bytes → ℕ → ℕ → Result NoError Bool
has_video_brand d lo hi = has_brand_from (suc (hi - lo)) d lo hi 0

abbrev pub find_boxes : List Box → Bytes → List Box
find_boxes boxes typ = keep_if (λ b. bytes_eq b.typ typ) boxes

-- `unmarshalBox` of the payload of a box, if there is one.
abbrev pub decode_box {ℓ} :
    {A : Type ℓ} → (Bytes → Option A) → Bytes → Option Box → Result NoError (Option A)
decode_box decode d none = ok none
decode_box decode d (some b) = slice d b.start b.stop >>= λ payload. ok (decode payload)

-- The children of a box, if there is one.
abbrev pub children : Bytes → Option Box → Result NoError (List Box)
children d none = ok []
children d (some b) = parse_boxes d b.start b.stop >>= λ r. ok r.0

abbrev pub dimensions_of : Option Tkhd → ℕ × ℕ
dimensions_of none = (0, 0)
dimensions_of (some b) =
    let width = b.width / 65536 in
    let height = b.height / 65536 in
    if is_zero_cell b.matrix0
      && (is_zero_cell b.matrix4 && (not (is_zero_cell b.matrix1) || not (is_zero_cell b.matrix3)))
    then (height, width)
    else (width, height)

-- A track without a header has no size.
unfoldable pub track_dimensions : Mp4Decoder → Bytes → Option Box → Result NoError (ℕ × ℕ)
track_dimensions m d tkhd = decode_box m.tkhd d tkhd >>= λ o. ok (dimensions_of o)

abbrev pub total_samples : ℕ → List (ℕ × ℕ) → ℕ
total_samples total [] = total
total_samples total ((count, delta) ∷ entries) =
    total_samples (uint64 (total + uint64 (count * delta))) entries

abbrev pub duration_of : Option (List (ℕ × ℕ)) → ℕ
duration_of none = 0
duration_of (some entries) = total_samples 0 entries

-- Where a box is missing, so is what would be in it.
unfoldable pub sample_table_duration : Mp4Decoder → Bytes → List Box → Result NoError ℕ
sample_table_duration m d mdia_kids = do
  minf_kids ← children d (find_box mdia_kids (ascii "minf"))
  stbl_kids ← children d (find_box minf_kids (ascii "stbl"))
  table ← decode_box m.stts d (find_box stbl_kids (ascii "stts"))
  ok (duration_of table)

abbrev pub header_ms : Mp4Decoder → Bytes → List Box → Option (ℕ × ℕ) → Result NoError ℤ
header_ms m d mdia_kids none = ok (pos 0)
header_ms m d mdia_kids (some (duration, timescale)) =
    if ltb 0 (scale_to_ms duration timescale)
    then ok (to_int (scale_to_ms duration timescale))
    else sample_table_duration m d mdia_kids >>= λ total. ok (to_int (scale_to_ms total timescale))

unfoldable pub track_duration_ms : Mp4Decoder → Bytes → List Box → Result NoError ℤ
track_duration_ms m d trak_kids = do
  mdia_kids ← children d (find_box trak_kids (ascii "mdia"))
  header ← decode_box m.mdhd d (find_box mdia_kids (ascii "mdhd"))
  header_ms m d mdia_kids header

abbrev pub movie_ms : Option (ℕ × ℕ) → ℤ
movie_ms none = pos 0
movie_ms (some (duration, timescale)) = to_int (scale_to_ms duration timescale)

abbrev pub widen : Probed → ℕ × ℕ → Probed
widen info size =
    if ltb (info.width * info.height) (size.0 * size.1)
    then record info { width = size.0; height = size.1 }
    else info

abbrev pub lengthen : Mp4Decoder → Bytes → List Box → Probed → Result NoError Probed
lengthen m d kids info =
    if is_positive info.duration
    then ok info
    else track_duration_ms m d kids >>= λ ms.
        ok (if longer ms info.duration then record info { duration = ms } else info)

unfoldable pub probe_tracks : Mp4Decoder → Bytes → List Box → Probed → Result NoError Probed
probe_tracks m d [] info = ok info
probe_tracks m d (trak ∷ traks) info = do
  kids ← children d (some trak)
  size ← track_dimensions m d (find_box kids (ascii "tkhd"))
  next ← lengthen m d kids (widen info size)
  probe_tracks m d traks next

-- The last three checks.
abbrev pub accept : ℤ → ℕ → ℕ → Option VideoInfo
accept (negsuc n) width height = none
accept (pos n) width height =
    if (n == 0 || ltb max_video_duration_ms n) || (width == 0 || height == 0)
    then none
    else some (record { duration_ms = n; width = width; height = height })

abbrev pub probe_moov : Mp4Decoder → Bytes → Option Box → Result NoError (Option VideoInfo)
probe_moov m d none = ok none
probe_moov m d (some moov) = do
  kids ← children d (some moov)
  header ← decode_box m.mvhd d (find_box kids (ascii "mvhd"))
  info ←
      probe_tracks m d (find_boxes kids (ascii "trak"))
        (record { duration = movie_ms header; width = 0; height = 0 })
  ok (accept info.duration info.width info.height)

abbrev pub probe_root : Mp4Decoder → Bytes → List Box → Bool → Result NoError (Option VideoInfo)
probe_root m d root false = ok none
probe_root m d [] true = ok none
probe_root m d (b ∷ boxes) true =
    if not (bytes_eq b.typ (ascii "ftyp")) || ltb (b.stop - b.start) 4
    then ok none
    else has_video_brand d b.start b.stop >>= λ video.
        if not video then ok none else probe_moov m d (find_box (b ∷ boxes) (ascii "moov"))

unfoldable pub probe_mp4 : Mp4Decoder → Bytes → Result NoError (Option VideoInfo)
probe_mp4 m d = parse_boxes d 0 (length d) >>= λ root. probe_root m d root.0 root.1

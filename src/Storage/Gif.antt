-- ===== src/Storage/Gif.antt =====
-- server/internal/storage/gif.go: the sanitizer of GIF uploads, which walks the block stream in
-- place, counts the frames and blanks the blocks that can carry metadata.
--
-- A byte is a number below 256. Each loop takes fuel, one more than the bytes of the file: every
-- round moves on by a byte at least.
pub mod Grammar
pub mod Chains
pub mod Extension
pub mod Image
pub mod Walk
pub mod Decide
pub mod Header
pub mod Correct
pub mod Idempotent
mod Tests
use Prim.Native.Char.{code}
use Prim.Native.String.{String}
use check_in.Prelude.{
  ℕ, zero, suc, ◌+◌, ◌*◌, ◌/◌, ◌%◌, ◌^◌, Bool, true, false, not, ◌&&◌, ◌||◌, List, [], ◌∷◌, ltb,
  leb, ◌==◌, ◌++◌, ◌≡◌, refl, if◌then◌else◌, length, Result, ok, err, out_of_fuel, ◌>>=◌,
  comparable_nat,
}
use check_in.Slice.{Bytes, index, slice, clear, bytes_eq}

pub data GifError : Type 0 where
  bad_gif : GifError
  too_many_frames : GifError

abbrev pub max_gif_frames : ℕ
max_gif_frames = 256

abbrev pub extension_introducer : ℕ
extension_introducer = 0x21

abbrev pub image_descriptor : ℕ
image_descriptor = 0x2C

abbrev pub gif_trailer : ℕ
gif_trailer = 0x3B

abbrev pub comment_label : ℕ
comment_label = 0xFE

abbrev pub application_label : ℕ
application_label = 0xFF

abbrev pub codes : String → Bytes
codes String.[] = []
codes (String.◌∷◌ c s) = code c ∷ codes s

-- `packed & 0x80 != 0`
abbrev pub has_color_table : ℕ → Bool
has_color_table packed = (packed / 128) % 2 == 1

-- `3 * (1 << ((packed & 0x07) + 1))`
pub color_table_size : ℕ → ℕ
color_table_size packed = 3 * 2 ^ (packed % 8 + 1)

abbrev pub table_bytes : ℕ → ℕ
table_bytes packed = if has_color_table packed then color_table_size packed else 0

-- The place behind a chain of sub-blocks, and the file with their payloads zeroed if `blank`.
pub skip_sub_blocks : ℕ → Bytes → ℕ → Bool → Result GifError (ℕ × Bytes)
skip_sub_blocks zero d p blank = out_of_fuel
skip_sub_blocks (suc fuel) d p blank = if leb (length d) p then err bad_gif else do
  n ← index d p
  let more = do
    d' ← if blank then clear d (p + 1) n else ok d
    skip_sub_blocks fuel d' (p + 1 + n) blank
  if n == 0 then ok (p + 1, d) else if ltb (length d) (p + 1 + n) then err bad_gif else more

abbrev pub netscape : Bytes
netscape = codes "NETSCAPE2.0"

abbrev pub animexts : Bytes
animexts = codes "ANIMEXTS1.0"

-- one sub-block of three bytes at `q`, and the terminator behind it
pub loop_count_block : Bytes → ℕ → Result GifError Bool
loop_count_block d q = if ltb (length d) (q + 4) then ok false else do
  size ← index d q
  let last = index d (q + 4) >>= λ b. ok (b == 0)
  if not (size == 3) then ok false else if ltb (q + 4) (length d) then last else ok false

pub is_animation_extension : Bytes → ℕ → Result GifError Bool
unfolding loop_count_block
is_animation_extension d p = if leb (length d) p then ok false else do
  size ← index d p
  let named = do
    id ← slice d (p + 1) (p + 12)
    if not (bytes_eq id netscape) && not (bytes_eq id animexts)
        then ok false
        else loop_count_block d (p + 12)
  if not (size == 11) || ltb (length d) (p + 12) then ok false else named

-- The case of an image descriptor at `p`, `frames` counting this image too.
pub image_block : Bytes → ℕ → ℕ → Result GifError (ℕ × Bytes)
image_block d p frames =
    if ltb max_gif_frames frames
    then err too_many_frames
    else if ltb (length d) (p + 10)
    then err bad_gif
    else do
      packed ← index d (p + 9)
      skip_sub_blocks (suc (length d)) d (p + 10 + table_bytes packed + 1) false

-- The case of an extension introducer at `p`.
pub extension_block : Bytes → ℕ → Result GifError (ℕ × Bytes)
extension_block d p = if ltb (length d) (p + 2) then err bad_gif else do
  label ← index d (p + 1)
  animation ← if label == application_label then is_animation_extension d (p + 2) else ok true
  skip_sub_blocks (suc (length d)) d (p + 2) (label == comment_label || not animation)

-- The loop of `sanitizeGIF`: the frames, and the file as it then is.
pub walk : ℕ → Bytes → ℕ → ℕ → Result GifError (ℕ × Bytes)
walk zero d p frames = out_of_fuel
walk (suc fuel) d p frames = if leb (length d) p then err bad_gif else do
  tag ← index d p
  let finish = if frames == 0 then err bad_gif else ok (frames, d)
  let image = image_block d p (frames + 1) >>= λ (q, d'). walk fuel d' q (frames + 1)
  let extension = extension_block d p >>= λ (q, d'). walk fuel d' q frames
  if tag == gif_trailer
      then finish
      else if tag == image_descriptor
      then image
      else if tag == extension_introducer
      then extension
      else err bad_gif

pub sanitize_gif : Bytes → Result GifError (ℕ × Bytes)
sanitize_gif d = if ltb (length d) 13 then err bad_gif else do
  version ← slice d 0 6
  let blocks = index d 10 >>= λ packed. walk (suc (length d)) d (13 + table_bytes packed) 0
  if bytes_eq version (codes "GIF87a") || bytes_eq version (codes "GIF89a")
      then blocks
      else err bad_gif

-- ===== src/Storage/Media.antt =====
-- server/internal/storage/storage.go: what is stored of an upload.
--
-- Codecs is what the code uses of Go's image packages, of golang.org/x/image, of go-mp4 and of strings.
-- An upload is the bytes that its reader gives before it ends or fails.
-- A saving function returns the file to write, with what is kept of it in the database; its name and the
-- file system are left out.
pub mod Safe
mod Tests
use check_in.Prelude.{
  ℕ, zero, suc, ◌+◌, ◌*◌, Bool, true, false, not, ◌&&◌, ◌||◌, Option, none, some, List, [], ◌∷◌,
  ltb, leb, ◌==◌, if◌then◌else◌, length, take, drop, max, comparable_nat, Result, NoError, ok, err,
  panic, out_of_fuel, ◌>>=◌,
}
use check_in.Slice.{Bytes, bytes_eq}
use check_in.Storage.Gif.{GifError, sanitize_gif}
use check_in.Storage.Mp4.Probe.{Mp4Decoder, probe_mp4}
use check_in.Storage.Mp4.Strip.{strip_location_metadata}
use check_in.Storage.Image.{
  Picture, exif_orientation, scaled_size, max_dimension, apply_orientation,
}

abbrev pub max_pixels : ℕ
max_pixels = 50000000

pub data Extension : Type 0 where
  gif mp4 png jpg : Extension

pub data Format : Type 0 where
  jpeg_format png_format other_format : Format

-- A file to write. The mime type goes with the extension.
pub record File : Type 0 where
  pub bytes : Bytes
  pub extension : Extension
  pub width : ℕ
  pub height : ℕ
  pub duration_ms : ℕ

pub data StoreError : Type 0 where
  unreadable too_large decode_failed too_many_pixels bad_video encode_failed : StoreError
  refused_gif : GifError → StoreError

pub record Codecs (Colour : Type 0) : Type 0 where
  pub decode_config : Bytes → Option (ℕ × ℕ)
  pub decode : Bytes → Option (Picture Colour × Format)
  pub scale : Picture Colour → ℕ → ℕ → Picture Colour
  pub blank : Colour
  pub encode_png : Picture Colour → Option Bytes
  pub encode_jpeg : Picture Colour → Option Bytes
  pub decoder : Mp4Decoder
  pub to_lower : Bytes → Bytes

pub record Upload : Type 0 where
  pub bytes : Bytes
  pub fails : Bool

-- A reader that fails does so only if it is read to its end.
abbrev pub read_capped : Upload → ℕ → Option Bytes
read_capped upload max_bytes =
    if upload.fails && leb (length upload.bytes) max_bytes
    then none
    else some (take (max_bytes + 1) upload.bytes)

abbrev pub is_gif : Bytes → Bool
is_gif d = ltb 3 (length d) && bytes_eq (take 3 d) (0x47 ∷ 0x49 ∷ 0x46 ∷ [])

abbrev pub is_mp4 : Bytes → Bool
is_mp4 d = ltb 8 (length d) && bytes_eq (take 4 (drop 4 d)) (0x66 ∷ 0x74 ∷ 0x79 ∷ 0x70 ∷ [])

-- `if err != nil { return err }` after a call that returns an optional result
abbrev pub or_fail {ℓ} : {A : Type ℓ} → StoreError → Option A → Result StoreError A
or_fail e none = err e
or_fail e (some a) = ok a

-- The result of code that reports no error, or one of another type.
abbrev pub without_error {ℓ} : {A : Type ℓ} → Result NoError A → Result StoreError A
without_error (ok a) = ok a
without_error (err e) = panic
without_error panic = panic
without_error out_of_fuel = out_of_fuel

abbrev pub gif_result {ℓ} : {A : Type ℓ} → Result GifError A → Result StoreError A
gif_result (ok a) = ok a
gif_result (err e) = err (refused_gif e)
gif_result panic = panic
gif_result out_of_fuel = out_of_fuel

module _ {Colour : Type 0} (c : Codecs Colour) where
  -- The dimensions from the header of a picture that is not too large.
  abbrev pub checked_size : Bytes → Result StoreError (ℕ × ℕ)
  checked_size d = or_fail decode_failed (c.decode_config d) >>= λ size.
      if ltb max_pixels (size.0 * size.1) then err too_many_pixels else ok size

  -- `downscale`
  abbrev pub downscale : Picture Colour → Picture Colour
  downscale img =
      if leb img.width max_dimension && leb img.height max_dimension
      then img
      else c.scale img (scaled_size img.width img.height).0 (scaled_size img.width img.height).1

  -- The picture put upright, if it is a JPEG that says how.
  abbrev pub put_upright : Bytes → Format → Picture Colour → Result StoreError (Picture Colour)
  put_upright d jpeg_format img = without_error (exif_orientation d) >>= λ o.
      ok (if ltb 1 o then apply_orientation c.blank o img else img)
  put_upright d png_format img = ok img
  put_upright d other_format img = ok img

  abbrev pub encode_as : Format → Picture Colour → Result StoreError (Bytes × Extension)
  encode_as png_format img = or_fail encode_failed (c.encode_png img) >>= λ d. ok (d, png)
  encode_as jpeg_format img = or_fail encode_failed (c.encode_jpeg img) >>= λ d. ok (d, jpg)
  encode_as other_format img = or_fail encode_failed (c.encode_jpeg img) >>= λ d. ok (d, jpg)

  -- The file of a picture.
  abbrev pub still_file : Picture Colour → Bytes × Extension → File
  still_file img e = record {
    bytes = e.0;
    extension = e.1;
    width = img.width;
    height = img.height;
    duration_ms = 0;
  }

  unfoldable pub save_image : Bytes → Result StoreError File
  save_image d = checked_size d >>= λ size. or_fail decode_failed (c.decode d) >>= λ decoded.
      put_upright d decoded.1 (downscale decoded.0) >>= λ img.
      encode_as decoded.1 img >>= λ e. ok (still_file img e)

  unfoldable pub save_gif : Bytes → Result StoreError File
  save_gif d = checked_size d >>= λ size. gif_result (sanitize_gif d) >>= λ sanitized. ok (record {
    bytes = sanitized.1;
    extension = gif;
    width = size.0;
    height = size.1;
    duration_ms = 0;
  })

  unfoldable pub save_video : Bytes → Result StoreError File
  save_video d = without_error (probe_mp4 c.decoder d) >>= λ probed.
      or_fail bad_video probed >>= λ info.
      without_error (strip_location_metadata c.to_lower d) >>= λ stripped. ok (record {
        bytes = stripped;
        extension = mp4;
        width = info.width;
        height = info.height;
        duration_ms = info.duration_ms;
      })

  -- The upload when it has been read.
  abbrev pub save_read : Bytes → ℕ → ℕ → Result StoreError File
  save_read d max_image_bytes max_video_bytes =
      let limit = if is_mp4 d then max_video_bytes else max_image_bytes in
      if ltb limit (length d)
      then err too_large
      else if is_mp4 d
      then save_video d
      else if is_gif d
      then save_gif d
      else save_image d

  unfoldable pub save_media : Upload → ℕ → ℕ → Result StoreError File
  unfolding save_image save_gif save_video
  save_media upload max_image_bytes max_video_bytes =
      or_fail unreadable (read_capped upload (max max_image_bytes max_video_bytes)) >>= λ d.
      save_read d max_image_bytes max_video_bytes

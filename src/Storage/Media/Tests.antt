-- ===== src/Storage/Media/Tests.antt =====
-- server/internal/storage/storage.go: tests of the dispatch, and the theorem at a concrete upload.
use check_in.Slice.{Bytes}
use check_in.Prelude.{false, true, ℕ, ◌≡◌, refl, none, some, [], ◌∷◌, ok, err}
use check_in.Storage.Media.{Codecs, Upload, jpg, unreadable, too_large, other_format, save_media}

-- Codecs that read any file as a picture of one pixel, and write a single byte.
abbrev one_pixel : Codecs ℕ
one_pixel = record {
  decode_config = λ d. some (1, 1);
  decode = λ d. some (record { width = 1; height = 1; at = λ x y. 0 }, other_format);
  scale = λ img w h. img;
  blank = 0;
  encode_png = λ img. none;
  encode_jpeg = λ img. some (7 ∷ []);
  decoder = record { mvhd = λ p. none; mdhd = λ p. none; tkhd = λ p. none; stts = λ p. none };
  to_lower = λ s. s;
}

abbrev upload : Bytes → Upload
upload bytes = record { bytes = bytes; fails = false }

unreadable_test :
    save_media one_pixel (record { bytes = 1 ∷ []; fails = true }) 10 10 ≡ err unreadable
unfolding save_media
unreadable_test = refl

stored_test :
    save_media one_pixel (upload (1 ∷ 2 ∷ 3 ∷ [])) 10 10
    ≡ ok (record { bytes = 7 ∷ []; extension = jpg; width = 1; height = 1; duration_ms = 0 })
unfolding save_media
stored_test = refl

too_large_test : save_media one_pixel (upload (1 ∷ 2 ∷ 3 ∷ [])) 2 2 ≡ err too_large
unfolding save_media
too_large_test = refl

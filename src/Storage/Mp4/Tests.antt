-- ===== src/Storage/Mp4/Tests.antt =====
-- server/internal/storage/mp4.go: tests of durations, and of the probe at a small file.
use check_in.Prelude.{◌≡◌, refl, none, some, ◌∷◌, ◌++◌, ◌*◌, ok, pos}
use check_in.Slice.{Bytes, slice}
use check_in.Storage.Mp4.{
  ascii, parse_boxes, parse_box_list, parse_box, window, valid_box_type, bounded_box, member,
  find_box,
}
use check_in.Storage.Mp4.Durations.{scale_to_ms}
use check_in.Storage.Mp4.Probe.{
  Mp4Decoder, probe_mp4, has_video_brand, has_brand_from, probe_tracks, track_dimensions,
}

scale_to_ms_test : scale_to_ms 123456 12800 ≡ 9645
unfolding scale_to_ms
scale_to_ms_test = refl

-- A decoder that finds three seconds, and a picture of four by three turned by a quarter.
abbrev decoder : Mp4Decoder
decoder = record {
  mvhd = λ p. some (3, 1);
  mdhd = λ p. none;
  tkhd = λ p. some (record {
    width = 4 * 65536;
    height = 3 * 65536;
    matrix0 = pos 0;
    matrix1 = pos 1;
    matrix3 = pos 1;
    matrix4 = pos 0;
  });
  stts = λ p. none;
}

abbrev clip : Bytes
clip =
    (0 ∷ 0 ∷ 0 ∷ 12 ∷ ascii "ftypisom")
    ++ (0 ∷ 0 ∷ 0 ∷ 32 ∷ ascii "moov")
    ++ (0 ∷ 0 ∷ 0 ∷ 8 ∷ ascii "mvhd")
    ++ (0 ∷ 0 ∷ 0 ∷ 16 ∷ ascii "trak")
    ++ (0 ∷ 0 ∷ 0 ∷ 8 ∷ ascii "tkhd")

clip_test :
    probe_mp4 decoder clip ≡ ok (some (record { duration_ms = 3000; width = 3; height = 4 }))
unfolding probe_mp4 has_video_brand has_brand_from probe_tracks track_dimensions parse_boxes
    scale_to_ms parse_box_list parse_box window slice valid_box_type bounded_box member find_box
clip_test = refl

-- ===== src/Storage/Image/Tests.antt =====
-- server/internal/storage/storage.go: tests of the EXIF walk, and the theorems at concrete photos.
use check_in.Prelude.{ℕ, ◌+◌, ◌*◌, ◌≡◌, refl, [], ◌∷◌, ok, Done, arith}
use check_in.Slice.{Bytes}
use check_in.Storage.Image.{exif_orientation, Picture, apply_orientation, scaled_size}
use check_in.Storage.Image.Exif.{IsOrientation, exif_orientation-Done}
use check_in.Storage.Image.Orientation.{Moves, upright, apply_orientation-Moves}
use check_in.Storage.Image.Scale.{IsScaled, scaled_size_lem}

-- A photo that was taken with the camera on its side: orientation 6, in big endian.
abbrev jpeg : Bytes
jpeg =
    0xFF ∷ 0xD8 ∷ 0xFF ∷ 0xE1 ∷ 0 ∷ 30 ∷ 0x45 ∷ 0x78 ∷ 0x69 ∷ 0x66 ∷ 0 ∷ 0 ∷ 0x4D ∷ 0x4D ∷ 0 ∷ 0x2A
    ∷ 0 ∷ 0 ∷ 0 ∷ 8 ∷ 0 ∷ 1 ∷ 1 ∷ 0x12 ∷ 0 ∷ 3 ∷ 0 ∷ 0 ∷ 0 ∷ 1 ∷ 0 ∷ 6 ∷ 0 ∷ 0 ∷ 0xFF ∷ 0xD9 ∷ []

exif_orientation_test : exif_orientation jpeg ≡ ok 6
unfolding exif_orientation
exif_orientation_test = refl

exif_orientation-Done_example : Done (exif_orientation jpeg) IsOrientation
exif_orientation-Done_example = exif_orientation-Done jpeg

abbrev photo : Picture ℕ
photo = record { width = 3; height = 2; at = λ x y. 10 * y + x }

abbrev turned : Picture ℕ
turned = apply_orientation 0 6 photo

turned_test : turned.at 1 2 ≡ 2
unfolding apply_orientation
turned_test = refl

apply_orientation-Moves_example : Moves photo turned (upright 6 3 2).0 (upright 6 3 2).1
apply_orientation-Moves_example = apply_orientation-Moves 0 6 photo

scaled_size_lem_example : IsScaled 4000 2 (scaled_size 4000 2)
scaled_size_lem_example = scaled_size_lem 4000 2 (omega arith) (omega arith)

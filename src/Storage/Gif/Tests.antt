-- ===== src/Storage/Gif/Tests.antt =====
-- server/internal/storage/gif.go: test files, and the theorems at a concrete file.
use check_in.Prelude.{ℕ, ◌≡◌, ◌↔◌, ◌⊎◌, refl, List, [], ◌∷◌, ◌++◌, ok, err}
use check_in.Slice.{index, slice, clear}
use check_in.Storage.Gif.{
  bad_gif, codes, netscape, skip_sub_blocks, color_table_size, is_animation_extension, image_block,
  extension_block, walk, sanitize_gif,
}
use check_in.Storage.Gif.Grammar.{Gif}
use check_in.Storage.Gif.Decide.{Refused}
use check_in.Storage.Gif.Correct.{IsGif, sanitize_gif_iff, sanitize_gif_cases}
use check_in.Storage.Gif.Idempotent.{sanitize_gif_idempotent}

-- A colour table, a comment of two bytes, a loop count, and one frame.
abbrev with_comment : ℕ → ℕ → List ℕ
with_comment x y =
    codes "GIF89a"
    ++ (1
        ∷ 0
        ∷ 1
        ∷ 0
        ∷ 0x80
        ∷ 0
        ∷ 0
        ∷ 9
        ∷ 9
        ∷ 9
        ∷ 8
        ∷ 8
        ∷ 8
        ∷ 0x21
        ∷ 0xFE
        ∷ 2
        ∷ x
        ∷ y
        ∷ 0
        ∷ 0x21
        ∷ 0xFF
        ∷ 11
        ∷ (netscape
            ++ (3 ∷ 1 ∷ 5 ∷ 0 ∷ 0 ∷ 0x2C ∷ 0 ∷ 0 ∷ 0 ∷ 0 ∷ 1 ∷ 0 ∷ 1 ∷ 0 ∷ 0 ∷ 2 ∷ 1 ∷ 0x4C ∷ 0
                ∷ 0x3B ∷ [])))

abbrev commented : List ℕ
commented = with_comment b'h' b'i'

abbrev cleaned : List ℕ
cleaned = with_comment 0 0

commented_test : sanitize_gif commented ≡ ok (1, cleaned)
unfolding sanitize_gif walk extension_block image_block is_animation_extension skip_sub_blocks
    color_table_size index slice clear
commented_test = refl

-- no image descriptor
no_frames : sanitize_gif (codes "GIF87a" ++ (1 ∷ 0 ∷ 1 ∷ 0 ∷ 0 ∷ 0 ∷ 0 ∷ 0x3B ∷ [])) ≡ err bad_gif
unfolding sanitize_gif walk color_table_size index slice
no_frames = refl

sanitize_gif_iff_example : (sanitize_gif commented ≡ ok (1, cleaned)) ↔ Gif commented cleaned 1
sanitize_gif_iff_example = sanitize_gif_iff commented cleaned 1

sanitize_gif_cases_example : Refused (sanitize_gif commented) ⊎ IsGif commented
sanitize_gif_cases_example = sanitize_gif_cases commented

sanitize_gif_idempotent_example : sanitize_gif cleaned ≡ ok (1, cleaned)
sanitize_gif_idempotent_example = sanitize_gif_idempotent commented cleaned 1 commented_test

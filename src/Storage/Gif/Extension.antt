-- ===== src/Storage/Gif/Extension.antt =====
-- server/internal/storage/gif.go: the case of an extension.
use mathlib.Core.List.{append_assoc}
use check_in.Prelude.{
  ℕ, suc, ◌+◌, ◌≡◌, ◌&&◌, [], ◌∷◌, ◌++◌, leb, ◌==◌, length, length-append, ok, err, arith,
  comparable_nat,
}
use check_in.Slice.{Bytes, byte_at, index_in, slice_in}
use check_in.Storage.Gif.{
  GifError, bad_gif, extension_introducer, skip_sub_blocks, is_animation_extension,
  loop_count_block, extension_block,
}
use check_in.Storage.Gif.Grammar.{begins_loop, is_blanked}

loop_count_block_lem :
    (pre rest : Bytes) (q : ℕ)
    → q ≡ length pre + 12
    → loop_count_block (pre ++ rest) q
      ≡ ok (leb 17 (length rest) && (byte_at rest 12 == 3 && byte_at rest 16 == 0))
unfolding loop_count_block
loop_count_block_lem pre rest q e = ground (
  arith,
  length-append pre rest,
  index_in {E = GifError} pre rest q 12,
  index_in {E = GifError} pre rest (q + 4) 16,
)

-- `isAnimationExtension` decides whether the bytes begin with a loop control, and reads none beyond
-- their end.
is_animation_extension_lem :
    (pre rest : Bytes) (p : ℕ)
    → p ≡ length pre
    → is_animation_extension (pre ++ rest) p ≡ ok (begins_loop rest)
unfolding is_animation_extension
is_animation_extension_lem pre rest p e = ground (
  arith,
  length-append pre rest,
  index_in {E = GifError} pre rest p 0,
  slice_in {E = GifError} pre rest (p + 1) (p + 12) 1 11,
  loop_count_block_lem pre rest (p + 12),
)

-- An extension introducer sends the loop over the chain behind the label.
pub extension_block_lem :
    (pre tail : Bytes) (label p : ℕ)
    → p ≡ length pre
    → extension_block (pre ++ (extension_introducer ∷ label ∷ tail)) p
      ≡ skip_sub_blocks
          (suc (length (pre ++ (extension_introducer ∷ label ∷ tail))))
          ((pre ++ (extension_introducer ∷ label ∷ [])) ++ tail)
          (p + 2)
          (is_blanked label tail)
unfolding extension_block
extension_block_lem pre tail label p e =
    let introducer : Bytes = extension_introducer ∷ label ∷ [] in
    ground (
      arith,
      length-append pre (extension_introducer ∷ label ∷ tail),
      index_in {E = GifError} pre (extension_introducer ∷ label ∷ tail) (p + 1) 1,
      is_animation_extension_lem (pre ++ introducer) tail (p + 2),
      length-append pre introducer,
      append_assoc pre introducer tail,
    )

pub extension_block_short :
    (pre : Bytes) (p : ℕ)
    → p ≡ length pre
    → extension_block (pre ++ (extension_introducer ∷ [])) p ≡ err bad_gif
unfolding extension_block
extension_block_short pre p e = ground (arith, length-append pre (extension_introducer ∷ []))

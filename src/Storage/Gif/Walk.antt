-- ===== src/Storage/Gif/Walk.antt =====
-- server/internal/storage/gif.go: the loop over the blocks reads a stream of the grammar,
-- or refuses the file.
use mathlib.Core.List.{append_assoc}
use check_in.Prelude.{
  ℕ, zero, suc, ◌+◌, ◌≤◌, ◌≡◌, ◌≢◌, refl, ap, ap₂, ◌∙◌, false, [], ◌∷◌, ◌++◌, ◌==◌, if◌then◌else◌,
  length, length-append, Result, ok, err, ◌>>=◌, arith, comparable_nat,
}
use check_in.Slice.{Bytes, index_in}
use check_in.Storage.Gif.{
  GifError, bad_gif, max_gif_frames, extension_introducer, image_descriptor, gif_trailer,
  table_bytes, image_block, extension_block, walk,
}
use check_in.Storage.Gif.Grammar.{
  image_head, SubBlocks, is_blanked, Blocks, trailer, image, extension,
}
use check_in.Storage.Gif.Extension.{extension_block_lem}
use check_in.Storage.Gif.Image.{length-image_head, image_block_lem}
use check_in.Storage.Gif.Chains.{ok_pair, length-SubBlocks, skip-SubBlocks}

pub at_end :
    (fuel : ℕ) (pre : Bytes) (p frames : ℕ)
    → p ≡ length pre
    → walk (suc fuel) (pre ++ []) p frames ≡ err bad_gif
unfolding walk
at_end fuel pre p frames e = ground (arith, length-append pre [])

pub at_trailer :
    (fuel : ℕ) (pre junk : Bytes) (p frames : ℕ)
    → p ≡ length pre
    → walk (suc fuel) (pre ++ (gif_trailer ∷ junk)) p frames
      ≡ (if frames == 0 then err bad_gif else ok (frames, pre ++ (gif_trailer ∷ junk)))
unfolding walk
at_trailer fuel pre junk p frames e = ground (
  arith,
  length-append pre (gif_trailer ∷ junk),
  index_in {E = GifError} pre (gif_trailer ∷ junk) p 0,
)

pub at_image :
    (fuel : ℕ) (pre tail : Bytes) (p frames : ℕ)
    → p ≡ length pre
    → walk (suc fuel) (pre ++ (image_descriptor ∷ tail)) p frames ≡ (
        image_block (pre ++ (image_descriptor ∷ tail)) p (frames + 1) >>= λ (q, d').
        walk fuel d' q (frames + 1))
unfolding walk
at_image fuel pre tail p frames e = ground (
  arith,
  length-append pre (image_descriptor ∷ tail),
  index_in {E = GifError} pre (image_descriptor ∷ tail) p 0,
)

pub at_extension :
    (fuel : ℕ) (pre tail : Bytes) (p frames : ℕ)
    → p ≡ length pre
    → walk (suc fuel) (pre ++ (extension_introducer ∷ tail)) p frames ≡ (
        extension_block (pre ++ (extension_introducer ∷ tail)) p >>= λ (q, d').
        walk fuel d' q frames)
unfolding walk
at_extension fuel pre tail p frames e = ground (
  arith,
  length-append pre (extension_introducer ∷ tail),
  index_in {E = GifError} pre (extension_introducer ∷ tail) p 0,
)

pub at_other :
    (fuel : ℕ) (pre tail : Bytes) (tag p frames : ℕ)
    → p ≡ length pre
    → tag ≢ gif_trailer
    → tag ≢ image_descriptor
    → tag ≢ extension_introducer
    → walk (suc fuel) (pre ++ (tag ∷ tail)) p frames ≡ err bad_gif
unfolding walk
at_other fuel pre tail tag p frames e x y z =
    ground (arith, length-append pre (tag ∷ tail), index_in {E = GifError} pre (tag ∷ tail) p 0)

abbrev pub next : ℕ → ℕ → ℕ × Bytes → Result GifError (ℕ × Bytes)
next fuel frames (q, d) = walk fuel d q frames

-- An image of the grammar is passed over, with its data as it was.
pub image_round :
    (fuel : ℕ) (pre place : Bytes) (packed : ℕ) (table : Bytes) (code_size : ℕ)
    (chain chain' rest : Bytes) (p frames : ℕ)
    → p ≡ length pre
    → length place ≡ 8
    → length table ≡ table_bytes packed
    → SubBlocks false chain chain'
    → frames + 1 ≤ max_gif_frames
    → let head = image_head place packed table code_size in
      walk (suc fuel) (pre ++ (head ++ (chain ++ rest))) p frames
      ≡ walk fuel ((pre ++ (head ++ chain')) ++ rest) (p + length (head ++ chain)) (frames + 1)
image_round fuel pre place packed table code_size chain chain' rest p frames e f g c h =
    let head : Bytes = image_head place packed table code_size in
    let len = length-image_head place packed table code_size f g in
    at_image fuel pre _ p frames e
    ∙ ap (λ r. r >>= next fuel (frames + 1))
        (image_block_lem pre place packed table code_size (chain ++ rest) p (frames + 1) e f g h
          ∙ skip-SubBlocks _ (pre ++ head) rest (p + (11 + table_bytes packed)) c
              (omega (arith, length-append pre head, len))
              (omega (
                arith,
                length-append pre (head ++ (chain ++ rest)),
                length-append head (chain ++ rest),
                length-append chain rest,
              )))
    ∙ ap₂ (λ d q. walk fuel d q (frames + 1)) (simp append_assoc)
        (omega (arith, len, length-append head chain))

-- An extension of the grammar is passed over, and its chain written in its sanitized form.
pub extension_round :
    (fuel : ℕ) (pre : Bytes) (label : ℕ) (chain chain' rest : Bytes) (p frames : ℕ)
    → p ≡ length pre
    → SubBlocks (is_blanked label (chain ++ rest)) chain chain'
    → walk (suc fuel) (pre ++ (extension_introducer ∷ label ∷ (chain ++ rest))) p frames
      ≡ walk fuel
          ((pre ++ (extension_introducer ∷ label ∷ chain')) ++ rest)
          (p + (2 + length chain))
          frames
extension_round fuel pre label chain chain' rest p frames e c =
    let head : Bytes = extension_introducer ∷ label ∷ [] in
    at_extension fuel pre _ p frames e
    ∙ ap (λ r. r >>= next fuel frames)
        (extension_block_lem pre (chain ++ rest) label p e
          ∙ skip-SubBlocks _ (pre ++ head) rest (p + 2) c (omega (arith, length-append pre head)) (
              omega (
                arith,
                length-append pre (extension_introducer ∷ label ∷ (chain ++ rest)),
                length-append chain rest,
              )))
    ∙ ap₂ (λ d q. walk fuel d q frames) (simp append_assoc) (omega arith)

-- On a stream of the grammar that has an image, and not too many, the loop counts the images and
-- writes the sanitized stream.
pub walk-Blocks :
    {rest rest' : Bytes} {n : ℕ} (fuel : ℕ) (pre : Bytes) (p frames : ℕ)
    → Blocks rest rest' n
    → p ≡ length pre
    → length rest ≤ fuel
    → 1 ≤ frames + n
    → frames + n ≤ max_gif_frames
    → walk fuel (pre ++ rest) p frames ≡ ok (frames + n, pre ++ rest')
walk-Blocks zero pre p frames (trailer junk) e h some_frame few = absurd (omega arith)
walk-Blocks zero pre p frames (image place packed table code_size f g c b) e h some_frame few =
    absurd (omega arith)
walk-Blocks zero pre p frames (extension label c b) e h some_frame few = absurd (omega arith)
walk-Blocks (suc fuel) pre p frames (trailer junk) e h some_frame few =
    ground (arith, at_trailer fuel pre junk p frames e)
walk-Blocks (suc fuel) pre p frames
      (image place packed table code_size {chain} {chain'} {rest} {rest'} {n} f g c b) e h
      some_frame few =
    let head : Bytes = image_head place packed table code_size in
    image_round fuel pre place packed table code_size chain chain' rest p frames e f g c
      (omega arith)
    ∙ walk-Blocks fuel (pre ++ (head ++ chain')) (p + length (head ++ chain)) (frames + 1) b
        (omega (
          arith,
          length-append pre (head ++ chain'),
          length-append head chain',
          length-append head chain,
          length-SubBlocks c,
        ))
        (omega (
          arith,
          length-image_head place packed table code_size f g,
          length-append head (chain ++ rest),
          length-append chain rest,
        ))
        (omega arith) (omega arith)
    ∙ ok_pair (omega arith) (simp append_assoc)
walk-Blocks (suc fuel) pre p frames (extension label {chain} {chain'} {rest} {rest'} {n} c b) e h
      some_frame few =
    let head : Bytes = extension_introducer ∷ label ∷ chain' in
    extension_round fuel pre label chain chain' rest p frames e c
    ∙ walk-Blocks fuel (pre ++ head) (p + (2 + length chain)) frames b
        (omega (arith, length-append pre head, length-SubBlocks c))
        (omega (arith, length-append chain rest)) some_frame few
    ∙ ok_pair refl (simp append_assoc)

-- ===== src/Storage/Gif/Decide.antt =====
-- server/internal/storage/gif.go: the loop over the blocks always ends, in one of three ways.
use native.Mathlib.Decide.{ℕ_discrete, dec_lt}
use check_in.Prelude.{
  ℕ, zero, suc, ◌+◌, ◌≤◌, ◌<◌, ◌≡◌, subst, sym, ap, ◌∙◌, false, ◌⊎◌, inl, inr, [], ◌∷◌, ◌++◌,
  length, length-append, Result, err, ◌>>=◌, arith,
}
use check_in.Slice.{Bytes}
use check_in.Storage.Gif.{
  GifError, bad_gif, too_many_frames, max_gif_frames, extension_introducer, image_descriptor,
  gif_trailer, table_bytes, walk,
}
use check_in.Storage.Gif.Grammar.{
  image_head, SubBlocks, is_blanked, Blocks, trailer, image, extension,
}
use check_in.Storage.Gif.Chains.{Chain, length-SubBlocks, skip_cases}
use check_in.Storage.Gif.Extension.{extension_block_lem, extension_block_short}
use check_in.Storage.Gif.Image.{
  ImageHead, length-image_head, image_block_lem, image_block_over, image_block_cases,
}
use check_in.Storage.Gif.Walk.{
  at_end, at_trailer, at_image, at_extension, at_other, image_round, extension_round, next,
}

abbrev pub Refused : Result GifError (ℕ × Bytes) → Type 0
Refused r = (r ≡ err bad_gif) ⊎ (r ≡ err too_many_frames)

-- A stream of the grammar stands there, with an image at least and not too many.
abbrev pub Stream : Bytes → ℕ → Type 0
Stream rest frames =
    (rest' : Bytes) × (n : ℕ) × Blocks rest rest' n
    × (1 ≤ frames + n)
    × (frames + n ≤ max_gif_frames)

abbrev pub Decides : ℕ → Type 0
Decides fuel =
    (pre rest : Bytes) (p frames : ℕ)
    → p ≡ length pre
    → frames ≤ max_gif_frames
    → length rest < fuel
    → Refused (walk fuel (pre ++ rest) p frames) ⊎ Stream rest frames

pub Refused-trans : {r s : Result GifError (ℕ × Bytes)} → r ≡ s → Refused s → Refused r
Refused-trans e (inl h) = inl (e ∙ h)
Refused-trans e (inr h) = inr (e ∙ h)

trailer_cases :
    (fuel : ℕ) (pre junk : Bytes) (p frames : ℕ)
    → p ≡ length pre
    → frames ≤ max_gif_frames
    → Refused (walk (suc fuel) (pre ++ (gif_trailer ∷ junk)) p frames)
      ⊎ Stream (gif_trailer ∷ junk) frames
trailer_cases fuel pre junk p zero e h = inl (inl (at_trailer fuel pre junk p zero e))
trailer_cases fuel pre junk p (suc frames) e h =
    inr (gif_trailer ∷ junk, 0, trailer junk, omega arith, omega arith)

-- after an extension, from what the rest of the loop does
extension_then :
    (fuel : ℕ) (pre : Bytes) (label : ℕ) (chain chain' rest : Bytes) (p frames : ℕ)
    → p ≡ length pre
    → SubBlocks (is_blanked label (chain ++ rest)) chain chain'
    → Refused (
        walk fuel
          ((pre ++ (extension_introducer ∷ label ∷ chain')) ++ rest)
          (p + (2 + length chain))
          frames)
      ⊎ Stream rest frames
    → Refused (walk (suc fuel) (pre ++ (extension_introducer ∷ label ∷ (chain ++ rest))) p frames)
      ⊎ Stream (extension_introducer ∷ label ∷ (chain ++ rest)) frames
extension_then fuel pre label chain chain' rest p frames e c (inl r) =
    inl (Refused-trans (extension_round fuel pre label chain chain' rest p frames e c) r)
extension_then fuel pre label chain chain' rest p frames e c (inr (rest', n, b, x, y)) =
    inr (extension_introducer ∷ label ∷ (chain' ++ rest'), n, extension label c b, x, y)

extension-Chain_cases :
    (fuel : ℕ) (pre : Bytes) (label : ℕ) (tail : Bytes) (p frames : ℕ)
    → Decides fuel
    → p ≡ length pre
    → frames ≤ max_gif_frames
    → length tail < fuel
    → Chain (is_blanked label tail) tail
    → Refused (walk (suc fuel) (pre ++ (extension_introducer ∷ label ∷ tail)) p frames)
      ⊎ Stream (extension_introducer ∷ label ∷ tail) frames
extension-Chain_cases fuel pre label tail p frames decides e h few (chain, chain', rest, c, split) =
    subst
      (λ t.
        SubBlocks (is_blanked label t) chain chain'
        → Refused (walk (suc fuel) (pre ++ (extension_introducer ∷ label ∷ t)) p frames)
          ⊎ Stream (extension_introducer ∷ label ∷ t) frames)
      (sym split)
      (λ c. extension_then fuel pre label chain chain' rest p frames e c (
        decides (pre ++ (extension_introducer ∷ label ∷ chain')) rest (p + (2 + length chain))
          frames
          (omega
            (arith, length-append pre (extension_introducer ∷ label ∷ chain'), length-SubBlocks c))
          h (omega (arith, ap length split, length-append chain rest))))
      c

extension_cases :
    (fuel : ℕ) (pre tail : Bytes) (p frames : ℕ)
    → Decides fuel
    → p ≡ length pre
    → frames ≤ max_gif_frames
    → length tail < fuel
    → Refused (walk (suc fuel) (pre ++ (extension_introducer ∷ tail)) p frames)
      ⊎ Stream (extension_introducer ∷ tail) frames
extension_cases fuel pre [] p frames decides e h few = inl (
    inl (
      at_extension fuel pre [] p frames e
      ∙ ap (λ r. r >>= next fuel frames) (extension_block_short pre p e)))
extension_cases fuel pre (label ∷ tail) p frames decides e h few =
    elim (skip_cases (suc (length (pre ++ (extension_introducer ∷ label ∷ tail))))
      (pre ++ (extension_introducer ∷ label ∷ [])) tail (p + 2) (is_blanked label tail)
      (omega (arith, length-append pre (extension_introducer ∷ label ∷ [])))
      (omega (arith, length-append pre (extension_introducer ∷ label ∷ tail)))) [
        | inl refused ↦ inl (
            inl (
              at_extension fuel pre (label ∷ tail) p frames e
              ∙ ap (λ r. r >>= next fuel frames)
                  (extension_block_lem pre tail label p e ∙ refused)))
        | inr c ↦ extension-Chain_cases fuel pre label tail p frames decides e h (omega arith) c
      ]

-- after an image, from what the rest of the loop does
image_then :
    (fuel : ℕ) (pre place : Bytes) (packed : ℕ) (table : Bytes) (code_size : ℕ)
    (chain chain' rest : Bytes) (p frames : ℕ)
    → p ≡ length pre
    → length place ≡ 8
    → length table ≡ table_bytes packed
    → SubBlocks false chain chain'
    → frames + 1 ≤ max_gif_frames
    → let head = image_head place packed table code_size in
      Refused
          (walk fuel ((pre ++ (head ++ chain')) ++ rest) (p + length (head ++ chain)) (frames + 1))
        ⊎ Stream rest (frames + 1)
      → Refused (walk (suc fuel) (pre ++ (head ++ (chain ++ rest))) p frames)
        ⊎ Stream (head ++ (chain ++ rest)) frames
image_then fuel pre place packed table code_size chain chain' rest p frames e f g c h (inl r) =
    inl (
      Refused-trans
        (image_round fuel pre place packed table code_size chain chain' rest p frames e f g c h) r)
image_then fuel pre place packed table code_size chain chain' rest p frames e f g c h
      (inr (rest', n, b, x, y)) =
    inr (
      image_head place packed table code_size ++ (chain' ++ rest'),
      suc n,
      image place packed table code_size f g c b,
      omega arith,
      omega arith,
    )

module _ (fuel : ℕ) (pre place : Bytes) (packed : ℕ) (table : Bytes) (code_size p frames : ℕ)
    (decides : Decides fuel) (e : p ≡ length pre) (f : length place ≡ 8)
    (g : length table ≡ table_bytes packed) (h : frames + 1 ≤ max_gif_frames) where
  abbrev head : Bytes
  head = image_head place packed table code_size

  abbrev Decided : Bytes → Type 0
  Decided xs = Refused (walk (suc fuel) (pre ++ xs) p frames) ⊎ Stream xs frames

  image-Chain_cases :
      (tail : Bytes) → length tail < fuel → Chain false tail → Decided (head ++ tail)
  image-Chain_cases tail few (chain, chain', rest, c, split) =
      subst (λ t. Decided (head ++ t)) (sym split)
        (image_then fuel pre place packed table code_size chain chain' rest p frames e f g c h (
          decides (pre ++ (head ++ chain')) rest (p + length (head ++ chain)) (frames + 1)
            (omega (
              arith,
              length-append pre (head ++ chain'),
              length-append head chain,
              length-append head chain',
              length-SubBlocks c,
            ))
            h (omega (arith, ap length split, length-append chain rest))))

  image_tail_cases : (tail : Bytes) → length tail < fuel → Decided (head ++ tail)
  image_tail_cases tail few =
      elim (skip_cases (suc (length (pre ++ (head ++ tail)))) (pre ++ head) tail
        (p + (11 + table_bytes packed)) false
        (omega (arith, length-append pre head, length-image_head place packed table code_size f g))
        (omega (arith, length-append pre (head ++ tail), length-append head tail))) [
          | inl refused ↦ inl (
              inl (
                at_image fuel pre _ p frames e
                ∙ ap (λ r. r >>= next fuel (frames + 1))
                    (image_block_lem pre place packed table code_size tail p (frames + 1) e f g h
                      ∙ refused)))
          | inr c ↦ image-Chain_cases tail few c
        ]

image_cases :
    (fuel : ℕ) (pre tail : Bytes) (p frames : ℕ)
    → Decides fuel
    → p ≡ length pre
    → frames + 1 ≤ max_gif_frames
    → length tail < fuel
    → ImageHead (image_descriptor ∷ tail)
    → Refused (walk (suc fuel) (pre ++ (image_descriptor ∷ tail)) p frames)
      ⊎ Stream (image_descriptor ∷ tail) frames
image_cases fuel pre tail p frames decides e h few i =
    subst (λ xs. Refused (walk (suc fuel) (pre ++ xs) p frames) ⊎ Stream xs frames) (sym i.split)
      (image_tail_cases fuel pre i.place i.packed i.table i.code_size p frames decides e i.place_len
        i.table_len h i.tail
        (omega (
          arith,
          ap length i.split,
          length-append (image_head i.place i.packed i.table i.code_size) i.tail,
          length-image_head i.place i.packed i.table i.code_size i.place_len i.table_len,
        )))

descriptor_cases :
    (fuel : ℕ) (pre tail : Bytes) (p frames : ℕ)
    → Decides fuel
    → p ≡ length pre
    → length tail < fuel
    → Refused (walk (suc fuel) (pre ++ (image_descriptor ∷ tail)) p frames)
      ⊎ Stream (image_descriptor ∷ tail) frames
descriptor_cases fuel pre tail p frames decides e few = elim (dec_lt max_gif_frames (frames + 1)) [
  | yes over ↦ inl (
      inr (
        at_image fuel pre tail p frames e
        ∙ ap (λ r. r >>= next fuel (frames + 1)) (image_block_over _ p (frames + 1) over)))
  | no within ↦ elim (image_block_cases pre tail p (frames + 1) e (omega arith)) [
    | inl refused ↦
        inl
          (inl (at_image fuel pre tail p frames e ∙ ap (λ r. r >>= next fuel (frames + 1)) refused))
    | inr i ↦ image_cases fuel pre tail p frames decides e (omega arith) few i
  ]
]

block_cases :
    (fuel : ℕ) (pre : Bytes) (tag : ℕ) (tail : Bytes) (p frames : ℕ)
    → Decides fuel
    → p ≡ length pre
    → frames ≤ max_gif_frames
    → length tail < fuel
    → Refused (walk (suc fuel) (pre ++ (tag ∷ tail)) p frames) ⊎ Stream (tag ∷ tail) frames
block_cases fuel pre tag tail p frames decides e h few = elim (ℕ_discrete tag gif_trailer) [
  | yes x ↦ subst Decided (sym x) (trailer_cases fuel pre tail p frames e h)
  | no x ↦ elim (ℕ_discrete tag image_descriptor) [
    | yes y ↦ subst Decided (sym y) (descriptor_cases fuel pre tail p frames decides e few)
    | no y ↦ elim (ℕ_discrete tag extension_introducer) [
      | yes z ↦ subst Decided (sym z) (extension_cases fuel pre tail p frames decides e h few)
      | no z ↦ inl (inl (at_other fuel pre tail tag p frames e x y z))
    ]
  ]
]
  where
    Decided : ℕ → Type 0
    Decided t = Refused (walk (suc fuel) (pre ++ (t ∷ tail)) p frames) ⊎ Stream (t ∷ tail) frames

-- With fuel for the bytes that are left, the loop refuses the file, or a stream of the grammar
-- stands there.
pub walk_cases : (fuel : ℕ) → Decides fuel
walk_cases zero pre rest p frames e h few = absurd (omega arith)
walk_cases (suc fuel) pre [] p frames e h few = inl (inl (at_end fuel pre p frames e))
walk_cases (suc fuel) pre (tag ∷ tail) p frames e h few =
    block_cases fuel pre tag tail p frames (walk_cases fuel) e h (omega arith)

-- ===== src/Storage/Gif/Image.antt =====
-- server/internal/storage/gif.go: the case of an image.
use mathlib.Core.List.{append_assoc}
use native.Mathlib.Decide.{dec_lt}
use check_in.Prelude.{
  ℕ, zero, suc, ◌+◌, ◌≤◌, ◌<◌, ◌≡◌, refl, ap, Bool, false, ◌⊎◌, inl, inr, [], ◌∷◌, ◌++◌, length,
  length-append, Result, err, arith, comparable_nat,
}
use check_in.Slice.{Bytes, byte_at, index_in}
use check_in.Storage.Gif.Grammar.{image_head}
use check_in.Storage.Gif.{
  GifError, bad_gif, too_many_frames, max_gif_frames, image_descriptor, table_bytes,
  skip_sub_blocks, image_block,
}

pub byte_at-append : (xs ys : Bytes) (y k : ℕ) → length xs ≡ k → byte_at (xs ++ (y ∷ ys)) k ≡ y
byte_at-append [] ys y zero h = refl
byte_at-append [] ys y (suc k) h = absurd (omega arith)
byte_at-append (x ∷ xs) ys y zero h = absurd (omega arith)
byte_at-append (x ∷ xs) ys y (suc k) h = byte_at-append xs ys y k (omega arith)

pub length-image_head :
    (place : Bytes) (packed : ℕ) (table : Bytes) (code_size : ℕ)
    → length place ≡ 8
    → length table ≡ table_bytes packed
    → length (image_head place packed table code_size) ≡ 11 + table_bytes packed
length-image_head place packed table code_size e f = omega (
  arith,
  length-append place (packed ∷ (table ++ (code_size ∷ []))),
  length-append table (code_size ∷ []),
)

-- An image descriptor that is not one too many sends the loop over its data.
pub image_block_lem :
    (pre place : Bytes) (packed : ℕ) (table : Bytes) (code_size : ℕ) (tail : Bytes) (p frames : ℕ)
    → p ≡ length pre
    → length place ≡ 8
    → length table ≡ table_bytes packed
    → frames ≤ max_gif_frames
    → image_block (pre ++ (image_head place packed table code_size ++ tail)) p frames
      ≡ skip_sub_blocks
          (suc (length (pre ++ (image_head place packed table code_size ++ tail))))
          ((pre ++ image_head place packed table code_size) ++ tail)
          (p + (11 + table_bytes packed))
          false
unfolding image_block
image_block_lem pre place packed table code_size tail p frames e f g h =
    let head : Bytes = image_head place packed table code_size in
    ground (
      arith,
      length-append pre (head ++ tail),
      length-append head tail,
      length-image_head place packed table code_size f g,
      index_in {E = GifError} pre (head ++ tail) (p + 9) 9,
      nine,
      append_assoc pre head tail,
    )
  where
    nine : byte_at (image_head place packed table code_size ++ tail) 9 ≡ packed
    nine =
        rw (append_assoc place (packed ∷ (table ++ (code_size ∷ []))) tail)
          (byte_at-append place ((table ++ (code_size ∷ [])) ++ tail) packed 8 f)

pub image_block_over :
    (d : Bytes) (p frames : ℕ)
    → max_gif_frames < frames
    → image_block d p frames ≡ err too_many_frames
unfolding image_block
image_block_over d p frames h = ground arith

skip_beyond :
    (fuel : ℕ) (d : Bytes) (p : ℕ) (blank : Bool)
    → length d ≤ p
    → skip_sub_blocks (suc fuel) d p blank ≡ err bad_gif
unfolding skip_sub_blocks
skip_beyond fuel d p blank h = ground arith

-- the file ends before the packed field
image_block_short :
    (pre rest : Bytes) (p frames : ℕ)
    → p ≡ length pre
    → frames ≤ max_gif_frames
    → length rest < 10
    → image_block (pre ++ rest) p frames ≡ err bad_gif
unfolding image_block
image_block_short pre rest p frames e f h = ground (arith, length-append pre rest)

-- the file ends in the colour table or before the code size
image_block_cut :
    (pre place : Bytes) (packed : ℕ) (rest : Bytes) (p frames : ℕ)
    → p ≡ length pre
    → length place ≡ 8
    → frames ≤ max_gif_frames
    → length rest < table_bytes packed + 1
    → image_block (pre ++ (image_descriptor ∷ (place ++ (packed ∷ rest)))) p frames ≡ err bad_gif
unfolding image_block
image_block_cut pre place packed rest p frames e f g h =
    let block : Bytes = image_descriptor ∷ (place ++ (packed ∷ rest)) in
    ground (
      arith,
      length-append pre block,
      length-append place (packed ∷ rest),
      index_in {E = GifError} pre block (p + 9) 9,
      byte_at-append place rest packed 8 f,
      skip_beyond (length (pre ++ block)) (pre ++ block) (p + 10 + table_bytes packed + 1) false,
    )

-- The bytes begin with the head of an image.
pub record ImageHead (rest : Bytes) : Type 0 where
  pub place : Bytes
  pub packed : ℕ
  pub table : Bytes
  pub code_size : ℕ
  pub tail : Bytes
  pub place_len : length place ≡ 8
  pub table_len : length table ≡ table_bytes packed
  pub split : rest ≡ image_head place packed table code_size ++ tail

-- `xs` has a byte behind its first `n`.
pub split_at :
    (n : ℕ) (xs : Bytes)
    → n < length xs
    → (front : Bytes) × (x : ℕ) × (back : Bytes) × (length front ≡ n) × (xs ≡ front ++ (x ∷ back))
split_at n [] h = absurd (omega arith)
split_at zero (x ∷ xs) h = ([], x, xs, refl, refl)
split_at (suc n) (x ∷ xs) h =
    let (front, y, back, len, e) = split_at n xs (omega arith) in
    (x ∷ front, y, back, ap suc len, ap (λ ys. x ∷ ys) e)

-- Below the limit on frames, the case of an image refuses the file, or the head of an image stands
-- there.
pub image_block_cases :
    (pre tail : Bytes) (p frames : ℕ)
    → p ≡ length pre
    → frames ≤ max_gif_frames
    → (image_block (pre ++ (image_descriptor ∷ tail)) p frames ≡ err bad_gif)
      ⊎ ImageHead (image_descriptor ∷ tail)
image_block_cases pre tail p frames e f = elim (dec_lt 8 (length tail)) [
  | no short ↦ inl (image_block_short pre (image_descriptor ∷ tail) p frames e f (omega arith))
  | yes long ↦ head_at (split_at 8 tail long)
]
  where
    result : Result GifError (ℕ × Bytes)
    result = image_block (pre ++ (image_descriptor ∷ tail)) p frames

    cut_or_head :
        (place : Bytes) (packed : ℕ) (rest : Bytes)
        → length place ≡ 8
        → tail ≡ place ++ (packed ∷ rest)
        → (length rest < table_bytes packed + 1)
          ⊎ ((table : Bytes) × (code_size : ℕ) × (behind : Bytes) × (length table
                ≡ table_bytes packed)
              × (rest ≡ table ++ (code_size ∷ behind)))
        → (result ≡ err bad_gif) ⊎ ImageHead (image_descriptor ∷ tail)
    cut_or_head place packed rest len split (inl cut) =
        inl (rw split (image_block_cut pre place packed rest p frames e len f cut))
    cut_or_head place packed rest len split (inr (table, code_size, behind, g, split')) =
        inr (record {
          place = place;
          packed = packed;
          table = table;
          code_size = code_size;
          tail = behind;
          place_len = len;
          table_len = g;
          split = rw (split, split') (simp append_assoc);
        })

    head_at :
        (place : Bytes) × (packed : ℕ) × (rest : Bytes) × (length place ≡ 8)
          × (tail ≡ place ++ (packed ∷ rest))
        → (result ≡ err bad_gif) ⊎ ImageHead (image_descriptor ∷ tail)
    head_at (place, packed, rest, len, split) =
        cut_or_head place packed rest len split (elim (dec_lt (table_bytes packed) (length rest)) [
          | yes enough ↦ inr (split_at (table_bytes packed) rest enough)
          | no less ↦ inl (omega arith)
        ])

-- ===== src/Storage/Gif/Header.antt =====
-- server/internal/storage/gif.go: the header in front of the blocks.
use mathlib.Core.List.{append_assoc}
use check_in.Prelude.{
  ℕ, zero, suc, ◌+◌, ◌≤◌, ◌≡◌, refl, ap, Bool, true, ◌||◌, [], ◌∷◌, ◌++◌, length, length-append,
  err, arith, take, comparable_nat, if◌then◌else◌,
}
use check_in.Slice.{Bytes, bytes_eq, byte_at, index_in, slice_in}
use check_in.Storage.Gif.{GifError, bad_gif, table_bytes, codes, walk, sanitize_gif}
use check_in.Storage.Gif.Grammar.{file_head}
use check_in.Storage.Gif.Image.{byte_at-append}

abbrev pub is_version : Bytes → Bool
is_version v = bytes_eq v (codes "GIF87a") || bytes_eq v (codes "GIF89a")

length-bytes_eq : (xs ys : Bytes) → bytes_eq xs ys ≡ true → length xs ≡ length ys
length-bytes_eq [] [] h = refl
length-bytes_eq [] (y ∷ ys) h = cc
length-bytes_eq (x ∷ xs) [] h = cc
length-bytes_eq (x ∷ xs) (y ∷ ys) h = ground (arith, length-bytes_eq xs ys)

pub length-is_version : (v : Bytes) → is_version v ≡ true → length v ≡ 6
length-is_version v h =
    ground (arith, length-bytes_eq v (codes "GIF87a"), length-bytes_eq v (codes "GIF89a"))

take-append_length : (n : ℕ) (xs ys : Bytes) → length xs ≡ n → take n (xs ++ ys) ≡ xs
take-append_length zero [] ys h = refl
take-append_length zero (x ∷ xs) ys h = absurd (omega arith)
take-append_length (suc n) [] ys h = absurd (omega arith)
take-append_length (suc n) (x ∷ xs) ys h =
    ap (λ zs. x ∷ zs) (take-append_length n xs ys (omega arith))

module _ (version screen : Bytes) (packed : ℕ) (back : Bytes) (v : length version ≡ 6)
    (s : length screen ≡ 4) (b : 2 ≤ length back) where
  abbrev pub whole : Bytes
  whole = version ++ (screen ++ (packed ∷ back))

  pub length-whole : length whole ≡ 11 + length back
  length-whole = omega (
    arith,
    length-append version (screen ++ (packed ∷ back)),
    length-append screen (packed ∷ back),
  )

  packed_at : byte_at whole 10 ≡ packed
  packed_at = rw (← append_assoc version screen (packed ∷ back)) (
      byte_at-append (version ++ screen) back packed 10
        (omega (arith, length-append version screen)))

  -- On a file with a full header only the version and the blocks are left to judge.
  pub sanitize_gif_header : sanitize_gif whole ≡ (
      if is_version version
      then walk (suc (length whole)) whole (13 + table_bytes packed) 0
      else err bad_gif)
  unfolding sanitize_gif
  sanitize_gif_header = ground (
    arith,
    length-whole,
    slice_in {E = GifError} [] whole 0 6 0 6,
    take-append_length 6 version (screen ++ (packed ∷ back)) v,
    index_in {E = GifError} [] whole 10 10,
    packed_at,
  )

pub length-file_head :
    (version screen : Bytes) (packed : ℕ) (aspect table : Bytes)
    → length version ≡ 6
    → length screen ≡ 4
    → length aspect ≡ 2
    → length table ≡ table_bytes packed
    → length (file_head version screen packed aspect table) ≡ 13 + table_bytes packed
length-file_head version screen packed aspect table v s a t = omega (
  arith,
  length-append version (screen ++ (packed ∷ (aspect ++ table))),
  length-append screen (packed ∷ (aspect ++ table)),
  length-append aspect table,
)

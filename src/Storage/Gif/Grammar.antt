-- ===== src/Storage/Gif/Grammar.antt =====
-- server/internal/storage/gif.go: which files the sanitizer takes, and what it makes of them, as a
-- grammar of the block stream. Each family relates a stretch of the file to the sanitized stretch.
use check_in.Prelude.{
  false, ℕ, suc, ◌≤◌, ◌≡◌, Bool, true, not, ◌&&◌, ◌||◌, [], ◌∷◌, ◌++◌, leb, ◌==◌, if◌then◌else◌,
  length, replicate, take, drop, comparable_nat,
}
use check_in.Slice.{Bytes, byte_at, bytes_eq}
use check_in.Storage.Gif.{
  max_gif_frames, extension_introducer, image_descriptor, gif_trailer, comment_label,
  application_label, codes, table_bytes, netscape, animexts,
}

-- A chain of sub-blocks with its terminator.
pub data SubBlocks (blank : Bool) : Bytes → Bytes → Type 0 where
  terminator : SubBlocks blank (0 ∷ []) (0 ∷ [])
  block :
      (n : ℕ) (payload : Bytes) {chain chain' : Bytes}
      → length payload ≡ suc n
      → SubBlocks blank chain chain'
      → SubBlocks blank
          (suc n ∷ (payload ++ chain))
          (suc n ∷ ((if blank then replicate (suc n) 0 else payload) ++ chain'))

-- The bytes begin with the loop control of an animation: the name, one sub-block of three bytes,
-- and the terminator.
abbrev pub begins_loop : Bytes → Bool
begins_loop rest =
    leb 17 (length rest)
    && (byte_at rest 0 == 11
        && ((bytes_eq (take 11 (drop 1 rest)) netscape || bytes_eq (take 11 (drop 1 rest)) animexts)
            && (byte_at rest 12 == 3 && byte_at rest 16 == 0)))

-- The extensions that are blanked: comments, and applications other than the loop control.
abbrev pub is_blanked : ℕ → Bytes → Bool
is_blanked label rest =
    label == comment_label || (label == application_label && not (begins_loop rest))

-- the bytes of an image before its data
abbrev pub image_head : Bytes → ℕ → Bytes → ℕ → Bytes
image_head place packed table code_size =
    image_descriptor ∷ (place ++ (packed ∷ (table ++ (code_size ∷ []))))

-- The blocks from one place to the end of the file, and the number of images among them.
pub data Blocks : Bytes → Bytes → ℕ → Type 0 where
  trailer : (junk : Bytes) → Blocks (gif_trailer ∷ junk) (gif_trailer ∷ junk) 0
  image :
      (place : Bytes) (packed : ℕ) (table : Bytes) (code_size : ℕ) {chain chain' rest rest' : Bytes}
      {n : ℕ}
      → length place ≡ 8
      → length table ≡ table_bytes packed
      → SubBlocks false chain chain'
      → Blocks rest rest' n
      → Blocks
          (image_head place packed table code_size ++ (chain ++ rest))
          (image_head place packed table code_size ++ (chain' ++ rest'))
          (suc n)
  extension :
      (label : ℕ) {chain chain' rest rest' : Bytes} {n : ℕ}
      → SubBlocks (is_blanked label (chain ++ rest)) chain chain'
      → Blocks rest rest' n
      → Blocks
          (extension_introducer ∷ label ∷ (chain ++ rest))
          (extension_introducer ∷ label ∷ (chain' ++ rest'))
          n

-- The bytes of a file up to the blocks: version, screen, colour table.
abbrev pub file_head : Bytes → Bytes → ℕ → Bytes → Bytes → Bytes
file_head version screen packed aspect table = version ++ (screen ++ (packed ∷ (aspect ++ table)))

-- A whole file with its sanitized form: an image at least, and at most 256.
pub data Gif : Bytes → Bytes → ℕ → Type 0 where
  gif :
      (version screen : Bytes) (packed : ℕ) (aspect table : Bytes) {stream stream' : Bytes} {n : ℕ}
      → (bytes_eq version (codes "GIF87a") || bytes_eq version (codes "GIF89a")) ≡ true
      → length screen ≡ 4
      → length aspect ≡ 2
      → length table ≡ table_bytes packed
      → Blocks stream stream' n
      → 1 ≤ n
      → n ≤ max_gif_frames
      → Gif
          (file_head version screen packed aspect table ++ stream)
          (file_head version screen packed aspect table ++ stream')
          n

-- ===== src/Storage/Gif/Correct.antt =====
-- server/internal/storage/gif.go: what `sanitizeGIF` accepts and what it makes of it.
use mathlib.Core.List.{append_assoc}
use native.Mathlib.Decide.{dec_lt}
use check_in.Prelude.{
  ℕ, suc, ◌+◌, ◌≤◌, ◌<◌, ◌≡◌, refl, subst, sym, ap, ◌∙◌, subst₂, ◌↔◌, true, false, ◌⊎◌, inl, inr,
  ◌∷◌, ◌++◌, length, length-append, Result, ok, err, arith, Bool-cases, take, drop,
  take-append-drop, length-take, length-drop, comparable_nat,
}
use check_in.Slice.{Bytes}
use check_in.Storage.Gif.{GifError, bad_gif, table_bytes, walk, sanitize_gif}
use check_in.Storage.Gif.Grammar.{Gif, gif, file_head}
use check_in.Storage.Gif.Header.{
  is_version, length-is_version, length-whole, sanitize_gif_header, length-file_head,
}
use check_in.Storage.Gif.Image.{split_at}
use check_in.Storage.Gif.Walk.{walk-Blocks}
use check_in.Storage.Gif.Chains.{ok_pair}
use check_in.Storage.Gif.Decide.{Refused-trans, Refused, Stream, walk_cases}

-- Every file of the grammar is accepted: the result is its number of images and its sanitized form.
pub sanitize_gif-Gif : {d d' : Bytes} {n : ℕ} → Gif d d' n → sanitize_gif d ≡ ok (n, d')
sanitize_gif-Gif
      (gif version screen packed aspect table {stream} {stream'} {n} v s a t b some_frame few) =
    let head : Bytes = file_head version screen packed aspect table in
    let back : Bytes = (aspect ++ table) ++ stream in
    let len = length-is_version version v in
    let regroup : head ++ stream ≡ version ++ (screen ++ (packed ∷ back)) = simp append_assoc in
    ap sanitize_gif regroup
    ∙ sanitize_gif_header version screen packed back len s
        (omega (arith, length-append (aspect ++ table) stream, length-append aspect table))
    ∙ rw v (ap (λ d. walk (suc (length d)) d (13 + table_bytes packed) 0) (sym regroup))
    ∙ walk-Blocks (suc (length (head ++ stream))) head (13 + table_bytes packed) 0 b
        (sym (length-file_head version screen packed aspect table len s a t))
        (omega (arith, length-append head stream)) (omega arith) (omega arith)
    ∙ ok_pair (omega arith) refl

-- The file is one of the grammar.
abbrev pub IsGif : Bytes → Type 0
IsGif d = (d' : Bytes) × (n : ℕ) × Gif d d' n

sanitize_gif_short : (d : Bytes) → length d < 13 → sanitize_gif d ≡ err bad_gif
unfolding sanitize_gif
sanitize_gif_short d h = ground arith

walk_beyond :
    (fuel : ℕ) (d : Bytes) (p frames : ℕ) → length d ≤ p → walk (suc fuel) d p frames ≡ err bad_gif
unfolding walk
walk_beyond fuel d p frames h = ground arith

module _ (version screen : Bytes) (packed : ℕ) (back : Bytes) (v : is_version version ≡ true)
    (s : length screen ≡ 4) (b : 2 ≤ length back) where
  abbrev file : Bytes
  file = version ++ (screen ++ (packed ∷ back))

  len : length version ≡ 6
  len = length-is_version version v

  sanitize_walk : sanitize_gif file ≡ walk (suc (length file)) file (13 + table_bytes packed) 0
  sanitize_walk = sanitize_gif_header version screen packed back len s b ∙ rw v

  -- the blocks of the file are judged by the loop
  blocks_cases :
      (aspect table stream : Bytes)
      → length aspect ≡ 2
      → length table ≡ table_bytes packed
      → back ≡ (aspect ++ table) ++ stream
      → Refused (sanitize_gif file) ⊎ IsGif file
  blocks_cases aspect table stream a t split = judge (
      walk_cases (suc (length file)) head stream (13 + table_bytes packed) 0
        (sym (length-file_head version screen packed aspect table len s a t)) (omega arith)
        (omega (arith, ap length regroup, length-append head stream)))
    where
      head : Bytes
      head = file_head version screen packed aspect table

      regroup : file ≡ head ++ stream
      regroup = rw split (simp append_assoc)

      judge :
          Refused (walk (suc (length file)) (head ++ stream) (13 + table_bytes packed) 0)
            ⊎ Stream stream 0
          → Refused (sanitize_gif file) ⊎ IsGif file
      judge (inl r) = inl (
          Refused-trans
            (sanitize_walk
              ∙ ap (λ d. walk (suc (length file)) d (13 + table_bytes packed) 0) regroup)
            r)
      judge (inr (stream', n, blocks, x, y)) = inr (
        head ++ stream',
        n,
        subst (λ d. Gif d (head ++ stream') n) (sym regroup)
            (gif version screen packed aspect table v s a t blocks (omega arith) (omega arith)),
      )

  table_cases : Refused (sanitize_gif file) ⊎ IsGif file
  table_cases = elim (dec_lt (length back) (2 + table_bytes packed)) [
    | yes cut ↦ inl (
        inl (
          sanitize_walk
          ∙ walk_beyond (length file) file (13 + table_bytes packed) 0
              (omega (arith, length-whole version screen packed back len s b))))
    | no enough ↦
        let rest : Bytes = drop 2 back in
        blocks_cases (take 2 back) (take (table_bytes packed) rest) (drop (table_bytes packed) rest)
          (omega (arith, length-take 2 back))
          (omega (arith, length-take (table_bytes packed) rest, length-drop 2 back))
          (sym (
            append_assoc (take 2 back) _ _
            ∙ ap (λ xs. take 2 back ++ xs) (take-append-drop (table_bytes packed) rest)
            ∙ take-append-drop 2 back))
  ]

refused_version :
    (version screen : Bytes) (packed : ℕ) (back : Bytes)
    → length version ≡ 6
    → length screen ≡ 4
    → 2 ≤ length back
    → is_version version ≡ false
    → sanitize_gif (version ++ (screen ++ (packed ∷ back))) ≡ err bad_gif
refused_version version screen packed back v s b h =
    sanitize_gif_header version screen packed back v s b ∙ rw h

header_cases :
    (version screen : Bytes) (packed : ℕ) (back : Bytes)
    → length version ≡ 6
    → length screen ≡ 4
    → 2 ≤ length back
    → let d = version ++ (screen ++ (packed ∷ back)) in Refused (sanitize_gif d) ⊎ IsGif d
header_cases version screen packed back v s b = elim (Bool-cases (is_version version)) [
  | inl known ↦ table_cases version screen packed back known s b
  | inr unknown ↦ inl (inl (refused_version version screen packed back v s b unknown))
]

-- The sanitizer always returns: it never panics and the fuel suffices. It refuses the file as
-- malformed or for its frames, or the file is one of the grammar.
pub sanitize_gif_cases : (d : Bytes) → Refused (sanitize_gif d) ⊎ IsGif d
sanitize_gif_cases d = elim (dec_lt (length d) 13) [
  | yes short ↦ inl (inl (sanitize_gif_short d short))
  | no long ↦
      let (front, packed, back, len, split) = split_at 10 d (omega arith) in
      subst (λ xs. Refused (sanitize_gif xs) ⊎ IsGif xs)
        (sym (
          split
          ∙ ap (λ xs. xs ++ (packed ∷ back)) (sym (take-append-drop 6 front))
          ∙ append_assoc (take 6 front) (drop 6 front) (packed ∷ back)))
        (header_cases (take 6 front) (drop 6 front) packed back (omega (arith, length-take 6 front))
          (omega (arith, length-drop 6 front))
          (omega (arith, ap length split, length-append front (packed ∷ back))))
]

accepted :
    {d d' : Bytes} {n : ℕ}
    → sanitize_gif d ≡ ok (n, d')
    → Refused (sanitize_gif d) ⊎ IsGif d
    → Gif d d' n
accepted h (inl (inl r)) = cc
accepted h (inl (inr r)) = cc
accepted {d} {d'} {n} h (inr (e, m, g)) =
    subst₂ (λ x k. Gif d x k) (output (sym h ∙ sanitize_gif-Gif g))
      (frames (sym h ∙ sanitize_gif-Gif g)) g
  where
    output : ◌≡◌ {A = Result GifError (ℕ × Bytes)} (ok (n, d')) (ok (m, e)) → e ≡ d'
    output h = cc

    frames : ◌≡◌ {A = Result GifError (ℕ × Bytes)} (ok (n, d')) (ok (m, e)) → m ≡ n
    frames h = cc

-- The sanitizer accepts exactly the files of the grammar, and what it returns is the number of
-- images and the sanitized form that the grammar gives.
pub sanitize_gif_iff : (d d' : Bytes) (n : ℕ) → (sanitize_gif d ≡ ok (n, d')) ↔ Gif d d' n
sanitize_gif_iff d d' n = (λ h. accepted h (sanitize_gif_cases d), λ g. sanitize_gif-Gif g)

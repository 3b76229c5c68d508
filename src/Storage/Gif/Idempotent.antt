-- ===== src/Storage/Gif/Idempotent.antt =====
-- server/internal/storage/gif.go: a sanitized file stays as it is, and keeps its size.
use mathlib.Core.List.{append_assoc}
use native.Mathlib.Decide.{ℕ_discrete}
use check_in.Prelude.{
  ℕ, zero, suc, ◌+◌, ◌≤◌, ◌<◌, ◌≡◌, refl, subst, sym, ap, ◌∙◌, Bool, true, false, ◌||◌, ◌&&◌, inl,
  inr, [], ◌∷◌, ◌++◌, length, length-append, ok, arith, Bool-cases, nat_beq_iff, &&-eq-true, take,
  comparable_nat, ◌==◌, not, replicate, length-replicate,
}
use check_in.Slice.{Bytes, byte_at}
use check_in.Storage.Gif.{max_gif_frames, sanitize_gif, application_label, comment_label}
use check_in.Storage.Gif.Grammar.{
  Gif, gif, file_head, Blocks, trailer, image, extension, image_head, SubBlocks, terminator, block,
  begins_loop, is_blanked,
}
use check_in.Storage.Gif.Chains.{length-SubBlocks}
use check_in.Storage.Gif.Correct.{sanitize_gif-Gif, sanitize_gif_iff}

-- Zeros in the place of zeros change nothing.
SubBlocks-again :
    {blank : Bool} {chain chain' : Bytes}
    → SubBlocks blank chain chain'
    → SubBlocks blank chain' chain'
SubBlocks-again terminator = terminator
SubBlocks-again {blank = true} (block n payload len c) =
    block n (replicate (suc n) 0) (length-replicate (suc n) 0) (SubBlocks-again c)
SubBlocks-again {blank = false} (block n payload len c) = block n payload len (SubBlocks-again c)

SubBlocks-kept :
    {blank : Bool} {chain chain' : Bytes}
    → SubBlocks blank chain chain'
    → blank ≡ false
    → chain' ≡ chain
SubBlocks-kept terminator e = refl
SubBlocks-kept {blank = true} (block n payload len c) e = cc
SubBlocks-kept {blank = false} (block n payload len c) e =
    ap (λ xs. suc n ∷ (payload ++ xs)) (SubBlocks-kept c e)

-- A blanked chain does not carry the name of a loop control.
blanked_no_loop :
    {blank : Bool} {chain chain' : Bytes} (rest : Bytes)
    → SubBlocks blank chain chain'
    → blank ≡ true
    → begins_loop (chain' ++ rest) ≡ false
blanked_no_loop rest terminator e = ground arith
blanked_no_loop {blank = false} rest (block n payload len c) e = cc
blanked_no_loop {blank = true} rest (block n payload {chain} {chain'} len c) e =
    elim (ℕ_discrete n 10) [
      | yes eleven ↦
          subst (λ m. begins_loop ((suc m ∷ (replicate (suc m) 0 ++ chain')) ++ rest) ≡ false)
            (sym eleven) (ground arith)
      | no other ↦ ground arith
    ]

byte_at-append_left : (xs ys : Bytes) (i : ℕ) → i < length xs → byte_at (xs ++ ys) i ≡ byte_at xs i
byte_at-append_left [] ys i h = absurd (omega arith)
byte_at-append_left (x ∷ xs) ys zero h = refl
byte_at-append_left (x ∷ xs) ys (suc i) h = byte_at-append_left xs ys i (omega arith)

byte_at-append_right :
    (xs ys : Bytes) (i k : ℕ) → i ≡ length xs + k → byte_at (xs ++ ys) i ≡ byte_at ys k
byte_at-append_right [] ys i k h = ap (byte_at ys) (omega arith)
byte_at-append_right (x ∷ xs) ys zero k h = absurd (omega arith)
byte_at-append_right (x ∷ xs) ys (suc i) k h = byte_at-append_right xs ys i k (omega arith)

take-append_left : (n : ℕ) (xs ys : Bytes) → n ≤ length xs → take n (xs ++ ys) ≡ take n xs
take-append_left zero xs ys h = refl
take-append_left (suc n) [] ys h = absurd (omega arith)
take-append_left (suc n) (x ∷ xs) ys h = ap (λ zs. x ∷ zs) (take-append_left n xs ys (omega arith))

begins_loop_facts : (xs : Bytes) → begins_loop xs ≡ true → (byte_at xs 0 ≡ 11) × (byte_at xs 12 ≡ 3)
begins_loop_facts xs h =
    let first = &&-eq-true _ _ (&&-eq-true _ _ h).1 in
    let second = &&-eq-true _ _ (&&-eq-true _ _ first.1).1 in
    ((nat_beq_iff _ 11).0 first.0, (nat_beq_iff _ 3).0 second.0)

length-SubBlocks-pos :
    {blank : Bool} {chain chain' : Bytes} → SubBlocks blank chain chain' → 1 ≤ length chain
length-SubBlocks-pos terminator = omega arith
length-SubBlocks-pos (block n payload len c) = omega arith

-- A chain is longer than its first sub-block.
first_block :
    {blank : Bool} {chain chain' : Bytes} (rest : Bytes) (m : ℕ)
    → SubBlocks blank chain chain'
    → byte_at (chain ++ rest) 0 ≡ suc m
    → suc m + 2 ≤ length chain
first_block rest m terminator h = absurd (omega arith)
first_block rest m (block n payload {chain} len c) h =
    omega (arith, length-append payload chain, length-SubBlocks-pos c)

-- A chain that begins with a loop control holds all of it.
loop_chain :
    {blank : Bool} {chain chain' : Bytes} (rest : Bytes)
    → SubBlocks blank chain chain'
    → begins_loop (chain ++ rest) ≡ true
    → 17 ≤ length chain
loop_chain rest terminator h = ground arith
loop_chain rest (block n payload {chain} len c) h =
    let facts = begins_loop_facts ((suc n ∷ (payload ++ chain)) ++ rest) h in
    let second : byte_at (chain ++ rest) 0 ≡ 3 =
      sym (byte_at-append_right payload (chain ++ rest) 11 0 (omega arith))
      ∙ ap (λ xs. byte_at xs 11) (sym (append_assoc payload chain rest))
      ∙ facts.1 in
    omega (arith, facts.0, first_block rest 2 c second, length-append payload chain)

-- Whether there is a loop control is seen from the first 17 bytes.
begins_loop_prefix :
    (x : ℕ) (chain rest rest' : Bytes)
    → 16 ≤ length chain
    → begins_loop ((x ∷ chain) ++ rest) ≡ begins_loop ((x ∷ chain) ++ rest')
begins_loop_prefix x chain rest rest' h = ground (
  arith,
  length-append chain rest,
  length-append chain rest',
  byte_at-append_left chain rest 11,
  byte_at-append_left chain rest' 11,
  byte_at-append_left chain rest 15,
  byte_at-append_left chain rest' 15,
  take-append_left 11 chain rest,
  take-append_left 11 chain rest',
)

begins_loop_again :
    (chain rest rest' : Bytes)
    → 17 ≤ length chain
    → begins_loop (chain ++ rest) ≡ begins_loop (chain ++ rest')
begins_loop_again [] rest rest' h = absurd (omega arith)
begins_loop_again (x ∷ chain) rest rest' h = begins_loop_prefix x chain rest rest' (omega arith)

blanked_stays :
    (p q b b' : Bool)
    → (p || (q && not b)) ≡ true
    → b' ≡ false
    → (p || (q && not b')) ≡ (p || (q && not b))
blanked_stays p q b b' h e = ground arith

kept_stays :
    (p q b b' : Bool)
    → (p || (q && not b)) ≡ false
    → (b ≡ true → b' ≡ true)
    → (p || (q && not b')) ≡ (p || (q && not b))
kept_stays true q b b' h k = refl
kept_stays false false b b' h k = refl
kept_stays false true true b' h k = rw (k refl)
kept_stays false true false b' h k = cc

-- Whether an extension is blanked does not change.
is_blanked_again :
    (label : ℕ) (chain chain' rest rest' : Bytes)
    → SubBlocks (is_blanked label (chain ++ rest)) chain chain'
    → is_blanked label (chain' ++ rest') ≡ is_blanked label (chain ++ rest)
is_blanked_again label chain chain' rest rest' c =
    elim (Bool-cases (is_blanked label (chain ++ rest))) [
      | inl blanked ↦
          blanked_stays (label == comment_label) (label == application_label)
            (begins_loop (chain ++ rest)) (begins_loop (chain' ++ rest')) blanked
            (blanked_no_loop rest' c blanked)
      | inr kept ↦
          kept_stays (label == comment_label) (label == application_label)
            (begins_loop (chain ++ rest)) (begins_loop (chain' ++ rest')) kept
            (λ loop.
              ap (λ xs. begins_loop (xs ++ rest')) (SubBlocks-kept c kept)
              ∙ sym (begins_loop_again chain rest rest' (loop_chain rest c loop))
              ∙ loop)
    ]

Blocks-again : {rest rest' : Bytes} {n : ℕ} → Blocks rest rest' n → Blocks rest' rest' n
Blocks-again (trailer junk) = trailer junk
Blocks-again (image place packed table code_size f g c b) =
    image place packed table code_size f g (SubBlocks-again c) (Blocks-again b)
Blocks-again (extension label {chain} {chain'} {rest} {rest'} c b) =
    extension label
      (subst (λ x. SubBlocks x chain' chain')
        (sym (is_blanked_again label chain chain' rest rest' c)) (SubBlocks-again c))
      (Blocks-again b)

Gif-again : {d d' : Bytes} {n : ℕ} → Gif d d' n → Gif d' d' n
Gif-again (gif version screen packed aspect table v s a t b x y) =
    gif version screen packed aspect table v s a t (Blocks-again b) x y

-- Sanitizing a sanitized file is no error, changes nothing and counts the same frames.
pub sanitize_gif_idempotent :
    (d d' : Bytes) (n : ℕ) → sanitize_gif d ≡ ok (n, d') → sanitize_gif d' ≡ ok (n, d')
sanitize_gif_idempotent d d' n h = sanitize_gif-Gif (Gif-again ((sanitize_gif_iff d d' n).0 h))

length-Blocks : {rest rest' : Bytes} {n : ℕ} → Blocks rest rest' n → length rest' ≡ length rest
length-Blocks (trailer junk) = refl
length-Blocks (image place packed table code_size {chain} {chain'} {rest} {rest'} f g c b) =
    let head : Bytes = image_head place packed table code_size in
    omega (
      arith,
      length-append head (chain ++ rest),
      length-append head (chain' ++ rest'),
      length-append chain rest,
      length-append chain' rest',
      length-SubBlocks c,
      length-Blocks b,
    )
length-Blocks (extension label {chain} {chain'} {rest} {rest'} c b) = omega (
  arith,
  length-append chain rest,
  length-append chain' rest',
  length-SubBlocks c,
  length-Blocks b,
)

length-Gif :
    {d d' : Bytes} {n : ℕ} → Gif d d' n → (length d' ≡ length d) × (1 ≤ n) × (n ≤ max_gif_frames)
length-Gif (gif version screen packed aspect table {stream} {stream'} v s a t b x y) =
    let head : Bytes = file_head version screen packed aspect table in
    (omega (arith, length-append head stream, length-append head stream', length-Blocks b), x, y)

-- An accepted file keeps its size, and has between one frame and 256.
pub sanitize_gif_bounds :
    (d d' : Bytes) (n : ℕ)
    → sanitize_gif d ≡ ok (n, d')
    → (length d' ≡ length d) × (1 ≤ n) × (n ≤ max_gif_frames)
sanitize_gif_bounds d d' n h = length-Gif ((sanitize_gif_iff d d' n).0 h)

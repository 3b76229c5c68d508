-- ===== src/Storage/Gif/Chains.antt =====
-- server/internal/storage/gif.go: `skipSubBlocks` reads a chain of the grammar, or refuses.
use mathlib.Core.List.{append_assoc}
use check_in.Prelude.{
  ℕ, zero, suc, ◌+◌, ◌≤◌, ◌<◌, ◌≡◌, refl, subst, sym, ap, ◌∙◌, Bool, true, false, ◌⊎◌, inl, inr, [],
  ◌∷◌, ◌++◌, if◌then◌else◌, length, length-append, take, drop, take-append-drop, length-take,
  length-drop, length-replicate, replicate, Result, ok, err, arith, comparable_nat,
}
use native.Mathlib.Decide.{dec_lt}
use check_in.Slice.{Bytes, clear, index_in, clear_in}
use check_in.Storage.Gif.{GifError, bad_gif, skip_sub_blocks}
use check_in.Storage.Gif.Grammar.{SubBlocks, terminator, block}

-- what one round writes over a payload
abbrev pub written : Bool → ℕ → Bytes → Bytes
written blank n payload = if blank then replicate n 0 else payload

at_end :
    (fuel : ℕ) (pre : Bytes) (p : ℕ) (blank : Bool)
    → p ≡ length pre
    → skip_sub_blocks (suc fuel) (pre ++ []) p blank ≡ err bad_gif
unfolding skip_sub_blocks
at_end fuel pre p blank e = ground (arith, length-append pre [])

at_terminator :
    (fuel : ℕ) (pre rest : Bytes) (p : ℕ) (blank : Bool)
    → p ≡ length pre
    → skip_sub_blocks (suc fuel) (pre ++ (0 ∷ rest)) p blank ≡ ok (p + 1, pre ++ (0 ∷ rest))
unfolding skip_sub_blocks
at_terminator fuel pre rest p blank e =
    ground (arith, length-append pre (0 ∷ rest), index_in {E = GifError} pre (0 ∷ rest) p 0)

at_short :
    (fuel : ℕ) (pre rest : Bytes) (n p : ℕ) (blank : Bool)
    → p ≡ length pre
    → length rest < suc n
    → skip_sub_blocks (suc fuel) (pre ++ (suc n ∷ rest)) p blank ≡ err bad_gif
unfolding skip_sub_blocks
at_short fuel pre rest n p blank e h =
    ground (arith, length-append pre (suc n ∷ rest), index_in {E = GifError} pre (suc n ∷ rest) p 0)

clear_next :
    (pre payload rest : Bytes) (n p : ℕ)
    → p ≡ length pre
    → length payload ≡ suc n
    → clear {E = GifError} (pre ++ (suc n ∷ (payload ++ rest))) (p + 1) (suc n)
      ≡ ok ((pre ++ (suc n ∷ replicate (suc n) 0)) ++ rest)
clear_next pre payload rest n p e h =
    ap (λ d. clear d (p + 1) (suc n)) (sym (append_assoc pre (suc n ∷ []) (payload ++ rest)))
    ∙ clear_in (pre ++ (suc n ∷ [])) payload rest (p + 1) (suc n)
        (omega (arith, length-append pre (suc n ∷ []))) (sym h)
    ∙ ap ok (simp append_assoc)

at_block :
    (fuel : ℕ) (pre payload rest : Bytes) (n p : ℕ) (blank : Bool)
    → p ≡ length pre
    → length payload ≡ suc n
    → skip_sub_blocks (suc fuel) (pre ++ (suc n ∷ (payload ++ rest))) p blank
      ≡ skip_sub_blocks fuel
          ((pre ++ (suc n ∷ written blank (suc n) payload)) ++ rest)
          (p + 1 + suc n)
          blank
unfolding skip_sub_blocks
at_block fuel pre payload rest n p blank e h = ground (
  arith,
  length-append pre (suc n ∷ (payload ++ rest)),
  length-append payload rest,
  index_in {E = GifError} pre (suc n ∷ (payload ++ rest)) p 0,
  clear_next pre payload rest n p e h,
  append_assoc pre (suc n ∷ payload) rest,
)

pub ok_pair :
    {a b : ℕ} {d d' : Bytes}
    → a ≡ b
    → d ≡ d'
    → ◌≡◌ {A = Result GifError (ℕ × Bytes)} (ok (a, d)) (ok (b, d'))
ok_pair e f = cc

length-written :
    (blank : Bool) (n : ℕ) (payload : Bytes)
    → length payload ≡ n
    → length (written blank n payload) ≡ n
length-written true n payload h = length-replicate n 0
length-written false n payload h = h

-- `skipSubBlocks` passes over a chain of the grammar to the byte behind it, and writes its
-- sanitized form.
pub skip-SubBlocks :
    {blank : Bool} {chain chain' : Bytes} (fuel : ℕ) (pre rest : Bytes) (p : ℕ)
    → SubBlocks blank chain chain'
    → p ≡ length pre
    → length chain ≤ fuel
    → skip_sub_blocks fuel (pre ++ (chain ++ rest)) p blank
      ≡ ok (p + length chain, pre ++ (chain' ++ rest))
skip-SubBlocks {blank} zero pre rest p terminator e h = absurd (omega arith)
skip-SubBlocks {blank} zero pre rest p (block n payload len c) e h = absurd (omega arith)
skip-SubBlocks {blank} (suc fuel) pre rest p terminator e h = at_terminator fuel pre rest p blank e
skip-SubBlocks {blank} (suc fuel) pre rest p (block n payload {chain} {chain'} len c) e h =
    let out : Bytes = written blank (suc n) payload in
    ap (λ xs. skip_sub_blocks (suc fuel) (pre ++ (suc n ∷ xs)) p blank)
      (append_assoc payload chain rest)
    ∙ at_block fuel pre payload (chain ++ rest) n p blank e len
    ∙ skip-SubBlocks fuel (pre ++ (suc n ∷ out)) rest (p + 1 + suc n) c
        (omega (arith, length-append pre (suc n ∷ out), length-written blank (suc n) payload len))
        (omega (arith, length-append payload chain))
    ∙ ok_pair (omega (arith, length-append payload chain)) (simp append_assoc)

-- The bytes begin with a chain of the grammar.
abbrev pub Chain : Bool → Bytes → Type 0
Chain blank rest =
    (chain : Bytes) × (chain' : Bytes) × (rest' : Bytes) × SubBlocks blank chain chain'
    × (rest ≡ chain ++ rest')

next-Chain :
    (blank : Bool) (n : ℕ) (payload rest : Bytes)
    → length payload ≡ suc n
    → Chain blank rest
    → Chain blank (suc n ∷ (payload ++ rest))
next-Chain blank n payload rest len (chain, chain', rest', c, e) = (
  suc n ∷ (payload ++ chain),
  suc n ∷ (written blank (suc n) payload ++ chain'),
  rest',
  block n payload len c,
  rw e (ap (λ xs. suc n ∷ xs) (sym (append_assoc payload chain rest'))),
)

-- one round, from what the rest of the loop does
skip_round :
    (fuel : ℕ) (pre payload rest : Bytes) (n p : ℕ) (blank : Bool)
    → p ≡ length pre
    → length payload ≡ suc n
    → (skip_sub_blocks fuel
          ((pre ++ (suc n ∷ written blank (suc n) payload)) ++ rest)
          (p + 1 + suc n)
          blank
        ≡ err bad_gif)
      ⊎ Chain blank rest
    → (skip_sub_blocks (suc fuel) (pre ++ (suc n ∷ (payload ++ rest))) p blank ≡ err bad_gif)
      ⊎ Chain blank (suc n ∷ (payload ++ rest))
skip_round fuel pre payload rest n p blank e len (inl refused) =
    inl (at_block fuel pre payload rest n p blank e len ∙ refused)
skip_round fuel pre payload rest n p blank e len (inr c) =
    inr (next-Chain blank n payload rest len c)

-- With enough fuel `skipSubBlocks` refuses the file, or a chain of the grammar stands there.
pub skip_cases :
    (fuel : ℕ) (pre rest : Bytes) (p : ℕ) (blank : Bool)
    → p ≡ length pre
    → length rest < fuel
    → (skip_sub_blocks fuel (pre ++ rest) p blank ≡ err bad_gif) ⊎ Chain blank rest
skip_cases zero pre rest p blank e h = absurd (omega arith)
skip_cases (suc fuel) pre [] p blank e h = inl (at_end fuel pre p blank e)
skip_cases (suc fuel) pre (zero ∷ rest) p blank e h = inr (0 ∷ [], 0 ∷ [], rest, terminator, refl)
skip_cases (suc fuel) pre (suc n ∷ rest) p blank e h = elim (dec_lt (length rest) (suc n)) [
  | yes short ↦ inl (at_short fuel pre rest n p blank e short)
  | no long ↦
      let payload : Bytes = take (suc n) rest in
      let behind : Bytes = drop (suc n) rest in
      let len : length payload ≡ suc n = omega (arith, length-take (suc n) rest) in
      let out : Bytes = written blank (suc n) payload in
      subst
        (λ xs.
          (skip_sub_blocks (suc fuel) (pre ++ (suc n ∷ xs)) p blank ≡ err bad_gif)
          ⊎ Chain blank (suc n ∷ xs))
        (take-append-drop (suc n) rest)
        (skip_round fuel pre payload behind n p blank e len (
          skip_cases fuel (pre ++ (suc n ∷ out)) behind (p + 1 + suc n) blank
            (omega
              (arith, length-append pre (suc n ∷ out), length-written blank (suc n) payload len))
            (omega (arith, length-drop (suc n) rest))))
]

-- The sanitized chain has the length of the chain.
pub length-SubBlocks :
    {blank : Bool} {chain chain' : Bytes}
    → SubBlocks blank chain chain'
    → length chain' ≡ length chain
length-SubBlocks terminator = refl
length-SubBlocks {blank} (block n payload {chain} {chain'} len c) = omega (
  arith,
  length-append (written blank (suc n) payload) chain',
  length-append payload chain,
  length-written blank (suc n) payload len,
  length-SubBlocks c,
)

-- ===== src/Gazetteer/Packed/Columns.antt =====
-- server/internal/gazetteer/gazetteer.go: numbers in bytes, and the cells of a column.
use check_in.Prelude.{
  ℕ, zero, suc, ◌*◌, ◌/◌, ◌^◌, ◌<◌, ◌≡◌, refl, ap, ◌∙◌, List, [], ◌∷◌, ◌++◌, length, take, drop,
  get_elem?, some, arith, ℤ, pos, negsuc, length-append,
}
use mathlib.Core.List.{append_assoc}
use check_in.Slice.{Bytes, drop-append_right}
use check_in.Gazetteer.{little_endian, signed32}
use check_in.Gazetteer.Packed.{le_bytes, word32, column, FitsInt32}

-- 256 to a power, so that a bound steps with the bytes
abbrev pub span : ℕ → ℕ
span zero = 1
span (suc n) = 256 * span n

pub length-le_bytes : (n v : ℕ) → length (le_bytes n v) ≡ n
length-le_bytes zero v = refl
length-le_bytes (suc n) v = ap suc (length-le_bytes n (v / 256))

pub little_endian-le_bytes : (n v : ℕ) → v < span n → little_endian (le_bytes n v) ≡ v
little_endian-le_bytes zero v h = omega arith
little_endian-le_bytes (suc n) v h = omega (arith, little_endian-le_bytes n (v / 256) (omega arith))

pub signed32-word32 : (z : ℤ) → FitsInt32 z → signed32 (word32 z) ≡ z
signed32-word32 (pos n) h = ground arith
signed32-word32 (negsuc n) h = ground arith

pub word32-lt : (z : ℤ) → FitsInt32 z → word32 z < 2 ^ 32
word32-lt (pos n) h = omega arith
word32-lt (negsuc n) h = omega arith

pub take-prefix : (xs ys : Bytes) (n : ℕ) → n ≡ length xs → take n (xs ++ ys) ≡ xs
take-prefix [] ys zero e = refl
take-prefix [] ys (suc n) e = absurd (omega arith)
take-prefix (x ∷ xs) ys zero e = absurd (omega arith)
take-prefix (x ∷ xs) ys (suc n) e = ap (λ zs. x ∷ zs) (take-prefix xs ys n (omega arith))

module _ {ℓ} {A : Type ℓ} (n : ℕ) (field : A → ℕ) where
  pub length-column : (xs : List A) → length (column n field xs) ≡ n * length xs
  length-column [] = omega arith
  length-column (x ∷ xs) = grind (
    arith,
    length-column xs,
    length-le_bytes n (field x),
    length-append (le_bytes n (field x)) (column n field xs),
  )

  -- The cell of one row in its column.
  pub column-get_elem? :
      (xs : List A) (i : ℕ) (x : A) (rest : Bytes)
      → get_elem? xs i ≡ some x
      → take n (drop (i * n) (column n field xs ++ rest)) ≡ le_bytes n (field x)
  column-get_elem? [] i x rest e = absurd (ground (arith, e))
  column-get_elem? (y ∷ xs) zero x rest e =
      let same : y ≡ x = ground (arith, e) in
      let first : 0 * n ≡ 0 = grind arith in
      rw (same, first)
        (ap (take n) (append_assoc (le_bytes n (field x)) (column n field xs) rest)
          ∙ take-prefix (le_bytes n (field x)) (column n field xs ++ rest) n
              (omega (arith, length-le_bytes n (field x))))
  column-get_elem? (y ∷ xs) (suc i) x rest e =
      ap (λ d. take n (drop (suc i * n) d))
        (append_assoc (le_bytes n (field y)) (column n field xs) rest)
      ∙ ap (take n) (
          drop-append_right (le_bytes n (field y)) (column n field xs ++ rest) (suc i * n) (i * n)
            (grind (arith, length-le_bytes n (field y))))
      ∙ column-get_elem? xs i x rest e

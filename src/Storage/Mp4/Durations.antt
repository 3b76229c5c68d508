-- ===== src/Storage/Mp4/Durations.antt =====
-- server/internal/storage/mp4.go: scaleToMs, on uint64, which wraps around.
use native.Mathlib.Nat.{div-one, mod-one, div-add-mod, mul-add-div, mod-eq_of_lt, mod-lt}
use check_in.Prelude.{
  ℕ, ◌+◌, ◌*◌, ◌/◌, ◌%◌, ◌<◌, ◌≡◌, sym, ap, ◌∙◌, ◌==◌, if◌then◌else◌, comparable_nat, arith,
}

abbrev pub uint64 : ℕ → ℕ
uint64 n = n % 18446744073709551616

unfoldable pub scale_to_ms : ℕ → ℕ → ℕ
scale_to_ms duration timescale =
    if timescale == 0
    then 0
    else uint64
        (uint64 (duration / timescale * 1000) + uint64 (duration % timescale * 1000) / timescale)

-- The two parts of the sum are the duration in milliseconds, rounded down.
split_ms : (d t : ℕ) → 0 < t → d / t * 1000 + d % t * 1000 / t ≡ d * 1000 / t
split_ms d t h =
    let q : ℕ = d / t in
    let r : ℕ = d % t in
    let whole : t * q + r ≡ d = div-add-mod d t in
    let scaled : t * (q * 1000) + r * 1000 ≡ d * 1000 = grind (arith, whole) in
    sym (mul-add-div h (q * 1000) (r * 1000)) ∙ ap (λ x. x / t) scaled

-- With a timescale as it stands in the file, of 32 bits and not 0, the duration comes out in
-- milliseconds, rounded down, if that number fits in 64 bits.
pub scale_to_ms-div :
    (d t : ℕ)
    → 0 < t
    → t < 4294967296
    → d * 1000 / t < 18446744073709551616
    → scale_to_ms d t ≡ d * 1000 / t
unfolding scale_to_ms
scale_to_ms-div d t h k l =
    let parts = split_ms d t h in
    let small : d % t < t = mod-lt d h in
    let first = mod-eq_of_lt {n = d / t * 1000} {m = 18446744073709551616} (omega (arith, parts)) in
    let second =
      mod-eq_of_lt {n = d % t * 1000} {m = 18446744073709551616} (omega (arith, small)) in
    let sum =
      mod-eq_of_lt {n = d / t * 1000 + d % t * 1000 / t} {m = 18446744073709551616}
        (omega (arith, parts)) in
    ground (arith, first, second, sum, parts)

-- A duration of 2 ^ 61 seconds and some more wraps around: it comes out as the seconds above 2 ^ 61,
-- as long as these are fewer than 2 ^ 54.
pub scale_to_ms_wraps :
    (s : ℕ) → s < 18014398509481984 → scale_to_ms (2305843009213693952 + s) 1 ≡ s * 1000
unfolding scale_to_ms
scale_to_ms_wraps s h =
    let whole = div-one (2305843009213693952 + s) in
    let rest = mod-one (2305843009213693952 + s) in rw (whole, rest) (omega arith)

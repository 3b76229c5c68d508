-- ===== src/Storage/Image/Scale.antt =====
-- server/internal/storage/storage.go: the size of a picture that is scaled down.
use native.Mathlib.Nat.{div-lt_iff_lt-mul, mul-div_cancel}
use check_in.Prelude.{
  ℕ, ◌*◌, ◌/◌, ◌≤◌, ◌<◌, ◌≡◌, ◌↔◌, refl, sym, ◌&&◌, inl, inr, leb, arith, Bool-cases, max, min,
}
use check_in.Storage.Image.{scaled_size}

-- The sides of a scaled picture: each is the side that it was, times the least of 1600 and the longer side,
-- divided by the longer side and rounded down; so the longer one, and when the other one has no pixel.
pub record IsScaled (w h : ℕ) (size : ℕ × ℕ) : Type 0 where
  width : size.0 ≡ w * min 1600 (max w h) / max w h
  height : size.1 ≡ h * min 1600 (max w h) / max w h
  longer : max size.0 size.1 ≡ min 1600 (max w h)
  vanishes : (min size.0 size.1 ≡ 0) ↔ (1600 * min w h < max w h)

unscaled : (a m : ℕ) → 1 ≤ m → m ≤ 1600 → a * min 1600 m / m ≡ a
unscaled a m h k =
    let same : min 1600 m ≡ m = omega arith in rw same (mul-div_cancel a (omega arith))

-- `m` is the longer side.
scaled_by : (a m : ℕ) → 1600 ≤ m → a * min 1600 m / m ≡ a * 1600 / m
scaled_by a m h = let capped : min 1600 m ≡ 1600 = omega arith in rw capped refl

wide_side : (m : ℕ) → 1600 ≤ m → m * min 1600 m / m ≡ 1600
wide_side m h =
    let capped : min 1600 m ≡ 1600 = omega arith in
    let turned : m * 1600 ≡ 1600 * m = omega arith in
    rw (capped, turned) (mul-div_cancel 1600 {n = m} (omega arith))

kept-IsScaled : (w h : ℕ) → 1 ≤ w → 1 ≤ h → w ≤ 1600 → h ≤ 1600 → IsScaled w h (w, h)
kept-IsScaled w h hw hh kw kh = record {
  width = sym (unscaled w (max w h) (omega arith) (omega arith));
  height = sym (unscaled h (max w h) (omega arith) (omega arith));
  longer = omega arith;
  vanishes = (λ e. absurd (omega arith), λ l. absurd (omega arith));
}

shrunk : (a b : ℕ) → 1 ≤ b → a ≤ b → (a * 1600 / b ≤ 1600) × ((a * 1600 / b ≡ 0) ↔ (1600 * a < b))
shrunk a b h k =
    let below = div-lt_iff_lt-mul {k = b} {x = a * 1600} {y = 1601} (omega arith) in
    let none = div-lt_iff_lt-mul {k = b} {x = a * 1600} {y = 1} (omega arith) in
    (
      omega (arith, below.1 (omega arith)),
      (
        λ e. omega (arith, none.0 (omega (arith, e))),
        λ l. omega (arith, none.1 (omega (arith, l))),
      ),
    )

-- Width and height of a picture each come out as what they were, times the least of 1600 and the longer of
-- the two, divided by the longer and rounded down. So the longer side comes out with at most 1600 pixels,
-- and with as many as it had if they were no more; the shorter one comes out with none exactly if the longer one is more than 1600 times as long.
pub scaled_size_lem : (w h : ℕ) → 1 ≤ w → 1 ≤ h → IsScaled w h (scaled_size w h)
unfolding scaled_size
scaled_size_lem w h hw hh = elim (Bool-cases (leb w 1600 && leb h 1600)) [
  | inl e ↦ rw e (kept-IsScaled w h hw hh (ground (arith, e)) (ground (arith, e)))
  | inr e ↦ rw e (elim (Bool-cases (leb h w)) [
    | inl f ↦ rw f (wide w h hw hh (ground (arith, e, f)) (ground (arith, f)))
    | inr f ↦ rw f (high w h hw hh (ground (arith, e, f)) (ground (arith, f)))
  ])
]
  where
    wide : (w h : ℕ) → 1 ≤ w → 1 ≤ h → 1600 < w → h ≤ w → IsScaled w h (1600, h * 1600 / w)
    wide w h hw hh l k =
        let s = shrunk h w hw k in
        let m : max w h ≡ w = omega arith in
        record {
          width = rw m (sym (wide_side w (omega arith)));
          height = rw m (sym (scaled_by h w (omega arith)));
          longer = omega (arith, s.0);
          vanishes = (
            λ e. omega (arith, s.1.0 (omega (arith, e))),
            λ m. omega (arith, s.1.1 (omega (arith, m))),
          );
        }

    high : (w h : ℕ) → 1 ≤ w → 1 ≤ h → 1600 < h → w < h → IsScaled w h (w * 1600 / h, 1600)
    high w h hw hh l k =
        let s = shrunk w h hh (omega arith) in
        let m : max w h ≡ h = omega arith in
        record {
          width = rw m (sym (scaled_by w h (omega arith)));
          height = rw m (sym (wide_side h (omega arith)));
          longer = omega (arith, s.0);
          vanishes = (
            λ e. omega (arith, s.1.0 (omega (arith, e))),
            λ m. omega (arith, s.1.1 (omega (arith, m))),
          );
        }

-- ===== src/Storage/Mp4/Blanked.antt =====
-- server/internal/storage/mp4.go: what a write of zeros into the buffer keeps.
use check_in.Prelude.{
  Done, Done_map, ℕ, ◌+◌, ◌-◌, ◌≤◌, ◌<◌, ◌≡◌, refl, ◌∙◌, true, ◌&&◌, ◌⊎◌, inl, inr, ltb, leb,
  length, arith, Bool-cases,
}
use check_in.Slice.{
  Bytes, zero_range, byte_at, length-zero_range, byte_at-zero_range, clear_ok, zeroed,
  zeroed-zero_range,
}
use check_in.Storage.Mp4.{clear_window}

-- The second buffer is the first one with zeros written between `lo` and `hi`, and as long.
pub record Blanked (lo hi : ℕ) (d d' : Bytes) : Type 0 where
  pub size : length d' ≡ length d
  pub byte : (i : ℕ) → (byte_at d' i ≡ byte_at d i) ⊎ ((byte_at d' i ≡ 0) × (lo ≤ i) × (i < hi))

pub Blanked-refl : (lo hi : ℕ) (d : Bytes) → Blanked lo hi d d
Blanked-refl lo hi d = record { size = refl; byte = λ i. inl refl }

pub Blanked-trans :
    {lo hi : ℕ} {a b c : Bytes} → Blanked lo hi a b → Blanked lo hi b c → Blanked lo hi a c
Blanked-trans h k = record {
  size = k.size ∙ h.size;
  byte = λ i. elim (k.byte i) [
    | inl e ↦ elim (h.byte i) [ inl f ↦ inl (e ∙ f) | inr (f, g, j) ↦ inr (e ∙ f, g, j) ]
    | inr f ↦ inr f
  ];
}

pub Blanked-widen :
    {lo hi l h : ℕ} {d d' : Bytes} → lo ≤ l → h ≤ hi → Blanked l h d d' → Blanked lo hi d d'
Blanked-widen p q k = record {
  size = k.size;
  byte = λ i. elim (k.byte i) [ inl e ↦ inl e | inr (e, f, g) ↦ inr (e, omega arith, omega arith) ];
}

zero_range-Blanked : (d : Bytes) (lo hi : ℕ) → Blanked lo hi d (zero_range d lo (hi - lo))
zero_range-Blanked d lo hi = record {
  size = length-zero_range d lo (hi - lo);
  byte = λ i.
      let e = byte_at-zero_range d lo (hi - lo) i in
      elim (Bool-cases (leb lo i && ltb i (lo + (hi - lo)))) [
        | inl t ↦ inr (ground (arith, e), ground arith, ground arith)
        | inr t ↦ inl (ground (arith, e))
      ];
}

pub Blanked_outside :
    {lo hi : ℕ} {d d' : Bytes} (i : ℕ)
    → Blanked lo hi d d'
    → (i < lo) ⊎ (hi ≤ i)
    → byte_at d' i ≡ byte_at d i
Blanked_outside i h o = elim (h.byte i) [ inl e ↦ e | inr (e, p, q) ↦ absurd (omega arith) ]

pub clear_window-zeroed :
    (d : Bytes) (lo hi : ℕ)
    → lo ≤ hi
    → hi ≤ length d
    → Done (clear_window d lo hi) (λ d'. Blanked lo hi d d' × (zeroed d' lo hi ≡ true))
unfolding clear_window
clear_window-zeroed d lo hi h k = record {
  value = zero_range d lo (hi - lo);
  returned = clear_ok d lo (hi - lo) (omega arith);
  holds = (zero_range-Blanked d lo hi, zeroed-zero_range d lo hi);
}

pub clear_window-Blanked :
    (d : Bytes) (lo hi : ℕ)
    → lo ≤ hi
    → hi ≤ length d
    → Done (clear_window d lo hi) (Blanked lo hi d)
clear_window-Blanked d lo hi h k = Done_map (clear_window-zeroed d lo hi h k) (λ d' b. b.0)

-- ===== src/Storage/Image/Upright.antt =====
-- server/internal/storage/storage.go: turning and mirroring put each pixel where its orientation says.
use check_in.Prelude.{
  ℕ, zero, suc, ◌+◌, ◌≤◌, ◌<◌, ◌≡◌, ◌∙◌, refl, ap, ap₂, sym, Bool, true, false, ◌&&◌, inl, inr, ltb,
  leb, ◌==◌, if◌then◌else◌, comparable_nat, arith, Bool-cases, lt→ltb,
}
use check_in.Storage.Image.{Picture, set_at, copy_row, copy_rows}

-- Where the pixels of a `w` by `h` picture go in a `w'` by `h'` one: inside, and no two to the same place.
pub record Places (w h w' h' : ℕ) (place : ℕ → ℕ → ℕ × ℕ) : Type 0 where
  pub inside : (x y : ℕ) → x < w → y < h → ((place x y).0 < w') × ((place x y).1 < h')
  pub apart :
      (x y i j : ℕ)
      → x < w
      → y < h
      → i < w
      → j < h
      → ((place i j).0 == (place x y).0 && (place i j).1 == (place x y).1) ≡ (i == x && j == y)

pick_true : {A : Type 0} {b : Bool} (u v : A) → b ≡ true → (if b then u else v) ≡ u
pick_true u v h = rw h refl

pick_false : {A : Type 0} {b : Bool} (u v : A) → b ≡ false → (if b then u else v) ≡ v
pick_false u v h = rw h refl

same_both : (x y i j : ℕ) → (i == x && j == y) ≡ true → (i ≡ x) × (j ≡ y)
same_both x y i j e = (ground (arith, e), ground (arith, e))

not_yet :
    (x y n i j : ℕ)
    → (i == x && j == y) ≡ true
    → (j == y && (leb (x + 1) i && ltb i (x + 1 + n))) ≡ false
not_yet x y n i j e = ground (arith, e)

reached :
    (x y n i j : ℕ) → (i == x && j == y) ≡ true → (j == y && (leb x i && ltb i (x + suc n))) ≡ true
reached x y n i j e = ground (arith, e)

row_step :
    (x y n i j : ℕ)
    → (i == x && j == y) ≡ false
    → (j == y && (leb (x + 1) i && ltb i (x + 1 + n))) ≡ (j == y && (leb x i && ltb i (x + suc n)))
row_step x y n i j e = ground (arith, e)

all_rows : (j h : ℕ) → j < h → (leb 0 j && ltb j (0 + h)) ≡ true
all_rows j h k = ground (arith, k)

module _ {Colour : Type 0} (place : ℕ → ℕ → ℕ × ℕ) (src : Picture Colour) (w' h' : ℕ)
    (p : Places src.width src.height w' h' place) where
  -- A picture of the size of the target.
  pub record HasSize (dst : Picture Colour) : Type 0 where
    pub wide : dst.width ≡ w'
    pub high : dst.height ≡ h'

  set_at-at :
      (x y i j : ℕ) (dst : Picture Colour)
      → HasSize dst
      → x < src.width
      → y < src.height
      → i < src.width
      → j < src.height
      → (set_at (place x y).0 (place x y).1 (src.at x y) dst).at (place i j).0 (place i j).1
        ≡ (if i == x && j == y then src.at x y else dst.at (place i j).0 (place i j).1)
  set_at-at x y i j dst s hx hy hi hj =
      ap (λ b. if b then src.at x y else dst.at (place i j).0 (place i j).1)
        (all_four ((place i j).0 == (place x y).0) ((place i j).1 == (place x y).1)
            (ltb (place x y).0 dst.width) (ltb (place x y).1 dst.height)
            (lt→ltb (place x y).0 dst.width (omega (arith, (p.inside x y hx hy).0, s.wide)))
            (lt→ltb (place x y).1 dst.height (omega (arith, (p.inside x y hx hy).1, s.high)))
          ∙ p.apart x y i j hx hy hi hj)
    where
      all_four : (a b c d : Bool) → c ≡ true → d ≡ true → (a && (b && (c && d))) ≡ (a && b)
      all_four a b c d h k = ground (arith, h, k)

  copy_row-HasSize :
      (y x n : ℕ) (dst : Picture Colour) → HasSize dst → HasSize (copy_row place src y x n dst)
  unfolding copy_row
  copy_row-HasSize y x zero dst s = s
  copy_row-HasSize y x (suc n) dst s =
      copy_row-HasSize y (x + 1) n (set_at (place x y).0 (place x y).1 (src.at x y) dst)
        (record { wide = s.wide; high = s.high })

  copy_row-at :
      (y x n i j : ℕ) (dst : Picture Colour)
      → HasSize dst
      → x + n ≤ src.width
      → y < src.height
      → i < src.width
      → j < src.height
      → (copy_row place src y x n dst).at (place i j).0 (place i j).1 ≡ (
          if j == y && (leb x i && ltb i (x + n))
          then src.at i j
          else dst.at (place i j).0 (place i j).1)
  unfolding copy_row
  copy_row-at y x zero i j dst s hx hy hi hj = ground arith
  copy_row-at y x (suc n) i j dst s hx hy hi hj =
      let dst' : Picture Colour = set_at (place x y).0 (place x y).1 (src.at x y) dst in
      let more =
        copy_row-at y (x + 1) n i j dst' (record { wide = s.wide; high = s.high })
          (omega (arith, hx)) hy hi hj in
      let one = set_at-at x y i j dst s (omega (arith, hx)) hy hi hj in
      elim (Bool-cases (i == x && j == y)) [
        | inl e ↦
            more
            ∙ pick_false _ _ (not_yet x y n i j e)
            ∙ one
            ∙ pick_true _ _ e
            ∙ ap₂ src.at (sym (same_both x y i j e).0) (sym (same_both x y i j e).1)
            ∙ sym (pick_true _ _ (reached x y n i j e))
        | inr e ↦
            more
            ∙ ap₂ (λ b c. if b then src.at i j else c) (row_step x y n i j e)
                (one ∙ pick_false _ _ e)
      ]

  copy_rows-at :
      (y n i j : ℕ) (dst : Picture Colour)
      → HasSize dst
      → y + n ≤ src.height
      → i < src.width
      → j < src.height
      → (copy_rows place src y n dst).at (place i j).0 (place i j).1
        ≡ (if leb y j && ltb j (y + n) then src.at i j else dst.at (place i j).0 (place i j).1)
  unfolding copy_rows
  copy_rows-at y zero i j dst s hy hi hj = ground arith
  copy_rows-at y (suc n) i j dst s hy hi hj =
      let dst' : Picture Colour = copy_row place src y 0 src.width dst in
      let more =
        copy_rows-at (y + 1) n i j dst' (copy_row-HasSize y 0 src.width dst s) (omega (arith, hy))
          hi hj in
      let row = copy_row-at y 0 src.width i j dst s (omega arith) (omega (arith, hy)) hi hj in
      elim (Bool-cases (j == y)) [
        | inl e ↦
            more
            ∙ pick_false _ _ (row_over y n j e)
            ∙ row
            ∙ pick_true _ _ (in_row y src.width i j hi e)
            ∙ sym (pick_true _ _ (row_reached y n j e))
        | inr e ↦
            more
            ∙ ap₂ (λ b c. if b then src.at i j else c) (rows_step y n j e)
                (row ∙ pick_false _ _ (other_row y src.width i j e))
      ]
    where
      row_over : (y n j : ℕ) → (j == y) ≡ true → (leb (y + 1) j && ltb j (y + 1 + n)) ≡ false
      row_over y n j e = ground (arith, e)

      in_row :
          (y w i j : ℕ) → i < w → (j == y) ≡ true → (j == y && (leb 0 i && ltb i (0 + w))) ≡ true
      in_row y w i j hi e = ground (arith, e, hi)

      row_reached : (y n j : ℕ) → (j == y) ≡ true → (leb y j && ltb j (y + suc n)) ≡ true
      row_reached y n j e = ground (arith, e)

      rows_step :
          (y n j : ℕ)
          → (j == y) ≡ false
          → (leb (y + 1) j && ltb j (y + 1 + n)) ≡ (leb y j && ltb j (y + suc n))
      rows_step y n j e = ground (arith, e)

      other_row : (y w i j : ℕ) → (j == y) ≡ false → (j == y && (leb 0 i && ltb i (0 + w))) ≡ false
      other_row y w i j e = ground (arith, e)

  pub copy_rows-HasSize :
      (y n : ℕ) (dst : Picture Colour) → HasSize dst → HasSize (copy_rows place src y n dst)
  unfolding copy_rows
  copy_rows-HasSize y zero dst s = s
  copy_rows-HasSize y (suc n) dst s =
      copy_rows-HasSize (y + 1) n (copy_row place src y 0 src.width dst)
        (copy_row-HasSize y 0 src.width dst s)

  -- A whole copy puts every pixel in its place.
  pub copy_all :
      (i j : ℕ) (dst : Picture Colour)
      → HasSize dst
      → i < src.width
      → j < src.height
      → (copy_rows place src 0 src.height dst).at (place i j).0 (place i j).1 ≡ src.at i j
  copy_all i j dst s hi hj =
      copy_rows-at 0 src.height i j dst s (omega arith) hi hj
      ∙ pick_true _ _ (all_rows j src.height hj)

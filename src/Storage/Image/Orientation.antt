-- ===== src/Storage/Image/Orientation.antt =====
-- server/internal/storage/storage.go: a photo comes out upright.
use check_in.Prelude.{
  ℕ, ◌-◌, ◌<◌, ◌≡◌, ◌∙◌, refl, ap, subst, subst₂, Bool, true, false, ◌==◌, if◌then◌else◌,
  comparable_nat, arith,
}
use check_in.Storage.Image.{
  Picture, new_rgba, Turn, by_90, by_180, by_270, rotated_point, turned_size, flipped_point, rotate,
  flip, apply_orientation,
}
use check_in.Storage.Image.Upright.{Places, copy_all, copy_rows-HasSize}

rotated_point-Places :
    (turn : Turn) (w h : ℕ)
    → Places w h (turned_size turn w h).0 (turned_size turn w h).1 (rotated_point turn w h)
unfolding rotated_point
rotated_point-Places by_90 w h = record {
  inside = λ x y hx hy. (omega arith, omega arith);
  apart = λ x y i j hx hy hi hj. ground (arith, hx, hy, hi, hj);
}
rotated_point-Places by_180 w h = record {
  inside = λ x y hx hy. (omega arith, omega arith);
  apart = λ x y i j hx hy hi hj. ground (arith, hx, hy, hi, hj);
}
rotated_point-Places by_270 w h = record {
  inside = λ x y hx hy. (omega arith, omega arith);
  apart = λ x y i j hx hy hi hj. ground (arith, hx, hy, hi, hj);
}

flipped_point-Places : (horizontal : Bool) (w h : ℕ) → Places w h w h (flipped_point horizontal w h)
unfolding flipped_point
flipped_point-Places true w h = record {
  inside = λ x y hx hy. (omega arith, omega arith);
  apart = λ x y i j hx hy hi hj. ground (arith, hx, hy, hi, hj);
}
flipped_point-Places false w h = record {
  inside = λ x y hx hy. (omega arith, omega arith);
  apart = λ x y i j hx hy hi hj. ground (arith, hx, hy, hi, hj);
}

-- A picture that has the pixels of another in new places.
pub record Moves {Colour : Type 0} (img out : Picture Colour) (size : ℕ × ℕ) (place : ℕ → ℕ → ℕ × ℕ)
    : Type 0 where
  pub wide : out.width ≡ size.0
  pub high : out.height ≡ size.1
  pub moved :
      (x y : ℕ) → x < img.width → y < img.height → out.at (place x y).0 (place x y).1 ≡ img.at x y

Moves-same :
    {Colour : Type 0} {img out : Picture Colour} {size : ℕ × ℕ} (p q : ℕ → ℕ → ℕ × ℕ)
    → ((x y : ℕ) → x < img.width → y < img.height → p x y ≡ q x y)
    → Moves img out size p
    → Moves img out size q
Moves-same {img = img} {out = out} p q same h = record {
  wide = h.wide;
  high = h.high;
  moved =
      λ x y hx hy. subst (λ z. out.at z.0 z.1 ≡ img.at x y) (same x y hx hy) (h.moved x y hx hy);
}

module _ {Colour : Type 0} (blank : Colour) (img : Picture Colour) where
  rotate-Moves :
      (turn : Turn) (w h : ℕ)
      → img.width ≡ w
      → img.height ≡ h
      → Moves img (rotate blank turn img) (turned_size turn w h) (rotated_point turn w h)
  unfolding rotate
  rotate-Moves turn w h ew eh =
      let place = rotated_point turn img.width img.height in
      let size = turned_size turn img.width img.height in
      let p = rotated_point-Places turn img.width img.height in
      let dst : Picture Colour = new_rgba blank size.0 size.1 in
      let s =
        copy_rows-HasSize place img size.0 size.1 p 0 img.height dst
          (record { wide = refl; high = refl }) in
      subst₂
        (λ a b. Moves img (rotate blank turn img) (turned_size turn a b) (rotated_point turn a b))
        ew eh
        (record {
          wide = s.wide;
          high = s.high;
          moved = λ x y hx hy.
              copy_all place img size.0 size.1 p x y dst (record { wide = refl; high = refl }) hx
                hy;
        })

  flip-Moves :
      (horizontal : Bool)
      → Moves img
          (flip blank horizontal img)
          (img.width, img.height)
          (flipped_point horizontal img.width img.height)
  unfolding flip
  flip-Moves horizontal =
      let place = flipped_point horizontal img.width img.height in
      let p = flipped_point-Places horizontal img.width img.height in
      let dst : Picture Colour = new_rgba blank img.width img.height in
      let s =
        copy_rows-HasSize place img img.width img.height p 0 img.height dst
          (record { wide = refl; high = refl }) in
      record {
        wide = s.wide;
        high = s.high;
        moved = λ x y hx hy.
            copy_all place img img.width img.height p x y dst (record { wide = refl; high = refl })
              hx hy;
      }

module _ {Colour : Type 0} (blank : Colour) (img : Picture Colour) where
  mirror_and_turn :
      (turn : Turn)
      → Moves img
          (rotate blank turn (flip blank true img))
          (turned_size turn img.width img.height)
          (λ x y.
            rotated_point turn img.width img.height
              (flipped_point true img.width img.height x y).0
              (flipped_point true img.width img.height x y).1)
  mirror_and_turn turn =
      let f = flip-Moves blank img true in
      let p = flipped_point-Places true img.width img.height in
      let r = rotate-Moves blank (flip blank true img) turn img.width img.height f.wide f.high in
      record {
        wide = r.wide;
        high = r.high;
        moved = λ x y hx hy.
            let q = p.inside x y hx hy in
            r.moved (flipped_point true img.width img.height x y).0
              (flipped_point true img.width img.height x y).1 (omega (arith, q.0, f.wide))
              (omega (arith, q.1, f.high))
            ∙ f.moved x y hx hy;
      }

-- The size of the upright photo of a stored one, and where its pixel (x, y) belongs, by the table of EXIF:
-- which side of the scene the first row and the first column of the stored photo show.
abbrev pub upright : ℕ → ℕ → ℕ → (ℕ × ℕ) × (ℕ → ℕ → ℕ × ℕ)
upright o w h =
    if o == 2
    then ((w, h), λ x y. (w - 1 - x, y))
    else if o == 3
    then ((w, h), λ x y. (w - 1 - x, h - 1 - y))
    else if o == 4
    then ((w, h), λ x y. (x, h - 1 - y))
    else if o == 5
    then ((h, w), λ x y. (y, x))
    else if o == 6
    then ((h, w), λ x y. (h - 1 - y, x))
    else if o == 7
    then ((h, w), λ x y. (h - 1 - y, w - 1 - x))
    else if o == 8
    then ((h, w), λ x y. (y, w - 1 - x))
    else ((w, h), λ x y. (x, y))

if_both :
    {A B : Type 0} (P : A → B → Type 0) (b : Bool) {x y : A} {u v : B}
    → P x u
    → P y v
    → P (if b then x else y) (if b then u else v)
if_both P true h k = h
if_both P false h k = k

-- For each orientation, the photo comes out with the size that the table of EXIF gives, and with every
-- pixel of the stored photo where the table puts it.
pub apply_orientation-Moves :
    {Colour : Type 0} (blank : Colour) (o : ℕ) (img : Picture Colour)
    → Moves img
        (apply_orientation blank o img)
        (upright o img.width img.height).0
        (upright o img.width img.height).1
unfolding apply_orientation rotated_point flipped_point
apply_orientation-Moves {Colour = Colour} blank o img =
    let P : Picture Colour → (ℕ × ℕ) × (ℕ → ℕ → ℕ × ℕ) → Type 0 = λ out t. Moves img out t.0 t.1 in
    if_both P (o == 2) (flip-Moves blank img true) (
      if_both P (o == 3) (rotate-Moves blank img by_180 img.width img.height refl refl) (
        if_both P (o == 4) (flip-Moves blank img false) (
          if_both P (o == 5)
            (Moves-same _ _ (λ x y hx hy. ap (λ z. (y, z)) (omega arith))
              (mirror_and_turn blank img by_270))
            (if_both P (o == 6) (rotate-Moves blank img by_90 img.width img.height refl refl) (
              if_both P (o == 7) (mirror_and_turn blank img by_90) (
                if_both P (o == 8) (rotate-Moves blank img by_270 img.width img.height refl refl)
                  (record { wide = refl; high = refl; moved = λ x y hx hy. refl })))))))

-- ===== src/Storage/Mp4/Boxes.antt =====
-- server/internal/storage/mp4.go: the box parser never reads out of bounds, ends, and returns boxes
-- that lie one behind the other in the stretch.
use check_in.Prelude.{
  Done, Done-ok, Done_bind, Done_if, Done_map, NoError, ℕ, zero, suc, ◌+◌, ◌-◌, ◌≤◌, ◌<◌, ◌≡◌, Bool,
  true, false, not, ◌&&◌, ◌||◌, inl, inr, Option, none, some, List, [], ◌∷◌, ltb, leb, ◌==◌, length,
  take, drop, Result, comparable_nat, arith, Bool-cases,
}
use check_in.Slice.{Bytes, slice, bytes_eq}
use check_in.Sorting.{All}
use check_in.Storage.Mp4.{
  Box, max_box_siblings, big_endian, window, valid_box_type, box_size, bounded_box, parse_box,
  or_stop, parse_box_list, parse_boxes, parse_indexed_boxes, find_box, looks_like_box_header,
}

-- The box, its header included, lies behind `p` and before `hi`.
pub record Fits (p hi : ℕ) (b : Box) : Type 0 where
  pub header : p + 8 ≤ b.start
  pub ordered : b.start ≤ b.stop
  pub ends : b.stop ≤ hi

abbrev pub FitsIfAny : ℕ → ℕ → Option Box → Type 0
FitsIfAny p hi none = Unit
FitsIfAny p hi (some b) = Fits p hi b

-- The boxes lie one behind the other; if all was read, the last one ends at `hi`.
abbrev pub Tiles : ℕ → ℕ → List Box → Bool → Type 0
Tiles p hi [] true = p ≡ hi
Tiles p hi [] false = Unit
Tiles p hi (b ∷ bs) whole = Fits p hi b × Tiles b.stop hi bs whole

abbrev HasHeader : Option (ℕ × ℕ) → Type 0
HasHeader none = Unit
HasHeader (some (size, header)) = 8 ≤ header

bounded_box-FitsIfAny :
    (hi p : ℕ) (typ : Bytes) (o : Option (ℕ × ℕ))
    → p ≤ hi
    → HasHeader o
    → FitsIfAny p hi (bounded_box hi p typ o)
unfolding bounded_box
bounded_box-FitsIfAny hi p typ none h k = tt
bounded_box-FitsIfAny hi p typ (some (size, header)) h k =
    elim (Bool-cases (ltb size header || ltb (hi - p) size)) [
      | inl e ↦ rw e tt
      | inr e ↦ rw e (record { header = omega arith; ordered = ground arith; ends = ground arith })
    ]

pub shrinks : (fuel p hi : ℕ) (b : Box) → hi - p < suc fuel → Fits p hi b → hi - b.stop < fuel
shrinks fuel p hi b h k = omega (arith, k.header, k.ordered, k.ends)

or_stop-Done :
    {p hi : ℕ} {f : Box → Result NoError (List Box × Bool)}
    → ((b : Box) → Fits p hi b → Done (f b) (λ r. Tiles p hi r.0 r.1))
    → (o : Option Box) → FitsIfAny p hi o
    → Done (or_stop f o) (λ r. Tiles p hi r.0 r.1)
unfolding or_stop
or_stop-Done k none h = Done-ok tt
or_stop-Done k (some b) h = k b h

module _ (d : Bytes) (hi : ℕ) (inside : hi ≤ length d) where
  pub window-Done : (i j : ℕ) → i ≤ j → j ≤ hi → Done (window d hi i j) (λ w. Unit)
  unfolding window slice
  window-Done i j h k = record {
    value = take (j - i) (drop i d);
    returned = ground arith;
    holds = tt;
  }

  box_size-Done : (p size : ℕ) → p + 8 ≤ hi → Done (box_size d hi p size) HasHeader
  unfolding box_size
  box_size-Done p size h =
      Done_if (size == 0) (λ _. Done-ok (omega arith))
        (λ _.
          Done_if (size == 1)
            (λ _.
              Done_if (ltb hi (p + 16)) (λ _. Done-ok tt)
                (λ e.
                  Done_bind (window-Done (p + 8) (p + 16) (omega arith) (ground arith))
                    (λ w _. Done-ok (omega arith))))
            (λ _. Done-ok (omega arith)))

  pub parse_box-Done :
      (p : ℕ) (printable : Bool) (n : ℕ) → Done (parse_box d hi p printable n) (FitsIfAny p hi)
  unfolding parse_box
  parse_box-Done p printable n =
      Done_if (leb max_box_siblings n || ltb hi (p + 8)) (λ _. Done-ok tt)
        (λ e. Done_bind (window-Done p (p + 4) (omega arith) (ground arith)) (λ word _.
          Done_bind (window-Done (p + 4) (p + 8) (omega arith) (ground arith)) (λ typ _.
            Done_if (printable && not (valid_box_type typ)) (λ _. Done-ok tt)
              (λ _.
                Done_bind (box_size-Done p (big_endian 0 word) (ground arith))
                  (λ o k. Done-ok (bounded_box-FitsIfAny hi p typ o (ground arith) k))))))

  pub parse_box_list-Done :
      (fuel p : ℕ) (printable : Bool) (n : ℕ)
      → hi - p < fuel
      → p ≤ hi
      → Done (parse_box_list fuel d hi p printable n) (λ r. Tiles p hi r.0 r.1)
  unfolding parse_box_list
  parse_box_list-Done zero p printable n f h = absurd (omega arith)
  parse_box_list-Done (suc fuel) p printable n f h =
      Done_if (leb hi p) (λ e. Done-ok (ground arith))
        (λ e. Done_bind (parse_box-Done p printable n) (
          or_stop-Done (λ b k.
            Done_bind
              (parse_box_list-Done fuel b.stop printable (n + 1) (shrinks fuel p hi b f k) k.ends)
              (λ r t. Done-ok (k, t)))))

-- The payloads of the boxes lie between `lo` and `hi`.
abbrev pub Inside : ℕ → ℕ → List Box → Type 0
Inside lo hi = All (λ b. (lo ≤ b.start) × (b.start ≤ b.stop) × (b.stop ≤ hi))

pub Inside-Tiles :
    (lo p hi : ℕ) (bs : List Box) (whole : Bool) → lo ≤ p → Tiles p hi bs whole → Inside lo hi bs
Inside-Tiles lo p hi [] whole h t = tt
Inside-Tiles lo p hi (b ∷ bs) whole h t =
    let k = t.0 in
    (
      omega (arith, k.header, k.ordered, k.ends),
      Inside-Tiles lo b.stop hi bs whole (omega (arith, k.header, k.ordered)) t.1,
    )

module _ (d : Bytes) (lo hi : ℕ) (order : lo ≤ hi) (inside : hi ≤ length d) where
  -- On any stretch of any file, the parser ends and stays in bounds. The boxes that it returns lie one
  -- behind the other in the stretch, each with its header, and fill it if all of it was read.
  pub parse_boxes-Tiles : Done (parse_boxes d lo hi) (λ r. Tiles lo hi r.0 r.1)
  unfolding parse_boxes
  parse_boxes-Tiles = parse_box_list-Done d hi inside (suc (hi - lo)) lo true 0 (omega arith) order

  pub parse_boxes-Inside : Done (parse_boxes d lo hi) (λ r. Inside lo hi r.0)
  parse_boxes-Inside =
      Done_map parse_boxes-Tiles (λ r t. Inside-Tiles lo lo hi r.0 r.1 (omega arith) t)

  pub parse_indexed_boxes-Inside : Done (parse_indexed_boxes d lo hi) (λ r. Inside lo hi r.0)
  unfolding parse_indexed_boxes
  parse_indexed_boxes-Inside =
      Done_map (parse_box_list-Done d hi inside (suc (hi - lo)) lo false 0 (omega arith) order)
        (λ r t. Inside-Tiles lo lo hi r.0 r.1 (omega arith) t)

  pub looks_like_box_header-Done : Done (looks_like_box_header d lo hi) (λ b. Unit)
  unfolding looks_like_box_header
  looks_like_box_header-Done =
      Done_if (ltb hi (lo + 8)) (λ _. Done-ok tt)
        (λ e.
          Done_bind (window-Done d hi inside lo (lo + 4) (omega arith) (ground arith)) (λ word _.
            Done_bind (window-Done d hi inside (lo + 4) (lo + 8) (omega arith) (ground arith))
              (λ typ _. Done-ok tt)))

abbrev pub InsideIfAny : ℕ → ℕ → Option Box → Type 0
InsideIfAny lo hi none = Unit
InsideIfAny lo hi (some b) = (lo ≤ b.start) × (b.start ≤ b.stop) × (b.stop ≤ hi)

pub find_box-Inside :
    (lo hi : ℕ) (bs : List Box) (typ : Bytes)
    → Inside lo hi bs
    → InsideIfAny lo hi (find_box bs typ)
unfolding find_box
find_box-Inside lo hi [] typ h = tt
find_box-Inside lo hi (b ∷ bs) typ h = elim (Bool-cases (bytes_eq b.typ typ)) [
  | inl e ↦ rw e h.0
  | inr e ↦ rw e (find_box-Inside lo hi bs typ h.1)
]

-- ===== src/Storage/Mp4/Layout.antt =====
-- server/internal/storage/mp4.go: the boxes of a stretch depend on their headers only, so a write into
-- their payloads keeps the layout.
use check_in.Prelude.{
  NoError, subst, ℕ, zero, suc, ◌+◌, ◌-◌, ◌≤◌, ◌<◌, ◌≡◌, refl, ap, ◌∙◌, sym, Bool, true, false,
  ◌||◌, ◌⊎◌, inl, inr, none, some, List, [], ◌∷◌, ltb, leb, ◌==◌, if◌then◌else◌, length, Result, ok,
  panic, ◌>>=◌, comparable_nat, arith, Bool-cases, Option-cases,
}
use check_in.Slice.{Bytes, byte_at, slice_agree}
use check_in.Sorting.{All}
use check_in.Storage.Mp4.{
  Box, max_box_siblings, big_endian, window, box_size, bounded_box, parse_box, or_stop,
  parse_box_list, parse_boxes,
}
use check_in.Storage.Mp4.Boxes.{
  Inside, Inside-Tiles, Fits, FitsIfAny, window-Done, parse_box-Done, parse_box_list-Done, shrinks,
}

-- The two buffers have the same bytes from `lo` to `hi`.
abbrev pub Agree : ℕ → ℕ → Bytes → Bytes → Type 0
Agree lo hi d d' = (k : ℕ) → lo ≤ k → k < hi → byte_at d' k ≡ byte_at d k

module _ (d d' : Bytes) (e : length d' ≡ length d) (hi : ℕ) (inside : hi ≤ length d) where
  window-Agree : (i j : ℕ) → Agree i j d d' → window d' hi i j ≡ window d hi i j
  unfolding window
  window-Agree i j h =
      ap (λ (r : Result NoError Bytes). if leb j hi then r else panic) (slice_agree d d' i j e h)

  box_size-Agree : (p size : ℕ) → Agree p hi d d' → box_size d' hi p size ≡ box_size d hi p size
  unfolding box_size
  box_size-Agree p size h = elim (Bool-cases (ltb hi (p + 16))) [
    | inl f ↦ rw f refl
    | inr f ↦
        let w = window-Agree (p + 8) (p + 16) (λ k q r. h k (omega arith) (ground arith)) in
        rw w refl
  ]

  -- The size of the box lies in the eight bytes behind the type only if those are its header too.
  box_size_header :
      (p size : ℕ) (typ : Bytes) (b : Box)
      → Agree p b.start d d'
      → (box_size d hi p size >>= λ o. ok (bounded_box hi p typ o)) ≡ ok (some b)
      → box_size d' hi p size ≡ box_size d hi p size
  unfolding box_size bounded_box
  box_size_header p size typ b h q = elim (Bool-cases (ltb hi (p + 16))) [
    | inl f ↦ rw f refl
    | inr f ↦ elim (Bool-cases (size == 1)) [
      | inr g ↦ rw g refl
      | inl g ↦
          let w = window-Done d hi inside (p + 8) (p + 16) (omega arith) (ground arith) in
          let start : b.start ≡ p + 16 = ground (arith, w.returned) in
          let same = window-Agree (p + 8) (p + 16) (λ k r s. h k (omega arith) (omega arith)) in
          rw same refl
    ]
  ]

  pub parse_box_header :
      (p : ℕ) (printable : Bool) (n : ℕ) (b : Box)
      → Fits p hi b
      → Agree p b.start d d'
      → parse_box d hi p printable n ≡ ok (some b)
      → parse_box d' hi p printable n ≡ ok (some b)
  unfolding parse_box
  parse_box_header p printable n b k h q =
      let word =
        window-Done d hi inside p (p + 4) (omega arith)
          (omega (arith, k.header, k.ordered, k.ends)) in
      let typ =
        window-Done d hi inside (p + 4) (p + 8) (omega arith)
          (omega (arith, k.header, k.ordered, k.ends)) in
      let word' = window-Agree p (p + 4) (λ j r s. h j r (omega (arith, k.header))) in
      let typ' =
        window-Agree (p + 4) (p + 8) (λ j r s. h j (omega arith) (omega (arith, k.header))) in
      let sizes = box_size_header p (big_endian 0 word.value) typ.value b h in
      rw (word', typ') (ground (arith, word.returned, typ.returned, sizes))

  pub parse_box-Agree :
      (p : ℕ) (printable : Bool) (n : ℕ)
      → Agree p hi d d'
      → parse_box d' hi p printable n ≡ parse_box d hi p printable n
  unfolding parse_box
  parse_box-Agree p printable n h = elim (Bool-cases (leb max_box_siblings n || ltb hi (p + 8))) [
    | inl f ↦ rw f refl
    | inr f ↦
        let word' = window-Agree p (p + 4) (λ j r s. h j r (ground arith)) in
        let typ' = window-Agree (p + 4) (p + 8) (λ j r s. h j (omega arith) (ground arith)) in
        let word = window-Done d hi inside p (p + 4) (omega arith) (ground arith) in
        let typ = window-Done d hi inside (p + 4) (p + 8) (omega arith) (ground arith) in
        let sizes = box_size-Agree p (big_endian 0 word.value) h in
        rw (word', typ', word.returned, typ.returned, sizes) refl
  ]

-- The place is in no payload.
abbrev pub Outside : ℕ → List Box → Type 0
Outside i = All (λ b. (i < b.start) ⊎ (b.stop ≤ i))

-- From `lo` to `hi`, the bytes that are in no payload are the same.
abbrev pub Kept : ℕ → ℕ → List Box → Bytes → Bytes → Type 0
Kept lo hi bs d d' = (i : ℕ) → lo ≤ i → i < hi → Outside i bs → byte_at d' i ≡ byte_at d i

pub Outside-Inside : (lo hi i : ℕ) (bs : List Box) → i < lo → Inside lo hi bs → Outside i bs
Outside-Inside lo hi i [] h k = tt
Outside-Inside lo hi i (b ∷ bs) h k = (inl (omega (arith, k.0)), Outside-Inside lo hi i bs h k.1)

ok_pair :
    {a b : List Box} {v w : Bool} {r : Result NoError (List Box × Bool)}
    → r ≡ ok (a, v)
    → r ≡ ok (b, w)
    → (a ≡ b) × (v ≡ w)
ok_pair h k = ground (arith, h, k)

module _ (d d' : Bytes) (e : length d' ≡ length d) (hi : ℕ) (inside : hi ≤ length d)
    (printable : Bool) where
  pub parse_box_list-Kept :
      (fuel p n : ℕ) (bs : List Box) (whole : Bool)
      → hi - p < fuel
      → p ≤ hi
      → parse_box_list fuel d hi p printable n ≡ ok (bs, whole)
      → Kept p hi bs d d'
      → parse_box_list fuel d' hi p printable n ≡ ok (bs, whole)
  unfolding parse_box_list or_stop
  parse_box_list-Kept zero p n bs whole f h q k = q
  parse_box_list-Kept (suc fuel) p n bs whole f h q k = elim (Bool-cases (leb hi p)) [
    | inl g ↦ rw g (ground (arith, q))
    | inr g ↦
        let o = parse_box-Done d hi inside p printable n in
        elim (Option-cases o.value) [
          | inl u ↦
              let none_here : parse_box d hi p printable n ≡ ok none = o.returned ∙ ap ok u in
              let same : [] ≡ bs × false ≡ whole = ok_pair (ground (arith, none_here)) q in
              let all : Agree p hi d d' = λ i r s. k i r s (subst (Outside i) same.0 tt) in
              let none_there = parse_box-Agree d d' e hi inside p printable n all ∙ none_here in
              ground (arith, none_there, same)
          | inr (b, u) ↦
              let here : parse_box d hi p printable n ≡ ok (some b) = o.returned ∙ ap ok u in
              let fits : Fits p hi b = subst (FitsIfAny p hi) u o.holds in
              let rest =
                parse_box_list-Done d hi inside fuel b.stop printable (n + 1)
                  (shrinks fuel p hi b f fits) fits.ends in
              let same : (b ∷ rest.value.0) ≡ bs × rest.value.1 ≡ whole =
                ok_pair (ground (arith, here, rest.returned)) q in
              let k' : Kept p hi (b ∷ rest.value.0) d d' =
                subst (λ bs. Kept p hi bs d d') (sym same.0) k in
              let behind =
                Inside-Tiles b.stop b.stop hi rest.value.0 rest.value.1 (omega arith) rest.holds in
              let head : Agree p b.start d d' = λ i r s.
                k' i r (omega (arith, fits.ordered, fits.ends)) (
                  inl s,
                  Outside-Inside b.stop hi i rest.value.0 (omega (arith, fits.ordered)) behind,
                ) in
              let there = parse_box_header d d' e hi inside p printable n b fits head here in
              let tail =
                parse_box_list-Kept fuel b.stop (n + 1) rest.value.0 rest.value.1
                  (shrinks fuel p hi b f fits) fits.ends rest.returned
                  (λ i r s t. k' i (omega (arith, fits.header, fits.ordered)) s (inr r, t)) in
              ground (arith, there, tail, same)
        ]
  ]

-- A write into the payloads of a stretch's boxes keeps the boxes.
pub parse_boxes-Kept :
    (d d' : Bytes) (lo hi : ℕ) (bs : List Box) (whole : Bool)
    → length d' ≡ length d
    → lo ≤ hi
    → hi ≤ length d
    → parse_boxes d lo hi ≡ ok (bs, whole)
    → Kept lo hi bs d d'
    → parse_boxes d' lo hi ≡ ok (bs, whole)
unfolding parse_boxes
parse_boxes-Kept d d' lo hi bs whole e h i q k =
    parse_box_list-Kept d d' e hi i true (suc (hi - lo)) lo 0 bs whole (omega arith) h q k

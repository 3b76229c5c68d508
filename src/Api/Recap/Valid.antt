-- ===== src/Api/Recap/Valid.antt =====
-- server/internal/api/recap.go: the panels of a request, and which requests are valid.
use check_in.Prelude.{
  ℕ, ◌+◌, ◌≤◌, ◌≡◌, ◌∙◌, refl, ap, ap₂, sym, subst, inl, inr, Bool, false, ◌||◌, List, [], ◌∷◌,
  ◌++◌, ◌==◌, if◌then◌else◌, min, arith, comparable_nat, Bool-cases,
}
use check_in.Slice.{Bytes}
use check_in.Sorting.{
  All, Ordered, IsOrder, one_if, count_by, sort_by-Ordered, count_by-sort_by, count_by-append,
}
use check_in.Maps.{
  comparable_bytes, bytes_eq_iff, bytes_lt, bytes_lt_asym, bytes_lt_trans, bytes_lt_total, contains,
  contains-count_by,
}
use check_in.Api.Recap.{RequestTexts, unique_panels, sorted_unique_panels}

-- A panel, trimmed, is `p`, and is not empty.
abbrev pub asks : RequestTexts → Bytes → Bytes → Bool
asks tx p panel = if tx.trim_space panel == [] then false else tx.trim_space panel == p

-- How often a panel stands in a list.
abbrev pub times : Bytes → List Bytes → ℕ
times p panels = count_by (λ x. x == p) panels

put_once :
    (q p : Bytes) (out : List Bytes)
    → times p out ≤ 1
    → times p (if q == [] || contains out q then out else out ++ q ∷ [])
      ≡ min 1 (times p out + one_if (if q == [] then false else q == p))
put_once q p out h = elim (Bool-cases (q == p)) [
  | inl e ↦
      subst
        (λ q.
          times p (if q == [] || contains out q then out else out ++ q ∷ [])
          ≡ min 1 (times p out + one_if (if q == [] then false else q == p)))
        (sym ((bytes_eq_iff q p).0 e))
        (ground (
          arith,
          h,
          contains-count_by out p,
          count_by-append (λ x. x == p) out (p ∷ []),
          (bytes_eq_iff p p).1 refl,
        ))
  | inr e ↦ ground (arith, e, h, count_by-append (λ x. x == p) out (q ∷ []))
]

pub unique_panels-times :
    (tx : RequestTexts) (p : Bytes) (out panels : List Bytes)
    → times p out ≤ 1
    → times p (unique_panels tx out panels) ≡ min 1 (times p out + count_by (asks tx p) panels)
unfolding unique_panels
unique_panels-times tx p out [] h = omega (arith, h)
unique_panels-times tx p out (q ∷ panels) h =
    let step = put_once (tx.trim_space q) p out h in
    omega (
      arith,
      step,
      unique_panels-times tx p
          (if tx.trim_space q == [] || contains out (tx.trim_space q)
            then out
            else out ++ tx.trim_space q ∷ [])
          panels (omega (arith, step)),
    )

bytes_lt-IsOrder : IsOrder bytes_lt
bytes_lt-IsOrder = record { asym = bytes_lt_asym; trans = bytes_lt_trans }

member-All : (P : Bytes → Type 0) (p : Bytes) (xs : List Bytes) → All P xs → 1 ≤ times p xs → P p
member-All P p [] a h = absurd (omega (arith, h))
member-All P p (x ∷ xs) a h = elim (Bool-cases (x == p)) [
  | inl e ↦ subst P ((bytes_eq_iff x p).0 e) a.0
  | inr e ↦ member-All P p xs a.1 (ground (arith, e, h))
]

irreflexive : (y : Bytes) → bytes_lt y y ≡ false
irreflexive y = elim (Bool-cases (bytes_lt y y)) [ inl e ↦ bytes_lt_asym y y e | inr e ↦ e ]

least :
    (y : Bytes) (ys : List Bytes) (x : Bytes)
    → Ordered bytes_lt (y ∷ ys)
    → 1 ≤ times x (y ∷ ys)
    → bytes_lt x y ≡ false
least y ys x k h = elim (Bool-cases (y == x)) [
  | inl e ↦ subst (λ z. bytes_lt z y ≡ false) ((bytes_eq_iff y x).0 e) (irreflexive y)
  | inr e ↦ member-All (λ z. bytes_lt z y ≡ false) x ys k.0 (ground (arith, e, h))
]

tail_times :
    (p x y : Bytes) (xs ys : List Bytes)
    → x ≡ y
    → times p (x ∷ xs) ≡ times p (y ∷ ys)
    → times p xs ≡ times p ys
tail_times p x y xs ys e h = omega (arith, h, ap (λ z. one_if (z == p)) e)

-- Two sorted lists in which each text stands as often are the same.
sorted_same :
    (xs ys : List Bytes)
    → Ordered bytes_lt xs
    → Ordered bytes_lt ys
    → ((p : Bytes) → times p xs ≡ times p ys)
    → xs ≡ ys
sorted_same [] [] h k e = refl
sorted_same [] (y ∷ ys) h k e = absurd (ground (arith, e y, (bytes_eq_iff y y).1 refl))
sorted_same (x ∷ xs) [] h k e = absurd (ground (arith, e x, (bytes_eq_iff x x).1 refl))
sorted_same (x ∷ xs) (y ∷ ys) h k e =
    let first : x ≡ y =
      bytes_lt_total x y (least y ys x k (ground (arith, e x, (bytes_eq_iff x x).1 refl)))
        (least x xs y h (ground (arith, e y, (bytes_eq_iff y y).1 refl))) in
    ap₂ (λ z zs. z ∷ zs) first (sorted_same xs ys h.1 k.1 (λ p. tail_times p x y xs ys first (e p)))

pub sorted_unique_panels-times :
    (tx : RequestTexts) (p : Bytes) (panels : List Bytes)
    → times p (sorted_unique_panels tx panels) ≡ min 1 (count_by (asks tx p) panels)
unfolding sorted_unique_panels
sorted_unique_panels-times tx p panels = omega (
  arith,
  count_by-sort_by bytes_lt (λ x. x == p) (unique_panels tx [] panels),
  unique_panels-times tx p [] panels (omega arith),
)

pub sorted_unique_panels-Ordered :
    (tx : RequestTexts) (panels : List Bytes) → Ordered bytes_lt (sorted_unique_panels tx panels)
unfolding sorted_unique_panels
sorted_unique_panels-Ordered tx panels =
    sort_by-Ordered bytes_lt bytes_lt-IsOrder (unique_panels tx [] panels)

-- Two lists that ask for the same panels, in whatever order, however often and with whatever space around
-- them, have the same key.
pub sorted_unique_panels_same :
    (tx : RequestTexts) (panels others : List Bytes)
    → ((p : Bytes) → min 1 (count_by (asks tx p) panels) ≡ min 1 (count_by (asks tx p) others))
    → sorted_unique_panels tx panels ≡ sorted_unique_panels tx others
sorted_unique_panels_same tx panels others h =
    sorted_same (sorted_unique_panels tx panels) (sorted_unique_panels tx others)
      (sorted_unique_panels-Ordered tx panels) (sorted_unique_panels-Ordered tx others)
      (λ p.
        sorted_unique_panels-times tx p panels ∙ h p ∙ sym (sorted_unique_panels-times tx p others))

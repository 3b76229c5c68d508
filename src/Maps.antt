-- ===== src/Maps.antt =====
-- Go maps as lists of entries, each key once, and sets as lists; Go strings as bytes, with their order.
use check_in.Prelude.{
  ◌≤◌, max, Bool-cases, inl, inr, subst, ◌≡◌, refl, ap, sym, ◌∙◌, Bool, true, false, ◌&&◌, ◌||◌,
  ◌↔◌, Option, none, some, List, [], ◌∷◌, ◌++◌, ltb, ◌==◌, if◌then◌else◌, arith, Comparable,
  comparable_nat,
}
use check_in.Sorting.{count_by, count_by-append, All}
use check_in.Slice.{Bytes, bytes_eq, bytes_eq_same}

bytes_eq_refl : (x : Bytes) → bytes_eq x x ≡ true
bytes_eq_refl [] = refl
bytes_eq_refl (b ∷ bs) = ground (arith, bytes_eq_refl bs)

pub bytes_eq_iff : (x y : Bytes) → (bytes_eq x y ≡ true) ↔ (x ≡ y)
bytes_eq_iff x y = (bytes_eq_same x y, λ e. ap (bytes_eq x) (sym e) ∙ bytes_eq_refl x)

instance abbrev pub comparable_bytes : Comparable Bytes
comparable_bytes = record { same = bytes_eq; same_iff = bytes_eq_iff }

-- `<` on strings
abbrev pub bytes_lt : Bytes → Bytes → Bool
bytes_lt x [] = false
bytes_lt [] (y ∷ ys) = true
bytes_lt (x ∷ xs) (y ∷ ys) = ltb x y || (x == y && bytes_lt xs ys)

pub bytes_lt_asym : (x y : Bytes) → bytes_lt x y ≡ true → bytes_lt y x ≡ false
bytes_lt_asym x [] h = ground (arith, h)
bytes_lt_asym [] (y ∷ ys) h = refl
bytes_lt_asym (x ∷ xs) (y ∷ ys) h = ground (arith, bytes_lt_asym xs ys)

pub bytes_lt_trans :
    (x y z : Bytes) → bytes_lt y x ≡ false → bytes_lt z y ≡ false → bytes_lt z x ≡ false
bytes_lt_trans [] y z h k = ground arith
bytes_lt_trans (x ∷ xs) [] z h k = ground (arith, h)
bytes_lt_trans (x ∷ xs) (y ∷ ys) [] h k = ground (arith, k)
bytes_lt_trans (x ∷ xs) (y ∷ ys) (z ∷ zs) h k = ground (arith, bytes_lt_trans xs ys zs)

-- Distinct strings never tie.
pub bytes_lt_total : (x y : Bytes) → bytes_lt x y ≡ false → bytes_lt y x ≡ false → x ≡ y
bytes_lt_total [] [] h k = refl
bytes_lt_total [] (y ∷ ys) h k = ground (arith, h)
bytes_lt_total (x ∷ xs) [] h k = ground (arith, k)
bytes_lt_total (x ∷ xs) (y ∷ ys) h k = ground (arith, bytes_lt_total xs ys)

module _ {ℓ κ} {K : Type ℓ} {V : Type κ} ⦃c : Comparable K⦄ where
  -- `m[k]`, with whether it is there
  abbrev pub lookup : K → List (K × V) → Option V
  lookup k [] = none
  lookup k (e ∷ m) = if e.0 == k then some e.1 else lookup k m

  -- `m[k] = f(m[k])`; a key that is not there comes last.
  abbrev pub upsert : K → (Option V → V) → List (K × V) → List (K × V)
  upsert k f [] = (k, f none) ∷ []
  upsert k f (e ∷ m) = if e.0 == k then (e.0, f (some e.1)) ∷ m else e ∷ upsert k f m

abbrev pub contains {ℓ} : {K : Type ℓ} ⦃c : Comparable K⦄ → List K → K → Bool
contains [] k = false
contains (x ∷ xs) k = x == k || contains xs k

-- `s[k] = true` of a set
abbrev pub include {ℓ} : {K : Type ℓ} ⦃c : Comparable K⦄ → K → List K → List K
include k s = if contains s k then s else s ++ k ∷ []

-- `append(m[k], v)`
abbrev pub append_to {ℓ} : {A : Type ℓ} → A → Option (List A) → List A
append_to v none = v ∷ []
append_to v (some vs) = vs ++ v ∷ []

module _ {ℓ} {K : Type ℓ} ⦃c : Comparable K⦄ where
  differ : (k i j : K) → (i == j) ≡ false → (j == k) ≡ true → (i == k) ≡ false
  differ k i j e h = subst (λ z. (i == z) ≡ false) ((c.same_iff j k).0 h) e

  pub contains-count_by : (s : List K) (k : K) → contains s k ≡ ltb 0 (count_by (λ x. x == k) s)
  contains-count_by [] k = refl
  contains-count_by (x ∷ s) k = ground (arith, contains-count_by s k)

  -- How often an element stands in a set, before and after it may be put in.
  pub count_by-include :
      (k j : K) (s : List K)
      → count_by (λ x. x == k) (include j s)
        ≡ (if j == k then max 1 (count_by (λ x. x == k) s) else count_by (λ x. x == k) s)
  count_by-include k j s = elim (Bool-cases (j == k)) [
    | inl e ↦
        subst
          (λ z.
            count_by (λ x. x == z) (include j s)
            ≡ (if j == z then max 1 (count_by (λ x. x == z) s) else count_by (λ x. x == z) s))
          ((c.same_iff j k).0 e)
          (rw ((c.same_iff j j).1 refl) (
            ground (
              arith,
              contains-count_by s j,
              count_by-append (λ x. x == j) s (j ∷ []),
              (c.same_iff j j).1 refl,
            )))
    | inr e ↦ rw e (ground (arith, e, count_by-append (λ x. x == k) s (j ∷ [])))
  ]

module _ {ℓ κ} {K : Type ℓ} {V : Type κ} ⦃c : Comparable K⦄ where
  -- How often a key stands in a map, before and after an assignment.
  pub count_by-upsert :
      (k j : K) (f : Option V → V) (m : List (K × V))
      → count_by (λ e. e.0 == k) (upsert j f m)
        ≡ (if j == k then max 1 (count_by (λ e. e.0 == k) m) else count_by (λ e. e.0 == k) m)
  count_by-upsert k j f [] = ground arith
  count_by-upsert k j f ((i, v) ∷ m) = elim (Bool-cases (i == j)) [
    | inl e ↦ rw e (rw ((c.same_iff i j).0 e) (ground arith))
    | inr e ↦ rw e (ground (arith, count_by-upsert k j f m, differ k i j e))
  ]

  All-untouched :
      (P Q : K × V → Type 0) (j : K) (m : List (K × V))
      → ((i : K) (v : V) → (i == j) ≡ false → P (i, v) → Q (i, v))
      → count_by (λ e. e.0 == j) m ≡ 0
      → All P m
      → All Q m
  All-untouched P Q j [] other z a = tt
  All-untouched P Q j ((i, v) ∷ m) other z a =
      (other i v (ground (arith, z)) a.0, All-untouched P Q j m other (ground (arith, z)) a.1)

  -- A property of the entries that an assignment establishes.
  pub All-upsert :
      (P Q : K × V → Type 0) (j : K) (f : Option V → V) (m : List (K × V))
      → ((i : K) (v : V) → (i == j) ≡ false → P (i, v) → Q (i, v))
      → ((v : V) → P (j, v) → Q (j, f (some v)))
      → (count_by (λ e. e.0 == j) m ≡ 0 → Q (j, f none))
      → count_by (λ e. e.0 == j) m ≤ 1
      → All P m
      → All Q (upsert j f m)
  All-upsert P Q j f [] other same new n a = (new refl, tt)
  All-upsert P Q j f ((i, v) ∷ m) other same new n a = elim (Bool-cases (i == j)) [
    | inl e ↦ rw e (
      subst (λ z. Q (z, f (some v))) (sym ((c.same_iff i j).0 e))
          (same v (subst (λ z. P (z, v)) ((c.same_iff i j).0 e) a.0)),
      All-untouched P Q j m other (ground (arith, e, n)) a.1,
    )
    | inr e ↦ rw e (
      other i v e a.0,
      All-upsert P Q j f m other same (λ z. new (ground arith)) (ground arith) a.1,
    )
  ]

-- ===== src/Sorting.antt =====
-- `sort.Slice` with a comparison, and the counts by which lists are compared up to their order.
use check_in.Prelude.{
  ◌∙◌, Option, none, some, ℕ, zero, suc, ◌+◌, ◌≤◌, ◌≡◌, refl, ap, Bool, true, false, inl, inr, List,
  [], ◌∷◌, ◌++◌, if◌then◌else◌, length, take, arith, Bool-cases,
}

abbrev pub one_if : Bool → ℕ
one_if true = 1
one_if false = 0

module _ {ℓ} {A : Type ℓ} where
  -- how many entries pass a test
  abbrev pub count_by : (A → Bool) → List A → ℕ
  count_by p [] = 0
  count_by p (x ∷ xs) = one_if (p x) + count_by p xs

  abbrev pub sum_by : (A → ℕ) → List A → ℕ
  sum_by f [] = 0
  sum_by f (x ∷ xs) = f x + sum_by f xs

  abbrev pub keep_if : (A → Bool) → List A → List A
  keep_if p [] = []
  keep_if p (x ∷ xs) = if p x then x ∷ keep_if p xs else keep_if p xs

  abbrev pub All {κ} : (A → Type κ) → List A → Type κ
  All P [] = Unit
  All P (x ∷ xs) = P x × All P xs

  insert_by : (A → A → Bool) → A → List A → List A
  insert_by less x [] = x ∷ []
  insert_by less x (y ∷ ys) = if less y x then y ∷ insert_by less x ys else x ∷ y ∷ ys

  -- The entries in the order of `less`; entries that tie keep their order.
  unfoldable pub sort_by : (A → A → Bool) → List A → List A
  unfolding insert_by
  sort_by less [] = []
  sort_by less (x ∷ xs) = insert_by less x (sort_by less xs)

  -- No entry comes after one that it ranks ahead of.
  abbrev pub Ordered : (A → A → Bool) → List A → Type 0
  Ordered less [] = Unit
  Ordered less (x ∷ xs) = All (λ y. less y x ≡ false) xs × Ordered less xs

  -- Every entry stands in a relation to those after it.
  abbrev pub Sorted : (A → A → Type 0) → List A → Type 0
  Sorted R [] = Unit
  Sorted R (x ∷ xs) = All (R x) xs × Sorted R xs

  -- the first entry that passes a test
  abbrev pub find_by : (A → Bool) → List A → Option A
  find_by p [] = none
  find_by p (x ∷ xs) = if p x then some x else find_by p xs

  -- A comparison that `sort.Slice` may be given.
  pub record IsOrder (less : A → A → Bool) : Type ℓ where
    pub asym : (x y : A) → less x y ≡ true → less y x ≡ false
    pub trans : (x y z : A) → less y x ≡ false → less z y ≡ false → less z x ≡ false

  insert_by-count_by :
      (less : A → A → Bool) (p : A → Bool) (x : A) (ys : List A)
      → count_by p (insert_by less x ys) ≡ one_if (p x) + count_by p ys
  unfolding insert_by
  insert_by-count_by less p x [] = refl
  insert_by-count_by less p x (y ∷ ys) = ground (arith, insert_by-count_by less p x ys)

  -- Sorting keeps every entry, as often as it was there.
  pub count_by-sort_by :
      (less : A → A → Bool) (p : A → Bool) (xs : List A)
      → count_by p (sort_by less xs) ≡ count_by p xs
  unfolding sort_by
  count_by-sort_by less p [] = refl
  count_by-sort_by less p (x ∷ xs) =
      omega (arith, insert_by-count_by less p x (sort_by less xs), count_by-sort_by less p xs)

  find_by-none : (p : A → Bool) (xs : List A) → count_by p xs ≡ 0 → find_by p xs ≡ none
  find_by-none p [] h = refl
  find_by-none p (x ∷ xs) h = ground (arith, h, find_by-none p xs (ground (arith, h)))

  insert_by-find_by :
      (less : A → A → Bool) (p : A → Bool) (x : A) (ys : List A)
      → one_if (p x) + count_by p ys ≤ 1
      → find_by p (insert_by less x ys) ≡ (if p x then some x else find_by p ys)
  unfolding insert_by
  insert_by-find_by less p x [] h = refl
  insert_by-find_by less p x (y ∷ ys) h = elim (Bool-cases (less y x)) [
    | inl e ↦ rw e (ground (arith, h, insert_by-find_by less p x ys (omega (arith, h))))
    | inr e ↦ rw e refl
  ]

  -- Of a list in which one entry at most passes a test, sorting does not change which.
  pub find_by-sort_by :
      (less : A → A → Bool) (p : A → Bool) (xs : List A)
      → count_by p xs ≤ 1
      → find_by p (sort_by less xs) ≡ find_by p xs
  unfolding sort_by
  find_by-sort_by less p [] h = refl
  find_by-sort_by less p (x ∷ xs) h =
      let rest = find_by-sort_by less p xs (omega (arith, h)) in
      insert_by-find_by less p x (sort_by less xs) (omega (arith, h, count_by-sort_by less p xs))
      ∙ ap (λ o. if p x then some x else o) rest

  insert_by-sum_by :
      (less : A → A → Bool) (f : A → ℕ) (x : A) (ys : List A)
      → sum_by f (insert_by less x ys) ≡ f x + sum_by f ys
  unfolding insert_by
  insert_by-sum_by less f x [] = refl
  insert_by-sum_by less f x (y ∷ ys) = ground (arith, insert_by-sum_by less f x ys)

  -- Sorting keeps a sum over the entries.
  pub sum_by-sort_by :
      (less : A → A → Bool) (f : A → ℕ) (xs : List A) → sum_by f (sort_by less xs) ≡ sum_by f xs
  unfolding sort_by
  sum_by-sort_by less f [] = refl
  sum_by-sort_by less f (x ∷ xs) =
      omega (arith, insert_by-sum_by less f x (sort_by less xs), sum_by-sort_by less f xs)

  pub sum_by-append : (f : A → ℕ) (xs ys : List A) → sum_by f (xs ++ ys) ≡ sum_by f xs + sum_by f ys
  sum_by-append f [] ys = omega arith
  sum_by-append f (x ∷ xs) ys = omega (arith, sum_by-append f xs ys)

  pub keep_if-append :
      (p : A → Bool) (xs ys : List A) → keep_if p (xs ++ ys) ≡ keep_if p xs ++ keep_if p ys
  keep_if-append p [] ys = refl
  keep_if-append p (x ∷ xs) ys = ground (arith, keep_if-append p xs ys)

  pub append_snoc : (xs : List A) (x : A) (ys : List A) → (xs ++ x ∷ []) ++ ys ≡ xs ++ x ∷ ys
  append_snoc [] x ys = refl
  append_snoc (z ∷ xs) x ys = ap (λ zs. z ∷ zs) (append_snoc xs x ys)

  pub length-count_by : (xs : List A) → count_by (λ _. true) xs ≡ length xs
  length-count_by [] = refl
  length-count_by (x ∷ xs) = omega (arith, length-count_by xs)

  pub length-sort_by : (less : A → A → Bool) (xs : List A) → length (sort_by less xs) ≡ length xs
  length-sort_by less xs = omega (
    arith,
    length-count_by xs,
    length-count_by (sort_by less xs),
    count_by-sort_by less (λ _. true) xs,
  )

  pub count_by-le : (p : A → Bool) (xs : List A) → count_by p xs ≤ length xs
  count_by-le p [] = omega arith
  count_by-le p (x ∷ xs) = ground (arith, count_by-le p xs)

  pub count_by-append :
      (p : A → Bool) (xs ys : List A) → count_by p (xs ++ ys) ≡ count_by p xs + count_by p ys
  count_by-append p [] ys = omega arith
  count_by-append p (x ∷ xs) ys = omega (arith, count_by-append p xs ys)

  pub count_by-take-le :
      (p : A → Bool) (n : ℕ) (xs : List A) → count_by p (take n xs) ≤ count_by p xs
  count_by-take-le p zero xs = omega arith
  count_by-take-le p (suc n) [] = omega arith
  count_by-take-le p (suc n) (x ∷ xs) = omega (arith, count_by-take-le p n xs)

  pub take_all : (n : ℕ) (xs : List A) → length xs ≤ n → take n xs ≡ xs
  take_all zero [] h = refl
  take_all zero (x ∷ xs) h = absurd (omega arith)
  take_all (suc n) [] h = refl
  take_all (suc n) (x ∷ xs) h = ap (λ ys. x ∷ ys) (take_all n xs (omega arith))

All-insert_by {ℓ} :
    {A : Type ℓ} (P : A → Type 0) (less : A → A → Bool) (x : A) (ys : List A)
    → P x
    → All P ys
    → All P (insert_by less x ys)
unfolding insert_by
All-insert_by P less x [] h a = (h, tt)
All-insert_by P less x (y ∷ ys) h a = elim (Bool-cases (less y x)) [
  | inl e ↦ rw e (a.0, All-insert_by P less x ys h a.1)
  | inr e ↦ rw e (h, (a.0, a.1))
]

pub All-sort_by {ℓ} :
    {A : Type ℓ} (P : A → Type 0) (less : A → A → Bool) (xs : List A)
    → All P xs
    → All P (sort_by less xs)
unfolding sort_by
All-sort_by P less [] a = tt
All-sort_by P less (x ∷ xs) a =
    All-insert_by P less x (sort_by less xs) a.0 (All-sort_by P less xs a.1)

pub All-append {ℓ} :
    {A : Type ℓ} (P : A → Type 0) (xs ys : List A) → All P xs → All P ys → All P (xs ++ ys)
All-append P [] ys a b = b
All-append P (x ∷ xs) ys a b = (a.0, All-append P xs ys a.1 b)

pub All-imp {ℓ} :
    {A : Type ℓ} (P Q : A → Type 0) (xs : List A) → ((x : A) → P x → Q x) → All P xs → All Q xs
All-imp P Q [] f a = tt
All-imp P Q (x ∷ xs) f a = (f x a.0, All-imp P Q xs f a.1)

-- What follows of an order by a comparison.
pub Ordered-Sorted {ℓ} :
    {A : Type ℓ} (less : A → A → Bool) (R : A → A → Type 0) (xs : List A)
    → ((x y : A) → less y x ≡ false → R x y)
    → Ordered less xs
    → Sorted R xs
Ordered-Sorted less R [] f h = tt
Ordered-Sorted less R (x ∷ xs) f h =
    (All-imp (λ y. less y x ≡ false) (R x) xs (λ y k. f x y k) h.0, Ordered-Sorted less R xs f h.1)

module _ {ℓ} {A : Type ℓ} (less : A → A → Bool) (o : IsOrder less) where
  All-after :
      (x y : A) (ys : List A)
      → less y x ≡ false
      → All (λ z. less z y ≡ false) ys
      → All (λ z. less z x ≡ false) ys
  All-after x y [] h a = tt
  All-after x y (z ∷ ys) h a = (o.trans x y z h a.0, All-after x y ys h a.1)

  insert_by-Ordered : (x : A) (ys : List A) → Ordered less ys → Ordered less (insert_by less x ys)
  unfolding insert_by
  insert_by-Ordered x [] h = (tt, tt)
  insert_by-Ordered x (y ∷ ys) h = elim (Bool-cases (less y x)) [
    | inl e ↦ rw e (
      All-insert_by (λ z. less z y ≡ false) less x ys (o.asym y x e) h.0,
      insert_by-Ordered x ys h.1,
    )
    | inr e ↦ rw e ((e, All-after x y ys e h.0), (h.0, h.1))
  ]

  -- What comes out is in order.
  pub sort_by-Ordered : (xs : List A) → Ordered less (sort_by less xs)
  unfolding sort_by
  sort_by-Ordered [] = tt
  sort_by-Ordered (x ∷ xs) = insert_by-Ordered x (sort_by less xs) (sort_by-Ordered xs)

  pub take-Ordered : (n : ℕ) (xs : List A) → Ordered less xs → Ordered less (take n xs)
  take-Ordered zero xs h = tt
  take-Ordered (suc n) [] h = tt
  take-Ordered (suc n) (x ∷ xs) h = (All-take n xs h.0, take-Ordered n xs h.1)
    where
      All-take :
          (n : ℕ) (ys : List A)
          → All (λ y. less y x ≡ false) ys
          → All (λ y. less y x ≡ false) (take n ys)
      All-take zero ys a = tt
      All-take (suc n) [] a = tt
      All-take (suc n) (y ∷ ys) a = (a.0, All-take n ys a.1)

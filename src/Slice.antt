-- ===== src/Slice.antt =====
-- Go byte slices: reads, slices and writes in place, with the run-time panics.
-- A slice is the list of its bytes; a write returns the new list.
use check_in.Prelude.{
  ℕ, zero, suc, ◌+◌, ◌-◌, ◌≤◌, ◌<◌, ◌≡◌, refl, ap, Bool, true, false, ◌&&◌, none, some, List, [],
  ◌∷◌, ◌++◌, ltb, leb, inl, inr, Bool-cases, ◌==◌, if◌then◌else◌, arith, length, length-append,
  get_elem?, take, drop, replicate, Result, ok, panic, comparable_nat,
}

abbrev pub Bytes : Type 0
Bytes = List ℕ

-- `d[i]`
unfoldable pub index : {E : Type 0} → Bytes → ℕ → Result E ℕ
index d i = elim (get_elem? d i) [ none ↦ panic | some b ↦ ok b ]

-- `d[i:j]`
unfoldable pub slice : {E : Type 0} → Bytes → ℕ → ℕ → Result E Bytes
slice d i j = if leb i j && leb j (length d) then ok (take (j - i) (drop i d)) else panic

unfoldable pub zero_range : Bytes → ℕ → ℕ → Bytes
zero_range [] p n = []
zero_range (x ∷ xs) zero zero = x ∷ xs
zero_range (x ∷ xs) zero (suc n) = 0 ∷ zero_range xs zero n
zero_range (x ∷ xs) (suc p) n = x ∷ zero_range xs p n

-- `clear(d[p : p+n])`
unfoldable pub clear : {E : Type 0} → Bytes → ℕ → ℕ → Result E Bytes
unfolding zero_range
clear d p n = if leb (p + n) (length d) then ok (zero_range d p n) else panic

abbrev pub bytes_eq : Bytes → Bytes → Bool
bytes_eq [] [] = true
bytes_eq [] (y ∷ ys) = false
bytes_eq (x ∷ xs) [] = false
bytes_eq (x ∷ xs) (y ∷ ys) = (x == y) && bytes_eq xs ys

-- the byte at a place, 0 beyond the end
abbrev pub byte_at : Bytes → ℕ → ℕ
byte_at [] i = 0
byte_at (x ∷ xs) zero = x
byte_at (x ∷ xs) (suc i) = byte_at xs i

pub length-zero_range : (d : Bytes) (p n : ℕ) → length (zero_range d p n) ≡ length d
unfolding zero_range
length-zero_range [] p n = refl
length-zero_range (x ∷ d) zero zero = refl
length-zero_range (x ∷ d) zero (suc n) = ap suc (length-zero_range d zero n)
length-zero_range (x ∷ d) (suc p) n = ap suc (length-zero_range d p n)

pub byte_at-zero_range :
    (d : Bytes) (p n i : ℕ)
    → byte_at (zero_range d p n) i ≡ (if leb p i && ltb i (p + n) then 0 else byte_at d i)
unfolding zero_range
byte_at-zero_range [] p n i = ground arith
byte_at-zero_range (x ∷ d) zero zero i = ground arith
byte_at-zero_range (x ∷ d) zero (suc n) zero = ground arith
byte_at-zero_range (x ∷ d) zero (suc n) (suc i) = ground (arith, byte_at-zero_range d zero n i)
byte_at-zero_range (x ∷ d) (suc p) n zero = ground arith
byte_at-zero_range (x ∷ d) (suc p) n (suc i) = ground (arith, byte_at-zero_range d p n i)

pub clear_ok :
    {E : Type 0} (d : Bytes) (p n : ℕ)
    → p + n ≤ length d
    → clear {E = E} d p n ≡ ok (zero_range d p n)
unfolding clear
clear_ok d p n h = ground arith

pub take-drop_agree :
    (d d' : Bytes) (i n : ℕ)
    → length d' ≡ length d
    → ((k : ℕ) → i ≤ k → k < i + n → byte_at d' k ≡ byte_at d k)
    → take n (drop i d') ≡ take n (drop i d)
take-drop_agree [] [] i n e h = refl
take-drop_agree [] (y ∷ d') i n e h = absurd (omega arith)
take-drop_agree (x ∷ d) [] i n e h = absurd (omega arith)
take-drop_agree (x ∷ d) (y ∷ d') zero zero e h = refl
take-drop_agree (x ∷ d) (y ∷ d') zero (suc n) e h =
    let head : y ≡ x = h 0 (omega arith) (omega arith) in
    let rest =
      take-drop_agree d d' zero n (omega arith) (λ k p q. h (suc k) (omega arith) (omega arith)) in
    rw (head, rest) refl
take-drop_agree (x ∷ d) (y ∷ d') (suc i) n e h =
    take-drop_agree d d' i n (omega arith) (λ k p q. h (suc k) (omega arith) (omega arith))

-- A slice holds the bytes of its stretch only.
pub slice_agree :
    {E : Type 0} (d d' : Bytes) (i j : ℕ)
    → length d' ≡ length d
    → ((k : ℕ) → i ≤ k → k < j → byte_at d' k ≡ byte_at d k)
    → slice {E = E} d' i j ≡ slice d i j
unfolding slice
slice_agree d d' i j e h = elim (Bool-cases (leb i j && leb j (length d))) [
  | inl t ↦ ground (arith, take-drop_agree d d' i (j - i) e (λ k p q. h k p (ground arith)))
  | inr f ↦ ground arith
]

get_elem?_lt : (d : Bytes) (i : ℕ) → i < length d → get_elem? d i ≡ some (byte_at d i)
get_elem?_lt [] i h = elim h [ ]
get_elem?_lt (x ∷ d) zero h = refl
get_elem?_lt (x ∷ d) (suc i) h = get_elem?_lt d i (omega arith)

get_elem?-append_right :
    (pre rest : Bytes) (i k : ℕ)
    → i ≡ length pre + k
    → k < length rest
    → get_elem? (pre ++ rest) i ≡ some (byte_at rest k)
get_elem?-append_right [] rest i k e h = let p : i ≡ k = omega arith in rw p (get_elem?_lt rest k h)
get_elem?-append_right (x ∷ pre) rest zero k e h = absurd (omega arith)
get_elem?-append_right (x ∷ pre) rest (suc i) k e h =
    get_elem?-append_right pre rest i k (omega arith) h

-- A read at `length pre + k` of `pre ++ rest` is one at `k` of `rest`.
pub index_in :
    {E : Type 0} (pre rest : Bytes) (i k : ℕ)
    → i ≡ length pre + k
    → k < length rest
    → index {E = E} (pre ++ rest) i ≡ ok (byte_at rest k)
unfolding index
index_in pre rest i k e h = rw (get_elem?-append_right pre rest i k e h, index)

pub drop-append_right :
    (pre rest : Bytes) (i k : ℕ) → i ≡ length pre + k → drop i (pre ++ rest) ≡ drop k rest
drop-append_right [] rest i k e = ap (λ n. drop n rest) (omega arith)
drop-append_right (x ∷ pre) rest zero k e = absurd (omega arith)
drop-append_right (x ∷ pre) rest (suc i) k e = drop-append_right pre rest i k (omega arith)

pub slice_in :
    {E : Type 0} (pre rest : Bytes) (i j k n : ℕ)
    → i ≡ length pre + k
    → j ≡ i + n
    → k + n ≤ length rest
    → slice {E = E} (pre ++ rest) i j ≡ ok (take n (drop k rest))
unfolding slice
slice_in pre rest i j k n e f h =
    ground (arith, drop-append_right pre rest i k e, length-append pre rest)

zero_range-prefix :
    (payload rest : Bytes)
    → zero_range (payload ++ rest) 0 (length payload) ≡ replicate (length payload) 0 ++ rest
unfolding zero_range
zero_range-prefix [] [] = refl
zero_range-prefix [] (x ∷ rest) = refl
zero_range-prefix (x ∷ payload) rest = ap (λ xs. 0 ∷ xs) (zero_range-prefix payload rest)

zero_range-append :
    (pre payload rest : Bytes)
    → zero_range (pre ++ (payload ++ rest)) (length pre) (length payload)
      ≡ pre ++ (replicate (length payload) 0 ++ rest)
unfolding zero_range
zero_range-append [] payload rest = zero_range-prefix payload rest
zero_range-append (x ∷ pre) payload rest = ap (λ xs. x ∷ xs) (zero_range-append pre payload rest)

-- A clear of a stretch that lies in the slice turns that stretch into zeros, and nothing else.
pub clear_in :
    {E : Type 0} (pre payload rest : Bytes) (p n : ℕ)
    → p ≡ length pre
    → n ≡ length payload
    → clear {E = E} (pre ++ (payload ++ rest)) p n ≡ ok (pre ++ (replicate n 0 ++ rest))
unfolding clear
clear_in pre payload rest p n e f =
    rw (e, f)
      (ground (
        arith,
        zero_range-append pre payload rest,
        length-append pre (payload ++ rest),
        length-append payload rest,
      ))

pub all_zero : Bytes → Bool
all_zero [] = true
all_zero (x ∷ xs) = x == 0 && all_zero xs

-- Whether the bytes from `lo` to `hi` are zeros.
unfoldable pub zeroed : Bytes → ℕ → ℕ → Bool
unfolding all_zero
zeroed d lo hi = all_zero (take (hi - lo) (drop lo d))

all_zero-take-drop :
    (d : Bytes) (i n : ℕ)
    → ((k : ℕ) → i ≤ k → k < i + n → byte_at d k ≡ 0)
    → all_zero (take n (drop i d)) ≡ true
unfolding all_zero
all_zero-take-drop [] zero zero h = refl
all_zero-take-drop [] zero (suc n) h = refl
all_zero-take-drop [] (suc i) zero h = refl
all_zero-take-drop [] (suc i) (suc n) h = refl
all_zero-take-drop (x ∷ d) zero zero h = refl
all_zero-take-drop (x ∷ d) zero (suc n) h =
    let head : x ≡ 0 = h 0 (omega arith) (omega arith) in
    let rest = all_zero-take-drop d zero n (λ k p q. h (suc k) (omega arith) (omega arith)) in
    ground (arith, rest)
all_zero-take-drop (x ∷ d) (suc i) n h =
    all_zero-take-drop d i n (λ k p q. h (suc k) (omega arith) (omega arith))

pub zeroed-zero_range : (d : Bytes) (lo hi : ℕ) → zeroed (zero_range d lo (hi - lo)) lo hi ≡ true
unfolding zeroed
zeroed-zero_range d lo hi =
    all_zero-take-drop (zero_range d lo (hi - lo)) lo (hi - lo)
      (λ k p q. ground (arith, byte_at-zero_range d lo (hi - lo) k))

pub zeroed_agree :
    (d d' : Bytes) (lo hi : ℕ)
    → length d' ≡ length d
    → ((k : ℕ) → lo ≤ k → k < hi → byte_at d' k ≡ byte_at d k)
    → zeroed d' lo hi ≡ zeroed d lo hi
unfolding zeroed
zeroed_agree d d' lo hi e h =
    ap all_zero (take-drop_agree d d' lo (hi - lo) e (λ k p q. h k p (omega arith)))

pub bytes_eq_same : (xs ys : Bytes) → bytes_eq xs ys ≡ true → xs ≡ ys
bytes_eq_same [] [] h = refl
bytes_eq_same [] (y ∷ ys) h = absurd (ground (arith, h))
bytes_eq_same (x ∷ xs) [] h = absurd (ground (arith, h))
bytes_eq_same (x ∷ xs) (y ∷ ys) h = ground (arith, bytes_eq_same xs ys)

-- ===== src/Prelude/Results.antt =====
-- Results of Go code that may fail, panic, or (a loop on fuel) not be done yet.
use mathlib.Core.Path.{◌≡◌, refl}
use mathlib.Core.Bool.{Bool, true, false}
use check_in.Prelude.Tests.{if◌then◌else◌}

-- The error of code that reports none.
pub data NoError : Type 0 where

pub data Result {ℓ} (E : Type 0) (A : Type ℓ) : Type ℓ where
  ok : A → Result E A
  err : E → Result E A
  panic : Result E A
  out_of_fuel : Result E A

infixl 5 ◌>>=◌
abbrev pub ◌>>=◌ {ℓ κ} :
    {E : Type 0} {A : Type ℓ} {B : Type κ} → Result E A → (A → Result E B) → Result E B
ok a >>= f = f a
err e >>= f = err e
panic >>= f = panic
out_of_fuel >>= f = out_of_fuel

-- The code returns: a value or an error.
abbrev pub Returns {ℓ} : {E : Type 0} {A : Type ℓ} → Result E A → Type 0
Returns (ok a) = Unit
Returns (err e) = Unit
Returns panic = ⊥
Returns out_of_fuel = ⊥

-- The code returns a value, with a property.
pub record Done {E A : Type 0} (r : Result E A) (P : A → Type 0) : Type 0 where
  pub value : A
  pub returned : r ≡ ok value
  pub holds : P value

pub Done-ok : {E A : Type 0} {P : A → Type 0} {a : A} → P a → Done {E = E} (ok a) P
Done-ok h = record { value = _; returned = refl; holds = h }

pub Done_bind :
    {E A B : Type 0} {P : A → Type 0} {Q : B → Type 0} {r : Result E A} {f : A → Result E B}
    → Done r P
    → ((a : A) → P a → Done (f a) Q)
    → Done (r >>= f) Q
Done_bind h k = rw h.returned (k h.value h.holds)

pub Done_if :
    {E A : Type 0} {P : A → Type 0} (c : Bool) {x y : Result E A}
    → (c ≡ true → Done x P)
    → (c ≡ false → Done y P)
    → Done (if c then x else y) P
Done_if true h k = h refl
Done_if false h k = k refl

pub Done_map :
    {E A : Type 0} {P Q : A → Type 0} {r : Result E A} → Done r P → ((a : A) → P a → Q a) → Done r Q
Done_map h k = record { value = h.value; returned = h.returned; holds = k h.value h.holds }

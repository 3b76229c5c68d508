-- ===== src/Api.antt =====
-- server/internal/api: replies, and calls that may fail.
--
-- A handler takes the state of the server and returns its reply with the new state. What a handler calls
-- in other packages is a record of operations, a parameter. An operation that may fail returns an Option:
-- `none` is an error.
pub mod Recap
pub mod Digest
pub mod Session
pub mod Settings
use Prim.Native.String.{String}
use check_in.Prelude.{ℕ, Option, none, some, ◌≡◌, inl, inr, Option-cases}

-- `writeJSON(w, status, v)` and `writeErr(w, status, msg)`
pub data Reply {ℓ} (A : Type ℓ) : Type ℓ where
  write_json : ℕ → A → Reply A
  write_err : ℕ → String → Reply A

abbrev pub status {ℓ} : {A : Type ℓ} → Reply A → ℕ
status (write_json n a) = n
status (write_err n msg) = n

-- A call in a state: its result, and the new state.
abbrev pub Call : Type 0 → Type 0 → Type 0
Call W A = W → A × W

-- `x, err := call(); if err != nil { return failed }`, then the rest.
abbrev pub or_else : {W A B : Type 0} → Call W (Option A) → Call W B → (A → Call W B) → Call W B
or_else call failed rest w = elim (call w).0 [
  | none ↦ failed (call w).1
  | some a ↦ rest a (call w).1
]

-- The same in code that has no result.
abbrev pub or_stop : {W A : Type 0} → Call W (Option A) → (A → W → W) → W → W
or_stop call rest w = elim (call w).0 [ none ↦ (call w).1 | some a ↦ rest a (call w).1 ]

-- The cases with what the call answered in each.
pub or_stop_reads :
    {W A : Type 0} (P : W → Type 0) (call : Call W (Option A)) (rest : A → W → W) (w : W)
    → ((call w).0 ≡ none → P (call w).1)
    → ((a : A) → (call w).0 ≡ some a → P (rest a (call w).1))
    → P (or_stop call rest w)
or_stop_reads P call rest w stopped goes_on = elim (Option-cases (call w).0) [
  | inl e ↦ rw (e, or_stop) (stopped e)
  | inr (a, e) ↦ rw (e, or_stop) (goes_on a e)
]

pub or_stop_cases :
    {W A : Type 0} (P : W → Type 0) (call : Call W (Option A)) (rest : A → W → W) (w : W)
    → P (call w).1
    → ((a : A) → (call w).0 ≡ some a → P (rest a (call w).1))
    → P (or_stop call rest w)
or_stop_cases P call rest w stopped goes_on = or_stop_reads P call rest w (λ _. stopped) goes_on

pub or_else_cases :
    {W A B : Type 0} (P : B × W → Type 0) (call : Call W (Option A)) (failed : Call W B)
    (rest : A → Call W B) (w : W)
    → ((call w).0 ≡ none → P (failed (call w).1))
    → ((a : A) → (call w).0 ≡ some a → P (rest a (call w).1))
    → P (or_else call failed rest w)
or_else_cases P call failed rest w fails goes_on = elim (Option-cases (call w).0) [
  | inl e ↦ rw (e, or_else) (fails e)
  | inr (a, e) ↦ rw (e, or_else) (goes_on a e)
]

abbrev pub return : {W B : Type 0} → B → Call W B
return b w = (b, w)

-- ===== src/Db/Events/Keys.antt =====
-- server/internal/db/events_cluster.go: `mostCommonKey` does not hang on the order of a map's entries.
use check_in.Prelude.{
  ℕ, ◌≤◌, ◌≡◌, refl, sym, ◌∙◌, subst, Bool, true, false, ◌&&◌, ◌||◌, ◌⊎◌, inl, inr, Bool-cases,
  List, [], ◌∷◌, ltb, ◌==◌, if◌then◌else◌, comparable_nat, arith,
}
use check_in.Slice.{Bytes}
use check_in.Sorting.{All, count_by}
use check_in.Maps.{
  comparable_bytes, bytes_lt, bytes_lt_trans, bytes_lt_asym, bytes_lt_total, bytes_eq_iff,
}
use check_in.Db.Events.{more_common, most_common_from, most_common_key}

abbrev Entry : Type 0
Entry = Bytes × ℕ

abbrev beats : Entry → Entry → Bool
beats e b = ltb b.1 e.1 || (e.1 == b.1 && bytes_lt e.0 b.0)

abbrev same_entry : Entry → Entry → Bool
same_entry a b = a.0 == b.0 && a.1 == b.1

more_common_lem : (e b : Entry) → more_common e b ≡ (if beats e b then e else b)
unfolding more_common
more_common_lem e b = refl

beats_total : (a b : Entry) → beats a b ≡ false → beats b a ≡ false → a ≡ b
beats_total a b h k = ground (arith, bytes_lt_total a.0 b.0)

beats_asym : (a b : Entry) → beats a b ≡ true → beats b a ≡ false
beats_asym a b h = ground (arith, bytes_lt_asym a.0 b.0)

beats_trans : (a b c : Entry) → beats b a ≡ false → beats c b ≡ false → beats c a ≡ false
beats_trans a b c h k = ground (arith, bytes_lt_trans a.0 b.0 c.0)

same_entry_refl : (a : Entry) → same_entry a a ≡ true
same_entry_refl a = ground (arith, (bytes_eq_iff a.0 a.0).1 refl)

same_entry_iff : (a b : Entry) → same_entry a b ≡ true → a ≡ b
same_entry_iff a b h = ground (arith, bytes_eq_iff a.0 b.0)

-- What does not beat the old one does not beat the better one.
better_after : (x e b : Entry) → beats x b ≡ false → beats x (more_common e b) ≡ false
better_after x e b h = rw (more_common_lem e b) (elim (Bool-cases (beats e b)) [
  | inl c ↦ rw c (beats_trans e b x (beats_asym e b c) h)
  | inr c ↦ rw c h
])

better_self : (e b : Entry) → beats e (more_common e b) ≡ false
better_self e b = rw (more_common_lem e b) (elim (Bool-cases (beats e b)) [
  | inl c ↦ rw c (ground (arith, bytes_lt_asym e.0 e.0))
  | inr c ↦ rw c c
])

better_old : (e b : Entry) → beats b (more_common e b) ≡ false
better_old e b = rw (more_common_lem e b) (elim (Bool-cases (beats e b)) [
  | inl c ↦ rw c (ground (arith, bytes_lt_asym e.0 b.0))
  | inr c ↦ rw c (ground (arith, bytes_lt_asym b.0 b.0))
])

keeps :
    (x b : Entry) (es : List Entry) → beats x b ≡ false → beats x (most_common_from b es) ≡ false
unfolding most_common_from
keeps x b [] h = h
keeps x b (e ∷ es) h = keeps x (more_common e b) es (better_after x e b h)

-- Nothing in the list beats the outcome.
unbeaten : (b : Entry) (es : List Entry) → All (λ x. beats x (most_common_from b es) ≡ false) es
unfolding most_common_from
unbeaten b [] = tt
unbeaten b (e ∷ es) =
    (keeps e (more_common e b) es (better_self e b), unbeaten (more_common e b) es)

attained :
    (b : Entry) (es : List Entry)
    → (most_common_from b es ≡ b) ⊎ (1 ≤ count_by (same_entry (most_common_from b es)) es)
unfolding most_common_from
attained b [] = inl refl
attained b (e ∷ es) = elim (attained (more_common e b) es) [
  | inr q ↦ inr (omega arith)
  | inl q ↦ elim (Bool-cases (beats e b)) [
    | inr c ↦ inl (q ∙ (rw (more_common_lem e b, c) refl))
    | inl c ↦
        let is_e : most_common_from (more_common e b) es ≡ e =
          q ∙ (rw (more_common_lem e b, c) refl) in
        let here = subst (λ x. same_entry x e ≡ true) (sym is_e) (same_entry_refl e) in
        inr (ground (arith, here))
  ]
]

-- An entry that is in the list does not beat what nothing in the list beats.
counted :
    (r s : Entry) (es : List Entry)
    → 1 ≤ count_by (same_entry r) es
    → All (λ x. beats x s ≡ false) es
    → beats r s ≡ false
counted r s [] h a = absurd (omega arith)
counted r s (e ∷ es) h a = elim (Bool-cases (same_entry r e)) [
  | inl c ↦ subst (λ x. beats x s ≡ false) (sym (same_entry_iff r e c)) a.0
  | inr c ↦ counted r s es (ground (arith, h, c)) a.1
]

abbrev SameEntries : List Entry → List Entry → Type 0
SameEntries es fs = (p : Entry → Bool) → count_by p es ≡ count_by p fs

half :
    (b : Entry) (es fs : List Entry)
    → SameEntries es fs
    → beats (most_common_from b es) (most_common_from b fs) ≡ false
half b es fs h =
    let r = most_common_from b es in
    elim (attained b es) [
      | inl e ↦
          subst (λ x. beats x (most_common_from b fs) ≡ false) (sym e)
            (keeps b b fs (ground (arith, bytes_lt_asym b.0 b.0)))
      | inr q ↦
          counted r (most_common_from b fs) fs (omega (arith, h (same_entry r))) (unbeaten b fs)
    ]

-- The outcome is the same for two lists that have the same entries, each as often, in whatever order:
-- the order in which Go walks through the map of counts makes no difference.
pub most_common_key_perm :
    (es fs : List (Bytes × ℕ))
    → ((p : Bytes × ℕ → Bool) → count_by p es ≡ count_by p fs)
    → most_common_key es ≡ most_common_key fs
unfolding most_common_key
most_common_key_perm es fs h =
    beats_total (most_common_from ([], 0) es) (most_common_from ([], 0) fs) (half ([], 0) es fs h)
      (half ([], 0) fs es (λ p. sym (h p)))

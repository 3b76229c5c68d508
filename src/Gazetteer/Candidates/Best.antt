-- ===== src/Gazetteer/Candidates/Best.antt =====
-- server/internal/gazetteer/gazetteer.go: which candidate `Resolve` takes.
use mathlib.Core.List.{append_assoc, append-nil}
use check_in.Prelude.{
  ◌≡◌, refl, ap, sym, subst, ◌∙◌, true, false, Option, none, some, List, [], ◌∷◌, ◌++◌, arith, ℤ,
  pos, negsuc, Bool-cases, inl, inr, comparable_nat,
}
use check_in.Slice.{Bytes}
use check_in.Sorting.{All, All-append, All-imp, append_snoc}
use check_in.Db.Events.{Texts}
use check_in.Gazetteer.Candidates.{
  Index, Candidate, int_lt, most_populous, candidates, pick, resolve,
}

-- A candidate that is more populous than those before it, and that none behind it exceeds.
pub record IsBest (cs : List Candidate) (best : Candidate) : Type 0 where
  pub before : List Candidate
  pub after : List Candidate
  pub parts : cs ≡ before ++ best ∷ after
  pub first : All (λ c. int_lt c.population best.population ≡ true) before
  pub largest : All (λ c. int_lt best.population c.population ≡ false) after

int_lt_trans : (a b c : ℤ) → int_lt b a ≡ false → int_lt b c ≡ true → int_lt a c ≡ true
int_lt_trans (pos a) (pos b) (pos c) h k = ground arith
int_lt_trans (pos a) (pos b) (negsuc c) h k = ground arith
int_lt_trans (pos a) (negsuc b) c h k = ground arith
int_lt_trans (negsuc a) (pos b) (pos c) h k = ground arith
int_lt_trans (negsuc a) (pos b) (negsuc c) h k = ground arith
int_lt_trans (negsuc a) (negsuc b) (pos c) h k = ground arith
int_lt_trans (negsuc a) (negsuc b) (negsuc c) h k = ground arith

int_lt_asym : (a b : ℤ) → int_lt a b ≡ true → int_lt b a ≡ false
int_lt_asym (pos a) (pos b) h = ground arith
int_lt_asym (pos a) (negsuc b) h = ground (arith, h)
int_lt_asym (negsuc a) (pos b) h = refl
int_lt_asym (negsuc a) (negsuc b) h = ground arith

-- A candidate that is more populous than the best of those seen becomes the best.
IsBest-next :
    (seen : List Candidate) (best c : Candidate)
    → IsBest seen best
    → int_lt best.population c.population ≡ true
    → IsBest (seen ++ c ∷ []) c
IsBest-next seen best c h less = record {
  before = seen;
  after = [];
  parts = refl;
  first = subst (All (λ x. int_lt x.population c.population ≡ true)) (sym h.parts) (
      All-append (λ x. int_lt x.population c.population ≡ true) h.before (best ∷ h.after)
        (All-imp (λ x. int_lt x.population best.population ≡ true)
          (λ x. int_lt x.population c.population ≡ true) h.before
          (λ x k.
            int_lt_trans x.population best.population c.population
              (int_lt_asym x.population best.population k) less)
          h.first)
        (
          less,
          All-imp (λ x. int_lt best.population x.population ≡ false)
              (λ x. int_lt x.population c.population ≡ true) h.after
              (λ x k. int_lt_trans x.population best.population c.population k less) h.largest,
        ));
  largest = tt;
}

IsBest-same :
    (seen : List Candidate) (best c : Candidate)
    → IsBest seen best
    → int_lt best.population c.population ≡ false
    → IsBest (seen ++ c ∷ []) best
IsBest-same seen best c h more = record {
  before = h.before;
  after = h.after ++ c ∷ [];
  parts = ap (λ xs. xs ++ c ∷ []) h.parts ∙ append_assoc h.before (best ∷ h.after) (c ∷ []);
  first = h.first;
  largest =
      All-append (λ x. int_lt best.population x.population ≡ false) h.after (c ∷ []) h.largest
        (more, tt);
}

most_populous-IsBest :
    (best : Candidate) (seen cs : List Candidate)
    → IsBest seen best
    → IsBest (seen ++ cs) (most_populous best cs)
unfolding most_populous
most_populous-IsBest best seen [] h = subst (λ z. IsBest z best) (sym (append-nil seen)) h
most_populous-IsBest best seen (c ∷ cs) h =
    elim (Bool-cases (int_lt best.population c.population)) [
      | inl less ↦ rw less (
          subst (λ z. IsBest z (most_populous c cs)) (append_snoc seen c cs)
            (most_populous-IsBest c (seen ++ c ∷ []) cs (IsBest-next seen best c h less)))
      | inr more ↦ rw more (
          subst (λ z. IsBest z (most_populous best cs)) (append_snoc seen c cs)
            (most_populous-IsBest best (seen ++ c ∷ []) cs (IsBest-same seen best c h more)))
    ]

-- What `resolve` answers: nothing where there is no candidate, and else where the best one is.
abbrev pub Resolved : List Candidate → Option (ℤ × ℤ) → Type 0
Resolved cs none = cs ≡ []
Resolved cs (some at) = (best : Candidate) × IsBest cs best × (at ≡ (best.lat, best.lng))

pick-Resolved : (cs : List Candidate) → Resolved cs (pick cs)
unfolding pick
pick-Resolved [] = refl
pick-Resolved (c ∷ cs) = (
  most_populous c cs,
  most_populous-IsBest c (c ∷ []) cs
      (record { before = []; after = []; parts = refl; first = tt; largest = tt }),
  refl,
)

-- Where a location has a candidate, `resolve` answers the coordinates of one that is more populous than
-- every candidate before it and no less populous than any behind it; it answers nothing only where there
-- is no candidate.
pub resolve-Resolved :
    (tx : Texts) (idx : Index) (location : Bytes)
    → Resolved (candidates tx idx location) (resolve tx idx location)
unfolding resolve
resolve-Resolved tx idx location = pick-Resolved (candidates tx idx location)

-- ===== src/Db/RecapSelect/Awards/Titles.antt =====
-- server/internal/db/recap_select.go: a title is the award that its bearer ranks best in.
use Prim.Native.String.{String}
use check_in.Prelude.{
  ◌⊎◌, subst, sym, ℕ, ◌≤◌, ◌≡◌, refl, ap, ◌∙◌, inl, inr, Bool-cases, Option-cases, Option, none,
  some, List, [], ◌∷◌, ltb, ◌==◌, if◌then◌else◌, comparable_nat, comparable_text, arith,
}
use check_in.Sorting.{All, count_by}
use check_in.Db.RecapSelect.Awards.Places.{is_user, place_in, AreDistinct, rank_of-place_in}
use check_in.Db.RecapSelect.Awards.{
  AwardCandidate, AwardType, award_order, Rankings, award_rankings, rank_of, better, best_award,
  bestow_one, bestow, best_award_per_member,
}

-- The best award so far is as good as the rank.
abbrev AtMost : Option (String × ℕ) → Option ℕ → Type 0
AtMost best none = Unit
AtMost none (some r) = ⊥
AtMost (some (id, s)) (some r) = s ≤ r

-- One of the entries of a list has a property.
abbrev pub OneOf {ℓ} : {A : Type ℓ} → (A → Type 0) → List A → Type 0
OneOf P [] = ⊥
OneOf P (x ∷ xs) = P x ⊎ OneOf P xs

-- It is the rank of the member in an award of the list.
abbrev IsHeld : Rankings → ℕ → String × ℕ → AwardType → Type 0
IsHeld m user best at = (at.id ≡ best.0) × (rank_of m at.id user ≡ some best.1)

abbrev Held : Rankings → ℕ → List AwardType → Option (String × ℕ) → Type 0
Held m user ats none = Unit
Held m user ats (some best) = OneOf (IsHeld m user best) ats

Held-cons :
    (m : Rankings) (user : ℕ) (at : AwardType) (ats : List AwardType) (best : Option (String × ℕ))
    → Held m user ats best
    → Held m user (at ∷ ats) best
Held-cons m user at ats none h = tt
Held-cons m user at ats (some b) h = inr h

better-AtMost :
    (best : Option (String × ℕ)) (id : String) (o : Option ℕ) → AtMost (better best id o) o
unfolding better
better-AtMost best id none = tt
better-AtMost none id (some r) = omega arith
better-AtMost (some (b, s)) id (some r) = elim (Bool-cases (ltb r s)) [
  | inl f ↦ rw f (omega arith)
  | inr f ↦ rw f (ground arith)
]

better-AtMost_keeps :
    (best : Option (String × ℕ)) (id : String) (o p : Option ℕ)
    → AtMost best p
    → AtMost (better best id o) p
unfolding better
better-AtMost_keeps best id o none h = tt
better-AtMost_keeps best id none (some q) h = h
better-AtMost_keeps none id (some r) (some q) h = elim h [ ]
better-AtMost_keeps (some (b, s)) id (some r) (some q) h = elim (Bool-cases (ltb r s)) [
  | inl f ↦ rw f (ground arith)
  | inr f ↦ rw f h
]

better_cases :
    (best : Option (String × ℕ)) (id : String) (o : Option ℕ)
    → (better best id o ≡ best) ⊎ ((r : ℕ) × ((o ≡ some r) × (better best id o ≡ some (id, r))))
unfolding better
better_cases best id none = inl refl
better_cases none id (some r) = inr (r, (refl, refl))
better_cases (some (b, s)) id (some r) = elim (Bool-cases (ltb r s)) [
  | inl f ↦ inr (r, (refl, rw f refl))
  | inr f ↦ inl (rw f refl)
]

module _ (m : Rankings) (user : ℕ) where
  -- What comes of some awards is the best one before, or the rank in one of them.
  best_award-Held :
      (best : Option (String × ℕ)) (ats : List AwardType)
      → (best_award m user best ats ≡ best) ⊎ Held m user ats (best_award m user best ats)
  unfolding best_award
  best_award-Held best [] = inl refl
  best_award-Held best (at ∷ ats) =
      let next = better best at.id (rank_of m at.id user) in
      elim (best_award-Held next ats) [
        | inr h ↦ inr (Held-cons m user at ats (best_award m user next ats) h)
        | inl e ↦ elim (better_cases best at.id (rank_of m at.id user)) [
          | inl f ↦ inl (e ∙ f)
          | inr (r, f) ↦ inr (subst (Held m user (at ∷ ats)) (sym (e ∙ f.1)) (inl (refl, f.0)))
        ]
      ]

  best_award-AtMost_keeps :
      (best : Option (String × ℕ)) (ats : List AwardType) (p : Option ℕ)
      → AtMost best p
      → AtMost (best_award m user best ats) p
  unfolding best_award
  best_award-AtMost_keeps best [] p h = h
  best_award-AtMost_keeps best (at ∷ ats) p h =
      best_award-AtMost_keeps (better best at.id (rank_of m at.id user)) ats p
        (better-AtMost_keeps best at.id (rank_of m at.id user) p h)

  best_award-AtMost :
      (best : Option (String × ℕ)) (ats : List AwardType)
      → All (λ at. AtMost (best_award m user best ats) (rank_of m at.id user)) ats
  unfolding best_award
  best_award-AtMost best [] = tt
  best_award-AtMost best (at ∷ ats) =
      let next = better best at.id (rank_of m at.id user) in
      (
        best_award-AtMost_keeps next ats (rank_of m at.id user)
            (better-AtMost best at.id (rank_of m at.id user)),
        best_award-AtMost next ats,
      )

abbrev title_of : Option (String × ℕ) → Option String → Option String
title_of none o = o
title_of (some (id, r)) o = some id

title_of_twice :
    (best : Option (String × ℕ)) (o : Option String)
    → title_of best (title_of best o) ≡ title_of best o
title_of_twice none o = refl
title_of_twice (some (id, r)) o = refl

bestow_one_lem :
    (out : ℕ → Option String) (user : ℕ) (best : Option (String × ℕ)) (u : ℕ)
    → bestow_one out user best u ≡ (if user == u then title_of best (out u) else out u)
unfolding bestow_one
bestow_one_lem out user none u = ground arith
bestow_one_lem out user (some (id, r)) u = refl

module _ (m : Rankings) (ats : List AwardType) (u : ℕ) where
  -- what the round of one member leaves for the user
  one_round :
      (out : ℕ → Option String) (user : ℕ)
      → bestow_one out user (best_award m user none ats) u
        ≡ (if user == u then title_of (best_award m u none ats) (out u) else out u)
  one_round out user = elim (Bool-cases (user == u)) [
    | inl e ↦
        let q : user ≡ u = ground arith in
        bestow_one_lem out user (best_award m user none ats) u
        ∙ ap (λ x. if user == u then title_of (best_award m x none ats) (out u) else out u) q
    | inr e ↦ bestow_one_lem out user (best_award m user none ats) u ∙ (rw e refl)
  ]

  -- The map has the best award of every user in the list, and what it had of every other.
  bestow_lem :
      (out : ℕ → Option String) (cs : List AwardCandidate)
      → bestow m ats out cs u ≡ (
          if ltb 0 (count_by (is_user u) cs)
          then title_of (best_award m u none ats) (out u)
          else out u)
  unfolding bestow
  bestow_lem out [] = ground arith
  bestow_lem out (c ∷ cs) = ground (
    arith,
    bestow_lem (bestow_one out c.user_id (best_award m c.user_id none ats)) cs,
    one_round out c.user_id,
    title_of_twice (best_award m u none ats) (out u),
  )

-- The rank is at least the other one, if there is one.
abbrev pub NoneBelow : ℕ → Option ℕ → Type 0
NoneBelow r none = Unit
NoneBelow r (some s) = r ≤ s

-- The member has a place, and in no award a better one.
abbrev pub BestPlace : List AwardCandidate → ℕ → Option ℕ → Type 0
BestPlace cs u none = ⊥
BestPlace cs u (some r) = All (λ at. NoneBelow r (place_in at cs u)) award_order

-- The title is of an award in which the member has a place, and no better one in another; if there is
-- no title, the member has a place in none.
abbrev pub IsBest : List AwardCandidate → ℕ → Option String → Type 0
IsBest cs u none = All (λ at. place_in at cs u ≡ none) award_order
IsBest cs u (some id) = OneOf (λ at. (at.id ≡ id) × BestPlace cs u (place_in at cs u)) award_order

-- What a rank says of a place, where ranks are places.
module _ (m : Rankings) (cs : List AwardCandidate) (u : ℕ) where
  abbrev IsPlace : AwardType → Type 0
  IsPlace at = rank_of m at.id u ≡ place_in at cs u

  none_placed :
      (ats : List AwardType)
      → All IsPlace ats
      → All (λ at. AtMost none (rank_of m at.id u)) ats
      → All (λ at. place_in at cs u ≡ none) ats
  none_placed [] p h = tt
  none_placed (at ∷ ats) p h = elim (Option-cases (rank_of m at.id u)) [
    | inl e ↦ (sym p.0 ∙ e, none_placed ats p.1 h.1)
    | inr (r, e) ↦ absurd (subst (AtMost none) e h.0)
  ]

  not_beaten :
      (id : String) (r : ℕ) (ats : List AwardType)
      → All IsPlace ats
      → All (λ at. AtMost (some (id, r)) (rank_of m at.id u)) ats
      → All (λ at. NoneBelow r (place_in at cs u)) ats
  not_beaten id r [] p h = tt
  not_beaten id r (at ∷ ats) p h = elim (Option-cases (rank_of m at.id u)) [
    | inl e ↦ (subst (NoneBelow r) (sym e ∙ p.0) tt, not_beaten id r ats p.1 h.1)
    | inr (s, e) ↦ (
      subst (NoneBelow r) (sym e ∙ p.0) (subst (AtMost (some (id, r))) e h.0),
      not_beaten id r ats p.1 h.1,
    )
  ]

  best_placed :
      (id : String) (r : ℕ) (ats : List AwardType)
      → All IsPlace ats
      → All (λ at. NoneBelow r (place_in at cs u)) award_order
      → OneOf (IsHeld m u (id, r)) ats
      → OneOf (λ at. (at.id ≡ id) × BestPlace cs u (place_in at cs u)) ats
  best_placed id r [] p h o = elim o [ ]
  best_placed id r (at ∷ ats) p h (inl held) =
      inl (held.0, subst (BestPlace cs u) (sym held.1 ∙ p.0) h)
  best_placed id r (at ∷ ats) p h (inr o) = inr (best_placed id r ats p.1 h o)

  title-IsBest :
      (best : Option (String × ℕ))
      → All IsPlace award_order
      → Held m u award_order best
      → All (λ at. AtMost best (rank_of m at.id u)) award_order
      → IsBest cs u (title_of best none)
  title-IsBest none p h k = none_placed award_order p k
  title-IsBest (some (id, r)) p h k =
      best_placed id r award_order p (not_beaten id r award_order p k) h

if_seen : (n : ℕ) (x y : Option String) → 1 ≤ n → (if ltb 0 n then x else y) ≡ x
if_seen n x y h = ground arith

Held-of :
    (m : Rankings) (u : ℕ) (best : Option (String × ℕ)) (ats : List AwardType)
    → (best ≡ none) ⊎ Held m u ats best
    → Held m u ats best
Held-of m u best ats (inl e) = subst (Held m u ats) (sym e) tt
Held-of m u best ats (inr h) = h

bestow-IsBest :
    (m : Rankings) (cs : List AwardCandidate) (u : ℕ)
    → All (λ at. rank_of m at.id u ≡ place_in at cs u) award_order
    → 1 ≤ count_by (is_user u) cs
    → IsBest cs u (bestow m award_order (λ _. none) cs u)
bestow-IsBest m cs u p h =
    let best : Option (String × ℕ) = best_award m u none award_order in
    let seen = if_seen (count_by (is_user u) cs) (title_of best none) none h in
    subst (IsBest cs u) (sym (bestow_lem m award_order u (λ _. none) cs ∙ seen)) (
      title-IsBest m cs u best p
        (Held-of m u best award_order (best_award-Held m u none award_order))
        (best_award-AtMost m u none award_order))

-- Of candidates of distinct members, each gets as its title an award in which its entry qualifies, and in
-- which fewer qualifying entries beat its own, or as few, as in any other award in which it qualifies; and no
-- title if none of its entries qualifies. An entry beats another by a greater value, or by the smaller id of
-- its member where the values tie.
pub best_award_per_member-IsBest :
    (cs : List AwardCandidate) (u : ℕ)
    → AreDistinct cs
    → 1 ≤ count_by (is_user u) cs
    → IsBest cs u (best_award_per_member cs u)
unfolding best_award_per_member
best_award_per_member-IsBest [] u d h = absurd (omega arith)
best_award_per_member-IsBest (c ∷ cs) u d h =
    bestow-IsBest (award_rankings (c ∷ cs)) (c ∷ cs) u (rank_of-place_in (c ∷ cs) u d) h

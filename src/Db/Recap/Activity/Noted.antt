-- ===== src/Db/Recap/Activity/Noted.antt =====
-- server/internal/db/recap.go: what is noted of a member is what is noted of the member's own posts.
use check_in.Prelude.{
  ℕ, ◌≤◌, ◌≡◌, refl, ap, sym, Bool, true, false, Option, none, some, List, [], ◌∷◌, ◌==◌,
  if◌then◌else◌, max, arith, comparable_nat, comparable_text, Bool-cases, Option-cases, inl, inr,
}
use check_in.Maps.{lookup, upsert}
use check_in.Sorting.{keep_if}
use check_in.Db.RecapSelect.{RecapCandidate}
use check_in.Db.RecapSelect.Passes.{by_author}
use check_in.Db.Recap.Activity.{
  MemberActivity, keep_best, note_post, Activities, noted, add_activity, add_activities,
}

pub lookup-upsert :
    (k j : ℕ) (f : Option MemberActivity → MemberActivity) (m : Activities)
    → lookup k (upsert j f m) ≡ (if j == k then some (f (lookup j m)) else lookup k m)
lookup-upsert k j f [] = ground arith
lookup-upsert k j f ((i, v) ∷ m) = ground (arith, lookup-upsert k j f m)

-- One member's posts, noted one after the other.
abbrev pub note_posts : MemberActivity → List RecapCandidate → MemberActivity
note_posts a [] = a
note_posts a (c ∷ cs) = note_posts (note_post c a) cs

abbrev pub noted_posts : Option MemberActivity → List RecapCandidate → Option MemberActivity
noted_posts none cs = none
noted_posts (some a) cs = some (note_posts a cs)

add_activity-lookup :
    (agg : Activities) (c : RecapCandidate) (id : ℕ)
    → lookup id (add_activity agg c)
      ≡ (if by_author id c then noted_posts (lookup id agg) (c ∷ []) else lookup id agg)
unfolding add_activity
add_activity-lookup agg c id = elim (Option-cases (lookup c.author_id agg)) [
  | inl e ↦ ground (arith, e)
  | inr (a, e) ↦ ground (arith, e, lookup-upsert id c.author_id (noted c) agg)
]

noted_posts_nil : (o : Option MemberActivity) → noted_posts o [] ≡ o
noted_posts_nil none = refl
noted_posts_nil (some a) = refl

noted_posts_cons :
    (o : Option MemberActivity) (c : RecapCandidate) (cs : List RecapCandidate)
    → noted_posts (noted_posts o (c ∷ [])) cs ≡ noted_posts o (c ∷ cs)
noted_posts_cons none c cs = refl
noted_posts_cons (some a) c cs = refl

pub add_activities-lookup :
    (agg : Activities) (cs : List RecapCandidate) (id : ℕ)
    → lookup id (add_activities agg cs) ≡ noted_posts (lookup id agg) (keep_if (by_author id) cs)
unfolding add_activities
add_activities-lookup agg [] id = sym (noted_posts_nil (lookup id agg))
add_activities-lookup agg (c ∷ cs) id = elim (Bool-cases (by_author id c)) [
  | inl e ↦ ground (
    arith,
    e,
    add_activities-lookup (add_activity agg c) cs id,
    add_activity-lookup agg c id,
    noted_posts_cons (lookup id agg) c (keep_if (by_author id) cs),
  )
  | inr e ↦
      ground
        (arith, e, add_activities-lookup (add_activity agg c) cs id, add_activity-lookup agg c id)
]

-- The greatest value of a number over posts; 0 where there is none.
abbrev pub max_by : (RecapCandidate → ℕ) → List RecapCandidate → ℕ
max_by f [] = 0
max_by f (c ∷ cs) = max (f c) (max_by f cs)

abbrev pub value_of : (RecapCandidate → ℕ) → Option RecapCandidate → ℕ
value_of f none = 0
value_of f (some c) = f c

keep_best-value :
    (f : RecapCandidate → ℕ) (wins : RecapCandidate → RecapCandidate → Bool)
    (o : Option RecapCandidate) (c : RecapCandidate)
    → ((a b : RecapCandidate) → wins a b ≡ true → f b ≤ f a)
    → ((a b : RecapCandidate) → wins a b ≡ false → f a ≤ f b)
    → value_of f (keep_best o c wins) ≡ max (value_of f o) (f c)
unfolding keep_best
keep_best-value f wins none c h k = omega arith
keep_best-value f wins (some best) c h k = elim (Bool-cases (wins c best)) [
  | inl e ↦ rw e (omega (arith, h c best e))
  | inr e ↦ rw e (omega (arith, k c best e))
]

-- What noting posts does to one of the best posts.
module _ (f : RecapCandidate → ℕ) (wins : RecapCandidate → RecapCandidate → Bool)
    (field : MemberActivity → Option RecapCandidate)
    (noting : (c : RecapCandidate) (a : MemberActivity)
      → field (note_post c a) ≡ keep_best (field a) c wins)
    (higher : (a b : RecapCandidate) → wins a b ≡ true → f b ≤ f a)
    (lower : (a b : RecapCandidate) → wins a b ≡ false → f a ≤ f b) where
  pub note_posts-value :
      (a : MemberActivity) (cs : List RecapCandidate)
      → value_of f (field (note_posts a cs)) ≡ max (value_of f (field a)) (max_by f cs)
  note_posts-value a [] = omega arith
  note_posts-value a (c ∷ cs) = omega (
    arith,
    note_posts-value (note_post c a) cs,
    ap (value_of f) (noting c a),
    keep_best-value f wins (field a) c higher lower,
  )

-- ===== src/Db/Recap/Activity/Mean.antt =====
-- server/internal/db/recap.go: the mean of posts, over the members who posted.
use mathlib.Core.List.{append-nil}
use check_in.Prelude.{
  subst, ℕ, ◌≤◌, ◌≡◌, refl, ap, ap₂, ◌∙◌, sym, Bool, Option, none, some, List, [], ◌∷◌, ◌++◌, ltb,
  ◌==◌, if◌then◌else◌, length, arith, comparable_nat, Bool-cases, inl, inr,
}
use check_in.Maps.{lookup, upsert}
use check_in.Sorting.{count_by, count_by-append, keep_if, sum_by, append_snoc}
use check_in.Db.RecapSelect.{RecapCandidate}
use check_in.Db.RecapSelect.Passes.{by_author}
use check_in.Db.Recap.Activity.{
  RecapMember, MemberActivity, no_activity, note_post, Activities, with_members, noted,
  add_activity, add_activities, aggregate_member_activity, average_post_count,
}
use check_in.Db.Recap.Activity.Noted.{note_posts}
use check_in.Db.Recap.Activity.Judged.{posts_noted}

abbrev pub of_member : ℕ → RecapMember → Bool
of_member id m = m.id == id

-- How many of some posts a member wrote.
abbrev pub posts_of : List RecapCandidate → RecapMember → ℕ
posts_of posts m = count_by (by_author m.id) posts

-- The mean as a fraction: all posts of the members, and the members who wrote one at least.
abbrev pub mean_of : List RecapMember → List RecapCandidate → ℕ × ℕ
mean_of members posts =
    (sum_by (posts_of posts) members, count_by (λ m. ltb 0 (posts_of posts m)) members)

-- The members in their order, each with an activity that depends on the id.
abbrev entries : (ℕ → MemberActivity) → List RecapMember → Activities
entries f [] = []
entries f (m ∷ members) = (m.id, f m.id) ∷ entries f members

entries_same :
    (f g : ℕ → MemberActivity) (members : List RecapMember)
    → ((id : ℕ) → f id ≡ g id)
    → entries f members ≡ entries g members
entries_same f g [] h = refl
entries_same f g (m ∷ members) h =
    ap₂ (λ (a : MemberActivity) es. (m.id, a) ∷ es) (h m.id) (entries_same f g members h)

-- The activity of one member changed.
abbrev change : ℕ → MemberActivity → (ℕ → MemberActivity) → ℕ → MemberActivity
change id a f j = if id == j then a else f j

entries_other :
    (id : ℕ) (a : MemberActivity) (f : ℕ → MemberActivity) (members : List RecapMember)
    → count_by (of_member id) members ≡ 0
    → entries (change id a f) members ≡ entries f members
entries_other id a f [] h = refl
entries_other id a f (m ∷ members) h =
    ground (arith, h, entries_other id a f members (ground (arith, h)))

upsert-entries :
    (id : ℕ) (g : Option MemberActivity → MemberActivity) (f : ℕ → MemberActivity)
    (members : List RecapMember)
    → count_by (of_member id) members ≡ 1
    → upsert id g (entries f members) ≡ entries (change id (g (some (f id))) f) members
upsert-entries id g f [] h = absurd (omega arith)
upsert-entries id g f (m ∷ members) h = elim (Bool-cases (m.id == id)) [
  | inl e ↦
      let same : m.id ≡ id = ground (arith, e) in
      ground (
        arith,
        e,
        same,
        ap f same,
        entries_other id (g (some (f id))) f members (ground (arith, h, e)),
      )
  | inr e ↦ ground (arith, e, upsert-entries id g f members (ground (arith, h, e)))
]

upsert_new :
    (id : ℕ) (g : Option MemberActivity → MemberActivity) (f : ℕ → MemberActivity)
    (members : List RecapMember)
    → count_by (of_member id) members ≡ 0
    → upsert id g (entries f members) ≡ entries f members ++ (id, g none) ∷ []
upsert_new id g f [] h = refl
upsert_new id g f (m ∷ members) h = ground (arith, h, upsert_new id g f members (ground (arith, h)))

lookup-entries :
    (id : ℕ) (f : ℕ → MemberActivity) (members : List RecapMember)
    → lookup id (entries f members)
      ≡ (if ltb 0 (count_by (of_member id) members) then some (f id) else none)
lookup-entries id f [] = refl
lookup-entries id f (m ∷ members) = elim (Bool-cases (m.id == id)) [
  | inl e ↦ let same : m.id ≡ id = ground (arith, e) in ground (arith, e, ap f same)
  | inr e ↦ ground (arith, e, lookup-entries id f members)
]

append-entries :
    (f : ℕ → MemberActivity) (done : List RecapMember) (m : RecapMember)
    → entries f done ++ (m.id, f m.id) ∷ [] ≡ entries f (done ++ m ∷ [])
append-entries f [] m = refl
append-entries f (d ∷ done) m = ap (λ es. (d.id, f d.id) ∷ es) (append-entries f done m)

-- No two members have one id.
abbrev pub AreDistinct : List RecapMember → Type 0
AreDistinct members = (id : ℕ) → count_by (of_member id) members ≤ 1

abbrev nothing_yet : ℕ → MemberActivity
nothing_yet id = no_activity

with_members-entries :
    (done members : List RecapMember)
    → AreDistinct (done ++ members)
    → with_members members (entries nothing_yet done) ≡ entries nothing_yet (done ++ members)
unfolding with_members
with_members-entries done [] h = ap (entries nothing_yet) (sym (append-nil done))
with_members-entries done (m ∷ members) h =
    let new : count_by (of_member m.id) done ≡ 0 =
      ground (arith, h m.id, count_by-append (of_member m.id) done (m ∷ members)) in
    ap (with_members members)
      (upsert_new m.id (λ _. no_activity) nothing_yet done new ∙ append-entries nothing_yet done m)
    ∙ with_members-entries (done ++ m ∷ []) members (λ id.
      subst (λ ms. count_by (of_member id) ms ≤ 1) (sym (append_snoc done m members)) (h id))
    ∙ ap (entries nothing_yet) (append_snoc done m members)

abbrev stepped : RecapCandidate → (ℕ → MemberActivity) → ℕ → MemberActivity
stepped c f j = if c.author_id == j then note_post c (f j) else f j

changed_stepped :
    (c : RecapCandidate) (f : ℕ → MemberActivity) (j : ℕ)
    → change c.author_id (note_post c (f c.author_id)) f j ≡ stepped c f j
changed_stepped c f j = elim (Bool-cases (c.author_id == j)) [
  | inl e ↦
      let same : c.author_id ≡ j = ground (arith, e) in rw e (ap (λ i. note_post c (f i)) same)
  | inr e ↦ rw e refl
]

add_activity-entries :
    (c : RecapCandidate) (f : ℕ → MemberActivity) (members : List RecapMember)
    → AreDistinct members
    → add_activity (entries f members) c ≡ entries (stepped c f) members
unfolding add_activity
add_activity-entries c f members h =
    let id = c.author_id in
    let changed =
      entries_same (change id (note_post c (f id)) f) (stepped c f) members (changed_stepped c f) in
    let found = lookup-entries id f members in
    elim (Bool-cases (ltb 0 (count_by (of_member id) members))) [
      | inl e ↦
          rw (found, add_activity, e)
            (upsert-entries id (noted c) f members (ground (arith, h id, e)) ∙ changed)
      | inr e ↦
          rw (found, add_activity, e)
            (sym (entries_other id (note_post c (f id)) f members (ground (arith, e))) ∙ changed)
    ]

add_activities-entries :
    (f : ℕ → MemberActivity) (members : List RecapMember) (cs : List RecapCandidate)
    → AreDistinct members
    → add_activities (entries f members) cs
      ≡ entries (λ j. note_posts (f j) (keep_if (by_author j) cs)) members
unfolding add_activities
add_activities-entries f members [] h = refl
add_activities-entries f members (c ∷ cs) h =
    ap (λ es. add_activities es cs) (add_activity-entries c f members h)
    ∙ add_activities-entries (stepped c f) members cs h
    ∙ entries_same (λ j. note_posts (stepped c f j) (keep_if (by_author j) cs))
        (λ j. note_posts (f j) (keep_if (by_author j) (c ∷ cs))) members
        (λ j. elim (Bool-cases (c.author_id == j)) [ inl e ↦ rw e refl | inr e ↦ rw e refl ])

length-keep_if {ℓ} :
    {A : Type ℓ} (p : A → Bool) (xs : List A) → length (keep_if p xs) ≡ count_by p xs
length-keep_if p [] = refl
length-keep_if p (x ∷ xs) = ground (arith, length-keep_if p xs)

average-entries :
    (members : List RecapMember) (cs : List RecapCandidate)
    → average_post_count (entries (λ j. note_posts no_activity (keep_if (by_author j) cs)) members)
      ≡ mean_of members cs
unfolding average_post_count
average-entries [] cs = refl
average-entries (m ∷ members) cs =
    let own : (note_posts no_activity (keep_if (by_author m.id) cs)).post_count
        ≡ count_by (by_author m.id) cs =
      posts_noted (keep_if (by_author m.id) cs) ∙ length-keep_if (by_author m.id) cs in
    rw (own, average-entries members cs)
      (elim (Bool-cases (ltb 0 (count_by (by_author m.id) cs))) [
        | inl e ↦ rw e (ap₂ (λ (n k : ℕ). (n, k)) (omega arith) (omega arith))
        | inr e ↦ rw e (ap₂ (λ (n k : ℕ). (n, k)) (ground (arith, e)) (omega arith))
      ])

-- The mean that the code computes is over the members who posted.
pub average-mean_of :
    (members : List RecapMember) (cs : List RecapCandidate)
    → AreDistinct members
    → average_post_count (aggregate_member_activity members cs) ≡ mean_of members cs
unfolding aggregate_member_activity
average-mean_of members cs h =
    ap (λ agg. average_post_count (add_activities agg cs)) (with_members-entries [] members h)
    ∙ ap average_post_count (add_activities-entries nothing_yet members cs h)
    ∙ average-entries members cs

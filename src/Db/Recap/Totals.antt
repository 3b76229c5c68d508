-- ===== src/Db/Recap/Totals.antt =====
-- server/internal/db/recap.go: what the people on the cover of a recap add up to.
use check_in.Prelude.{
  ℕ, suc, ◌+◌, ◌≤◌, ◌≡◌, refl, ap, ◌∙◌, Option, none, some, List, [], ◌∷◌, length, arith, Done,
  Done-ok, Done_bind, comparable_nat, inl, inr, Bool-cases, Option-cases,
}
use check_in.Maps.{comparable_bytes, include, contains, contains-count_by}
use check_in.Sorting.{
  All, All-sort_by, sum_by, sum_by-append, sum_by-sort_by, length-sort_by, count_by,
  count_by-append,
}
use check_in.Db.RecapSelect.{RecapCandidate}
use check_in.Db.RecapSelect.People.{
  RecapPerson, Roster, Agg, count_post, count_posts, people_of, recap_people, posts_at, present,
  Sound, is_id, count_post-posts, count_post-Sound, count_posts-Sound, more_posts,
}
use check_in.Db.Recap.{posters_of}

-- What the roster counts, over the authors of a list.
abbrev total : Roster → List ℕ → ℕ
total r ids = sum_by (λ i. posts_at (r.by_id i)) ids

total-count_post :
    (r : Roster) (c : RecapCandidate) (ids : List ℕ)
    → total (count_post r c) ids ≡ total r ids + count_by (is_id c.author_id) ids
total-count_post r c [] = refl
total-count_post r c (i ∷ ids) = ground (arith, total-count_post r c ids, count_post-posts r c i)

count_post-order :
    (r : Roster) (c : RecapCandidate)
    → Sound r
    → (count_post r c).order ≡ include c.author_id r.order
unfolding count_post present
count_post-order r c h = ground (arith, h c.author_id, contains-count_by r.order c.author_id)

count_posts-order :
    (r : Roster) (cs : List RecapCandidate)
    → Sound r
    → (count_posts r cs).order ≡ posters_of r.order cs
unfolding posters_of count_posts
count_posts-order r [] h = refl
count_posts-order r (c ∷ cs) h =
    count_posts-order (count_post r c) cs (count_post-Sound r c h)
    ∙ ap (λ ids. posters_of ids cs) (count_post-order r c h)

total_step :
    (r : Roster) (c : RecapCandidate)
    → Sound r
    → total (count_post r c) (count_post r c).order ≡ suc (total r r.order)
total_step r c h =
    let a = c.author_id in
    let step : total (count_post r c) (count_post r c).order
        ≡ total r (include a r.order) + count_by (is_id a) (include a r.order) =
      rw (← count_post-order r c h) (total-count_post r c (count_post r c).order) in
    elim (Bool-cases (contains r.order a)) [
      | inl e ↦ ground (arith, step, e, h a, contains-count_by r.order a)
      | inr e ↦ ground (
        arith,
        step,
        e,
        h a,
        contains-count_by r.order a,
        sum_by-append (λ i. posts_at (r.by_id i)) r.order (a ∷ []),
        count_by-append (is_id a) r.order (a ∷ []),
      )
    ]

total-count_posts :
    (r : Roster) (cs : List RecapCandidate)
    → Sound r
    → total (count_posts r cs) (count_posts r cs).order ≡ total r r.order + length cs
unfolding count_posts
total-count_posts r [] h = omega arith
total-count_posts r (c ∷ cs) h =
    omega (arith, total-count_posts (count_post r c) cs (count_post-Sound r c h), total_step r c h)

All-members :
    (P : ℕ → Type 0) (ids : List ℕ) → ((i : ℕ) → 1 ≤ count_by (is_id i) ids → P i) → All P ids
All-members P [] h = tt
All-members P (i ∷ ids) h = (
  h i (ground (arith, comparable_nat.same_iff i i)),
  All-members P ids (λ j k. h j (omega (arith, k))),
)

Sound-active :
    (r : Roster) (i : ℕ)
    → Sound r
    → 1 ≤ count_by (is_id i) r.order
    → (a : Agg) × (r.by_id i ≡ some a) × (1 ≤ a.posts)
unfolding posts_at present
Sound-active r i h k = elim (Option-cases (r.by_id i)) [
  | inl e ↦ absurd (ground (arith, e, h i))
  | inr (a, e) ↦ (a, e, ground (arith, e, h i))
]

-- What the people of a roster add up to.
record Sums (m : ℕ → Option Agg) (ids : List ℕ) (people : List RecapPerson) : Type 0 where
  posts : sum_by (λ p. p.posts) people ≡ sum_by (λ i. posts_at (m i)) ids
  number : length people ≡ length ids
  active : All (λ p. 1 ≤ p.posts) people

people_of-Sums :
    (m : ℕ → Option Agg) (ids : List ℕ)
    → All (λ i. (a : Agg) × (m i ≡ some a) × (1 ≤ a.posts)) ids
    → Done (people_of m ids) (Sums m ids)
unfolding people_of posts_at
people_of-Sums m [] h = Done-ok (record { posts = refl; number = refl; active = tt })
people_of-Sums m (i ∷ ids) h =
    rw (h.0.1, people_of)
      (Done_bind (people_of-Sums m ids h.1) (λ people sums. Done-ok (record {
        posts = ground (arith, sums.posts, h.0.1);
        number = omega (arith, sums.number);
        active = (h.0.2, sums.active);
      })))

-- The posts of a period, by the people who made them.
pub record Adds (cs : List RecapCandidate) (people : List RecapPerson) : Type 0 where
  pub posts : sum_by (λ p. p.posts) people ≡ length cs
  pub number : length people ≡ length (posters_of [] cs)
  pub active : All (λ p. 1 ≤ p.posts) people

pub recap_people-Adds : (cs : List RecapCandidate) → Done (recap_people cs) (Adds cs)
unfolding recap_people posts_at present
recap_people-Adds cs =
    let start : Roster = record { order = []; by_id = λ _. none } in
    let sound0 : Sound start = λ a. (refl, refl) in
    let r = count_posts start cs in
    let sound : Sound r = count_posts-Sound start cs sound0 in
    Done_bind
      (people_of-Sums r.by_id r.order (
        All-members (λ i. (a : Agg) × (r.by_id i ≡ some a) × (1 ≤ a.posts)) r.order
          (λ i k. Sound-active r i sound k)))
      (λ people sums. Done-ok (record {
        posts = omega (
          arith,
          sum_by-sort_by more_posts (λ (p : RecapPerson). p.posts) people,
          sums.posts,
          total-count_posts start cs sound0,
        );
        number = omega (
          arith,
          length-sort_by more_posts people,
          sums.number,
          ap length (count_posts-order start cs sound0),
        );
        active = All-sort_by (λ p. 1 ≤ p.posts) more_posts people sums.active;
      }))

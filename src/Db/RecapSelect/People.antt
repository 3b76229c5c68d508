-- ===== src/Db/RecapSelect/People.antt =====
-- server/internal/db/recap_select.go: recapPeople, the roster on the cover.
use Prim.Native.String.{String}
use check_in.Prelude.{
  ℕ, ◌+◌, ◌≤◌, ◌<◌, ◌⊎◌, ◌≡◌, refl, Bool, false, Bool-cases, not, ◌&&◌, inl, inr, Option-cases,
  Option, none, some, List, [], ◌∷◌, ◌++◌, ltb, ◌==◌, if◌then◌else◌, Result, NoError, ok, panic,
  ◌>>=◌, Done, Done-ok, Done_bind, comparable_nat, arith, min,
}
use check_in.Sorting.{
  one_if, count_by, count_by-append, sort_by, count_by-sort_by, IsOrder, Sorted, Ordered-Sorted,
  sort_by-Ordered,
}
use check_in.Db.RecapSelect.{RecapCandidate}
use check_in.Db.RecapSelect.Passes.{by_author}

pub record RecapPerson : Type 0 where
  pub user_id : ℕ
  pub name : String
  pub photo_id : Option ℕ
  pub posts : ℕ

-- What the loop gathers of an author.
pub record Agg : Type 0 where
  pub name : String
  pub photo_id : Option ℕ
  pub posts : ℕ

-- `order` and `byAuthor`
pub record Roster : Type 0 where
  pub order : List ℕ
  pub by_id : ℕ → Option Agg

unfoldable pub set : (ℕ → Option Agg) → ℕ → Agg → ℕ → Option Agg
set m id a j = if id == j then some a else m j

-- One post in the loop: its author's entry, made if there is none yet, has one post more.
unfoldable pub count_post : Roster → RecapCandidate → Roster
unfolding set
count_post r c = elim (r.by_id c.author_id) [
  | none ↦ record {
    order = r.order ++ c.author_id ∷ [];
    by_id =
        set r.by_id c.author_id
          (record { name = c.author_name; photo_id = c.author_photo_id; posts = 1 });
  }
  | some a ↦ record r { by_id = set r.by_id c.author_id (record a { posts = a.posts + 1 }) }
]

unfoldable pub count_posts : Roster → List RecapCandidate → Roster
unfolding count_post
count_posts r [] = r
count_posts r (c ∷ cs) = count_posts (count_post r c) cs

-- `a.name` panics where the map has no entry.
unfoldable pub people_of : (ℕ → Option Agg) → List ℕ → Result NoError (List RecapPerson)
people_of m [] = ok []
people_of m (id ∷ ids) = elim (m id) [
  | none ↦ panic
  | some a ↦ people_of m ids >>= λ people.
      ok (record { user_id = id; name = a.name; photo_id = a.photo_id; posts = a.posts } ∷ people)
]

pub more_posts : RecapPerson → RecapPerson → Bool
more_posts p q = if not (p.posts == q.posts) then ltb q.posts p.posts else ltb p.user_id q.user_id

unfoldable pub recap_people : List RecapCandidate → Result NoError (List RecapPerson)
unfolding count_posts people_of
recap_people cs = do
  let r = count_posts (record { order = []; by_id = λ _. none }) cs
  people ← people_of r.by_id r.order
  ok (sort_by more_posts people)

-- the posts that are counted for an author
unfoldable pub posts_at : Option Agg → ℕ
posts_at none = 0
posts_at (some a) = a.posts

unfoldable pub present : Option Agg → ℕ
present none = 0
present (some a) = 1

abbrev pub is_id : ℕ → ℕ → Bool
is_id a j = j == a

-- Each author with posts is in the order, once.
abbrev pub Sound : Roster → Type 0
Sound r =
    (a : ℕ)
    → (count_by (is_id a) r.order ≡ present (r.by_id a))
      × (present (r.by_id a) ≡ min 1 (posts_at (r.by_id a)))

pub count_post-posts :
    (r : Roster) (c : RecapCandidate) (a : ℕ)
    → posts_at ((count_post r c).by_id a) ≡ posts_at (r.by_id a) + one_if (by_author a c)
unfolding count_post posts_at set
count_post-posts r c a = ground arith

pub count_post-Sound : (r : Roster) (c : RecapCandidate) → Sound r → Sound (count_post r c)
unfolding count_post posts_at set present
count_post-Sound r c h a =
    ground (arith, h a, h c.author_id, count_by-append (is_id a) r.order (c.author_id ∷ []))

pub count_posts-Sound : (r : Roster) (cs : List RecapCandidate) → Sound r → Sound (count_posts r cs)
unfolding count_posts
count_posts-Sound r [] h = h
count_posts-Sound r (c ∷ cs) h = count_posts-Sound (count_post r c) cs (count_post-Sound r c h)

count_posts-posts :
    (r : Roster) (cs : List RecapCandidate) (a : ℕ)
    → posts_at ((count_posts r cs).by_id a) ≡ posts_at (r.by_id a) + count_by (by_author a) cs
unfolding count_posts
count_posts-posts r [] a = omega arith
count_posts-posts r (c ∷ cs) a =
    omega (arith, count_posts-posts (count_post r c) cs a, count_post-posts r c a)

abbrev pub person_with : ℕ → ℕ → RecapPerson → Bool
person_with a n p = p.user_id == a && p.posts == n

-- Where the map has an entry for every id, the roster has the entries in the order of the ids.
people_of-Done :
    (m : ℕ → Option Agg) (ids : List ℕ)
    → ((a : ℕ) → min 1 (count_by (is_id a) ids) ≤ present (m a))
    → Done (people_of m ids) (λ people.
      (a n : ℕ)
      → count_by (person_with a n) people
        ≡ (if posts_at (m a) == n then count_by (is_id a) ids else 0))
unfolding people_of present posts_at
people_of-Done m [] h = Done-ok (λ a n. ground arith)
people_of-Done m (id ∷ ids) h = elim (Option-cases (m id)) [
  | inl e ↦ absurd (ground (arith, h id))
  | inr (a, e) ↦
      let rest = people_of-Done m ids (λ j. omega (arith, h j)) in
      record {
        value =
            record { user_id = id; name = a.name; photo_id = a.photo_id; posts = a.posts }
            ∷ rest.value;
        returned = ground (arith, rest.returned);
        holds = λ j n. ground (arith, rest.holds j n);
      }
]

more_posts-IsOrder : IsOrder more_posts
unfolding more_posts
more_posts-IsOrder = record { asym = λ x y h. ground arith; trans = λ x y z h k. ground arith }

-- The first has more posts, or as many and an id that is no larger.
abbrev pub NoFewer : RecapPerson → RecapPerson → Type 0
NoFewer p q = (q.posts < p.posts) ⊎ ((q.posts ≡ p.posts) × (p.user_id ≤ q.user_id))

more_posts-NoFewer : (p q : RecapPerson) → more_posts q p ≡ false → NoFewer p q
unfolding more_posts
more_posts-NoFewer p q h = elim (Bool-cases (q.posts == p.posts)) [
  | inl e ↦ inr (ground (arith, e), ground (arith, e, h))
  | inr e ↦ inl (ground (arith, e, h))
]

-- The roster is returned. Whatever the member and the number, the roster has one entry that gives the
-- member that number of posts if the member has that many posts in the period and at least one, and
-- none otherwise; and nobody comes after somebody with fewer posts, or with as many and a larger id.
pub recap_people_lem :
    (cs : List RecapCandidate)
    → Done (recap_people cs) (λ people.
      ((a n : ℕ)
        → count_by (person_with a n) people
          ≡ (if count_by (by_author a) cs == n then min 1 n else 0))
      × Sorted NoFewer people)
unfolding recap_people posts_at present
recap_people_lem cs =
    let start : Roster = record { order = []; by_id = λ _. none } in
    let r : Roster = count_posts start cs in
    let sound : Sound r = count_posts-Sound start cs (λ a. (refl, refl)) in
    Done_bind (people_of-Done r.by_id r.order (λ a. omega (arith, sound a))) (λ people h. Done-ok (
      λ a n. ground (
        arith,
        h a n,
        sound a,
        count_posts-posts start cs a,
        count_by-sort_by more_posts (person_with a n) people,
      ),
      Ordered-Sorted more_posts NoFewer (sort_by more_posts people) more_posts-NoFewer
          (sort_by-Ordered more_posts more_posts-IsOrder people),
    ))

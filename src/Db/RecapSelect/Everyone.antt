-- ===== src/Db/RecapSelect/Everyone.antt =====
-- server/internal/db/recap_select.go: nobody who posted is left out of the recap.
use Prim.Native.String.{String}
use check_in.Prelude.{
  ℕ, ◌+◌, ◌≤◌, ◌≡◌, refl, ap, Bool, true, false, not, ◌||◌, List, [], ◌∷◌, ◌==◌, length, arith,
  comparable_nat,
}
use check_in.Sorting.{one_if, count_by, All, sort_by, count_by-sort_by, length-sort_by, take_all}
use check_in.Db.RecapSelect.{
  RecapCandidate, RecapCard, Marks, mark, mark_all, guarantee, fill, collage_card_cap,
  candidate_outranks, candidate_to_card, cards_from, ranked, guaranteed_of, selected_of,
  select_collage_cards,
}
use check_in.Db.RecapSelect.Passes.{by_author, count_by-guarantee, count_by-fill-ge, length-fill-le}

abbrev pub contains : List ℕ → ℕ → Bool
contains [] a = false
contains (m ∷ ms) a = m == a || contains ms a

abbrev pub card_by : ℕ → RecapCard → Bool
card_by a c = c.author_id == a

-- Every post is by a member.
abbrev pub ByMembers : List ℕ → List RecapCandidate → Type 0
ByMembers members = All (λ c. contains members c.author_id ≡ true)

abbrev stranger : List ℕ → RecapCandidate → Bool
stranger members c = not (contains members c.author_id)

no_strangers :
    (members : List ℕ) (cs : List RecapCandidate)
    → ByMembers members cs
    → count_by (stranger members) cs ≡ 0
no_strangers members [] h = refl
no_strangers members (c ∷ cs) h = ground (arith, no_strangers members cs h.1)

pub count_by-guarantee-le :
    (p : RecapCandidate → Bool) (seen : Marks) (cs : List RecapCandidate)
    → count_by p (guarantee seen cs) ≤ count_by p cs
unfolding guarantee
count_by-guarantee-le p seen [] = omega arith
count_by-guarantee-le p seen (c ∷ cs) =
    ground
      (arith, count_by-guarantee-le p seen cs, count_by-guarantee-le p (mark seen c.author_id) cs)

-- the posts of each member, added up
posts_of_all : List ℕ → List RecapCandidate → ℕ
posts_of_all [] cs = 0
posts_of_all (m ∷ ms) cs = count_by (by_author m) cs + posts_of_all ms cs

posts_of_all-cons :
    (ms : List ℕ) (c : RecapCandidate) (cs : List RecapCandidate)
    → one_if (contains ms c.author_id) + posts_of_all ms cs ≤ posts_of_all ms (c ∷ cs)
unfolding posts_of_all
posts_of_all-cons [] c cs = omega arith
posts_of_all-cons (m ∷ ms) c cs = ground (arith, posts_of_all-cons ms c cs)

length-le-posts :
    (ms : List ℕ) (cs : List RecapCandidate)
    → length cs ≤ posts_of_all ms cs + count_by (stranger ms) cs
length-le-posts ms [] = omega arith
length-le-posts ms (c ∷ cs) = ground (arith, posts_of_all-cons ms c cs, length-le-posts ms cs)

posts-le-members :
    (ms : List ℕ) (cs : List RecapCandidate)
    → posts_of_all ms (guarantee (λ _. false) cs) ≤ length ms
unfolding posts_of_all
posts-le-members [] cs = omega arith
posts-le-members (m ∷ ms) cs =
    ground (arith, posts-le-members ms cs, count_by-guarantee m (λ _. false) cs)

-- Pass 1 takes no more posts than there are members.
pub length-guaranteed :
    (members : List ℕ) (cs : List RecapCandidate)
    → ByMembers members cs
    → length (guaranteed_of cs) ≤ length members
length-guaranteed members cs h = omega (
  arith,
  length-le-posts members (guaranteed_of cs),
  posts-le-members members (ranked cs),
  count_by-guarantee-le (stranger members) (λ _. false) (ranked cs),
  count_by-sort_by candidate_outranks (stranger members) cs,
  no_strangers members cs h,
)

pub count_by-cards :
    (a i : ℕ) (g cs : List RecapCandidate)
    → count_by (card_by a) (cards_from g i cs) ≡ count_by (by_author a) cs
unfolding cards_from candidate_to_card
count_by-cards a i g [] = refl
count_by-cards a i g (c ∷ cs) = ground (arith, count_by-cards a (i + 1) g cs)

cap_ge_members : (cadence : String) (n : ℕ) → n ≤ 40 → n ≤ collage_card_cap cadence n
unfolding collage_card_cap
cap_ge_members cadence n h = ground arith

-- While pass 1 fits in the cap, the cut at the end drops nothing of it.
selected_keeps :
    (p : RecapCandidate → Bool) (cs : List RecapCandidate) (n : ℕ) (cadence : String)
    → length (guaranteed_of cs) ≤ collage_card_cap cadence n
    → count_by p (guaranteed_of cs) ≤ count_by p (selected_of cs n cadence)
unfolding selected_of
selected_keeps p cs n cadence h =
    let limit : ℕ = collage_card_cap cadence n in
    let g : List RecapCandidate = guaranteed_of cs in
    let marks : Marks = mark_all (λ _. false) g in
    let f : List RecapCandidate = fill limit g marks (λ _. 0) (ranked cs) in
    let bound = length-fill-le limit g marks (λ _. 0) (ranked cs) in
    let whole =
      take_all limit (sort_by candidate_outranks f)
        (omega (arith, bound, length-sort_by candidate_outranks f)) in
    omega (
      arith,
      ap (count_by p) whole,
      count_by-sort_by candidate_outranks p f,
      count_by-fill-ge limit p g marks (λ _. 0) (ranked cs),
    )

-- In a group of at most 40 members, everybody who has a post in the period has a card.
pub select_everyone :
    (candidates : List RecapCandidate) (members : List ℕ) (cadence : String) (a : ℕ)
    → ByMembers members candidates
    → length members ≤ 40
    → 1 ≤ count_by (by_author a) candidates
    → 1 ≤ count_by (card_by a) (select_collage_cards candidates (length members) cadence)
unfolding select_collage_cards
select_everyone [] members cadence a h few posted = posted
select_everyone (c ∷ cs) members cadence a h few posted =
    let all : List RecapCandidate = c ∷ cs in
    let n : ℕ = length members in
    omega (
      arith,
      count_by-cards a 0 (guaranteed_of all) (selected_of all n cadence),
      selected_keeps (by_author a) all n cadence
          (omega (arith, length-guaranteed members all h, cap_ge_members cadence n few)),
      count_by-guarantee a (λ _. false) (ranked all),
      count_by-sort_by candidate_outranks (by_author a) all,
    )

-- ===== src/Db/RecapSelect/Cards.antt =====
-- server/internal/db/recap_select.go: the bounds, the order and the ranks of the cards.
use Prim.Native.String.{String}
use check_in.Prelude.{
  ℕ, suc, ◌+◌, ◌≤◌, ◌≡◌, refl, ap, Bool, true, false, List, [], ◌∷◌, ◌++◌, ◌==◌, if◌then◌else◌,
  length, arith, comparable_nat, min, take, length-take,
}
use check_in.Sorting.{count_by, count_by-append, sort_by, count_by-sort_by, count_by-take-le}
use check_in.Db.RecapSelect.{
  RecapCandidate, RecapCard, Marks, mark, mark_all, Counts, increment, fill, collage_card_cap,
  candidate_outranks, candidate_to_card, cards_from, ranked, guaranteed_of, selected_of,
  select_collage_cards,
}
use check_in.Db.RecapSelect.Passes.{by_author, count_by-guarantee, count_by-fill-le}
use check_in.Db.RecapSelect.Everyone.{card_by, count_by-cards, count_by-guarantee-le}

cap_le_40 : (cadence : String) (n : ℕ) → collage_card_cap cadence n ≤ 40
unfolding collage_card_cap
cap_le_40 cadence n = ground arith

length-cards : (i : ℕ) (g cs : List RecapCandidate) → length (cards_from g i cs) ≡ length cs
unfolding cards_from
length-cards i g [] = refl
length-cards i g (c ∷ cs) = ap suc (length-cards (i + 1) g cs)

-- The panel has no more cards than its cap, which is 40 at most.
pub length-select :
    (cs : List RecapCandidate) (n : ℕ) (cadence : String)
    → (length (select_collage_cards cs n cadence) ≤ collage_card_cap cadence n)
      × (collage_card_cap cadence n ≤ 40)
unfolding select_collage_cards selected_of
length-select [] n cadence = omega (arith, cap_le_40 cadence n)
length-select (c ∷ cs) n cadence =
    let all : List RecapCandidate = c ∷ cs in
    let limit : ℕ = collage_card_cap cadence n in
    let g : List RecapCandidate = guaranteed_of all in
    let f : List RecapCandidate =
      sort_by candidate_outranks (fill limit g (mark_all (λ _. false) g) (λ _. 0) (ranked all)) in
    omega (arith, length-cards 0 g (take limit f), length-take limit f, cap_le_40 cadence n)

selected-le :
    (p : RecapCandidate → Bool) (cs : List RecapCandidate) (n : ℕ) (cadence : String)
    → let g = guaranteed_of cs in
      count_by p (selected_of cs n cadence)
      ≤ count_by p
          (fill (collage_card_cap cadence n) g (mark_all (λ _. false) g) (λ _. 0) (ranked cs))
unfolding selected_of
selected-le p cs n cadence =
    let limit : ℕ = collage_card_cap cadence n in
    let g : List RecapCandidate = guaranteed_of cs in
    let f : List RecapCandidate = fill limit g (mark_all (λ _. false) g) (λ _. 0) (ranked cs) in
    omega (
      arith,
      count_by-take-le p limit (sort_by candidate_outranks f),
      count_by-sort_by candidate_outranks p f,
    )

-- No author has more than three cards.
pub select_per_author :
    (cs : List RecapCandidate) (n : ℕ) (cadence : String) (a : ℕ)
    → count_by (card_by a) (select_collage_cards cs n cadence) ≤ 3
unfolding select_collage_cards
select_per_author [] n cadence a = omega arith
select_per_author (c ∷ cs) n cadence a =
    let all : List RecapCandidate = c ∷ cs in
    let g : List RecapCandidate = guaranteed_of all in
    omega (
      arith,
      count_by-cards a 0 g (selected_of all n cadence),
      selected-le (by_author a) all n cadence,
      count_by-fill-le (collage_card_cap cadence n) a g (mark_all (λ _. false) g) (λ _. 0)
          (ranked all) (omega arith),
      count_by-guarantee a (λ _. false) (ranked all),
    )

abbrev pub of_post : ℕ → RecapCandidate → Bool
of_post p c = c.post_id == p

abbrev pub card_of_post : ℕ → RecapCard → Bool
card_of_post p c = c.post_id == p

mark_all-marked :
    (p : ℕ) (m : Marks) (cs : List RecapCandidate) → m p ≡ true → mark_all m cs p ≡ true
unfolding mark_all
mark_all-marked p m [] h = h
mark_all-marked p m (c ∷ cs) h = mark_all-marked p (mark m c.post_id) cs (ground arith)

mark_all-of_post :
    (p : ℕ) (m : Marks) (cs : List RecapCandidate)
    → 1 ≤ count_by (of_post p) cs
    → mark_all m cs p ≡ true
unfolding mark_all
mark_all-of_post p m [] h = absurd (omega arith)
mark_all-of_post p m (c ∷ cs) h =
    ground
      (arith, mark_all-marked p (mark m c.post_id) cs, mark_all-of_post p (mark m c.post_id) cs)

module _ (limit p : ℕ) where
  -- A post that is marked is not added; one that is not is added once, and only if it is there.
  fill_post :
      (selected : List RecapCandidate) (m : Marks) (n : Counts) (cs : List RecapCandidate)
      → count_by (of_post p) (fill limit selected m n cs)
        ≤ count_by (of_post p) selected + (if m p then 0 else min 1 (count_by (of_post p) cs))
  unfolding fill
  fill_post selected m n [] = ground arith
  fill_post selected m n (c ∷ cs) = ground (
    arith,
    fill_post selected m n cs,
    fill_post (selected ++ c ∷ []) (mark m c.post_id) (increment n c.author_id) cs,
    count_by-append (of_post p) selected (c ∷ []),
  )

count_by_post-cards :
    (p i : ℕ) (g cs : List RecapCandidate)
    → count_by (card_of_post p) (cards_from g i cs) ≡ count_by (of_post p) cs
unfolding cards_from candidate_to_card
count_by_post-cards p i g [] = refl
count_by_post-cards p i g (c ∷ cs) = ground (arith, count_by_post-cards p (i + 1) g cs)

-- A post has no more cards than it has entries among the candidates: the two passes never pick the
-- same post.
pub select_no_repeats :
    (cs : List RecapCandidate) (n : ℕ) (cadence : String) (p : ℕ)
    → count_by (card_of_post p) (select_collage_cards cs n cadence) ≤ count_by (of_post p) cs
unfolding select_collage_cards
select_no_repeats [] n cadence p = omega arith
select_no_repeats (c ∷ cs) n cadence p =
    let all : List RecapCandidate = c ∷ cs in
    let g : List RecapCandidate = guaranteed_of all in
    ground (
      arith,
      count_by_post-cards p 0 g (selected_of all n cadence),
      selected-le (of_post p) all n cadence,
      fill_post (collage_card_cap cadence n) p g (mark_all (λ _. false) g) (λ _. 0) (ranked all),
      mark_all-of_post p (λ _. false) g,
      count_by-guarantee-le (of_post p) (λ _. false) (ranked all),
      count_by-sort_by candidate_outranks (of_post p) all,
    )

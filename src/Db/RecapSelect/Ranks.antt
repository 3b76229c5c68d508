-- ===== src/Db/RecapSelect/Ranks.antt =====
-- server/internal/db/recap_select.go: the cards come in the order of their ranks.
use Prim.Native.String.{String}
use check_in.Prelude.{
  ℕ, ◌+◌, ◌≡◌, Bool, false, ◌&&◌, ◌||◌, List, [], ◌∷◌, ◌==◌, arith, comparable_nat, ltb,
}
use check_in.Sorting.{All, Ordered, sort_by-Ordered, take-Ordered}
use check_in.Db.RecapSelect.{
  RecapCandidate, RecapCard, collage_card_cap, candidate_outranks, candidate_to_card, cards_from,
  guaranteed_of, selected_of, select_collage_cards,
}
use check_in.Db.RecapSelect.Order.{candidate_outranks-IsOrder}

-- A card with more likes, or as many and more comments.
abbrev pub more_popular : RecapCard → RecapCard → Bool
more_popular x y =
    ltb y.like_count x.like_count
    || (x.like_count == y.like_count && ltb y.comment_count x.comment_count)

-- The ranks count on from `i`.
abbrev pub RankedFrom : ℕ → List RecapCard → Type 0
RankedFrom i [] = Unit
RankedFrom i (c ∷ cs) = (c.rank ≡ i + 1) × RankedFrom (i + 1) cs

cards-RankedFrom : (i : ℕ) (g cs : List RecapCandidate) → RankedFrom i (cards_from g i cs)
unfolding cards_from candidate_to_card
cards-RankedFrom i g [] = tt
cards-RankedFrom i g (c ∷ cs) = (ground arith, cards-RankedFrom (i + 1) g cs)

more_popular-outranks :
    (x y : RecapCandidate) (i j : ℕ) (s t : Bool)
    → candidate_outranks y x ≡ false
    → more_popular (candidate_to_card y j t) (candidate_to_card x i s) ≡ false
unfolding candidate_outranks candidate_to_card
more_popular-outranks x y i j s t h = ground arith

module _ (g : List RecapCandidate) where
  cards-All :
      (x : RecapCandidate) (i j : ℕ) (s : Bool) (cs : List RecapCandidate)
      → All (λ y. candidate_outranks y x ≡ false) cs
      → All (λ d. more_popular d (candidate_to_card x i s) ≡ false) (cards_from g j cs)
  unfolding cards_from
  cards-All x i j s [] h = tt
  cards-All x i j s (c ∷ cs) h =
      (more_popular-outranks x c i (j + 1) s _ h.0, cards-All x i (j + 1) s cs h.1)

  cards-Ordered :
      (i : ℕ) (cs : List RecapCandidate)
      → Ordered candidate_outranks cs
      → Ordered more_popular (cards_from g i cs)
  unfolding cards_from
  cards-Ordered i [] h = tt
  cards-Ordered i (c ∷ cs) h = (cards-All c (i + 1) (i + 1) _ cs h.0, cards-Ordered (i + 1) cs h.1)

selected-Ordered :
    (cs : List RecapCandidate) (n : ℕ) (cadence : String)
    → Ordered candidate_outranks (selected_of cs n cadence)
unfolding selected_of
selected-Ordered cs n cadence =
    take-Ordered candidate_outranks candidate_outranks-IsOrder (collage_card_cap cadence n) _
      (sort_by-Ordered candidate_outranks candidate_outranks-IsOrder _)

-- The ranks of the cards are 1, 2, 3, …, and no card has more likes than one before it, nor as many
-- likes and more comments.
pub select-Ordered :
    (cs : List RecapCandidate) (n : ℕ) (cadence : String)
    → RankedFrom 0 (select_collage_cards cs n cadence)
      × Ordered more_popular (select_collage_cards cs n cadence)
unfolding select_collage_cards
select-Ordered [] n cadence = (tt, tt)
select-Ordered (c ∷ cs) n cadence =
    let g : List RecapCandidate = guaranteed_of (c ∷ cs) in
    let selected : List RecapCandidate = selected_of (c ∷ cs) n cadence in
    (
      cards-RankedFrom 0 g selected,
      cards-Ordered g 0 selected (selected-Ordered (c ∷ cs) n cadence),
    )

-- ===== src/Db/RecapSelect.antt =====
-- server/internal/db/recap_select.go: which posts a recap shows, and who is on its cover.
--
-- Ids, counts and times are natural numbers. `sort.Slice` is `sort_by`: the comparisons of this
-- file tie on no two entries with distinct ids, so the order that it gives is the only one.
pub mod Order
pub mod Passes
pub mod Everyone
pub mod Cards
pub mod Ranks
pub mod People
pub mod Awards
mod Tests
use Prim.Native.String.{String}
use text.Mathlib.Text.{starts_with}
use check_in.Prelude.{
  ℕ, zero, suc, ◌+◌, Bool, true, false, not, ◌&&◌, ◌||◌, Option, none, some, List, [], ◌∷◌, ◌++◌,
  map, ltb, leb, ◌==◌, if◌then◌else◌, length, take, comparable_nat, comparable_text, min, max,
}
use check_in.Sorting.{sort_by}

pub record RecapCandidate : Type 0 where
  pub post_id : ℕ
  pub author_id : ℕ
  pub author_name : String
  pub author_photo_id : Option ℕ
  pub body : String
  pub media_id : Option ℕ
  pub mime : String
  pub width : ℕ
  pub height : ℕ
  pub duration_ms : ℕ
  pub has_poster : Bool
  pub location : String
  pub like_count : ℕ
  pub comment_count : ℕ
  pub created_at : ℕ

pub record RecapCard : Type 0 where
  pub kind : String
  pub rank : ℕ
  pub guaranteed : Bool
  pub post_id : ℕ
  pub author_id : ℕ
  pub author_name : String
  pub author_photo_id : Option ℕ
  pub media_id : Option ℕ
  pub mime : String
  pub width : ℕ
  pub height : ℕ
  pub duration_ms : ℕ
  pub has_poster : Bool
  pub body : String
  pub like_count : ℕ
  pub comment_count : ℕ
  pub location : String

pub collage_card_cap : String → ℕ → ℕ
collage_card_cap cadence member_count =
    let base : ℕ = if cadence == "monthly" then 20 else 12 in
    let n : ℕ = if ltb base member_count then member_count else base in if ltb 40 n then 40 else n

pub candidate_outranks : RecapCandidate → RecapCandidate → Bool
candidate_outranks a b =
    if not (a.like_count == b.like_count)
    then ltb b.like_count a.like_count
    else if not (a.comment_count == b.comment_count)
    then ltb b.comment_count a.comment_count
    else if not (a.created_at == b.created_at)
    then ltb a.created_at b.created_at
    else ltb a.post_id b.post_id

-- A map[int64]bool, and a map[int64]int.
abbrev pub Marks : Type 0
Marks = ℕ → Bool

abbrev pub mark : Marks → ℕ → Marks
mark m id j = id == j || m j

abbrev pub Counts : Type 0
Counts = ℕ → ℕ

abbrev pub increment : Counts → ℕ → Counts
increment c id j = if id == j then c j + 1 else c j

-- Pass 1 over the ranked posts: each author's first.
pub guarantee : Marks → List RecapCandidate → List RecapCandidate
guarantee seen [] = []
guarantee seen (c ∷ cs) =
    let others = guarantee seen cs in
    let first = c ∷ guarantee (mark seen c.author_id) cs in
    if seen c.author_id then others else first

-- `inSelected` after pass 1
pub mark_all : Marks → List RecapCandidate → Marks
mark_all m [] = m
mark_all m (c ∷ cs) = mark_all (mark m c.post_id) cs

-- Pass 2: the posts that are left, up to the limit and two more for each author.
pub fill : ℕ → List RecapCandidate → Marks → Counts → List RecapCandidate → List RecapCandidate
fill limit selected in_selected fill_count [] = selected
fill limit selected in_selected fill_count (c ∷ cs) =
    let skip = fill limit selected in_selected fill_count cs in
    let add =
      fill limit (selected ++ c ∷ []) (mark in_selected c.post_id)
        (increment fill_count c.author_id) cs in
    if leb limit (length selected)
    then selected
    else if in_selected c.post_id
    then skip
    else if leb 2 (fill_count c.author_id)
    then skip
    else add

pub guaranteed_post : List RecapCandidate → ℕ → Bool
guaranteed_post [] post_id = false
guaranteed_post (c ∷ cs) post_id = c.post_id == post_id || guaranteed_post cs post_id

pub candidate_to_card : RecapCandidate → ℕ → Bool → RecapCard
candidate_to_card c rank guaranteed = elim c.media_id [
  | none ↦ record card { kind = "quote"; body = c.body }
  | some media_id ↦ record card {
    kind = if starts_with c.mime "video/" then "clip" else "photo";
    media_id = some media_id;
    mime = c.mime;
    width = c.width;
    height = c.height;
    duration_ms = c.duration_ms;
    has_poster = c.has_poster;
  }
]
  where
    card : RecapCard
    card = record {
      kind = "";
      rank = rank;
      guaranteed = guaranteed;
      post_id = c.post_id;
      author_id = c.author_id;
      author_name = c.author_name;
      author_photo_id = c.author_photo_id;
      media_id = none;
      mime = "";
      width = 0;
      height = 0;
      duration_ms = 0;
      has_poster = false;
      body = "";
      like_count = c.like_count;
      comment_count = c.comment_count;
      location = c.location;
    }

-- the cards from the index `i` on
pub cards_from : List RecapCandidate → ℕ → List RecapCandidate → List RecapCard
cards_from guaranteed i [] = []
cards_from guaranteed i (c ∷ cs) =
    candidate_to_card c (i + 1) (guaranteed_post guaranteed c.post_id)
    ∷ cards_from guaranteed (i + 1) cs

abbrev pub ranked : List RecapCandidate → List RecapCandidate
ranked candidates = sort_by candidate_outranks candidates

abbrev pub guaranteed_of : List RecapCandidate → List RecapCandidate
guaranteed_of candidates = guarantee (λ _. false) (ranked candidates)

-- The posts of the panel, in the order of the cards.
pub selected_of : List RecapCandidate → ℕ → String → List RecapCandidate
selected_of candidates member_count cadence =
    let limit : ℕ = collage_card_cap cadence member_count in
    let guaranteed : List RecapCandidate = guaranteed_of candidates in
    take limit (
      sort_by candidate_outranks
        (fill limit guaranteed (mark_all (λ _. false) guaranteed) (λ _. 0) (ranked candidates)))

pub select_collage_cards : List RecapCandidate → ℕ → String → List RecapCard
unfolding selected_of
select_collage_cards [] member_count cadence = []
select_collage_cards (c ∷ cs) member_count cadence =
    cards_from (guaranteed_of (c ∷ cs)) 0 (selected_of (c ∷ cs) member_count cadence)

-- ===== src/Db/RecapSelect/Awards.antt =====
-- server/internal/db/recap_select.go: awardRankings and bestAwardPerMember, the titles of a recap.
-- The values of the entries are counts, minutes and hundredths: natural numbers.
pub mod Places
pub mod Titles
mod Tests
use Prim.Native.String.{String}
use check_in.Prelude.{
  ℕ, zero, suc, ◌+◌, Bool, true, false, not, ◌&&◌, Option, none, some, List, [], ◌∷◌, ltb, ◌==◌,
  if◌then◌else◌, comparable_nat, comparable_text,
}
use check_in.Sorting.{sort_by}

pub record AwardEntry : Type 0 where
  pub qualifies : Bool
  pub value : ℕ
  pub display_value : String
  pub post_id : ℕ
  pub media_id : Option ℕ

pub record AwardCandidate : Type 0 where
  pub user_id : ℕ
  pub user_name : String
  pub user_photo_id : Option ℕ
  pub most_liked : AwardEntry
  pub night_owl : AwardEntry
  pub early_bird : AwardEntry
  pub most_travelled : AwardEntry
  pub chatterbox : AwardEntry
  pub biggest_fan : AwardEntry
  pub quiet_achiever : AwardEntry
  pub most_tagged : AwardEntry
  pub longest_thread : AwardEntry

pub record AwardType : Type 0 where
  pub id : String
  pub label : String
  pub entry : AwardCandidate → AwardEntry

abbrev pub award_order : List AwardType
award_order =
    record { id = "most_liked"; label = "Most Loved"; entry = λ c. c.most_liked }
    ∷ record { id = "night_owl"; label = "Night Owl"; entry = λ c. c.night_owl }
    ∷ record { id = "early_bird"; label = "Early Bird"; entry = λ c. c.early_bird }
    ∷ record { id = "most_travelled"; label = "Most Travelled"; entry = λ c. c.most_travelled }
    ∷ record { id = "chatterbox"; label = "Chatterbox"; entry = λ c. c.chatterbox }
    ∷ record { id = "biggest_fan"; label = "Biggest Fan"; entry = λ c. c.biggest_fan }
    ∷ record { id = "quiet_achiever"; label = "Quiet Achiever"; entry = λ c. c.quiet_achiever }
    ∷ record { id = "most_tagged"; label = "Most Tagged"; entry = λ c. c.most_tagged }
    ∷ record { id = "longest_thread"; label = "Longest Thread"; entry = λ c. c.longest_thread }
    ∷ []

pub qualifying : AwardType → List AwardCandidate → List AwardCandidate
qualifying at [] = []
qualifying at (c ∷ cs) =
    let rest = qualifying at cs in if (at.entry c).qualifies then c ∷ rest else rest

pub award_ahead : AwardType → AwardCandidate → AwardCandidate → Bool
award_ahead at c d =
    if not ((at.entry c).value == (at.entry d).value)
    then ltb (at.entry d).value (at.entry c).value
    else ltb c.user_id d.user_id

-- A map[int64]int, and a map of such maps by award.
abbrev pub Ranks : Type 0
Ranks = ℕ → Option ℕ

abbrev pub Rankings : Type 0
Rankings = String → Option Ranks

-- `byUser`, from the index `i` on
pub by_user : Ranks → ℕ → List AwardCandidate → Ranks
by_user m i [] = m
by_user m i (c ∷ cs) = by_user (λ u. if c.user_id == u then some i else m u) (i + 1) cs

pub rank_awards : Rankings → List AwardType → List AwardCandidate → Rankings
unfolding qualifying award_ahead by_user
rank_awards m [] cs = m
rank_awards m (at ∷ ats) cs =
    let ranks : Ranks = by_user (λ _. none) 0 (sort_by (award_ahead at) (qualifying at cs)) in
    rank_awards (λ id. if at.id == id then some ranks else m id) ats cs

pub award_rankings : List AwardCandidate → Rankings
unfolding rank_awards
award_rankings cs = rank_awards (λ _. none) award_order cs

-- `rankOf[id][user]`
abbrev pub rank_of : Rankings → String → ℕ → Option ℕ
rank_of m id user = elim (m id) [ none ↦ none | some ranks ↦ ranks user ]

-- One award in the loop of a member; no best one yet is `none`.
pub better : Option (String × ℕ) → String → Option ℕ → Option (String × ℕ)
better best id none = best
better none id (some r) = some (id, r)
better (some (b, s)) id (some r) = if ltb r s then some (id, r) else some (b, s)

pub best_award : Rankings → ℕ → Option (String × ℕ) → List AwardType → Option (String × ℕ)
unfolding better
best_award m user best [] = best
best_award m user best (at ∷ ats) = best_award m user (better best at.id (rank_of m at.id user)) ats

-- The entry of one member in the map of the titles; there is none without an award.
pub bestow_one : (ℕ → Option String) → ℕ → Option (String × ℕ) → ℕ → Option String
bestow_one out user none u = out u
bestow_one out user (some (id, r)) u = if user == u then some id else out u

pub bestow :
    Rankings → List AwardType → (ℕ → Option String) → List AwardCandidate → ℕ → Option String
unfolding best_award bestow_one
bestow m ats out [] = out
bestow m ats out (c ∷ cs) =
    bestow m ats (bestow_one out c.user_id (best_award m c.user_id none ats)) cs

pub best_award_per_member : List AwardCandidate → ℕ → Option String
unfolding bestow award_rankings
best_award_per_member [] = λ _. none
best_award_per_member (c ∷ cs) = bestow (award_rankings (c ∷ cs)) award_order (λ _. none) (c ∷ cs)

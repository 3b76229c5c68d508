-- ===== src/Db/Recap/Viewer.antt =====
-- server/internal/db/recap.go: FilterRecapForViewer, a recap without those whom the viewer has blocked.
pub mod Filtered
use check_in.Prelude.{
  ℕ, ◌+◌, ◌≤◌, ◌≡◌, refl, ap, Bool, true, false, not, ◌&&◌, Option, none, some, List, [], ◌∷◌, ◌++◌,
  ◌==◌, if◌then◌else◌, length, arith, comparable_nat, Bool-cases, inl, inr,
}
use check_in.Maps.{lookup}
use check_in.Sorting.{All, keep_if, sum_by}
use check_in.Db.RecapSelect.{RecapCard}
use check_in.Db.RecapSelect.People.{RecapPerson}
use check_in.Db.Recap.{RecapAward, RecapPanel, RecapPayload}
use check_in.Db.Recap.Consistent.{Consistent}

-- `blocked[id]`, of a map[int64]bool
abbrev pub marked : List (ℕ × Bool) → ℕ → Bool
marked blocked id = elim (lookup id blocked) [ none ↦ false | some b ↦ b ]

unfoldable pub filter_recap_people : List RecapPerson → List (ℕ × Bool) → List RecapPerson
filter_recap_people [] blocked = []
filter_recap_people (p ∷ people) blocked =
    let rest = filter_recap_people people blocked in
    if marked blocked p.user_id then rest else p ∷ rest

unfoldable pub filter_recap_cards : List RecapCard → List (ℕ × Bool) → List RecapCard
filter_recap_cards [] blocked = []
filter_recap_cards (c ∷ cards) blocked =
    let rest = filter_recap_cards cards blocked in
    if marked blocked c.author_id then rest else c ∷ rest

unfoldable pub filter_recap_awards : List RecapAward → List (ℕ × Bool) → List RecapAward
filter_recap_awards [] blocked = []
filter_recap_awards (a ∷ awards) blocked =
    let rest = filter_recap_awards awards blocked in
    if marked blocked a.user_id then rest else a ∷ rest

unfoldable pub filter_recap_panels : List RecapPanel → List (ℕ × Bool) → List RecapPanel
filter_recap_panels [] blocked = []
filter_recap_panels (q ∷ panels) blocked =
    let rest = filter_recap_panels panels blocked in
    let cards = filter_recap_cards q.cards blocked in
    let awards = filter_recap_awards q.awards blocked in
    if length cards == 0 && length awards == 0
    then rest
    else record q { cards = cards; awards = awards } ∷ rest

unfoldable pub sum_posts : ℕ → List RecapPerson → ℕ
sum_posts n [] = n
sum_posts n (p ∷ people) = sum_posts (n + p.posts) people

unfoldable pub filter_recap_for_viewer : RecapPayload → List (ℕ × Bool) → RecapPayload
filter_recap_for_viewer payload [] = payload
filter_recap_for_viewer payload (b ∷ bs) =
    let people = filter_recap_people payload.people (b ∷ bs) in
    record payload {
      people = people;
      panels = filter_recap_panels payload.panels (b ∷ bs);
      stats = record payload.stats { posts = sum_posts 0 people; posters = length people };
    }

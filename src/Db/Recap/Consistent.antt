-- ===== src/Db/Recap/Consistent.antt =====
-- server/internal/db/recap.go: the numbers of a recap agree with the people on its cover.
use check_in.Prelude.{
  ℕ, ◌+◌, ◌≤◌, ◌<◌, ◌≡◌, refl, ap, ◌∙◌, Bool, true, false, ◌||◌, none, some, List, [], ◌∷◌, ltb,
  ◌==◌, length, arith, Done, Done-ok, Done_bind, Done_if, ◌⊎◌, comparable_nat, inl, inr, Bool-cases,
}
use check_in.Maps.{comparable_bytes, include}
use check_in.Sorting.{All, All-append, sum_by, count_by, one_if}
use check_in.Db.RecapSelect.{RecapCandidate}
use check_in.Db.RecapSelect.People.{RecapPerson}
use check_in.Db.RecapSelect.{RecapCard, select_collage_cards}
use check_in.Slice.{Bytes}
use Prim.Native.String.{String}
use check_in.Db.Recap.Totals.{Adds, recap_people-Adds}
use check_in.Db.Recap.{
  RecapSpec, RecapPanel, RecapPayload, Built, built, recap_empty, build_failed, RecapTally,
  no_tally, posters_of, tally_post, tally_posts, recap_stats, add_collage, collage_type, add_panel,
  add_panels, payload_of, build_recap, recap_min_posts, recap_min_posters,
}

-- The attachments of a period.
abbrev pub with_media : RecapCandidate → Bool
with_media c = elim c.media_id [ none ↦ false | some id ↦ true ]

tally_post-Counted :
    (t : RecapTally) (c : RecapCandidate)
    → ((tally_post t c).stats.posts ≡ t.stats.posts)
      × ((tally_post t c).posters ≡ include c.author_id t.posters)
      × ((tally_post t c).stats.photos + (tally_post t c).stats.clips
          ≡ t.stats.photos + t.stats.clips + one_if (with_media c))
unfolding tally_post
tally_post-Counted t c = (ground arith, refl, ground arith)

-- What the loop has counted.
record Counted (before t : RecapTally) (cs : List RecapCandidate) : Type 0 where
  posts : t.stats.posts ≡ before.stats.posts
  posters : t.posters ≡ posters_of before.posters cs
  media :
      t.stats.photos + t.stats.clips
      ≡ before.stats.photos + before.stats.clips + count_by with_media cs

tally_posts-Counted : (t : RecapTally) (cs : List RecapCandidate) → Counted t (tally_posts t cs) cs
unfolding tally_posts posters_of
tally_posts-Counted t [] = record { posts = refl; posters = refl; media = omega arith }
tally_posts-Counted t (c ∷ cs) =
    let rest = tally_posts-Counted (tally_post t c) cs in
    let here = tally_post-Counted t c in
    record {
      posts = rest.posts ∙ here.0;
      posters = rest.posters ∙ ap (λ ids. posters_of ids cs) here.1;
      media = omega (arith, rest.media, here.2);
    }

-- The numbers of a payload agree with each other and with its cover, and no page is empty.
pub record Consistent (p : RecapPayload) : Type 0 where
  pub posts : sum_by (λ x. x.posts) p.people ≡ p.stats.posts
  pub posters : length p.people ≡ p.stats.posters
  pub active : All (λ x. 1 ≤ x.posts) p.people
  pub filled : All (λ q. 1 ≤ length q.cards + length q.awards) p.panels

abbrev Filled : RecapPanel → Type 0
Filled q = 1 ≤ length q.cards + length q.awards

add_collage-Filled :
    (cards : List RecapCard) (panels : List RecapPanel)
    → All Filled panels
    → All Filled (add_collage cards panels)
unfolding add_collage
add_collage-Filled [] panels h = h
add_collage-Filled (c ∷ cards) panels h = All-append Filled panels (_ ∷ []) h (omega arith, tt)

add_panels-Filled :
    (cs : List RecapCandidate) (members : ℕ) (cadence : String) (asked : List Bytes)
    (panels : List RecapPanel)
    → All Filled panels
    → All Filled (add_panels cs members cadence asked panels)
unfolding add_panels add_panel
add_panels-Filled cs members cadence [] panels h = h
add_panels-Filled cs members cadence (a ∷ asked) panels h =
    add_panels-Filled cs members cadence asked (add_panel cs members cadence a panels)
      (elim (Bool-cases (a == collage_type)) [
        | inl e ↦ rw e (add_collage-Filled (select_collage_cards cs members cadence) panels h)
        | inr e ↦ rw e h
      ])

-- What `build_recap` promises of its result.
abbrev pub Outcome : List RecapCandidate → Built RecapPayload → Type 0
Outcome cs (built p) =
    Consistent p
    × (p.stats.posts ≡ length cs)
    × (p.stats.photos + p.stats.clips ≡ count_by with_media cs)
    × (recap_min_posts ≤ p.stats.posts)
    × (recap_min_posters ≤ p.stats.posters)
Outcome cs recap_empty =
    (length cs < recap_min_posts) ⊎ (length (posters_of [] cs) < recap_min_posters)
Outcome cs build_failed = ⊥

recap_stats-Counted :
    (cs : List RecapCandidate) (members : ℕ)
    → ((recap_stats cs members).posts ≡ length cs)
      × ((recap_stats cs members).posters ≡ length (posters_of [] cs))
      × ((recap_stats cs members).photos + (recap_stats cs members).clips ≡ count_by with_media cs)
unfolding recap_stats
recap_stats-Counted cs members =
    let counted = tally_posts-Counted (no_tally (length cs) members) cs in
    (counted.posts, ap length counted.posters, omega (arith, counted.media))

payload_of-Outcome :
    (period_label : String → ℕ → ℕ → String) (spec : RecapSpec) (name color : String) (members : ℕ)
    (cs : List RecapCandidate) (people : List RecapPerson)
    → Adds cs people
    → recap_min_posts ≤ length cs
    → recap_min_posters ≤ length (posters_of [] cs)
    → Outcome cs (built (payload_of period_label spec name color members cs people))
unfolding payload_of
payload_of-Outcome period_label spec name color members cs people adds enough spread =
    let stats = recap_stats-Counted cs members in
    (
      record {
        posts = omega (arith, adds.posts, stats.0);
        posters = omega (arith, adds.number, stats.1);
        active = adds.active;
        filled = add_panels-Filled cs members spec.cadence spec.panels [] tt;
      },
      stats.0,
      stats.2,
      omega (arith, stats.0, enough),
      omega (arith, stats.1, spread),
    )

-- Where the four reads succeed, a recap comes back unless the period has fewer than three posts or fewer
-- than two members who posted. The posts that its cover gives the people add up to the posts of its
-- stats, which are those of the period, and its posters are the people on the cover, each with a post;
-- photos and clips together are the posts with an attachment, and every page has a card or an award.
pub build_recap-Outcome :
    (period_label : String → ℕ → ℕ → String) (spec : RecapSpec) (name color : String) (members : ℕ)
    (cs : List RecapCandidate)
    → Done
        (build_recap period_label spec (some name) (some color) (some members) (some cs))
        (Outcome cs)
unfolding build_recap
build_recap-Outcome period_label spec name color members cs =
    Done_if (ltb (length cs) recap_min_posts || ltb (length (posters_of [] cs)) recap_min_posters)
      (λ few. Done-ok (few_posts few))
      (λ many. Done_bind (recap_people-Adds cs) (λ people adds. Done-ok (
        payload_of-Outcome period_label spec name color members cs people adds
          (ground (arith, many)) (ground (arith, many)))))
  where
    few_posts :
        (ltb (length cs) recap_min_posts || ltb (length (posters_of [] cs)) recap_min_posters)
          ≡ true
        → (length cs < recap_min_posts) ⊎ (length (posters_of [] cs) < recap_min_posters)
    few_posts h = ground (arith, h)

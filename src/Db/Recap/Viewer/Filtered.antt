-- ===== src/Db/Recap/Viewer/Filtered.antt =====
-- server/internal/db/recap.go: what a viewer is shown of a recap.
use check_in.Prelude.{
  ℕ, ◌+◌, ◌≤◌, ◌≡◌, refl, ap, ap₂, ◌∙◌, sym, subst, Bool, true, not, ◌&&◌, List, [], ◌∷◌, ◌==◌,
  length, map, arith, comparable_nat, Bool-cases, inl, inr, ◌↔◌,
}
use check_in.Sorting.{All, All-imp, keep_if, sum_by}
use check_in.Db.RecapSelect.{RecapCard}
use check_in.Db.RecapSelect.People.{RecapPerson}
use check_in.Db.Recap.{RecapAward, RecapPanel, RecapPayload}
use check_in.Db.Recap.Consistent.{Consistent}
use check_in.Db.Recap.Viewer.{
  marked, filter_recap_people, filter_recap_cards, filter_recap_awards, filter_recap_panels,
  sum_posts, filter_recap_for_viewer,
}

abbrev pub visible : List (ℕ × Bool) → ℕ → Bool
visible blocked id = not (marked blocked id)

filter_recap_people-keep_if :
    (people : List RecapPerson) (blocked : List (ℕ × Bool))
    → filter_recap_people people blocked ≡ keep_if (λ p. visible blocked p.user_id) people
unfolding filter_recap_people
filter_recap_people-keep_if [] blocked = refl
filter_recap_people-keep_if (p ∷ people) blocked =
    ground (arith, filter_recap_people-keep_if people blocked)

filter_recap_cards-keep_if :
    (cards : List RecapCard) (blocked : List (ℕ × Bool))
    → filter_recap_cards cards blocked ≡ keep_if (λ c. visible blocked c.author_id) cards
unfolding filter_recap_cards
filter_recap_cards-keep_if [] blocked = refl
filter_recap_cards-keep_if (c ∷ cards) blocked =
    ground (arith, filter_recap_cards-keep_if cards blocked)

filter_recap_awards-keep_if :
    (awards : List RecapAward) (blocked : List (ℕ × Bool))
    → filter_recap_awards awards blocked ≡ keep_if (λ a. visible blocked a.user_id) awards
unfolding filter_recap_awards
filter_recap_awards-keep_if [] blocked = refl
filter_recap_awards-keep_if (a ∷ awards) blocked =
    ground (arith, filter_recap_awards-keep_if awards blocked)

All-keep_if {ℓ} : {A : Type ℓ} (p : A → Bool) (xs : List A) → All (λ x. p x ≡ true) (keep_if p xs)
All-keep_if p [] = tt
All-keep_if p (x ∷ xs) = elim (Bool-cases (p x)) [
  | inl e ↦ rw e (e, All-keep_if p xs)
  | inr e ↦ rw e (All-keep_if p xs)
]

All-keep_if_of {ℓ} :
    {A : Type ℓ} (P : A → Type 0) (p : A → Bool) (xs : List A) → All P xs → All P (keep_if p xs)
All-keep_if_of P p [] h = tt
All-keep_if_of P p (x ∷ xs) h = elim (Bool-cases (p x)) [
  | inl e ↦ rw e (h.0, All-keep_if_of P p xs h.1)
  | inr e ↦ rw e (All-keep_if_of P p xs h.1)
]

keep_if-every {ℓ} :
    {A : Type ℓ} (p : A → Bool) (xs : List A) → All (λ x. p x ≡ true) xs → keep_if p xs ≡ xs
keep_if-every p [] h = refl
keep_if-every p (x ∷ xs) h = ground (arith, h.0, keep_if-every p xs h.1)

sum_posts-sum_by :
    (n : ℕ) (people : List RecapPerson) → sum_posts n people ≡ n + sum_by (λ p. p.posts) people
unfolding sum_posts
sum_posts-sum_by n [] = omega arith
sum_posts-sum_by n (p ∷ people) = omega (arith, sum_posts-sum_by (n + p.posts) people)

-- A page without the cards and the awards of the blocked.
abbrev pub strip : List (ℕ × Bool) → RecapPanel → RecapPanel
strip blocked q = record q {
  cards = keep_if (λ c. visible blocked c.author_id) q.cards;
  awards = keep_if (λ a. visible blocked a.user_id) q.awards;
}

abbrev pub has_content : RecapPanel → Bool
has_content q = not (length q.cards == 0 && length q.awards == 0)

filter_recap_panels-strip :
    (panels : List RecapPanel) (blocked : List (ℕ × Bool))
    → filter_recap_panels panels blocked ≡ keep_if has_content (map (strip blocked) panels)
unfolding filter_recap_panels
filter_recap_panels-strip [] blocked = refl
filter_recap_panels-strip (q ∷ panels) blocked = ground (
  arith,
  filter_recap_panels-strip panels blocked,
  filter_recap_cards-keep_if q.cards blocked,
  filter_recap_awards-keep_if q.awards blocked,
)

keep_if-true {ℓ} : {A : Type ℓ} (xs : List A) → keep_if (λ _. true) xs ≡ xs
keep_if-true [] = refl
keep_if-true (x ∷ xs) = ap (λ ys. x ∷ ys) (keep_if-true xs)

strip_none : (q : RecapPanel) → strip [] q ≡ q
strip_none q = ground (arith, keep_if-true q.cards, keep_if-true q.awards)

map-strip_none : (panels : List RecapPanel) → map (strip []) panels ≡ panels
map-strip_none [] = refl
map-strip_none (q ∷ panels) = ap₂ (λ x xs. x ∷ xs) (strip_none q) (map-strip_none panels)

All-kept {ℓ} :
    {A : Type ℓ} (P : A → Type 0) (p : A → Bool) (f : A → A) (xs : List A)
    → ((x : A) → P (f x))
    → All P (keep_if p (map f xs))
All-kept P p f [] h = tt
All-kept P p f (x ∷ xs) h = elim (Bool-cases (p (f x))) [
  | inl e ↦ rw e (h x, All-kept P p f xs h)
  | inr e ↦ rw e (All-kept P p f xs h)
]

-- What a viewer is shown of a payload.
pub record Filtered (p : RecapPayload) (blocked : List (ℕ × Bool)) (q : RecapPayload) : Type 0 where
  pub people : q.people ≡ keep_if (λ x. visible blocked x.user_id) p.people
  pub panels : q.panels ≡ keep_if has_content (map (strip blocked) p.panels)
  pub people_hidden : All (λ x. visible blocked x.user_id ≡ true) q.people
  pub cards_hidden : All (λ s. All (λ c. visible blocked c.author_id ≡ true) s.cards) q.panels
  pub awards_hidden : All (λ s. All (λ a. visible blocked a.user_id ≡ true) s.awards) q.panels
  pub consistent : Consistent q
  pub others : q ≡ record p {
    people = q.people;
    panels = q.panels;
    stats = record p.stats { posts = q.stats.posts; posters = q.stats.posters };
  }

-- The rest of `Filtered` follows from the two lists and the numbers.
strip-Filtered :
    (p q : RecapPayload) (blocked : List (ℕ × Bool))
    → q.people ≡ keep_if (λ x. visible blocked x.user_id) p.people
    → q.panels ≡ keep_if has_content (map (strip blocked) p.panels)
    → Consistent q
    → q ≡ record p {
      people = q.people;
      panels = q.panels;
      stats = record p.stats { posts = q.stats.posts; posters = q.stats.posters };
    }
    → Filtered p blocked q
strip-Filtered p q blocked people panels consistent others = record {
  people = people;
  panels = panels;
  people_hidden =
      subst (All (λ x. visible blocked x.user_id ≡ true)) (sym people)
        (All-keep_if (λ x. visible blocked x.user_id) p.people);
  cards_hidden =
      subst (All (λ s. All (λ c. visible blocked c.author_id ≡ true) s.cards)) (sym panels) (
        All-kept (λ s. All (λ c. visible blocked c.author_id ≡ true) s.cards) has_content
          (strip blocked) p.panels (λ s. All-keep_if (λ c. visible blocked c.author_id) s.cards));
  awards_hidden =
      subst (All (λ s. All (λ a. visible blocked a.user_id ≡ true) s.awards)) (sym panels) (
        All-kept (λ s. All (λ a. visible blocked a.user_id ≡ true) s.awards) has_content
          (strip blocked) p.panels (λ s. All-keep_if (λ a. visible blocked a.user_id) s.awards));
  consistent = consistent;
  others = others;
}

has_content_iff : (q : RecapPanel) → (has_content q ≡ true) ↔ (1 ≤ length q.cards + length q.awards)
has_content_iff q = (λ h. ground (arith, h), λ h. ground (arith, h))

-- A viewer who has blocked somebody is shown of a consistent recap the people whom they have not blocked,
-- in their order, and of each page the cards and awards of such people, in their order; a page of which
-- nothing is left is gone. The numbers of what is shown agree again, and the period, the group and the
-- other numbers are as before. A viewer who has blocked nobody is shown the recap as it is.
pub filter_recap_for_viewer-Filtered :
    (p : RecapPayload) (blocked : List (ℕ × Bool))
    → Consistent p
    → Filtered p blocked (filter_recap_for_viewer p blocked)
unfolding filter_recap_for_viewer
filter_recap_for_viewer-Filtered p [] h =
    strip-Filtered p p [] (sym (keep_if-true p.people))
      (sym (
        ap (keep_if has_content) (map-strip_none p.panels)
        ∙ keep_if-every has_content p.panels (
            All-imp (λ q. 1 ≤ length q.cards + length q.awards) (λ q. has_content q ≡ true) p.panels
              (λ q k. (has_content_iff q).1 k) h.filled)))
      h refl
filter_recap_for_viewer-Filtered p (b ∷ bs) h =
    strip-Filtered p (filter_recap_for_viewer p (b ∷ bs)) (b ∷ bs) people panels
      (record {
        posts = omega (arith, sum_posts-sum_by 0 shown);
        posters = refl;
        active =
            subst (All (λ x. 1 ≤ x.posts)) (sym people) (
              All-keep_if_of (λ x. 1 ≤ x.posts) (λ x. visible (b ∷ bs) x.user_id) p.people
                h.active);
        filled = subst (All (λ q. 1 ≤ length q.cards + length q.awards)) (sym panels) (
            All-imp (λ q. has_content q ≡ true) (λ q. 1 ≤ length q.cards + length q.awards)
              (keep_if has_content (map (strip (b ∷ bs)) p.panels)) (λ q k. (has_content_iff q).0 k)
              (All-keep_if has_content (map (strip (b ∷ bs)) p.panels)));
      })
      refl
  where
    shown : List RecapPerson
    shown = filter_recap_people p.people (b ∷ bs)

    people : shown ≡ keep_if (λ x. visible (b ∷ bs) x.user_id) p.people
    people = filter_recap_people-keep_if p.people (b ∷ bs)

    panels :
        filter_recap_panels p.panels (b ∷ bs) ≡ keep_if has_content (map (strip (b ∷ bs)) p.panels)
    panels = filter_recap_panels-strip p.panels (b ∷ bs)

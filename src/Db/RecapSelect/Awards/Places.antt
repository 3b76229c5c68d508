-- ===== src/Db/RecapSelect/Awards/Places.antt =====
-- server/internal/db/recap_select.go: the rank of a member in an award is its place among the entries that
-- qualify.
use check_in.Prelude.{
  ℕ, ◌+◌, ◌≤◌, ◌≡◌, refl, ap, subst, ◌∙◌, Bool, true, false, ◌&&◌, ◌||◌, Option, none, some, List,
  [], ◌∷◌, ltb, ◌==◌, if◌then◌else◌, comparable_nat, arith, Bool-cases, Option-cases, inl, inr,
}
use check_in.Sorting.{
  All, All-imp, Ordered, IsOrder, one_if, count_by, find_by, sort_by, count_by-sort_by,
  find_by-sort_by, sort_by-Ordered,
}
use check_in.Db.RecapSelect.Awards.{
  AwardCandidate, AwardType, award_order, qualifying, award_ahead, Ranks, by_user, rank_awards,
  award_rankings, rank_of,
}

abbrev pub is_user : ℕ → AwardCandidate → Bool
is_user u c = c.user_id == u

-- An entry that qualifies, and one that beats another: its value is greater, or the same and its member has
-- the smaller id.
abbrev pub qualifies : AwardType → AwardCandidate → Bool
qualifies at c = (at.entry c).qualifies

abbrev pub beats : AwardType → AwardCandidate → AwardCandidate → Bool
beats at d c =
    ltb (at.entry c).value (at.entry d).value
    || ((at.entry d).value == (at.entry c).value && ltb d.user_id c.user_id)

-- The place of a member in an award: how many of the entries that qualify beat its own; none if its own does
-- not qualify.
abbrev pub place_among : AwardType → List AwardCandidate → Option AwardCandidate → Option ℕ
place_among at cs none = none
place_among at cs (some c) = some (count_by (λ d. qualifies at d && beats at d c) cs)

abbrev pub place_in : AwardType → List AwardCandidate → ℕ → Option ℕ
place_in at cs u = place_among at cs (find_by (λ c. is_user u c && qualifies at c) cs)

-- No two candidates are of one member.
abbrev pub AreDistinct : List AwardCandidate → Type 0
AreDistinct cs = (u : ℕ) → count_by (is_user u) cs ≤ 1

-- The index of a member, from `i` on.
abbrev index : ℕ → List AwardCandidate → ℕ → Option ℕ
index i [] u = none
index i (c ∷ cs) u = if c.user_id == u then some i else index (i + 1) cs u

by_user-index :
    (m : Ranks) (i : ℕ) (cs : List AwardCandidate) (u : ℕ)
    → count_by (is_user u) cs ≤ 1
    → by_user m i cs u ≡ (if ltb 0 (count_by (is_user u) cs) then index i cs u else m u)
unfolding by_user
by_user-index m i [] u h = refl
by_user-index m i (c ∷ cs) u h =
    by_user-index (λ v. if c.user_id == v then some i else m v) (i + 1) cs u (omega (arith, h))
    ∙ (elim (Bool-cases (c.user_id == u)) [
      | inl e ↦ ground (arith, e, h)
      | inr e ↦ ground (arith, e, h)
    ])

index-none :
    (i : ℕ) (cs : List AwardCandidate) (u : ℕ) → count_by (is_user u) cs ≡ 0 → index i cs u ≡ none
index-none i [] u h = refl
index-none i (c ∷ cs) u h = ground (arith, h, index-none (i + 1) cs u (ground (arith, h)))

abbrev Holds : (AwardCandidate → Type 0) → Option AwardCandidate → Type 0
Holds P none = Unit
Holds P (some c) = P c

find_by-Holds :
    (P : AwardCandidate → Type 0) (p : AwardCandidate → Bool) (cs : List AwardCandidate)
    → All P cs
    → Holds P (find_by p cs)
find_by-Holds P p [] a = tt
find_by-Holds P p (d ∷ cs) a = elim (Bool-cases (p d)) [
  | inl q ↦ rw q a.0
  | inr q ↦ rw q (find_by-Holds P p cs a.1)
]

find_by_passes :
    (p : AwardCandidate → Bool) (cs : List AwardCandidate) → Holds (λ c. p c ≡ true) (find_by p cs)
find_by_passes p [] = tt
find_by_passes p (d ∷ cs) = elim (Bool-cases (p d)) [
  | inl q ↦ rw q q
  | inr q ↦ rw q (find_by_passes p cs)
]

module _ (at : AwardType) where
  none_ahead :
      (c : AwardCandidate) (cs : List AwardCandidate)
      → All (λ d. award_ahead at d c ≡ false) cs
      → count_by (λ d. award_ahead at d c) cs ≡ 0
  none_ahead c [] a = refl
  none_ahead c (d ∷ cs) a = ground (arith, a.0, none_ahead c cs a.1)

  ahead_or_behind :
      (c d : AwardCandidate)
      → award_ahead at c d ≡ false
      → (d.user_id == c.user_id) ≡ false
      → award_ahead at d c ≡ true
  unfolding award_ahead
  ahead_or_behind c d h k = ground (arith, h, k)

  ahead_of_self : (c : AwardCandidate) → award_ahead at c c ≡ false
  unfolding award_ahead
  ahead_of_self c = ground arith

  ahead_beats : (d c : AwardCandidate) → award_ahead at d c ≡ beats at d c
  unfolding award_ahead
  ahead_beats d c = ground arith

  award_ahead-IsOrder : IsOrder (award_ahead at)
  unfolding award_ahead
  award_ahead-IsOrder = record { asym = λ x y h. ground arith; trans = λ x y z h k. ground arith }

  -- In order, the index of a member is the number of the entries ahead of its own.
  index-count_by :
      (i : ℕ) (cs : List AwardCandidate) (u : ℕ) (c : AwardCandidate)
      → Ordered (award_ahead at) cs
      → find_by (is_user u) cs ≡ some c
      → index i cs u ≡ some (i + count_by (λ d. award_ahead at d c) cs)
  index-count_by i [] u c o e = cc
  index-count_by i (d ∷ cs) u c o e = elim (Bool-cases (d.user_id == u)) [
    | inl q ↦
        let here : ◌≡◌ {A = Option AwardCandidate} (some d) (some c) = ground (arith, q, e) in
        subst (Counted i (d ∷ cs) u) here (ground (arith, q, ahead_of_self d, none_ahead d cs o.0))
    | inr q ↦
        let rest : find_by (is_user u) cs ≡ some c = ground (arith, q, e) in
        let behind : award_ahead at c d ≡ false =
          subst (Holds (λ y. award_ahead at y d ≡ false)) rest
            (find_by-Holds (λ y. award_ahead at y d ≡ false) (is_user u) cs o.0) in
        let own : (c.user_id == u) ≡ true =
          subst (Holds (λ y. (y.user_id == u) ≡ true)) rest (find_by_passes (is_user u) cs) in
        let other : (d.user_id == c.user_id) ≡ false = ground (arith, q, own) in
        ground (arith, q, ahead_or_behind c d behind other, index-count_by (i + 1) cs u c o.1 rest)
  ]
    where
      Counted : ℕ → List AwardCandidate → ℕ → Option AwardCandidate → Type 0
      Counted i cs u none = Unit
      Counted i cs u (some c) = index i cs u ≡ some (i + count_by (λ d. award_ahead at d c) cs)

  count_by-qualifying :
      (p : AwardCandidate → Bool) (cs : List AwardCandidate)
      → count_by p (qualifying at cs) ≡ count_by (λ c. qualifies at c && p c) cs
  unfolding qualifying
  count_by-qualifying p [] = refl
  count_by-qualifying p (c ∷ cs) = ground (arith, count_by-qualifying p cs)

  find_by-qualifying :
      (p : AwardCandidate → Bool) (cs : List AwardCandidate)
      → find_by p (qualifying at cs) ≡ find_by (λ c. p c && qualifies at c) cs
  unfolding qualifying
  find_by-qualifying p [] = refl
  find_by-qualifying p (c ∷ cs) = elim (Bool-cases (qualifies at c)) [
    | inl q ↦
        rw q
          (elim (Bool-cases (p c)) [ inl h ↦ rw h refl | inr h ↦ rw h (find_by-qualifying p cs) ])
    | inr q ↦ rw q (elim (Bool-cases (p c)) [
      | inl h ↦ rw h (find_by-qualifying p cs)
      | inr h ↦ rw h (find_by-qualifying p cs)
    ])
  ]

  count_by-beats :
      (c : AwardCandidate) (cs : List AwardCandidate)
      → count_by (λ d. qualifies at d && award_ahead at d c) cs
        ≡ count_by (λ d. qualifies at d && beats at d c) cs
  count_by-beats c [] = refl
  count_by-beats c (d ∷ cs) =
      rw (ahead_beats d c)
        (ap (λ n. one_if (qualifies at d && beats at d c) + n) (count_by-beats c cs))

  fewer_qualify :
      (p : AwardCandidate → Bool) (cs : List AwardCandidate)
      → count_by (λ c. qualifies at c && p c) cs ≤ count_by p cs
  fewer_qualify p [] = omega arith
  fewer_qualify p (c ∷ cs) = ground (arith, fewer_qualify p cs)

index-find_none :
    (i : ℕ) (cs : List AwardCandidate) (u : ℕ) → find_by (is_user u) cs ≡ none → index i cs u ≡ none
index-find_none i [] u e = refl
index-find_none i (c ∷ cs) u e = elim (Bool-cases (c.user_id == u)) [
  | inl q ↦ absurd (ground (arith, q, e))
  | inr q ↦ ground (arith, q, index-find_none (i + 1) cs u (ground (arith, q, e)))
]

find_by-count :
    (p : AwardCandidate → Bool) (cs : List AwardCandidate) (c : AwardCandidate)
    → find_by p cs ≡ some c
    → 1 ≤ count_by p cs
find_by-count p [] c e = cc
find_by-count p (d ∷ cs) c e = elim (Bool-cases (p d)) [
  | inl q ↦ ground (arith, q)
  | inr q ↦ ground (arith, q, find_by-count p cs c (ground (arith, q, e)))
]

-- The rank that the sorted entries give a member is its place.
by_user-place_in :
    (at : AwardType) (cs : List AwardCandidate) (u : ℕ)
    → AreDistinct cs
    → by_user (λ _. none) 0 (sort_by (award_ahead at) (qualifying at cs)) u ≡ place_in at cs u
by_user-place_in at cs u h =
    let less = award_ahead at in
    let q : List AwardCandidate = qualifying at cs in
    let sorted : List AwardCandidate = sort_by less q in
    let one : count_by (is_user u) q ≤ 1 =
      omega (arith, count_by-qualifying at (is_user u) cs, fewer_qualify at (is_user u) cs, h u) in
    let one_sorted : count_by (is_user u) sorted ≤ 1 =
      omega (arith, one, count_by-sort_by less (is_user u) q) in
    let found : find_by (is_user u) sorted ≡ find_by (λ c. is_user u c && qualifies at c) cs =
      find_by-sort_by less (is_user u) q one ∙ find_by-qualifying at (is_user u) cs in
    by_user-index (λ _. none) 0 sorted u one_sorted
    ∙ (elim (Option-cases (find_by (λ c. is_user u c && qualifies at c) cs)) [
      | inl e ↦
          rw (e, index-find_none 0 sorted u (found ∙ e))
            (either (ltb 0 (count_by (is_user u) sorted)))
      | inr (c, e) ↦
          let place =
            index-count_by at 0 sorted u c (sort_by-Ordered less (award_ahead-IsOrder at) q)
              (found ∙ e) in
          let there = find_by-count (is_user u) sorted c (found ∙ e) in
          let ahead =
            count_by-sort_by less (λ d. less d c) q
            ∙ count_by-qualifying at (λ d. less d c) cs
            ∙ count_by-beats at c cs in
          ground (arith, e, place, there, ahead)
    ])
  where
    either : (b : Bool) → ◌≡◌ {A = Option ℕ} (if b then none else none) none
    either true = refl
    either false = refl

award_rankings-by_user :
    (cs : List AwardCandidate) (u : ℕ)
    → All
        (λ at.
          rank_of (award_rankings cs) at.id u
          ≡ by_user (λ _. none) 0 (sort_by (award_ahead at) (qualifying at cs)) u)
        award_order
unfolding award_rankings rank_awards
award_rankings-by_user cs u =
    (refl, (refl, (refl, (refl, (refl, (refl, (refl, (refl, (refl, tt)))))))))

-- Every award of the order ranks a member by its place.
pub rank_of-place_in :
    (cs : List AwardCandidate) (u : ℕ)
    → AreDistinct cs
    → All (λ at. rank_of (award_rankings cs) at.id u ≡ place_in at cs u) award_order
rank_of-place_in cs u h =
    All-imp
      (λ at.
        rank_of (award_rankings cs) at.id u
        ≡ by_user (λ _. none) 0 (sort_by (award_ahead at) (qualifying at cs)) u)
      (λ at. rank_of (award_rankings cs) at.id u ≡ place_in at cs u) award_order
      (λ at e. e ∙ by_user-place_in at cs u h) (award_rankings-by_user cs u)

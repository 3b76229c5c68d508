-- ===== src/Db/Recap/Post/Once.antt =====
-- server/internal/db/recap.go: CreateRecapPost posts a recap once.
use Prim.Native.String.{String}
use check_in.Prelude.{
  ℕ, ◌+◌, ◌≤◌, ◌<◌, ◌≡◌, refl, subst₂, Bool, true, not, ◌&&◌, ◌||◌, Option, none, some, List, [],
  ◌∷◌, ltb, ◌==◌, if◌then◌else◌, arith, comparable_nat, comparable_text, Bool-cases, inl, inr,
}
use check_in.Slice.{Bytes}
use check_in.Sorting.{All, All-append, All-imp, count_by, count_by-append, keep_if}
use check_in.Db.Recap.{RecapSpec, RecapPanel}
use check_in.Db.Recap.Post.{
  RecapRow, Tables, Faults, sorted_panel_types, is_scheduled, find_recap_duplicate, delete_post,
  row_of, insert_recap, is_given, replace_recap, create_recap_post,
}

abbrev pub is_post : ℕ → ℕ → Bool
is_post id p = p == id

abbrev pub is_recap_of : ℕ → RecapRow → Bool
is_recap_of id r = r.post_id == id

-- Every post has its own id, below the next one; every recap is of one post, and of another one than the
-- other recaps; and there is at most one scheduled recap of a cadence and a start.
pub record IsSound (t : Tables) : Type 0 where
  pub posts_given : All (λ p. p < t.next_id) t.posts
  pub recaps_given : All (λ r. r.post_id < t.next_id) t.recaps
  pub ids_once : (id : ℕ) → count_by (is_post id) t.posts ≤ 1
  pub of_posts : (id : ℕ) → count_by (is_recap_of id) t.recaps ≤ count_by (is_post id) t.posts
  pub once : (cadence : String) (start : ℕ) → count_by (is_scheduled cadence start) t.recaps ≤ 1

count_by-keep_if-le {ℓ} :
    {A : Type ℓ} (p q : A → Bool) (xs : List A) → count_by p (keep_if q xs) ≤ count_by p xs
count_by-keep_if-le p q [] = omega arith
count_by-keep_if-le p q (x ∷ xs) = ground (arith, count_by-keep_if-le p q xs)

-- What is left of a test that a value passes or fails when the entries with another value are removed.
count_by-keep_if {ℓ} :
    {A : Type ℓ} (value : A → ℕ) (id j : ℕ) (xs : List A)
    → count_by (λ x. value x == j) (keep_if (λ x. not (value x == id)) xs)
      ≡ (if j == id then 0 else count_by (λ x. value x == j) xs)
count_by-keep_if value id j [] = ground arith
count_by-keep_if value id j (x ∷ xs) = ground (arith, count_by-keep_if value id j xs)

-- A value that is above all others is that of no entry.
count_by-fresh {ℓ} :
    {A : Type ℓ} (value : A → ℕ) (n : ℕ) (xs : List A)
    → All (λ x. value x < n) xs
    → count_by (λ x. value x == n) xs ≡ 0
count_by-fresh value n [] h = refl
count_by-fresh value n (x ∷ xs) h = ground (arith, h, count_by-fresh value n xs h.1)

All-keep_if {ℓ} :
    {A : Type ℓ} (P : A → Type 0) (q : A → Bool) (xs : List A) → All P xs → All P (keep_if q xs)
All-keep_if P q [] h = tt
All-keep_if P q (x ∷ xs) h = elim (Bool-cases (q x)) [
  | inl e ↦ rw e (h.0, All-keep_if P q xs h.1)
  | inr e ↦ rw e (All-keep_if P q xs h.1)
]

delete_post-IsSound :
    (replace : Option ℕ) (t : Tables) → IsSound t → IsSound (delete_post replace t)
unfolding delete_post
delete_post-IsSound none t h = h
delete_post-IsSound (some id) t h = record {
  posts_given = All-keep_if (λ p. p < t.next_id) (λ p. not (p == id)) t.posts h.posts_given;
  recaps_given =
      All-keep_if (λ r. r.post_id < t.next_id) (λ r. not (r.post_id == id)) t.recaps h.recaps_given;
  ids_once = λ j. ground (arith, h.ids_once j, count_by-keep_if (λ (p : ℕ). p) id j t.posts);
  of_posts = λ j. ground (
    arith,
    h.of_posts j,
    count_by-keep_if (λ (p : ℕ). p) id j t.posts,
    count_by-keep_if (λ (r : RecapRow). r.post_id) id j t.recaps,
  );
  once = λ cadence start. omega (
    arith,
    h.once cadence start,
    count_by-keep_if-le (is_scheduled cadence start) (λ (r : RecapRow). not (r.post_id == id))
        t.recaps,
  );
}

delete_post-count :
    (replace : Option ℕ) (t : Tables) (cadence : String) (start : ℕ)
    → count_by (is_scheduled cadence start) (delete_post replace t).recaps
      ≤ count_by (is_scheduled cadence start) t.recaps
unfolding delete_post
delete_post-count none t cadence start = omega arith
delete_post-count (some id) t cadence start =
    count_by-keep_if-le (is_scheduled cadence start) (λ r. not (r.post_id == id)) t.recaps

-- The new row is of no other key than its own.
row_of-is_scheduled :
    (spec : RecapSpec) (panels : List Bytes) (now id start : ℕ) (cadence : String)
    → is_scheduled cadence start (row_of spec panels now id) ≡ true
    → (spec.cadence ≡ cadence) × (spec.period_start ≡ start) × ((spec.origin == "scheduled") ≡ true)
row_of-is_scheduled spec panels now id start cadence h =
    ground (arith, h, comparable_text.same_iff spec.cadence cadence)

insert_recap-IsSound :
    (spec : RecapSpec) (panels : List Bytes) (now : ℕ) (t : Tables)
    → IsSound t
    → ((spec.origin == "scheduled") ≡ true
        → count_by (is_scheduled spec.cadence spec.period_start) t.recaps ≡ 0)
    → IsSound (insert_recap spec panels now t)
unfolding insert_recap
insert_recap-IsSound spec panels now t h new = record {
  posts_given =
      All-append (λ p. p < t.next_id + 1) t.posts (t.next_id ∷ [])
        (All-imp (λ p. p < t.next_id) (λ p. p < t.next_id + 1) t.posts (λ p k. omega arith)
          h.posts_given)
        (omega arith, tt);
  recaps_given =
      All-append (λ r. r.post_id < t.next_id + 1) t.recaps (row_of spec panels now t.next_id ∷ [])
        (All-imp (λ r. r.post_id < t.next_id) (λ r. r.post_id < t.next_id + 1) t.recaps
          (λ r k. omega arith) h.recaps_given)
        (omega arith, tt);
  ids_once = λ j. ground (
    arith,
    h.ids_once j,
    count_by-fresh (λ (p : ℕ). p) t.next_id t.posts h.posts_given,
    count_by-append (is_post j) t.posts (t.next_id ∷ []),
  );
  of_posts = λ j. ground (
    arith,
    h.of_posts j,
    count_by-append (is_post j) t.posts (t.next_id ∷ []),
    count_by-append (is_recap_of j) t.recaps (row_of spec panels now t.next_id ∷ []),
  );
  once = λ cadence start.
      elim (Bool-cases (is_scheduled cadence start (row_of spec panels now t.next_id))) [
        | inl e ↦
            let key = row_of-is_scheduled spec panels now t.next_id start cadence e in
            let none_before : count_by (is_scheduled cadence start) t.recaps ≡ 0 =
              subst₂ (λ c n. count_by (is_scheduled c n) t.recaps ≡ 0) key.0 key.1 (new key.2) in
            ground (
              arith,
              e,
              none_before,
              count_by-append (is_scheduled cadence start) t.recaps
                  (row_of spec panels now t.next_id ∷ []),
            )
        | inr e ↦ ground (
          arith,
          e,
          h.once cadence start,
          count_by-append (is_scheduled cadence start) t.recaps
              (row_of spec panels now t.next_id ∷ []),
        )
      ];
}

-- A scheduled recap is not found only where there is none of its cadence and its start.
pub find_recap_duplicate-scheduled :
    (spec : RecapSpec) (panels : List Bytes) (rows : List RecapRow)
    → (spec.origin == "scheduled") ≡ true
    → find_recap_duplicate spec panels rows
      ≡ (ltb 0 (count_by (is_scheduled spec.cadence spec.period_start) rows), 0)
unfolding find_recap_duplicate
find_recap_duplicate-scheduled spec panels rows e = rw e refl

replace_recap-IsSound :
    (faults : Faults) (now : ℕ) (spec : RecapSpec) (panels : List Bytes) (replace : Option ℕ)
    (t : Tables)
    → IsSound t
    → ((spec.origin == "scheduled") ≡ true
        → count_by (is_scheduled spec.cadence spec.period_start) t.recaps ≡ 0)
    → IsSound (replace_recap faults now spec panels replace t).1
unfolding replace_recap
replace_recap-IsSound faults now spec panels replace t h new =
    elim (Bool-cases (
      (is_given replace && faults.delete)
      || (faults.insert_post || (faults.marshal || (faults.insert_recap || faults.commit))))) [
        | inl e ↦ rw e h
        | inr e ↦ rw e (
            insert_recap-IsSound spec panels now (delete_post replace t)
              (delete_post-IsSound replace t h)
              (λ k.
                omega (arith, new k, delete_post-count replace t spec.cadence spec.period_start)))
      ]

-- Whatever calls fail, and whatever is replaced, CreateRecapPost keeps the tables sound: no two posts have
-- one id, and every id is below the next one; no two recaps are of one post, and none is of a post that is
-- not there; and there is at most one scheduled recap of each cadence and start.
pub create_recap_post-IsSound :
    (faults : Faults) (now : ℕ) (spec : RecapSpec) (panels : List RecapPanel) (replace : Option ℕ)
    (t : Tables)
    → IsSound t
    → IsSound (create_recap_post faults now spec panels replace t).1
unfolding create_recap_post
create_recap_post-IsSound faults now spec panels replace t h =
    let found = find_recap_duplicate spec (sorted_panel_types panels) t.recaps in
    elim (Bool-cases (faults.begin || (faults.lock || faults.find))) [
      | inl e ↦ rw e h
      | inr e ↦
          rw e
            (elim (Bool-cases (found.0 && (spec.origin == "scheduled" || not (is_given replace)))) [
              | inl d ↦ rw d h
              | inr d ↦ rw d (
                  replace_recap-IsSound faults now spec (sorted_panel_types panels) replace t h
                    (λ k. ground (
                      arith,
                      k,
                      d,
                      find_recap_duplicate-scheduled spec (sorted_panel_types panels) t.recaps k,
                    )))
            ])
    ]

-- ===== src/Db/Recap/Post/Twice.antt =====
-- server/internal/db/recap.go: CreateRecapPost finds the recap that it has posted.
use Prim.Native.String.{String}
use check_in.Prelude.{
  ℕ, ◌≡◌, refl, ap, ◌∙◌, sym, subst, Bool, true, false, ◌||◌, Option, none, some, List, [], ◌∷◌,
  ◌++◌, ◌==◌, if◌then◌else◌, arith, comparable_nat, comparable_text, Bool-cases, inl, inr, ◌⊎◌,
  length,
}
use check_in.Slice.{Bytes}
use check_in.Maps.{bytes_eq_iff}
use check_in.Sorting.{count_by-append, keep_if, keep_if-append, sort_by, length-sort_by}
use check_in.Db.Recap.{RecapSpec, RecapPanel, Created}
use check_in.Db.Recap.Post.{
  RecapRow, Tables, Faults, sorted_panel_types, same_panels, is_scheduled, is_manual, newer,
  first_post, found_manual, find_recap_duplicate, delete_post, row_of, insert_recap, replace_recap,
  create_recap_post,
}
use check_in.Db.Recap.Post.Once.{find_recap_duplicate-scheduled}

same_panels_refl : (ps : List Bytes) → same_panels ps ps ≡ true
same_panels_refl [] = refl
same_panels_refl (p ∷ ps) = ground (arith, bytes_eq_iff p p, same_panels_refl ps)

first_post_none : (rows : List RecapRow) → (found_manual (first_post rows)).0 ≡ false → rows ≡ []
first_post_none [] h = refl
first_post_none (r ∷ rows) h = cc

sort_none : (rows : List RecapRow) → sort_by newer rows ≡ [] → rows ≡ []
sort_none [] h = refl
sort_none (r ∷ rows) h =
    absurd
      (omega (arith, ap (λ (xs : List RecapRow). length xs) h, length-sort_by newer (r ∷ rows)))

find_recap_duplicate-manual :
    (spec : RecapSpec) (panels : List Bytes) (rows : List RecapRow)
    → (spec.origin == "scheduled") ≡ false
    → find_recap_duplicate spec panels rows
      ≡ found_manual (
          first_post
            (sort_by newer (keep_if (is_manual spec.period_start spec.period_end panels) rows)))
unfolding find_recap_duplicate
find_recap_duplicate-manual spec panels rows e = rw e refl

row_of-is_manual :
    (spec : RecapSpec) (panels : List Bytes) (now id : ℕ)
    → (spec.origin == "manual") ≡ true
    → is_manual spec.period_start spec.period_end panels (row_of spec panels now id) ≡ true
row_of-is_manual spec panels now id e = ground (arith, e, same_panels_refl panels)

-- A recap that was not found is found once its row is there.
find_recap_duplicate-row_of :
    (spec : RecapSpec) (panels : List Bytes) (now id : ℕ) (rows : List RecapRow)
    → (spec.origin ≡ "scheduled") ⊎ (spec.origin ≡ "manual")
    → (find_recap_duplicate spec panels rows).0 ≡ false
    → find_recap_duplicate spec panels (rows ++ row_of spec panels now id ∷ [])
      ≡ (true, if spec.origin == "scheduled" then 0 else id)
unfolding sort_by
find_recap_duplicate-row_of spec panels now id rows (inl e) h =
    let s : (spec.origin == "scheduled") ≡ true =
      (comparable_text.same_iff spec.origin "scheduled").1 e in
    ground (
      arith,
      s,
      find_recap_duplicate-scheduled spec panels (rows ++ row_of spec panels now id ∷ []) s,
      count_by-append (is_scheduled spec.cadence spec.period_start) rows
          (row_of spec panels now id ∷ []),
      comparable_text.same_iff spec.cadence spec.cadence,
    )
find_recap_duplicate-row_of spec panels now id rows (inr e) h =
    find_recap_duplicate-manual spec panels (rows ++ row ∷ []) other
    ∙ ap (λ xs. found_manual (first_post (sort_by newer xs))) only
    ∙ rw other refl
  where
    row : RecapRow
    row = row_of spec panels now id

    other : (spec.origin == "scheduled") ≡ false
    other = subst (λ (o : String). (o == "scheduled") ≡ false) (sym e) refl

    selects : RecapRow → Bool
    selects = is_manual spec.period_start spec.period_end panels

    before : keep_if selects rows ≡ []
    before = sort_none (keep_if selects rows) (
        first_post_none (sort_by newer (keep_if selects rows)) (
          ap (λ (r : Bool × ℕ). r.0) (sym (find_recap_duplicate-manual spec panels rows other))
          ∙ h))

    here : selects row ≡ true
    here = row_of-is_manual spec panels now id ((comparable_text.same_iff spec.origin "manual").1 e)

    only : keep_if selects (rows ++ row ∷ []) ≡ row ∷ []
    only = ground (arith, before, here, keep_if-append selects rows (row ∷ []))

-- What a call that posts has done, where nothing is to be replaced.
create_recap_post_made :
    (faults : Faults) (now : ℕ) (spec : RecapSpec) (panels : List RecapPanel) (t : Tables)
    (c : Created)
    → (create_recap_post faults now spec panels none t).0 ≡ some c
    → c.inserted ≡ true
    → ((find_recap_duplicate spec (sorted_panel_types panels) t.recaps).0 ≡ false)
      × (c.post_id ≡ t.next_id)
      × ((create_recap_post faults now spec panels none t).1
          ≡ insert_recap spec (sorted_panel_types panels) now t)
unfolding create_recap_post replace_recap delete_post
create_recap_post_made faults now spec panels t c h k = ground (arith, h, k)

-- What a call says where the recap is found and nothing is to be replaced.
create_recap_post_found :
    (faults : Faults) (now id : ℕ) (spec : RecapSpec) (panels : List RecapPanel) (t : Tables)
    → find_recap_duplicate spec (sorted_panel_types panels) t.recaps ≡ (true, id)
    → ((create_recap_post faults now spec panels none t).1 ≡ t)
      × (((create_recap_post faults now spec panels none t).0 ≡ none)
          ⊎ ((create_recap_post faults now spec panels none t).0
              ≡ some (record { post_id = 0; inserted = false; conflict_id = id })))
unfolding create_recap_post
create_recap_post_found faults now id spec panels t h =
    elim (Bool-cases (faults.begin || (faults.lock || faults.find))) [
      | inl e ↦ rw e (refl, inl refl)
      | inr e ↦ ground (arith, e, h)
    ]

-- What a call leaves, and what it reports, where a recap has been posted.
abbrev pub Repeated : RecapSpec → ℕ → Tables → Option Created × Tables → Type 0
Repeated spec posted t result =
    (result.1 ≡ t)
    × ((result.0 ≡ none)
        ⊎ (result.0
            ≡ some (record {
              post_id = 0;
              inserted = false;
              conflict_id = if spec.origin == "scheduled" then 0 else posted;
            })))

-- Where a call that replaces nothing has posted a recap, scheduled or manual, a second call for the same
-- recap, at whatever time and whatever fails, leaves the tables as they are: it returns an error or
-- reports that nothing was inserted, and for a manual recap it names the post that the first call made.
pub create_recap_post_twice :
    (faults faults' : Faults) (now now' : ℕ) (spec : RecapSpec) (panels : List RecapPanel)
    (t : Tables) (c : Created)
    → (spec.origin ≡ "scheduled") ⊎ (spec.origin ≡ "manual")
    → (create_recap_post faults now spec panels none t).0 ≡ some c
    → c.inserted ≡ true
    → Repeated spec c.post_id (create_recap_post faults now spec panels none t).1 (
        create_recap_post faults' now' spec panels none
          (create_recap_post faults now spec panels none t).1)
unfolding insert_recap
create_recap_post_twice faults faults' now now' spec panels t c origin h k =
    let made = create_recap_post_made faults now spec panels t c h k in
    rw (made.2, made.1)
      (create_recap_post_found faults' now' (if spec.origin == "scheduled" then 0 else t.next_id)
        spec panels (insert_recap spec (sorted_panel_types panels) now t)
        (find_recap_duplicate-row_of spec (sorted_panel_types panels) now t.next_id t.recaps origin
          made.0))

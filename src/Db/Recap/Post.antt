-- ===== src/Db/Recap/Post.antt =====
-- server/internal/db/recap.go: CreateRecapPost, on the rows of the tables posts and recaps.
--
-- A transaction holds the advisory lock of its recap to its end, so it is one step on the tables; the
-- lock's key and the caption of the post are left out. Faults says which of its calls fail, and a
-- transaction that does not commit leaves the tables as they were. A post is its id here, and the id that
-- the database gives a new post is one above those that it has given.
pub mod Once
pub mod Twice
use Prim.Native.String.{String}
use check_in.Prelude.{
  ℕ, ◌+◌, Bool, true, false, not, ◌&&◌, ◌||◌, Option, none, some, List, [], ◌∷◌, ◌++◌, ltb, ◌==◌,
  map, if◌then◌else◌, comparable_nat, comparable_text,
}
use check_in.Slice.{Bytes, bytes_eq}
use check_in.Maps.{bytes_lt}
use check_in.Sorting.{sort_by, keep_if, count_by}
use check_in.Db.Recap.{RecapSpec, RecapPanel, Created}

-- A row of recaps but for its payload.
pub record RecapRow : Type 0 where
  pub post_id : ℕ
  pub cadence : String
  pub origin : String
  pub period_start : ℕ
  pub period_end : ℕ
  pub panels : List Bytes
  pub created_at : ℕ

pub record Tables : Type 0 where
  pub posts : List ℕ
  pub recaps : List RecapRow
  pub next_id : ℕ

pub record Faults : Type 0 where
  pub begin : Bool
  pub lock : Bool
  pub find : Bool
  pub delete : Bool
  pub insert_post : Bool
  pub marshal : Bool
  pub insert_recap : Bool
  pub commit : Bool

abbrev pub panel_types : List RecapPanel → List Bytes
panel_types [] = []
panel_types (p ∷ panels) = p.panel_type ∷ panel_types panels

unfoldable pub sorted_panel_types : List RecapPanel → List Bytes
sorted_panel_types panels = sort_by bytes_lt (panel_types panels)

abbrev pub same_panels : List Bytes → List Bytes → Bool
same_panels [] [] = true
same_panels [] (q ∷ qs) = false
same_panels (p ∷ ps) [] = false
same_panels (p ∷ ps) (q ∷ qs) = bytes_eq p q && same_panels ps qs

-- the rows that the two queries select
abbrev pub is_scheduled : String → ℕ → RecapRow → Bool
is_scheduled cadence start r =
    r.cadence == cadence && (r.period_start == start && r.origin == "scheduled")

abbrev pub is_manual : ℕ → ℕ → List Bytes → RecapRow → Bool
is_manual start end panels r =
    r.origin == "manual"
    && (r.period_start == start && (r.period_end == end && same_panels r.panels panels))

abbrev pub newer : RecapRow → RecapRow → Bool
newer r s = ltb s.created_at r.created_at

-- `LIMIT 1`
abbrev pub first_post : List RecapRow → Option ℕ
first_post [] = none
first_post (r ∷ rows) = some r.post_id

abbrev pub found_manual : Option ℕ → Bool × ℕ
found_manual none = (false, 0)
found_manual (some id) = (true, id)

unfoldable pub find_recap_duplicate : RecapSpec → List Bytes → List RecapRow → Bool × ℕ
find_recap_duplicate spec panels rows =
    if spec.origin == "scheduled"
    then (ltb 0 (count_by (is_scheduled spec.cadence spec.period_start) rows), 0)
    else found_manual (
        first_post
          (sort_by newer (keep_if (is_manual spec.period_start spec.period_end panels) rows)))

-- `DELETE FROM posts`, from which the rows of recaps follow
unfoldable pub delete_post : Option ℕ → Tables → Tables
delete_post none t = t
delete_post (some id) t = record t {
  posts = keep_if (λ p. not (p == id)) t.posts;
  recaps = keep_if (λ r. not (r.post_id == id)) t.recaps;
}

abbrev pub row_of : RecapSpec → List Bytes → ℕ → ℕ → RecapRow
row_of spec panels now id = record {
  post_id = id;
  cadence = spec.cadence;
  origin = spec.origin;
  period_start = spec.period_start;
  period_end = spec.period_end;
  panels = panels;
  created_at = now;
}

unfoldable pub insert_recap : RecapSpec → List Bytes → ℕ → Tables → Tables
insert_recap spec panels now t = record {
  posts = t.posts ++ t.next_id ∷ [];
  recaps = t.recaps ++ row_of spec panels now t.next_id ∷ [];
  next_id = t.next_id + 1;
}

abbrev pub is_given : Option ℕ → Bool
is_given none = false
is_given (some id) = true

-- What is left once the recap is known not to be there, or is to be replaced.
unfoldable pub replace_recap :
    Faults → ℕ → RecapSpec → List Bytes → Option ℕ → Tables → Option Created × Tables
unfolding delete_post insert_recap
replace_recap faults now spec panels replace t =
    if (is_given replace && faults.delete)
      || (faults.insert_post || (faults.marshal || (faults.insert_recap || faults.commit)))
    then (none, t)
    else (
      some (record { post_id = t.next_id; inserted = true; conflict_id = 0 }),
      insert_recap spec panels now (delete_post replace t),
    )

-- The answer is `none` where an error is returned.
unfoldable pub create_recap_post :
    Faults → ℕ → RecapSpec → List RecapPanel → Option ℕ → Tables → Option Created × Tables
create_recap_post faults now spec payload_panels replace t =
    let panels = sorted_panel_types payload_panels in
    let found = find_recap_duplicate spec panels t.recaps in
    if faults.begin || (faults.lock || faults.find)
    then (none, t)
    else if found.0 && (spec.origin == "scheduled" || not (is_given replace))
    then (some (record { post_id = 0; inserted = false; conflict_id = found.1 }), t)
    else replace_recap faults now spec panels replace t

-- ===== src/Db/Recap.antt =====
-- server/internal/db/recap.go and the payload of server/internal/db/models.go: the building of a recap.
--
-- What BuildRecap asks of the database arrives as the answers, where `none` is an error; time.Format
-- is a parameter, as the labels of periods.
pub mod Totals
pub mod Consistent
pub mod Viewer
pub mod Activity
pub mod Post
mod Tests
use Prim.Native.String.{String}
use text.Mathlib.Text.{starts_with}
use check_in.Prelude.{
  ℕ, ◌+◌, Bool, true, false, ◌||◌, Option, none, some, List, [], ◌∷◌, ◌++◌, ltb, ◌==◌,
  if◌then◌else◌, length, Result, NoError, ok, err, panic, out_of_fuel, ◌>>=◌, comparable_nat,
  comparable_text,
}
use check_in.Slice.{Bytes}
use check_in.Maps.{include, comparable_bytes}
use check_in.Db.RecapSelect.{RecapCandidate, RecapCard, select_collage_cards}
use check_in.Db.RecapSelect.People.{RecapPerson, recap_people}

pub record RecapSpec : Type 0 where
  pub period_start : ℕ
  pub period_end : ℕ
  pub panels : List Bytes
  pub cadence : String
  pub origin : String

pub record RecapPeriod : Type 0 where
  pub start : ℕ
  pub end : ℕ
  pub label : String
  pub cadence : String

pub record RecapGroup : Type 0 where
  pub name : String
  pub color : String

pub record RecapStats : Type 0 where
  pub posts : ℕ
  pub photos : ℕ
  pub clips : ℕ
  pub likes : ℕ
  pub comments : ℕ
  pub places : ℕ
  pub members : ℕ
  pub posters : ℕ

pub record RecapAward : Type 0 where
  pub id : String
  pub label : String
  pub user_id : ℕ
  pub user_name : String
  pub user_photo_id : Option ℕ
  pub value : String
  pub post_id : Option ℕ
  pub media_id : Option ℕ

pub record RecapPanel : Type 0 where
  pub panel_type : Bytes
  pub title : String
  pub cards : List RecapCard
  pub awards : List RecapAward

pub record RecapPayload : Type 0 where
  pub version : ℕ
  pub period : RecapPeriod
  pub group : RecapGroup
  pub stats : RecapStats
  pub panels : List RecapPanel
  pub people : List RecapPerson

-- What `BuildRecap` returns: a payload, `ErrRecapEmpty`, or another error.
pub data Built (Payload : Type 0) : Type 0 where
  built : Payload → Built Payload
  recap_empty build_failed : Built Payload

-- What `CreateRecapPost` returns but for its error.
pub record Created : Type 0 where
  pub post_id : ℕ
  pub inserted : Bool
  pub conflict_id : ℕ

abbrev pub recap_min_posts : ℕ
recap_min_posts = 3

abbrev pub recap_min_posters : ℕ
recap_min_posters = 2

abbrev pub collage_type : Bytes
collage_type = b'c' ∷ b'o' ∷ b'l' ∷ b'l' ∷ b'a' ∷ b'g' ∷ b'e' ∷ []

-- the keys of `posters`
unfoldable pub posters_of : List ℕ → List RecapCandidate → List ℕ
posters_of posters [] = posters
posters_of posters (c ∷ cs) = posters_of (include c.author_id posters) cs

-- One post in the loop of `recapStats`, with the keys of its maps.
pub record RecapTally : Type 0 where
  pub stats : RecapStats
  pub places : List String
  pub posters : List ℕ

abbrev pub count_media : RecapCandidate → RecapStats → RecapStats
count_media c s = elim c.media_id [
  | none ↦ s
  | some id ↦
      if starts_with c.mime "video/"
      then record s { clips = s.clips + 1 }
      else record s { photos = s.photos + 1 }
]

unfoldable pub tally_post : RecapTally → RecapCandidate → RecapTally
tally_post t c = record {
  stats = count_media c (record t.stats {
    likes = t.stats.likes + c.like_count;
    comments = t.stats.comments + c.comment_count;
  });
  places = if c.location == "" then t.places else include c.location t.places;
  posters = include c.author_id t.posters;
}

unfoldable pub tally_posts : RecapTally → List RecapCandidate → RecapTally
tally_posts t [] = t
tally_posts t (c ∷ cs) = tally_posts (tally_post t c) cs

abbrev pub no_tally : ℕ → ℕ → RecapTally
no_tally posts member_count = record {
  stats = record {
    posts = posts;
    photos = 0;
    clips = 0;
    likes = 0;
    comments = 0;
    places = 0;
    members = member_count;
    posters = 0;
  };
  places = [];
  posters = [];
}

unfoldable pub recap_stats : List RecapCandidate → ℕ → RecapStats
recap_stats candidates member_count =
    let t = tally_posts (no_tally (length candidates) member_count) candidates in
    record t.stats { places = length t.places; posters = length t.posters }

-- the page of the cards, where there are any
unfoldable pub add_collage : List RecapCard → List RecapPanel → List RecapPanel
add_collage [] panels = panels
add_collage (c ∷ cs) panels =
    panels
    ++ record { panel_type = collage_type; title = "The Wall"; cards = c ∷ cs; awards = [] } ∷ []

-- One panel that is asked for: `collage` is the only one that is known.
unfoldable pub add_panel :
    List RecapCandidate → ℕ → String → Bytes → List RecapPanel → List RecapPanel
add_panel candidates member_count cadence panel panels =
    if panel == collage_type
    then add_collage (select_collage_cards candidates member_count cadence) panels
    else panels

unfoldable pub add_panels :
    List RecapCandidate → ℕ → String → List Bytes → List RecapPanel → List RecapPanel
add_panels candidates member_count cadence [] panels = panels
add_panels candidates member_count cadence (p ∷ ps) panels =
    add_panels candidates member_count cadence ps
      (add_panel candidates member_count cadence p panels)

unfoldable pub payload_of :
    (String → ℕ → ℕ → String)
    → RecapSpec
    → String
    → String
    → ℕ
    → List RecapCandidate
    → List RecapPerson
    → RecapPayload
payload_of period_label spec group_name group_color member_count candidates people = record {
  version = 1;
  period = record {
    start = spec.period_start;
    end = spec.period_end;
    label = period_label spec.cadence spec.period_start spec.period_end;
    cadence = spec.cadence;
  };
  group = record { name = group_name; color = group_color };
  stats = recap_stats candidates member_count;
  panels = add_panels candidates member_count spec.cadence spec.panels [];
  people = people;
}

-- Behind the four reads.
unfoldable pub build_recap :
    (String → ℕ → ℕ → String)
    → RecapSpec
    → Option String
    → Option String
    → Option ℕ
    → Option (List RecapCandidate)
    → Result NoError (Built RecapPayload)
build_recap period_label spec none color members candidates = ok build_failed
build_recap period_label spec (some name) none members candidates = ok build_failed
build_recap period_label spec (some name) (some color) none candidates = ok build_failed
build_recap period_label spec (some name) (some color) (some members) none = ok build_failed
build_recap period_label spec (some name) (some color) (some members) (some cs) =
    if ltb (length cs) recap_min_posts || ltb (length (posters_of [] cs)) recap_min_posters
    then ok recap_empty
    else recap_people cs >>= λ people.
        ok (built (payload_of period_label spec name color members cs people))

-- ===== src/Api/Recap/Run/Tests.antt =====
-- server/internal/api/recap.go: tests, and the theorems at a concrete server.
use check_in.Prelude.{ℕ, ◌+◌, ◌*◌, ◌≡◌, refl, true, false, none, some, [], ◌∷◌, arith, pos}
use check_in.Clock.{day, hour}
use check_in.Api.{status, return}
use check_in.Api.Recap.{
  RecapSettings, recap_due_period, RequestTexts, GenerateRecapReq, RecapRequest, valid, collage,
  validate_recap_request,
}
use check_in.Api.Recap.Due.{IsWindow, recap_due_period-IsWindow}
use check_in.Db.Recap.{RecapSpec, built}
use check_in.Api.Recap.Run.{create, bestow, notify, RecapDb, run_recap_tick, handle_generate_recap}
use check_in.Api.Recap.Run.Ticks.{Ticked, run_recap_tick-Ticked}
use check_in.Api.Recap.Run.Requests.{Handled, handle_generate_recap-Handled}

-- Ten past nine in UTC on Monday, 31 August 2026.
abbrev monday : ℕ
monday = 63950202600000000000

abbrev weekly : RecapSettings
weekly = record { cadence = "weekly"; weekday = 1; hour = 11; offset = pos 120; since = 0 }

abbrev texts : RequestTexts
texts = record {
  trim_space = λ s. s;
  parse_time = λ s. elim s [ [] ↦ none | b ∷ bs ↦ some (b * day) ];
}

-- A database that holds 6 check-ins and makes post 40.
abbrev six : RecapDb ℕ ℕ ℕ
six = record {
  get_recap_settings = return (some weekly);
  recap_exists_for_period = λ cadence start. return (some false);
  count_recap_check_ins = λ start end. return (some 6);
  build_recap = λ spec. return (built 1);
  admin_user_id = return (some 7);
  create_recap_post = λ author spec payload old.
      return (some (record { post_id = 40; inserted = true; conflict_id = 0 }));
  bestow_titles = λ start end w. w + 1;
  find_manual_recap = λ start end panels. return (some (some 39));
  get_post = λ me id. return (some id);
}

abbrev request : GenerateRecapReq
request = record {
  period_start = 3 ∷ [];
  period_end = 5 ∷ [];
  panels = collage ∷ collage ∷ [];
  replace = true;
  bestow_titles = false;
}

abbrev accepted : RecapRequest
accepted = record {
  start = 3 * day;
  end = 5 * day;
  requested = collage ∷ [];
  sorted = collage ∷ [];
}

due_test : recap_due_period weekly monday ≡ some (63949597200000000000, 63950202000000000000)
unfolding recap_due_period
due_test = refl

accepted_test : validate_recap_request texts request ≡ valid accepted
unfolding validate_recap_request
accepted_test = refl

not_due_test : (run_recap_tick six (monday + hour) (record { db = 0; effects = [] })).effects ≡ []
unfolding run_recap_tick
not_due_test = refl

abbrev monday_spec : RecapSpec
monday_spec = record {
  period_start = 63949597200000000000;
  period_end = 63950202000000000000;
  panels = collage ∷ [];
  cadence = "weekly";
  origin = "scheduled";
}

tick_test :
    (run_recap_tick six monday (record { db = 0; effects = [] })).effects
    ≡ create monday_spec none
      ∷ bestow monday_spec.period_start monday_spec.period_end
      ∷ notify 40
      ∷ []
unfolding run_recap_tick
tick_test = refl

replace_test :
    status (handle_generate_recap six texts (some request) 7 (record { db = 0; effects = [] })).0
    ≡ 201
unfolding handle_generate_recap
replace_test = refl

recap_due_period-IsWindow_example :
    IsWindow weekly monday (63949597200000000000, 63950202000000000000)
recap_due_period-IsWindow_example =
    recap_due_period-IsWindow weekly monday (63949597200000000000, 63950202000000000000)
      (omega arith) (omega arith) due_test

run_recap_tick-Ticked_example :
    Ticked six monday 0 (run_recap_tick six monday (record { db = 0; effects = [] })).effects
run_recap_tick-Ticked_example = run_recap_tick-Ticked six monday 0

handle_generate_recap-Handled_example :
    Handled six 7 texts 0
      (some request)
      (handle_generate_recap six texts (some request) 7 (record { db = 0; effects = [] }))
handle_generate_recap-Handled_example = handle_generate_recap-Handled six texts (some request) 7 0

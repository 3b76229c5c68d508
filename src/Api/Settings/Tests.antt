-- ===== src/Api/Settings/Tests.antt =====
-- server/internal/api/auth_handlers.go: tests, and the theorems at concrete requests.
use check_in.Prelude.{ℕ, ◌≡◌, refl, Option, none, some, List, [], ◌∷◌, pos, false, arith, inl}
use check_in.Api.{write_err}
use check_in.Api.Recap.{RecapSettings, recap_due_period}
use check_in.Api.Settings.{
  NameTexts, ServerConfig, UpdateFaults, UpdateReq, handle_update_server, update_name, update_color,
  valid_server_name, valid_group_color, update_recap, apply_to, apply_cadence, apply_weekday,
  apply_hour, apply_offset, patch_present,
}
use check_in.Api.Settings.Bounded.{IsBounded, DueWindow, after_updates, updates_then_due}

abbrev texts : NameTexts
texts = record { trim_space = λ s. s; rune_count = λ s. 2 }

abbrev no_faults : UpdateFaults
no_faults = record { set_name = false; set_color = false; get_recap = false; set_recap = false }

abbrev settings : RecapSettings
settings = record { cadence = "off"; weekday = 1; hour = 9; offset = pos 0; since = 0 }

abbrev config : ServerConfig
config = record { name = "us"; color = ""; recap = settings }

abbrev mondays : UpdateReq
mondays = record {
  name = none;
  color = none;
  patch = record {
    cadence = some "weekly";
    weekday = none;
    hour = some (pos 11);
    offset = some (pos 120);
  };
}

abbrev reqs : List (UpdateFaults × Option UpdateReq)
reqs = (no_faults, some mondays) ∷ (no_faults, none) ∷ []

settings-IsBounded : IsBounded settings
settings-IsBounded = record {
  cadence = inl refl;
  weekday = omega arith;
  hour = omega arith;
  offset = omega arith;
}

-- A colour that is not in the palette is refused after the name has been stored.
half_update :
    handle_update_server texts no_faults
      (some (record {
        name = some "we";
        color = some "pink";
        patch = record { cadence = none; weekday = none; hour = none; offset = none };
      }))
      config
    ≡ (write_err 400 "invalid color", record config { name = "we" })
unfolding handle_update_server update_name update_color valid_server_name valid_group_color
half_update = refl

abbrev monday : ℕ
monday = 63950202600000000000

due_after :
    recap_due_period (after_updates texts reqs config).recap monday
    ≡ some (63949597200000000000, 63950202000000000000)
unfolding recap_due_period after_updates handle_update_server update_name update_color update_recap
    apply_to apply_cadence apply_weekday apply_hour apply_offset patch_present
due_after = refl

updates_then_due_example :
    IsBounded (after_updates texts reqs config).recap
    × DueWindow
        (after_updates texts reqs config).recap
        monday
        (recap_due_period (after_updates texts reqs config).recap monday)
updates_then_due_example =
    updates_then_due texts reqs config monday settings-IsBounded (omega arith)

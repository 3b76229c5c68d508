-- ===== src/Api/Recap/Run.antt =====
-- server/internal/api/recap.go: the tick of the scheduler, and the endpoint.
--
-- RecapDb is what they call of server/internal/db. The effects are the calls that write or that start a
-- push, in the order in which they are made; `go s.notifyRecap(id)` is the effect `notify id`.
pub mod Ticks
pub mod Requests
mod Tests
use Prim.Native.String.{String}
use check_in.Prelude.{
  ℕ, ◌+◌, Bool, true, false, not, ◌&&◌, Option, none, some, List, [], ◌∷◌, ◌++◌, ltb, ◌==◌,
  if◌then◌else◌, comparable_text,
}
use check_in.Slice.{Bytes}
use check_in.Db.Recap.{RecapSpec, Built, Created, built, recap_empty, build_failed}
use check_in.Api.{Reply, write_json, write_err, Call, or_else, or_stop, return}
use check_in.Api.Recap.{
  RecapSettings, recap_due_period, collage, RequestError, period_start_not_rfc3339,
  period_end_not_rfc3339, period_end_not_after, period_too_long, no_panels, unknown_panel_type,
  RequestTexts, GenerateRecapReq, RecapRequest, Validated, valid, invalid, validate_recap_request,
}

abbrev pub recap_v1_panels : List Bytes
recap_v1_panels = collage ∷ []

pub recap_min_check_ins : String → ℕ
recap_min_check_ins cadence =
    if cadence == "weekly" then 5 else if cadence == "monthly" then 20 else 0

pub data Effect : Type 0 where
  create : RecapSpec → Option ℕ → Effect
  bestow : ℕ → ℕ → Effect
  notify : ℕ → Effect

pub record RecapDb (W Payload Post : Type 0) : Type 0 where
  pub get_recap_settings : Call W (Option RecapSettings)
  pub recap_exists_for_period : String → ℕ → Call W (Option Bool)
  pub count_recap_check_ins : ℕ → ℕ → Call W (Option ℕ)
  pub build_recap : RecapSpec → Call W (Built Payload)
  pub admin_user_id : Call W (Option ℕ)
  pub create_recap_post : ℕ → RecapSpec → Payload → Option ℕ → Call W (Option Created)
  pub bestow_titles : ℕ → ℕ → W → W
  pub find_manual_recap : ℕ → ℕ → List Bytes → Call W (Option (Option ℕ))
  pub get_post : ℕ → ℕ → Call W (Option Post)

pub record Server (W : Type 0) : Type 0 where
  pub db : W
  pub effects : List Effect

-- A call that reads.
abbrev pub reads : {W A : Type 0} → Call W A → Call (Server W) A
reads call s = ((call s.db).0, record s { db = (call s.db).1 })

abbrev pub effect : {W : Type 0} → Effect → Server W → Server W
effect e s = record s { effects = s.effects ++ e ∷ [] }

-- The body of a reply: the post, or that of a conflict.
pub data RecapBody (Post : Type 0) : Type 0 where
  recap_post : Post → RecapBody Post
  conflict_with : ℕ → RecapBody Post

-- The text of a client error; that of an unknown panel type names the panel besides.
abbrev pub message : RequestError → String
message period_start_not_rfc3339 = "periodStart must be RFC3339"
message period_end_not_rfc3339 = "periodEnd must be RFC3339"
message period_end_not_after = "periodEnd must be after periodStart"
message period_too_long = "the period can't be longer than 366 days"
message no_panels = "panels must include at least one of: collage"
message (unknown_panel_type p) = "unknown panel type"

module _ {W Payload Post : Type 0} (db : RecapDb W Payload Post) where
  -- The call of `CreateRecapPost`.
  abbrev pub create_post : ℕ → RecapSpec → Payload → Option ℕ → Call (Server W) (Option Created)
  create_post author spec payload replaced s =
      reads (db.create_recap_post author spec payload replaced) (effect (create spec replaced) s)

  -- The call of `BestowTitles`, whose error is only logged.
  abbrev pub bestow_all : ℕ → ℕ → Server W → Server W
  bestow_all start end s = record {
    db = db.bestow_titles start end s.db;
    effects = s.effects ++ bestow start end ∷ [];
  }

  -- `payload, err := BuildRecap(spec)`, with what follows an empty recap, another error and a payload.
  abbrev pub on_built :
      {B : Type 0}
      → Call (Server W) (Built Payload)
      → (Server W → B)
      → (Server W → B)
      → (Payload → Server W → B)
      → Server W
      → B
  on_built call empty failed rest s = elim (call s).0 [
    | recap_empty ↦ empty (call s).1
    | build_failed ↦ failed (call s).1
    | built payload ↦ rest payload (call s).1
  ]

  -- The last steps of a scheduled recap, each with what the step before it returned.
  abbrev pub finish_scheduled : RecapSpec → Created → Server W → Server W
  finish_scheduled spec c s =
      if not c.inserted
      then s
      else effect (notify c.post_id) (bestow_all spec.period_start spec.period_end s)

  abbrev pub create_scheduled : RecapSpec → Payload → ℕ → Server W → Server W
  create_scheduled spec payload admin_id =
      or_stop (create_post admin_id spec payload none) (finish_scheduled spec)

  abbrev pub post_scheduled : RecapSpec → Payload → Server W → Server W
  post_scheduled spec payload = or_stop (reads db.admin_user_id) (create_scheduled spec payload)

  abbrev pub unchanged : Server W → Server W
  unchanged s = s

  unfoldable pub build_scheduled : RecapSpec → ℕ → Server W → Server W
  unfolding recap_min_check_ins
  build_scheduled spec count s =
      if ltb count (recap_min_check_ins spec.cadence)
      then s
      else on_built (reads (db.build_recap spec)) unchanged unchanged (post_scheduled spec) s

  abbrev pub scheduled_spec : String → ℕ → ℕ → RecapSpec
  scheduled_spec cadence start end = record {
    period_start = start;
    period_end = end;
    panels = recap_v1_panels;
    cadence = cadence;
    origin = "scheduled";
  }

  unfoldable pub generate_scheduled_recap : String → ℕ → ℕ → Server W → Server W
  unfolding build_scheduled
  generate_scheduled_recap cadence start end =
      or_stop (reads (db.count_recap_check_ins start end))
        (build_scheduled (scheduled_spec cadence start end))

  -- The tick from where it is known whether the period has a recap, from where its window is known, and from
  -- where the settings are.
  abbrev pub run_new : RecapSettings → ℕ → ℕ → Bool → Server W → Server W
  run_new settings start end exists s =
      if exists then s else generate_scheduled_recap settings.cadence start end s

  abbrev pub run_due : RecapSettings → Option (ℕ × ℕ) → Server W → Server W
  run_due settings none s = s
  run_due settings (some (start, end)) s =
      if ltb start settings.since
      then s
      else or_stop (reads (db.recap_exists_for_period settings.cadence start))
          (run_new settings start end) s

  abbrev pub run_with : ℕ → RecapSettings → Server W → Server W
  run_with now settings s =
      if settings.cadence == "off" then s else run_due settings (recap_due_period settings now) s

  unfoldable pub run_recap_tick : ℕ → Server W → Server W
  unfolding recap_due_period generate_scheduled_recap
  run_recap_tick now = or_stop (reads db.get_recap_settings) (run_with now)

  abbrev pub server_error : Reply (RecapBody Post)
  server_error = write_err 500 "server error"

  -- The endpoint from where the post is made: the push, unless it replaces one, and the titles if asked for.
  abbrev pub announce : GenerateRecapReq → RecapRequest → Option ℕ → ℕ → Server W → Server W
  announce req v none id s =
      if req.bestow_titles
      then bestow_all v.start v.end (effect (notify id) s)
      else effect (notify id) s
  announce req v (some old) id s = if req.bestow_titles then bestow_all v.start v.end s else s

  abbrev pub reply_post : Post → Call (Server W) (Reply (RecapBody Post))
  reply_post post = return (write_json 201 (recap_post post))

  -- The endpoint from where `CreateRecapPost` has returned.
  abbrev pub after_create :
      GenerateRecapReq
      → ℕ
      → RecapRequest
      → Option ℕ
      → Created
      → Call (Server W) (Reply (RecapBody Post))
  after_create req me v replaced c s =
      if not c.inserted
      then (write_json 409 (conflict_with c.conflict_id), s)
      else or_else (reads (db.get_post me c.post_id)) (return server_error) reply_post
          (announce req v replaced c.post_id s)

  -- From where `BuildRecap` has.
  abbrev pub after_build :
      GenerateRecapReq
      → ℕ
      → RecapRequest
      → RecapSpec
      → Option ℕ
      → Payload
      → Call (Server W) (Reply (RecapBody Post))
  after_build req me v spec replaced payload =
      or_else (create_post me spec payload replaced) (return server_error)
        (after_create req me v replaced)

  abbrev pub manual_spec : RecapRequest → RecapSpec
  manual_spec v = record {
    period_start = v.start;
    period_end = v.end;
    panels = v.requested;
    cadence = "custom";
    origin = "manual";
  }

  abbrev pub too_quiet : Call (Server W) (Reply (RecapBody Post))
  too_quiet = return (write_err 422 "not enough activity in this period yet")

  abbrev pub create_manual :
      GenerateRecapReq → ℕ → RecapRequest → Option ℕ → Call (Server W) (Reply (RecapBody Post))
  create_manual req me v replaced =
      on_built (reads (db.build_recap (manual_spec v))) too_quiet (return server_error)
        (after_build req me v (manual_spec v) replaced)

  -- From where it is known which recap of the period and the panels there is, if any.
  abbrev pub after_lookup :
      GenerateRecapReq → ℕ → RecapRequest → Option ℕ → Call (Server W) (Reply (RecapBody Post))
  after_lookup req me v none s = create_manual req me v none s
  after_lookup req me v (some existing) s =
      if not req.replace
      then (write_json 409 (conflict_with existing), s)
      else create_manual req me v (some existing) s

  abbrev pub after_validation :
      GenerateRecapReq → ℕ → Validated → Call (Server W) (Reply (RecapBody Post))
  after_validation req me (invalid e) s = (write_err 400 (message e), s)
  after_validation req me (valid v) s =
      or_else (reads (db.find_manual_recap v.start v.end v.sorted)) (return server_error)
        (after_lookup req me v) s

  unfoldable pub handle_generate_recap :
      RequestTexts → Option GenerateRecapReq → ℕ → Call (Server W) (Reply (RecapBody Post))
  unfolding validate_recap_request
  handle_generate_recap tx none me s = (write_err 400 "invalid body", s)
  handle_generate_recap tx (some req) me s =
      after_validation req me (validate_recap_request tx req) s

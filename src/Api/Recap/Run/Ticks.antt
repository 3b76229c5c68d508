-- ===== src/Api/Recap/Run/Ticks.antt =====
-- server/internal/api/recap.go: what a tick of the scheduler may do.
use check_in.Prelude.{
  ℕ, ◌≤◌, ◌≡◌, refl, inl, inr, ◌⊎◌, Bool, true, false, not, Option, none, some, List, [], ◌∷◌, ltb,
  ◌==◌, if◌then◌else◌, arith, comparable_text,
}
use check_in.Api.{Call, or_stop, or_stop_cases, or_stop_reads}
use check_in.Api.Recap.{RecapSettings, recap_due_period}
use check_in.Db.Recap.{RecapSpec, Created, Built, built, recap_empty, build_failed}
use check_in.Api.Recap.Run.{
  recap_min_check_ins, Effect, create, bestow, notify, RecapDb, Server, reads, on_built,
  create_post, bestow_all, effect, finish_scheduled, create_scheduled, unchanged, build_scheduled,
  scheduled_spec, run_new, run_with, post_scheduled, generate_scheduled_recap, run_due,
  run_recap_tick,
}

pub if_cases :
    {A : Type 0} (P : A → Type 0) (b : Bool) {x y : A}
    → (b ≡ true → P x)
    → (b ≡ false → P y)
    → P (if b then x else y)
if_cases P true h k = h refl
if_cases P false h k = k refl

-- No new post: an error, or the answer that the recap is there already.
abbrev pub NotNew : Option Created → Type 0
NotNew none = Unit
NotNew (some c) = c.inserted ≡ false

module _ {W Payload Post : Type 0} (db : RecapDb W Payload Post) where
  pub on_built_cases :
      {B : Type 0} (P : B → Type 0) (call : Call (Server W) (Built Payload))
      (empty failed : Server W → B) (rest : Payload → Server W → B) (s : Server W)
      → P (empty (call s).1)
      → P (failed (call s).1)
      → ((payload : Payload) → P (rest payload (call s).1))
      → P (on_built db call empty failed rest s)
  on_built_cases P call empty failed rest s h k l = go (call s).0
    where
      go :
          (r : Built Payload)
          → P (elim r [
            | recap_empty ↦ empty (call s).1
            | build_failed ↦ failed (call s).1
            | built payload ↦ rest payload (call s).1
          ])
      go recap_empty = h
      go build_failed = k
      go (built payload) = l payload

  -- What CreateRecapPost answers to the call of a post that replaces another or none, in some state.
  abbrev pub Creates : ℕ → RecapSpec → Option ℕ → Option Created → Type 0
  Creates author spec replaced answer =
      (payload : Payload) × (v : W) × ((db.create_recap_post author spec payload replaced v).0
        ≡ answer)

  -- A call that creates a post: alone where it fails or makes no new post, and with its titles and its push
  -- where it makes one.
  pub data Posts (spec : RecapSpec) (effects : List Effect) : Type 0 where
    nothing : effects ≡ [] → Posts spec effects
    only_create :
        (author : ℕ) (answer : Option Created)
        → Creates author spec none answer
        → NotNew answer
        → effects ≡ create spec none ∷ []
        → Posts spec effects
    posted :
        (author : ℕ) (c : Created)
        → Creates author spec none (some c)
        → c.inserted ≡ true
        → effects
          ≡ create spec none ∷ bestow spec.period_start spec.period_end ∷ notify c.post_id ∷ []
        → Posts spec effects

  post_scheduled-Posts :
      (spec : RecapSpec) (payload : Payload) (w : W)
      → Posts spec (post_scheduled db spec payload (record { db = w; effects = [] })).effects
  post_scheduled-Posts spec payload w =
      let P : Server W → Type 0 = λ s. Posts spec s.effects in
      let s₀ : Server W = record { db = w; effects = [] } in
      let s₁ : Server W = (reads db.admin_user_id s₀).1 in
      or_stop_cases P (reads db.admin_user_id) (create_scheduled db spec payload) s₀ (nothing refl)
        λ admin e.
          let s₂ : Server W = (create_post db admin spec payload none s₁).1 in
          or_stop_reads P (create_post db admin spec payload none) (finish_scheduled db spec) s₁
            (λ f. only_create admin none (payload, s₁.db, f) tt refl)
            λ c f.
              if_cases P (not c.inserted) {x = s₂}
                {y = effect (notify c.post_id) (bestow_all db spec.period_start spec.period_end s₂)}
                (λ old. only_create admin (some c) (payload, s₁.db, f) (ground (arith, old)) refl)
                (λ new. posted admin c (payload, s₁.db, f) (ground (arith, new)) refl)

  -- Why a tick at `now`, in the state `w`, may post: the schedule is on, the period is due, not before the
  -- feature was turned on, not posted yet, and has check-ins enough.
  pub record Started (now : ℕ) (w : W) (effects : List Effect) : Type 0 where
    pub settings : RecapSettings
    pub spec : RecapSpec
    pub settings_read : (db.get_recap_settings w).0 ≡ some settings
    pub is_on : (settings.cadence == "off") ≡ false
    pub is_due : recap_due_period settings now ≡ some (spec.period_start, spec.period_end)
    pub not_before : settings.since ≤ spec.period_start
    pub state_looked : W
    pub is_new :
        (db.recap_exists_for_period settings.cadence spec.period_start state_looked).0 ≡ some false
    pub state_counted : W
    pub count : ℕ
    pub counted :
        (db.count_recap_check_ins spec.period_start spec.period_end state_counted).0 ≡ some count
    pub enough : recap_min_check_ins settings.cadence ≤ count
    pub is_scheduled : (spec.cadence ≡ settings.cadence) × (spec.origin ≡ "scheduled")
    pub posts : Posts spec effects

  abbrev pub Ticked : ℕ → W → List Effect → Type 0
  Ticked now w effects = (effects ≡ []) ⊎ Started now w effects

  module _ (now : ℕ) (w : W) (settings : RecapSettings)
      (read : (db.get_recap_settings w).0 ≡ some settings)
      (on : (settings.cadence == "off") ≡ false) where
    abbrev IsTicked : Server W → Type 0
    IsTicked s = Ticked now w s.effects

    generate-Ticked :
        (w' v : W) (start end : ℕ)
        → recap_due_period settings now ≡ some (start, end)
        → settings.since ≤ start
        → (db.recap_exists_for_period settings.cadence start v).0 ≡ some false
        → IsTicked (
            generate_scheduled_recap db settings.cadence start end
              (record { db = w'; effects = [] }))
    unfolding generate_scheduled_recap
    generate-Ticked w' v start end due since new =
        let spec : RecapSpec = scheduled_spec db settings.cadence start end in
        let s₀ : Server W = record { db = w'; effects = [] } in
        let s₁ : Server W = (reads (db.count_recap_check_ins start end) s₀).1 in
        or_stop_cases IsTicked (reads (db.count_recap_check_ins start end))
          (build_scheduled db spec) s₀ (inl refl)
          λ n counted.
            if_cases IsTicked (ltb n (recap_min_check_ins settings.cadence)) {x = s₁}
              {y = on_built db (reads (db.build_recap spec)) (unchanged db) (unchanged db)
                (post_scheduled db spec) s₁}
              (λ _. inl refl)
              λ enough.
                on_built_cases IsTicked (reads (db.build_recap spec)) (unchanged db) (unchanged db)
                  (post_scheduled db spec) s₁ (inl refl) (inl refl)
                  λ payload. inr (record {
                    settings = settings;
                    spec = spec;
                    settings_read = read;
                    is_on = on;
                    is_due = due;
                    not_before = since;
                    state_looked = v;
                    is_new = new;
                    state_counted = w';
                    count = n;
                    counted = counted;
                    enough = ground (arith, enough);
                    is_scheduled = (refl, refl);
                    posts =
                        post_scheduled-Posts spec payload ((reads (db.build_recap spec) s₁).1).db;
                  })

    run_new-Ticked :
        (w' v : W) (start end : ℕ) (exists : Bool)
        → recap_due_period settings now ≡ some (start, end)
        → settings.since ≤ start
        → (db.recap_exists_for_period settings.cadence start v).0 ≡ some exists
        → IsTicked (run_new db settings start end exists (record { db = w'; effects = [] }))
    run_new-Ticked w' v start end true due since new = inl refl
    run_new-Ticked w' v start end false due since new = generate-Ticked w' v start end due since new

    run_due-Ticked :
        (w' : W) (window : Option (ℕ × ℕ))
        → recap_due_period settings now ≡ window
        → IsTicked (run_due db settings window (record { db = w'; effects = [] }))
    run_due-Ticked w' none due = inl refl
    run_due-Ticked w' (some (start, end)) due =
        let s₀ : Server W = record { db = w'; effects = [] } in
        let look : Call (Server W) (Option Bool) =
          reads (db.recap_exists_for_period settings.cadence start) in
        if_cases IsTicked (ltb start settings.since) {x = s₀}
          {y = or_stop look (run_new db settings start end) s₀} (λ _. inl refl)
          λ since.
            or_stop_cases IsTicked look (run_new db settings start end) s₀ (inl refl)
              λ exists looked.
                run_new-Ticked (look s₀).1.db w' start end exists due (ground (arith, since)) looked

  -- A tick has no effect, or it calls CreateRecapPost once, and then, if that made a new post, bestows the
  -- titles of the period and starts one push, of that post; where the call fails or answers that it made no
  -- new post there is no title and no push. It does so only if the schedule is on, its period is due and
  -- does not begin before the feature was turned on, no recap of it exists, and it has check-ins enough.
  pub run_recap_tick-Ticked :
      (now : ℕ) (w : W)
      → Ticked now w (run_recap_tick db now (record { db = w; effects = [] })).effects
  unfolding run_recap_tick
  run_recap_tick-Ticked now w =
      let P : Server W → Type 0 = λ s. Ticked now w s.effects in
      let s₀ : Server W = record { db = w; effects = [] } in
      let s₁ : Server W = (reads db.get_recap_settings s₀).1 in
      or_stop_cases P (reads db.get_recap_settings) (run_with db now) s₀ (inl refl) λ settings read.
        if_cases P (settings.cadence == "off") {x = s₁}
          {y = run_due db settings (recap_due_period settings now) s₁} (λ _. inl refl)
          λ on. run_due-Ticked now w settings read on s₁.db (recap_due_period settings now) refl

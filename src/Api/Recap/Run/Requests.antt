-- ===== src/Api/Recap/Run/Requests.antt =====
-- server/internal/api/recap.go: how a request for a recap is answered.
use check_in.Prelude.{
  ℕ, ◌≡◌, refl, inl, inr, ◌⊎◌, true, not, Option, none, some, List, [], ◌∷◌, if◌then◌else◌,
  Bool-cases, arith,
}
use check_in.Api.{Reply, write_json, status, Call, or_else, or_else_cases, return}
use check_in.Api.Recap.{
  RequestTexts, GenerateRecapReq, RecapRequest, Validated, valid, invalid, validate_recap_request,
}
use check_in.Db.Recap.{RecapSpec, Created}
use check_in.Api.Recap.Run.{
  Effect, create, bestow, notify, RecapDb, RecapBody, conflict_with, Server, reads, create_post,
  server_error, announce, reply_post, after_create, after_build, manual_spec, too_quiet,
  create_manual, after_lookup, after_validation, handle_generate_recap,
}
use check_in.Api.Recap.Run.Ticks.{if_cases, on_built_cases, Creates, NotNew}

-- The push of a new post, and the titles.
abbrev pub announced : GenerateRecapReq → RecapRequest → Option ℕ → ℕ → List Effect
announced req v none id = notify id ∷ (if req.bestow_titles then bestow v.start v.end ∷ [] else [])
announced req v (some old) id = if req.bestow_titles then bestow v.start v.end ∷ [] else []

-- Only what a request asks to replace is replaced.
abbrev pub Replaces : GenerateRecapReq → Option ℕ → Type 0
Replaces req none = Unit
Replaces req (some old) = req.replace ≡ true

-- The answer to a valid request, by what CreateRecapPost answers: without a new post it is an error, and
-- the one effect there may be is the call that failed or found that the post exists already; with one it
-- is the post, or an error if the post cannot be read.
pub data Answered {W Payload Post : Type 0} (db : RecapDb W Payload Post) (req : GenerateRecapReq)
    (me : ℕ) (v : RecapRequest) (reply : Reply (RecapBody Post)) (effects : List Effect)
    : Type 0 where
  refused :
      (status reply ≡ 409) ⊎ ((status reply ≡ 422) ⊎ (status reply ≡ 500))
      → effects ≡ []
      → Answered db req me v reply effects
  raced :
      (spec : RecapSpec) (replaced : Option ℕ) (answer : Option Created)
      → Creates db me spec replaced answer
      → NotNew answer
      → Replaces req replaced
      → (status reply ≡ 409) ⊎ (status reply ≡ 500)
      → effects ≡ create spec replaced ∷ []
      → Answered db req me v reply effects
  made :
      (spec : RecapSpec) (replaced : Option ℕ) (c : Created)
      → Creates db me spec replaced (some c)
      → c.inserted ≡ true
      → Replaces req replaced
      → (status reply ≡ 201) ⊎ (status reply ≡ 500)
      → effects ≡ create spec replaced ∷ announced req v replaced c.post_id
      → Answered db req me v reply effects

module _ {W Payload Post : Type 0} (db : RecapDb W Payload Post) (req : GenerateRecapReq) (me : ℕ)
    (v : RecapRequest) where
  abbrev IsAnswered : Reply (RecapBody Post) × Server W → Type 0
  IsAnswered out = Answered db req me v out.0 out.1.effects

  announce_lem :
      (replaced : Option ℕ) (id : ℕ) (w : W) (spec : RecapSpec)
      → (announce db req v replaced id
          (record { db = w; effects = create spec replaced ∷ [] })).effects
        ≡ create spec replaced ∷ announced req v replaced id
  announce_lem none id w spec = elim (Bool-cases req.bestow_titles) [
    | inl e ↦ rw e refl
    | inr e ↦ rw e refl
  ]
  announce_lem (some old) id w spec = elim (Bool-cases req.bestow_titles) [
    | inl e ↦ rw e refl
    | inr e ↦ rw e refl
  ]

  after_create-Answered :
      (replaced : Option ℕ) (c : Created) (w : W) (spec : RecapSpec)
      → Replaces req replaced
      → Creates db me spec replaced (some c)
      → IsAnswered (
          after_create db req me v replaced c
            (record { db = w; effects = create spec replaced ∷ [] }))
  after_create-Answered replaced c w spec r f =
      let s : Server W = record { db = w; effects = create spec replaced ∷ [] } in
      let s₁ : Server W = announce db req v replaced c.post_id s in
      let look : Call (Server W) (Option Post) = reads (db.get_post me c.post_id) in
      if_cases IsAnswered (not c.inserted) {x = (write_json 409 (conflict_with c.conflict_id), s)}
        {y = or_else look (return (server_error db)) (reply_post db) s₁}
        (λ old. raced spec replaced (some c) f (ground (arith, old)) r (inl refl) refl)
        (λ new.
          or_else_cases IsAnswered look (return (server_error db)) (reply_post db) s₁
            (λ _.
              made spec replaced c f (ground (arith, new)) r (inr refl)
                (announce_lem replaced c.post_id w spec))
            (λ post _.
              made spec replaced c f (ground (arith, new)) r (inl refl)
                (announce_lem replaced c.post_id w spec)))

  create_manual-Answered :
      (replaced : Option ℕ) (w : W)
      → Replaces req replaced
      → IsAnswered (create_manual db req me v replaced (record { db = w; effects = [] }))
  create_manual-Answered replaced w r =
      let s : Server W = record { db = w; effects = [] } in
      let spec : RecapSpec = manual_spec db v in
      let s₁ : Server W = (reads (db.build_recap spec) s).1 in
      on_built_cases db IsAnswered (reads (db.build_recap spec)) (too_quiet db)
        (return (server_error db)) (after_build db req me v spec replaced) s
        (refused (inr (inl refl)) refl) (refused (inr (inr refl)) refl)
        (λ payload.
          or_else_cases IsAnswered (create_post db me spec payload replaced)
            (return (server_error db)) (after_create db req me v replaced) s₁
            (λ f. raced spec replaced none (payload, s₁.db, f) tt r (inr refl) refl)
            (λ c f.
              after_create-Answered replaced c (create_post db me spec payload replaced s₁).1.db
                spec r (payload, s₁.db, f)))

  after_lookup-Answered :
      (found : Option ℕ) (w : W)
      → IsAnswered (after_lookup db req me v found (record { db = w; effects = [] }))
  after_lookup-Answered none w = create_manual-Answered none w tt
  after_lookup-Answered (some old) w =
      let s : Server W = record { db = w; effects = [] } in
      if_cases IsAnswered (not req.replace) {x = (write_json 409 (conflict_with old), s)}
        {y = create_manual db req me v (some old) s} (λ _. refused (inl refl) refl)
        (λ e. create_manual-Answered (some old) w (ground (arith, e)))

-- The answer to what is no valid request: the status is 400, and nothing has been called.
abbrev pub IsRejected : {W Post : Type 0} → W → Reply (RecapBody Post) × Server W → Type 0
IsRejected w out = (status out.0 ≡ 400) × (out.1 ≡ record { db = w; effects = [] })

abbrev pub AnsweredAs :
    {W Payload Post : Type 0}
    → RecapDb W Payload Post
    → ℕ
    → W
    → GenerateRecapReq
    → Validated
    → Reply (RecapBody Post) × Server W
    → Type 0
AnsweredAs db me w req (invalid e) out = IsRejected w out
AnsweredAs db me w req (valid v) out = Answered db req me v out.0 out.1.effects

-- What a body, if it is a request, is answered with.
abbrev pub Handled :
    {W Payload Post : Type 0}
    → RecapDb W Payload Post
    → ℕ
    → RequestTexts
    → W
    → Option GenerateRecapReq
    → Reply (RecapBody Post) × Server W
    → Type 0
Handled db me tx w none out = IsRejected w out
Handled db me tx w (some req) out = AnsweredAs db me w req (validate_recap_request tx req) out

module _ {W Payload Post : Type 0} (db : RecapDb W Payload Post) where
  after_validation-Answered :
      (req : GenerateRecapReq) (me : ℕ) (validated : Validated) (w : W)
      → AnsweredAs db me w req validated
          (after_validation db req me validated (record { db = w; effects = [] }))
  after_validation-Answered req me (invalid e) w = (refl, refl)
  after_validation-Answered req me (valid v) w =
      let s : Server W = record { db = w; effects = [] } in
      let find : Call (Server W) (Option (Option ℕ)) =
        reads (db.find_manual_recap v.start v.end v.sorted) in
      or_else_cases (IsAnswered db req me v) find (return (server_error db))
        (after_lookup db req me v) s (λ _. refused (inr (inr refl)) refl)
        (λ found _. after_lookup-Answered db req me v found (find s).1.db)

  -- A body that is no valid request is answered with 400, and nothing is called. Any other is answered with
  -- 201 only if the post was made; where CreateRecapPost fails or
  -- answers that it made no new post, or is not called, it is answered with 409, 422 or 500 and there is no
  -- push and no title; with one there is one push, but none if the post replaces another, which only a
  -- request that asks for it does, and titles if they are asked for.
  pub handle_generate_recap-Handled :
      (tx : RequestTexts) (body : Option GenerateRecapReq) (me : ℕ) (w : W)
      → Handled db me tx w body
          (handle_generate_recap db tx body me (record { db = w; effects = [] }))
  unfolding handle_generate_recap
  handle_generate_recap-Handled tx none me w = (refl, refl)
  handle_generate_recap-Handled tx (some req) me w =
      after_validation-Answered req me (validate_recap_request tx req) w

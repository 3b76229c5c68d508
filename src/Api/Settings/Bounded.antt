-- ===== src/Api/Settings/Bounded.antt =====
-- server/internal/api/auth_handlers.go: the settings stay within the bounds that the scheduler assumes.
use Prim.Native.String.{String}
use check_in.Prelude.{
  ℕ, ◌*◌, ◌==◌, ◌⊎◌, refl, ◌≤◌, ◌≡◌, true, false, not, ◌&&◌, ◌||◌, Option, none, some, List, [],
  ◌∷◌, ltb, ℤ, pos, negsuc, Result, ok, err, panic, out_of_fuel, ◌>>=◌, arith, comparable_nat,
  comparable_text, Bool-cases, inl, inr,
}
use check_in.Clock.{day}
use check_in.Api.Recap.{RecapSettings, recap_due_period}
use check_in.Api.Recap.Due.{Plausible, IsWindow, recap_due_period-IsWindow}
use check_in.Api.Settings.{
  NameTexts, valid_recap_cadence, RecapPatch, is_sent, patch_present, apply_cadence, apply_weekday,
  apply_hour, out_of_offsets, apply_offset, apply_to, ServerConfig, UpdateFaults, UpdateReq,
  Updated, after_patch, update_recap, store_color, update_color, valid_group_color, store_name,
  valid_server_name, update_name, handle_update_server,
}

-- Settings within their bounds.
pub record IsBounded (s : RecapSettings) : Type 0 where
  pub cadence : (s.cadence ≡ "off") ⊎ ((s.cadence ≡ "weekly") ⊎ (s.cadence ≡ "monthly"))
  pub weekday : (1 ≤ s.weekday) × (s.weekday ≤ 7)
  pub hour : s.hour ≤ 23
  pub offset : Plausible s.offset

known_cadence :
    (c : String) → valid_recap_cadence c ≡ true → (c ≡ "off") ⊎ ((c ≡ "weekly") ⊎ (c ≡ "monthly"))
known_cadence c e = elim (Bool-cases (c == "off")) [
  | inl off ↦ inl ((comparable_text.same_iff c "off").0 off)
  | inr on ↦ elim (Bool-cases (c == "weekly")) [
    | inl weekly ↦ inr (inl ((comparable_text.same_iff c "weekly").0 weekly))
    | inr other ↦
        inr (inr ((comparable_text.same_iff c "monthly").0 (ground (arith, e, on, other))))
  ]
]

abbrev Keeps : Result String RecapSettings → Type 0
Keeps (ok s) = IsBounded s
Keeps r = Unit

Keeps->>= :
    (r : Result String RecapSettings) (f : RecapSettings → Result String RecapSettings)
    → Keeps r
    → ((s : RecapSettings) → IsBounded s → Keeps (f s))
    → Keeps (r >>= f)
Keeps->>= (ok s) f h k = k s h
Keeps->>= (err e) f h k = tt
Keeps->>= panic f h k = tt
Keeps->>= out_of_fuel f h k = tt

apply_cadence-IsBounded :
    (c : Option String) (s : RecapSettings) → IsBounded s → Keeps (apply_cadence c s)
unfolding apply_cadence
apply_cadence-IsBounded none s h = h
apply_cadence-IsBounded (some c) s h = elim (Bool-cases (valid_recap_cadence c)) [
  | inl e ↦ rw e (record {
    cadence = known_cadence c e;
    weekday = h.weekday;
    hour = h.hour;
    offset = h.offset;
  })
  | inr e ↦ rw e tt
]

apply_weekday-IsBounded :
    (d : Option ℤ) (s : RecapSettings) → IsBounded s → Keeps (apply_weekday d s)
unfolding apply_weekday
apply_weekday-IsBounded none s h = h
apply_weekday-IsBounded (some (negsuc n)) s h = tt
apply_weekday-IsBounded (some (pos n)) s h = elim (Bool-cases (ltb n 1 || ltb 7 n)) [
  | inl e ↦ rw e tt
  | inr e ↦ rw e (record {
    cadence = h.cadence;
    weekday = (ground (arith, e), ground (arith, e));
    hour = h.hour;
    offset = h.offset;
  })
]

apply_hour-IsBounded : (n : Option ℤ) (s : RecapSettings) → IsBounded s → Keeps (apply_hour n s)
unfolding apply_hour
apply_hour-IsBounded none s h = h
apply_hour-IsBounded (some (negsuc n)) s h = tt
apply_hour-IsBounded (some (pos n)) s h = elim (Bool-cases (ltb 23 n)) [
  | inl e ↦ rw e tt
  | inr e ↦ rw e (record {
    cadence = h.cadence;
    weekday = h.weekday;
    hour = ground (arith, e);
    offset = h.offset;
  })
]

offset-Plausible : (z : ℤ) → out_of_offsets z ≡ false → Plausible z
offset-Plausible (pos n) e = ground (arith, e)
offset-Plausible (negsuc n) e = ground (arith, e)

apply_offset-IsBounded : (z : Option ℤ) (s : RecapSettings) → IsBounded s → Keeps (apply_offset z s)
unfolding apply_offset
apply_offset-IsBounded none s h = h
apply_offset-IsBounded (some z) s h = elim (Bool-cases (out_of_offsets z)) [
  | inl e ↦ rw e tt
  | inr e ↦ rw e (record {
    cadence = h.cadence;
    weekday = h.weekday;
    hour = h.hour;
    offset = offset-Plausible z e;
  })
]

apply_to-IsBounded : (p : RecapPatch) (s : RecapSettings) → IsBounded s → Keeps (apply_to p s)
unfolding apply_to
apply_to-IsBounded p s h =
    Keeps->>= (apply_cadence p.cadence s)
      (λ s1. apply_weekday p.weekday s1 >>= λ s2.
        apply_hour p.hour s2 >>= λ s3. apply_offset p.offset s3)
      (apply_cadence-IsBounded p.cadence s h)
      (λ s1 h1.
        Keeps->>= (apply_weekday p.weekday s1)
          (λ s2. apply_hour p.hour s2 >>= λ s3. apply_offset p.offset s3)
          (apply_weekday-IsBounded p.weekday s1 h1)
          (λ s2 h2.
            Keeps->>= (apply_hour p.hour s2) (λ s3. apply_offset p.offset s3)
              (apply_hour-IsBounded p.hour s2 h2) (λ s3 h3. apply_offset-IsBounded p.offset s3 h3)))

-- Code that leaves the settings of the recap within their bounds.
abbrev KeepsRecap : (ServerConfig → Updated) → Type 0
KeepsRecap f = (c : ServerConfig) → IsBounded c.recap → IsBounded (f c).1.recap

after_patch-IsBounded :
    (faults : UpdateFaults) (r : Result String RecapSettings) (c : ServerConfig)
    → Keeps r
    → IsBounded c.recap
    → IsBounded (after_patch faults r c).1.recap
after_patch-IsBounded faults (ok s) c k h = elim (Bool-cases faults.set_recap) [
  | inl e ↦ rw e h
  | inr e ↦
      rw e (record { cadence = k.cadence; weekday = k.weekday; hour = k.hour; offset = k.offset })
]
after_patch-IsBounded faults (err msg) c k h = h
after_patch-IsBounded faults panic c k h = h
after_patch-IsBounded faults out_of_fuel c k h = h

update_recap-IsBounded :
    (faults : UpdateFaults) (patch : RecapPatch) → KeepsRecap (update_recap faults patch)
unfolding update_recap
update_recap-IsBounded faults patch c h = elim (Bool-cases (patch_present patch)) [
  | inr e ↦ rw e h
  | inl e ↦ rw e (elim (Bool-cases faults.get_recap) [
    | inl g ↦ rw g h
    | inr g ↦
        let kept = apply_to-IsBounded patch c.recap h in
        rw g (after_patch-IsBounded faults (apply_to patch c.recap) c kept h)
  ])
]

store_color-IsBounded :
    (faults : UpdateFaults) (checked : Option String) (rest : ServerConfig → Updated)
    → KeepsRecap rest
    → KeepsRecap (store_color faults checked rest)
store_color-IsBounded faults none rest k c h = h
store_color-IsBounded faults (some color) rest k c h = elim (Bool-cases faults.set_color) [
  | inl e ↦ rw e h
  | inr e ↦ rw e (k (record c { color = color }) h)
]

store_name-IsBounded :
    (faults : UpdateFaults) (checked : Option String) (rest : ServerConfig → Updated)
    → KeepsRecap rest
    → KeepsRecap (store_name faults checked rest)
store_name-IsBounded faults none rest k c h = h
store_name-IsBounded faults (some name) rest k c h = elim (Bool-cases faults.set_name) [
  | inl e ↦ rw e h
  | inr e ↦ rw e (k (record c { name = name }) h)
]

update_color-IsBounded :
    (tx : NameTexts) (faults : UpdateFaults) (raw : Option String) (rest : ServerConfig → Updated)
    → KeepsRecap rest
    → KeepsRecap (update_color tx faults raw rest)
unfolding update_color
update_color-IsBounded tx faults none rest k = k
update_color-IsBounded tx faults (some raw) rest k =
    store_color-IsBounded faults (valid_group_color tx raw) rest k

update_name-IsBounded :
    (tx : NameTexts) (faults : UpdateFaults) (raw : Option String) (rest : ServerConfig → Updated)
    → KeepsRecap rest
    → KeepsRecap (update_name tx faults raw rest)
unfolding update_name
update_name-IsBounded tx faults none rest k = k
update_name-IsBounded tx faults (some raw) rest k =
    store_name-IsBounded faults (valid_server_name tx raw) rest k

handle_update_server-IsBounded :
    (tx : NameTexts) (faults : UpdateFaults) (req : Option UpdateReq)
    → KeepsRecap (handle_update_server tx faults req)
unfolding handle_update_server
handle_update_server-IsBounded tx faults none c h = h
handle_update_server-IsBounded tx faults (some req) c h =
    elim (Bool-cases
      (not (is_sent req.name) && (not (is_sent req.color) && not (patch_present req.patch)))) [
        | inl e ↦ rw e h
        | inr e ↦ rw e (
            update_name-IsBounded tx faults req.name
              (update_color tx faults req.color (update_recap faults req.patch))
              (update_color-IsBounded tx faults req.color (update_recap faults req.patch)
                (update_recap-IsBounded faults req.patch))
              c h)
      ]

-- The settings after requests, each with the calls that fail in it.
unfoldable pub after_updates :
    NameTexts → List (UpdateFaults × Option UpdateReq) → ServerConfig → ServerConfig
after_updates tx [] c = c
after_updates tx (r ∷ reqs) c = after_updates tx reqs (handle_update_server tx r.0 r.1 c).1

after_updates-IsBounded :
    (tx : NameTexts) (reqs : List (UpdateFaults × Option UpdateReq)) (c : ServerConfig)
    → IsBounded c.recap
    → IsBounded (after_updates tx reqs c).recap
unfolding after_updates
after_updates-IsBounded tx [] c h = h
after_updates-IsBounded tx (r ∷ reqs) c h =
    after_updates-IsBounded tx reqs (handle_update_server tx r.0 r.1 c).1
      (handle_update_server-IsBounded tx r.0 r.1 c h)

-- What is due, if anything, is a window that ended within the hour.
abbrev pub DueWindow : RecapSettings → ℕ → Option (ℕ × ℕ) → Type 0
DueWindow s now none = Unit
DueWindow s now (some window) = IsWindow s now window

due-DueWindow :
    (s : RecapSettings) (now : ℕ) (o : Option (ℕ × ℕ))
    → Plausible s.offset
    → 500 * day ≤ now
    → recap_due_period s now ≡ o
    → DueWindow s now o
due-DueWindow s now none p late e = tt
due-DueWindow s now (some window) p late e = recap_due_period-IsWindow s now window p late e

-- Whatever admins ask for, and whatever fails on the way, settings that were within their bounds stay
-- so: a known cadence, an ISO weekday, an hour of the day and a plausible offset. What the
-- scheduler then finds due at a time from day 500 on, if anything, is a window that ended within the hour.
pub updates_then_due :
    (tx : NameTexts) (reqs : List (UpdateFaults × Option UpdateReq)) (c : ServerConfig) (now : ℕ)
    → IsBounded c.recap
    → 500 * day ≤ now
    → IsBounded (after_updates tx reqs c).recap
      × DueWindow
          (after_updates tx reqs c).recap
          now
          (recap_due_period (after_updates tx reqs c).recap now)
updates_then_due tx reqs c now h late =
    let kept = after_updates-IsBounded tx reqs c h in
    (
      kept,
      due-DueWindow (after_updates tx reqs c).recap now
          (recap_due_period (after_updates tx reqs c).recap now) kept.offset late refl,
    )

-- ===== src/Api/Settings.antt =====
-- server/internal/api/auth_handlers.go: handleUpdateServer, the settings that an admin may change.
--
-- The row of server_config is the record ServerConfig, and UpdateFaults says which of the calls of the
-- database fail. A body that does not decode is `none`. strings.TrimSpace and utf8.RuneCountInString are
-- parameters. A reply is made of the settings; the reads behind it, whose errors leave parts of it empty,
-- are left out.
pub mod Bounded
mod Tests
use Prim.Native.String.{String}
use check_in.Prelude.{
  ℕ, ◌+◌, ◌*◌, Bool, true, false, not, ◌&&◌, ◌||◌, Option, none, some, List, [], ◌∷◌, ltb, leb,
  ◌==◌, if◌then◌else◌, ℤ, pos, negsuc, Result, ok, err, panic, out_of_fuel, ◌>>=◌, comparable_nat,
  comparable_text,
}
use check_in.Maps.{contains}
use check_in.Api.{Reply, write_json, write_err}
use check_in.Api.Recap.{RecapSettings}

-- strings.TrimSpace, utf8.RuneCountInString
pub record NameTexts : Type 0 where
  pub trim_space : String → String
  pub rune_count : String → ℕ

unfoldable pub valid_server_name : NameTexts → String → Option String
valid_server_name tx raw =
    let name = tx.trim_space raw in
    if name == "" || ltb 40 (tx.rune_count name) then none else some name

-- the keys of `groupColorHex`
abbrev pub group_colors : List String
group_colors = "coral" ∷ "gold" ∷ "lime" ∷ "cyan" ∷ "indigo" ∷ "magenta" ∷ "orange" ∷ "steel" ∷ []

unfoldable pub valid_group_color : NameTexts → String → Option String
valid_group_color tx raw =
    let c = tx.trim_space raw in
    if c == "" then some "" else if contains group_colors c then some c else none

abbrev pub valid_recap_cadence : String → Bool
valid_recap_cadence raw = raw == "off" || (raw == "weekly" || raw == "monthly")

pub record RecapPatch : Type 0 where
  pub cadence : Option String
  pub weekday : Option ℤ
  pub hour : Option ℤ
  pub offset : Option ℤ

abbrev pub is_sent {ℓ} : {A : Type ℓ} → Option A → Bool
is_sent none = false
is_sent (some a) = true

unfoldable pub patch_present : RecapPatch → Bool
patch_present p = is_sent p.cadence || (is_sent p.weekday || (is_sent p.hour || is_sent p.offset))

-- Each setting in turn; an error is its message.
unfoldable pub apply_cadence : Option String → RecapSettings → Result String RecapSettings
apply_cadence none s = ok s
apply_cadence (some c) s =
    if not (valid_recap_cadence c)
    then err "recapCadence must be 'off', 'weekly' or 'monthly'"
    else ok (record s { cadence = c })

unfoldable pub apply_weekday : Option ℤ → RecapSettings → Result String RecapSettings
apply_weekday none s = ok s
apply_weekday (some (negsuc n)) s = err "recapWeekday must be 1-7 (ISO, 1=Monday)"
apply_weekday (some (pos n)) s =
    if ltb n 1 || ltb 7 n
    then err "recapWeekday must be 1-7 (ISO, 1=Monday)"
    else ok (record s { weekday = n })

unfoldable pub apply_hour : Option ℤ → RecapSettings → Result String RecapSettings
apply_hour none s = ok s
apply_hour (some (negsuc n)) s = err "recapHour must be 0-23"
apply_hour (some (pos n)) s =
    if ltb 23 n then err "recapHour must be 0-23" else ok (record s { hour = n })

abbrev pub out_of_offsets : ℤ → Bool
out_of_offsets (pos n) = ltb (14 * 60) n
out_of_offsets (negsuc n) = ltb (12 * 60) (n + 1)

unfoldable pub apply_offset : Option ℤ → RecapSettings → Result String RecapSettings
apply_offset none s = ok s
apply_offset (some z) s =
    if out_of_offsets z
    then err "recapOffset must be a plausible UTC offset in minutes"
    else ok (record s { offset = z })

unfoldable pub apply_to : RecapPatch → RecapSettings → Result String RecapSettings
apply_to p settings = do
  s1 ← apply_cadence p.cadence settings
  s2 ← apply_weekday p.weekday s1
  s3 ← apply_hour p.hour s2
  apply_offset p.offset s3

pub record ServerConfig : Type 0 where
  pub name : String
  pub color : String
  pub recap : RecapSettings

pub record UpdateFaults : Type 0 where
  pub set_name : Bool
  pub set_color : Bool
  pub get_recap : Bool
  pub set_recap : Bool

pub record UpdateReq : Type 0 where
  pub name : Option String
  pub color : Option String
  pub patch : RecapPatch

abbrev pub Updated : Type 0
Updated = Reply ServerConfig × ServerConfig

-- `SetRecapSettings` writes all but `since`.
abbrev pub set_recap_settings : RecapSettings → ServerConfig → ServerConfig
set_recap_settings s c = record c {
  recap = record c.recap {
    cadence = s.cadence;
    weekday = s.weekday;
    hour = s.hour;
    offset = s.offset;
  };
}

abbrev pub after_patch : UpdateFaults → Result String RecapSettings → ServerConfig → Updated
after_patch faults (ok s) c =
    if faults.set_recap
    then (write_err 500 "server error", c)
    else (write_json 200 (set_recap_settings s c), set_recap_settings s c)
after_patch faults (err msg) c = (write_err 400 msg, c)
after_patch faults panic c = (write_err 500 "server error", c)
after_patch faults out_of_fuel c = (write_err 500 "server error", c)

unfoldable pub update_recap : UpdateFaults → RecapPatch → ServerConfig → Updated
update_recap faults patch c =
    if not (patch_present patch)
    then (write_json 200 c, c)
    else if faults.get_recap
    then (write_err 500 "server error", c)
    else after_patch faults (apply_to patch c.recap) c

-- `checked` is what the validation makes of the colour.
abbrev pub store_color :
    UpdateFaults → Option String → (ServerConfig → Updated) → ServerConfig → Updated
store_color faults none rest c = (write_err 400 "invalid color", c)
store_color faults (some color) rest c =
    if faults.set_color
    then (write_err 500 "server error", c)
    else rest (record c { color = color })

unfoldable pub update_color :
    NameTexts → UpdateFaults → Option String → (ServerConfig → Updated) → ServerConfig → Updated
update_color tx faults none rest c = rest c
update_color tx faults (some raw) rest c = store_color faults (valid_group_color tx raw) rest c

abbrev pub store_name :
    UpdateFaults → Option String → (ServerConfig → Updated) → ServerConfig → Updated
store_name faults none rest c = (write_err 400 "name must be 1-40 characters", c)
store_name faults (some name) rest c =
    if faults.set_name then (write_err 500 "server error", c) else rest (record c { name = name })

unfoldable pub update_name :
    NameTexts → UpdateFaults → Option String → (ServerConfig → Updated) → ServerConfig → Updated
update_name tx faults none rest c = rest c
update_name tx faults (some raw) rest c = store_name faults (valid_server_name tx raw) rest c

unfoldable pub handle_update_server :
    NameTexts → UpdateFaults → Option UpdateReq → ServerConfig → Updated
handle_update_server tx faults none c = (write_err 400 "invalid body", c)
handle_update_server tx faults (some req) c =
    if not (is_sent req.name) && (not (is_sent req.color) && not (patch_present req.patch))
    then (write_err 400 "nothing to update", c)
    else update_name tx faults req.name
        (update_color tx faults req.color (update_recap faults req.patch)) c

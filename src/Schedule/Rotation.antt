-- ===== src/Schedule/Rotation.antt =====
-- internal/engine/schedule.go: a rotation, its restriction to a daily window, and the participant on call.
use nxs_anomaly.Base.{
  ℕ, String, Bool, true, not, ◌&&◌, ◌||◌, List, [], ◌∷◌, Option, none, some, ltb, eqb, ◌==◌,
  if◌then◌else◌, length, contains, map,
}
use nxs_anomaly.Base.Text.{trim_space, str_default, cut}
use nxs_anomaly.Base.Time.{Instant}
use nxs_anomaly.Base.Decoded.{
  Json, null, array, object, Fields, items, find, print_value, text_val, positive_val, flag_val,
}
use nxs_anomaly.Schedule.Calendar.{Calendar}

pub record Restriction : Type 0 where
  pub start_minute : ℕ
  pub end_minute : ℕ
  pub days : List String

-- `rotation`; a zero time is 0.
pub record Rotation : Type 0 where
  pub enabled : Bool
  pub start_at : Instant
  pub interval : ℕ
  pub unit : String
  pub participant_ids : List String
  pub restriction : Option Restriction

-- The `weekdayNames` map: Sunday is 0.
unfoldable pub weekday_number : String → Option ℕ
weekday_number d =
    if d == "sun"
    then some 0
    else if d == "mon"
    then some 1
    else if d == "tue"
    then some 2
    else if d == "wed"
    then some 3
    else if d == "thu"
    then some 4
    else if d == "fri"
    then some 5
    else if d == "sat"
    then some 6
    else none

abbrev pub weekday_order : List String
weekday_order = "mon" ∷ "tue" ∷ "wed" ∷ "thu" ∷ "fri" ∷ "sat" ∷ "sun" ∷ []

pub data RotationError : Type 0 where
  bad_participants bad_start_at missing_start_at bad_restriction_start bad_restriction_end
        same_minutes bad_days :
      RotationError
  unsupported_unit unsupported_day : String → RotationError

pub data Parsed (A : Type 0) : Type 0 where
  parsed : A → Parsed A
  failed : RotationError → Parsed A

infixl 5 ◌>>=◌
abbrev pub ◌>>=◌ : {A B : Type 0} → Parsed A → (A → Parsed B) → Parsed B
parsed a >>= f = f a
failed e >>= f = failed e

abbrev pub or_fail : {A : Type 0} → RotationError → Option A → Parsed A
or_fail e none = failed e
or_fail e (some a) = parsed a

-- `CoerceStringList`.
unfoldable pub coerce_string_list : RotationError → Option Json → Parsed (List String)
coerce_string_list e none = parsed []
coerce_string_list e (some null) = parsed []
coerce_string_list e (some (array xs)) = parsed (map print_value (items xs))
coerce_string_list e (some _) = failed e

-- `key[:3]`: a cut within a character names no day either way.
day_key : Calendar → String → String
day_key cal d = cut 3 (cal.to_lower (trim_space d))

seen_day : String → String → Option ℕ → List String → Parsed (List String)
seen_day d key none seen = failed (unsupported_day d)
seen_day d key (some n) seen = parsed (key ∷ seen)

read_days : Calendar → List String → List String → Parsed (List String)
unfolding seen_day weekday_number day_key
read_days cal [] seen = parsed seen
read_days cal (d ∷ rest) seen =
    seen_day d (day_key cal d) (weekday_number (day_key cal d)) seen >>= read_days cal rest

keep_seen : List String → List String → List String
keep_seen seen [] = []
keep_seen seen (d ∷ rest) =
    let kept = keep_seen seen rest in if contains d seen then d ∷ kept else kept

read_window : Calendar → Fields → Parsed (Option Restriction)
unfolding coerce_string_list read_days keep_seen
read_window cal m = do
  from ← or_fail bad_restriction_start (cal.clock (trim_space (text_val m "start")))
  until ← or_fail bad_restriction_end (cal.clock (trim_space (text_val m "end")))
  listed ←
      (if eqb from until then failed same_minutes else coerce_string_list bad_days (find "days" m))
  seen ← read_days cal listed []
  parsed (
      some
        (record { start_minute = from; end_minute = until; days = keep_seen seen weekday_order }))

unfoldable pub parse_restriction : Calendar → Option Json → Parsed (Option Restriction)
unfolding read_window
parse_restriction cal (some (object m)) =
    if text_val m "start" == "" && text_val m "end" == "" then parsed none else read_window cal m
parse_restriction cal _ = parsed none

unfoldable pub is_unit : String → Bool
is_unit u = u == "hours" || u == "days" || u == "weeks"

unfoldable pub no_start : Rotation → Parsed Rotation
no_start r = if eqb (length r.participant_ids) 0 then parsed r else failed missing_start_at

unfoldable pub with_start : Calendar → Fields → Rotation → Parsed Rotation
unfolding parse_restriction
with_start cal raw r = do
  start ← or_fail bad_start_at (cal.time.parse (text_val raw "start_at"))
  res ← parse_restriction cal (find "restriction" raw)
  parsed (record r { start_at = start; restriction = res })

unfoldable pub positive_interval : ℕ → ℕ
positive_interval n = if eqb n 0 then 1 else n

-- `parseRotation`.
unfoldable pub parse_rotation : Calendar → Fields → Parsed Rotation
unfolding no_start with_start positive_interval is_unit coerce_string_list
parse_rotation cal raw = do
  ids ← coerce_string_list bad_participants (find "participant_ids" raw)
  let unit = cal.to_lower (str_default (text_val raw "handoff_unit") "weeks")
  let r : Rotation = record {
    enabled = flag_val raw "enabled" true;
    start_at = 0;
    interval = positive_interval (positive_val raw "handoff_interval");
    unit = unit;
    participant_ids = ids;
    restriction = none;
  }
  if not (is_unit unit)
      then failed (unsupported_unit unit)
      else if text_val raw "start_at" == ""
      then no_start r
      else with_start cal raw r

unfoldable pub usable : Parsed Rotation → Option Rotation
usable (failed e) = none
usable (parsed r) = if r.enabled && ltb 0 (length r.participant_ids) then some r else none

unfoldable pub rotation_of : Calendar → Option Json → Option Rotation
unfolding usable
rotation_of cal (some (object raw)) = usable (parse_rotation cal raw)
rotation_of cal _ = none

-- `parseRotationFromSchedule`, where a rotation that is not in use is none.
unfoldable pub parse_rotation_from_schedule : Calendar → Fields → Option Rotation
unfolding rotation_of
parse_rotation_from_schedule cal schedule = rotation_of cal (find "rotation" schedule)

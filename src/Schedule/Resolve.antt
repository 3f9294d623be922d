-- ===== src/Schedule/Resolve.antt =====
-- internal/engine/schedule.go and engine.go: who is on call in a schedule at an instant, from an active
-- override, the rotation, or the legacy shifts.
use nxs_anomaly.Base.{
  ℕ, ◌*◌, String, Bool, true, false, not, ◌&&◌, ◌||◌, List, [], ◌∷◌, Option, none, some, ltb, leb,
  eqb, ◌==◌, if◌then◌else◌,
}
use nxs_anomaly.Base.Text.{str_default}
use nxs_anomaly.Base.Time.{Instant}
use nxs_anomaly.Base.Decoded.{Fields, find, text_val, flag_val, list_of, objects}
use nxs_anomaly.Base.Durations.{less, rem, sub}
use nxs_anomaly.Schedule.Calendar.{day, Calendar}
use nxs_anomaly.Schedule.Rotation.{Rotation, parse_rotation_from_schedule}
use nxs_anomaly.Schedule.Handoffs.{participant_at}

known_zone : Calendar → String → String
known_zone cal name = if name == "" then "UTC" else if cal.loads name then name else "UTC"

-- `scheduleLocation`.
unfoldable pub schedule_location : Calendar → Fields → String
unfolding known_zone
schedule_location cal schedule = known_zone cal (text_val schedule "timezone")

-- `anyList`, and the entries of it that are objects.
unfoldable pub rows_of : Fields → String → List Fields
rows_of schedule key = objects (list_of (find key schedule))

-- An override as it bears on an instant: its user and when it was created, if it covers the instant.
pub record Cover : Type 0 where
  pub user_id : String
  pub created : Instant

or_zero : Option Instant → Instant
or_zero none = 0
or_zero (some t) = t

unfoldable pub covering :
    Calendar → Fields → Instant → Option Instant → Option Instant → Option Cover
unfolding or_zero
covering cal o at (some start) (some until) =
    if ltb at start || leb until at
    then none
    else some (record {
      user_id = text_val o "user_id";
      created = or_zero (cal.time.parse (text_val o "created_at"));
    })
covering cal o at _ _ = none

unfoldable pub cover_of : Calendar → Instant → Fields → Option Cover
unfolding covering
cover_of cal at o =
    covering cal o at
      (cal.time.parse (str_default (text_val o "start_at") (text_val o "created_at")))
      (cal.time.parse (text_val o "until"))

-- The winner so far, and one override more.
unfoldable pub later_cover : Option Cover → Option Cover → Option Cover
later_cover winner none = winner
later_cover none (some c) = some c
later_cover (some w) (some c) = if ltb c.created w.created then some w else some c

unfoldable pub winning_cover : Calendar → Instant → List Fields → Option Cover → Option Cover
unfolding later_cover
winning_cover cal at [] winner = winner
winning_cover cal at (o ∷ rest) winner =
    winning_cover cal at rest (later_cover winner (cover_of cal at o))

unfoldable pub cover_users : Option Cover → List String
cover_users none = []
cover_users (some c) = c.user_id ∷ []

-- `activeOverrideUsers`.
unfoldable pub active_override_users : Calendar → Fields → Instant → List String
unfolding cover_users
active_override_users cal schedule at =
    cover_users (winning_cover cal at (rows_of schedule "overrides") none)

-- The period of a recurrence, and 0 for none.
unfoldable pub recurrence_period : String → ℕ
recurrence_period s = if s == "daily" then day else if s == "weekly" then 7 * day else 0

-- Within a period, whose remainder by nothing is not taken.
unfoldable pub in_phase : ℕ → Instant → Instant → Instant → Bool
in_phase period start until at =
    if eqb period 0
    then leb start at && ltb at until
    else leb start at && less (rem (sub at start) period) (sub until start)

unfoldable pub shift_between : Calendar → Fields → Instant → Option Instant → Option Instant → Bool
unfolding in_phase recurrence_period
shift_between cal s at (some start) (some until) =
    in_phase (recurrence_period (cal.to_lower (text_val s "recurrence"))) start until at
shift_between cal s at _ _ = false

-- `shiftActive`.
unfoldable pub shift_active : Calendar → Fields → Instant → Bool
unfolding shift_between
shift_active cal s at =
    shift_between cal s at (cal.time.parse (text_val s "start_at"))
      (cal.time.parse (text_val s "end_at"))

unfoldable pub shift_users : Calendar → Instant → List Fields → List String
shift_users cal at [] = []
shift_users cal at (s ∷ rest) =
    let users = shift_users cal at rest in
    if shift_active cal s at then text_val s "user_id" ∷ users else users

-- `activeShiftUsers`.
unfoldable pub active_shift_users : Calendar → Fields → Instant → List String
unfolding shift_users
active_shift_users cal schedule at = shift_users cal at (rows_of schedule "shifts")

abbrev pub source_override : String
source_override = "override"

abbrev pub source_rotation : String
source_rotation = "rotation"

abbrev pub source_shift : String
source_shift = "shift"

abbrev pub source_none : String
source_none = ""

abbrev pub nobody : List String × String
nobody = ([], source_none)

pub some_of : List String → String → List String × String
some_of [] source = nobody
some_of (u ∷ us) source = (u ∷ us, source)

unfoldable pub by_rotation : Calendar → Fields → Instant → Option Rotation → List String × String
unfolding some_of
by_rotation cal schedule at none = some_of (active_shift_users cal schedule at) source_shift
by_rotation cal schedule at (some r) =
    let user = participant_at cal (schedule_location cal schedule) r at in
    if user == "" then nobody else (user ∷ [], source_rotation)

unfoldable pub by_override : Calendar → Fields → Instant → List String → List String × String
unfolding by_rotation
by_override cal schedule at [] =
    by_rotation cal schedule at (parse_rotation_from_schedule cal schedule)
by_override cal schedule at (u ∷ us) = (u ∷ us, source_override)

-- `resolveScheduleAt`; a nil schedule is none.
unfoldable pub resolve_schedule_at : Calendar → Option Fields → Instant → List String × String
unfolding by_override
resolve_schedule_at cal none at = nobody
resolve_schedule_at cal (some schedule) at =
    if not (flag_val schedule "enabled" true)
    then nobody
    else by_override cal schedule at (active_override_users cal schedule at)

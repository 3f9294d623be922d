-- ===== src/Tests/Schedules.antt =====
-- Schedules on a concrete calendar, in which every day has 24 hours.
use nxs_anomaly.Base.{
  ℕ, suc, ◌+◌, ◌-◌, ◌*◌, ◌/◌, ◌%◌, ◌≡◌, refl, ◌≢◌, ◌↔◌, inl, String, true, List, [], ◌∷◌, Option,
  none, some, arith, ◌==◌, if◌then◌else◌, ne_of_test,
}
use nxs_anomaly.Base.Time.{Instant, second, minute}
use nxs_anomaly.Base.Decoded.{
  text, array, object, nil, cons, Fields, end, field, find, text_val, flag_val,
}
use nxs_anomaly.Schedule.Calendar.{ℤ, pos, negsuc, day, Calendar}
use nxs_anomaly.Schedule.Rotation.{Restriction, parse_rotation_from_schedule, Rotation}
use nxs_anomaly.Schedule.Handoffs.{window_allows}
use nxs_anomaly.Schedule.Resolve.{
  active_override_users, Cover, cover_of, winning_cover, resolve_schedule_at, rows_of,
}
use nxs_anomaly.Schedule.Boundaries.{sort_points, insert_point, between, schedule_boundaries}
use nxs_anomaly.Schedule.Timeline.{ScheduleSegment, schedule_timeline, apply_roster, schedule_gaps}
use nxs_anomaly.Schedule.Covers.{IsWinner, winning_cover_lem}
use nxs_anomaly.Schedule.Tiles.{Tiles, Apart, schedule_timeline-Tiles}
use nxs_anomaly.Schedule.Answers.{Answered, schedule_timeline_answers}
use nxs_anomaly.Schedule.Steady.{IsPlain}
use nxs_anomaly.Schedule.Roster.{on_roster, schedule_gaps_none}
use nxs_anomaly.Schedule.Windows.{IsOpen, window_allows_iff}
use nxs_anomaly.Tests.Data.{tick_time}

abbrev add_whole_days : String → Instant → ℤ → Instant
add_whole_days zone t (pos n) = t + n * day
add_whole_days zone t (negsuc n) = t - suc n * day

abbrev clock : String → Option ℕ
clock s = if s == "22:00" then some 1320 else if s == "06:00" then some 360 else none

abbrev utc : Calendar
utc = record {
  time = tick_time;
  to_lower = λ s. s;
  clock = clock;
  loads = λ zone. zone == "UTC";
  add_days = add_whole_days;
  minute_of_day = λ zone t. (t / minute) % 1440;
  weekday = λ zone t. (t / day + 1) % 7;
  midnight = λ zone t. t / day * day;
}

abbrev weekly : Rotation
weekly = record {
  enabled = true;
  start_at = second;
  interval = 1;
  unit = "weeks";
  participant_ids = "ann" ∷ "bob" ∷ [];
  restriction = none;
}

abbrev override : String → String → String → String → Fields
override user start until created =
    field "created_at" (text created)
      (field "start_at" (text start) (field "until" (text until) (field "user_id" (text user) end)))

abbrev covered : Fields
covered =
    field "overrides"
      (array (
        cons (object (override "ann" "+i" "+iiii" "+i"))
          (cons (object (override "bob" "+ii" "+iii" "+ii")) nil)))
      end

abbrev timeline : List ScheduleSegment
timeline =
    record { start = second; end = 2 * second; user_ids = "ann" ∷ []; source = "override" }
    ∷ record { start = 2 * second; end = 3 * second; user_ids = "bob" ∷ []; source = "override" }
    ∷ record { start = 3 * second; end = 4 * second; user_ids = "ann" ∷ []; source = "override" }
    ∷ []

covered-timeline : schedule_timeline utc (some covered) second (4 * second) ≡ timeline
unfolding schedule_timeline schedule_boundaries sort_points insert_point between rows_of find
    text_val parse_rotation_from_schedule resolve_schedule_at flag_val active_override_users
    winning_cover cover_of
covered-timeline = refl

schedule_timeline-Tiles_example :
    Tiles second (schedule_timeline utc (some covered) second (4 * second)) (4 * second)
    × Apart none (schedule_timeline utc (some covered) second (4 * second))
schedule_timeline-Tiles_example =
    schedule_timeline-Tiles utc covered second (4 * second) (omega arith)

-- Between two points.
abbrev later_on : Instant
later_on = 2 * second + 5

bob_then : active_override_users utc covered later_on ≡ "bob" ∷ []
unfolding active_override_users rows_of find winning_cover cover_of text_val
bob_then = refl

covered-IsPlain : IsPlain utc covered later_on
unfolding rows_of find text_val
covered-IsPlain = ((ne_of_test refl, (ne_of_test refl, tt)), inl (λ e. cc (bob_then, e)))

schedule_timeline_answers_example :
    Answered later_on
      (resolve_schedule_at utc (some covered) later_on)
      (schedule_timeline utc (some covered) second (4 * second))
schedule_timeline_answers_example =
    schedule_timeline_answers utc covered second (4 * second) later_on covered-IsPlain (omega arith)
      (omega arith)

abbrev roster : List String
roster = "ann" ∷ "bob" ∷ []

covered_gaps : schedule_gaps utc (some covered) second (4 * second) (some roster) ≡ []
unfolding schedule_gaps apply_roster
covered_gaps = rw covered-timeline refl

schedule_gaps_none_example :
    on_roster (some roster) (resolve_schedule_at utc (some covered) later_on).0 ≢ []
schedule_gaps_none_example =
    schedule_gaps_none utc covered second (4 * second) later_on (some roster) covered_gaps
      covered-IsPlain (omega arith) (omega arith)

timeline-Tiles : Tiles second timeline (4 * second)
timeline-Tiles = (refl, omega arith, (refl, omega arith, (refl, omega arith, refl)))

abbrev rows : List Fields
rows = override "ann" "+i" "+iiii" "+i" ∷ override "bob" "+ii" "+iii" "+ii" ∷ []

abbrev by_bob : Cover
by_bob = record { user_id = "bob"; created = 2 * second }

bob_wins : winning_cover utc (2 * second) rows none ≡ some by_bob
unfolding winning_cover cover_of text_val find
bob_wins = refl

winning_cover_lem_example :
    IsWinner utc (2 * second) rows (winning_cover utc (2 * second) rows none)
winning_cover_lem_example = winning_cover_lem utc (2 * second) rows

-- Over the night, from Monday on.
abbrev nights : Restriction
nights = record { start_minute = 1320; end_minute = 360; days = "mon" ∷ [] }

-- Tuesday at five in the morning.
window_allows_iff_example : (window_allows nights 300 2 ≡ true) ↔ IsOpen nights 300 2
window_allows_iff_example =
    window_allows_iff nights 300 2 (omega arith) (omega arith) (omega arith) (omega arith)
      (λ e. omega (arith, e))

abbrev weekly_schedule : Fields
weekly_schedule =
    field "rotation"
      (object (
        field "participant_ids" (array (cons (text "ann") (cons (text "bob") nil)))
          (field "handoff_unit" (text "weeks") (field "start_at" (text "+i") end))))
      end

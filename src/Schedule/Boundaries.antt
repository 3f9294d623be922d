-- ===== src/Schedule/Boundaries.antt =====
-- internal/engine/schedule.go: the instants between two ends at which the answer of a schedule may
-- change.
use nxs_anomaly.Base.{
  ℕ, zero, suc, ◌+◌, ◌*◌, String, ◌&&◌, List, [], ◌∷◌, ◌++◌, Option, none, some, ltb, leb, eqb,
  if◌then◌else◌,
}
use nxs_anomaly.Base.Time.{Instant, minute}
use nxs_anomaly.Base.Decoded.{Fields, text_val}
use nxs_anomaly.Base.Durations.{add, sub, mul, quot}
use nxs_anomaly.Schedule.Calendar.{ℤ, pos, negsuc, next, Calendar}
use nxs_anomaly.Schedule.Rotation.{Rotation, Restriction, parse_rotation_from_schedule}
use nxs_anomaly.Schedule.Handoffs.{handoff_at, period_index}
use nxs_anomaly.Schedule.Resolve.{rows_of, schedule_location, recurrence_period}

abbrev pub max_boundary_points : ℕ
max_boundary_points = 50_000

unfoldable pub or_no_point : Option Instant → List Instant
or_no_point none = []
or_no_point (some t) = t ∷ []

unfoldable pub override_points : Calendar → List Fields → List Instant
unfolding or_no_point
override_points cal [] = []
override_points cal (o ∷ rest) =
    or_no_point (cal.time.parse (text_val o "start_at"))
    ++ (or_no_point (cal.time.parse (text_val o "until")) ++ override_points cal rest)

-- The handoffs from the n-th on that are not after `to`, at most so many.
handoff_points : ℕ → Calendar → String → Rotation → Instant → ℤ → List Instant
handoff_points zero cal zone r to n = []
handoff_points (suc i) cal zone r to n =
    let rest = handoff_points i cal zone r to (next n) in
    if ltb to (handoff_at cal zone r n) then [] else handoff_at cal zone r n ∷ rest

not_negative : ℤ → ℤ
not_negative (pos n) = pos n
not_negative (negsuc n) = pos 0

-- The edges of the daily window on each day up to `last`, at most so many days.
window_points : ℕ → Calendar → String → Restriction → Instant → Instant → List Instant
window_points zero cal zone res last d = []
window_points (suc i) cal zone res last d =
    let rest = window_points i cal zone res last (cal.add_days zone d (pos 1)) in
    if ltb last d
    then []
    else (cal.midnight zone d + res.start_minute * minute)
      ∷ (cal.midnight zone d + res.end_minute * minute)
      ∷ rest

restriction_points : Calendar → String → Instant → Instant → Option Restriction → List Instant
unfolding window_points
restriction_points cal zone from to none = []
restriction_points cal zone from to (some res) =
    window_points max_boundary_points cal zone res (cal.add_days zone to (pos 1))
      (cal.add_days zone from (negsuc 0))

-- The occurrences of a recurring shift from `at` on, with their ends, at most so many.
occurrences : ℕ → ℕ → ℤ → Instant → Instant → List Instant
occurrences zero period duration to at = []
occurrences (suc i) period duration to at =
    let rest = occurrences i period duration to (at + period) in
    if ltb to at then [] else at ∷ add at duration ∷ rest

first_occurrence : ℕ → Instant → Instant → Instant
first_occurrence period from start =
    if ltb start from then add start (mul (quot (sub from start) (pos period)) period) else start

-- Of a shift with this period, 0 for one that does not recur.
unfoldable pub shift_times : ℕ → Instant → Instant → Instant → Instant → List Instant
unfolding occurrences first_occurrence
shift_times period from to start until =
    if eqb period 0
    then start ∷ until ∷ []
    else occurrences max_boundary_points period (sub until start) to
        (first_occurrence period from start)

unfoldable pub shift_between_points :
    Calendar → Fields → Instant → Instant → Option Instant → Option Instant → List Instant
unfolding shift_times
shift_between_points cal s from to (some start) (some until) =
    shift_times (recurrence_period (cal.to_lower (text_val s "recurrence"))) from to start until
shift_between_points cal s from to _ _ = []

unfoldable pub shift_points : Calendar → Instant → Instant → List Fields → List Instant
unfolding shift_between_points
shift_points cal from to [] = []
shift_points cal from to (s ∷ rest) =
    shift_between_points cal s from to (cal.time.parse (text_val s "start_at"))
      (cal.time.parse (text_val s "end_at"))
    ++ shift_points cal from to rest

unfoldable pub layer_points : Calendar → Fields → Instant → Instant → Option Rotation → List Instant
unfolding handoff_points not_negative restriction_points shift_points
layer_points cal schedule from to none = shift_points cal from to (rows_of schedule "shifts")
layer_points cal schedule from to (some r) =
    let zone = schedule_location cal schedule in
    handoff_points max_boundary_points cal zone r to (not_negative (period_index cal zone r from))
    ++ restriction_points cal zone from to r.restriction

-- Every instant at which the answer may change.
unfoldable pub change_points : Calendar → Fields → Instant → Instant → List Instant
unfolding override_points layer_points
change_points cal schedule from to =
    override_points cal (rows_of schedule "overrides")
    ++ layer_points cal schedule from to (parse_rotation_from_schedule cal schedule)

-- `add` of `scheduleBoundaries`: only what is between the two ends.
unfoldable pub between : Instant → Instant → List Instant → List Instant
between from to [] = []
between from to (t ∷ rest) =
    let kept = between from to rest in if leb from t && leb t to then t ∷ kept else kept

-- `sort.Slice` and the removal of repeats: a list with each of its instants once, in order.
unfoldable pub insert_point : Instant → List Instant → List Instant
insert_point t [] = t ∷ []
insert_point t (p ∷ rest) =
    let more = insert_point t rest in
    if ltb t p then t ∷ p ∷ rest else if eqb t p then p ∷ rest else p ∷ more

unfoldable pub sort_points : List Instant → List Instant
sort_points [] = []
sort_points (t ∷ rest) = insert_point t (sort_points rest)

-- `scheduleBoundaries`.
unfoldable pub schedule_boundaries : Calendar → Fields → Instant → Instant → List Instant
unfolding change_points
schedule_boundaries cal schedule from to =
    sort_points (from ∷ to ∷ between from to (change_points cal schedule from to))

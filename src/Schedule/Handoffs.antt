-- ===== src/Schedule/Handoffs.antt =====
-- internal/engine/schedule.go: the handoffs of a rotation, the period at an instant, and the participant on
-- call.
use nxs_anomaly.Base.{
  ℕ, zero, suc, ◌+◌, ◌%◌, String, Bool, true, false, not, ◌||◌, List, [], ◌∷◌, Option, none, some,
  ltb, leb, eqb, ◌==◌, if◌then◌else◌, length, get_or,
}
use nxs_anomaly.Base.Time.{Instant, hour}
use nxs_anomaly.Base.Durations.{ℤ, pos, negsuc, mul, quot, add, sub}
use nxs_anomaly.Schedule.Calendar.{next, previous, Calendar}
use nxs_anomaly.Schedule.Rotation.{Rotation, Restriction, weekday_number}

-- `handoffAt`.
unfoldable pub handoff_at : Calendar → String → Rotation → ℤ → Instant
handoff_at cal zone r n =
    if r.unit == "hours"
    then add r.start_at (mul (mul n r.interval) hour)
    else if r.unit == "weeks"
    then cal.add_days zone r.start_at (mul (mul n r.interval) 7)
    else cal.add_days zone r.start_at (mul n r.interval)

-- The average length of a period.
unfoldable pub average_period : Rotation → ℤ
average_period r =
    if r.unit == "hours"
    then mul (pos r.interval) hour
    else if r.unit == "days"
    then mul (mul (pos r.interval) 24) hour
    else mul (mul (mul (pos r.interval) 7) 24) hour

-- `int(at.Sub(r.startAt) / avg)`.
unfoldable pub estimate : Rotation → Instant → ℤ
unfolding average_period
estimate r at = quot (sub at r.start_at) (average_period r)

-- At most so many steps back, while the handoff is after the instant.
unfoldable pub step_back : ℕ → Calendar → String → Rotation → Instant → ℤ → ℤ
step_back zero cal zone r at n = n
step_back (suc i) cal zone r at n =
    let rest = step_back i cal zone r at (previous n) in
    if ltb at (handoff_at cal zone r n) then rest else n

-- At most so many steps on, while the next handoff is not after the instant.
unfoldable pub step_on : ℕ → Calendar → String → Rotation → Instant → ℤ → ℤ
step_on zero cal zone r at n = n
step_on (suc i) cal zone r at n =
    let rest = step_on i cal zone r at (next n) in
    if leb (handoff_at cal zone r (next n)) at then rest else n

-- `periodIndex`.
unfoldable pub period_index : Calendar → String → Rotation → Instant → ℤ
unfolding estimate step_back step_on
period_index cal zone r at = step_on 8 cal zone r at (step_back 8 cal zone r at (estimate r at))

unfoldable pub has_day : ℕ → Option ℕ → Bool
has_day d none = false
has_day d (some n) = eqb n d

unfoldable pub any_day : ℕ → List String → Bool
unfolding has_day
any_day d [] = false
any_day d (name ∷ rest) = has_day d (weekday_number name) || any_day d rest

unfoldable pub allows_day : Restriction → ℕ → Bool
unfolding any_day
allows_day res d = if eqb (length res.days) 0 then true else any_day d res.days

-- `restrictionAllows`, of the minute of the day and the weekday in the zone.
unfoldable pub window_allows : Restriction → ℕ → ℕ → Bool
window_allows res minute weekday =
    if ltb res.start_minute res.end_minute
    then (if ltb minute res.start_minute || leb res.end_minute minute
        then false
        else allows_day res weekday)
    else if ltb minute res.end_minute
    then allows_day res ((weekday + 6) % 7)
    else if leb res.start_minute minute
    then allows_day res weekday
    else false

unfoldable pub restriction_allows : Calendar → String → Option Restriction → Instant → Bool
unfolding window_allows
restriction_allows cal zone none at = true
restriction_allows cal zone (some res) at =
    window_allows res (cal.minute_of_day zone at) (cal.weekday zone at)

unfoldable pub in_turn : List String → ℤ → String
in_turn ids (negsuc n) = ""
in_turn ids (pos n) = get_or ids (n % length ids) ""

-- `participantAt`.
unfoldable pub participant_at : Calendar → String → Rotation → Instant → String
unfolding restriction_allows in_turn
participant_at cal zone r at =
    if not r.enabled || eqb (length r.participant_ids) 0 || eqb r.start_at 0
    then ""
    else if ltb at r.start_at
    then ""
    else if not (restriction_allows cal zone r.restriction at)
    then ""
    else in_turn r.participant_ids (period_index cal zone r at)

-- ===== src/Schedule/Turns.antt =====
-- The participant that `participantAt` answers, of a rotation that `parseRotationFromSchedule` reads.
use nxs_anomaly.Base.{◌≡◌, ◌<◌, true, Option, none, some, length}
use nxs_anomaly.Base.Decoded
use nxs_anomaly.Base.Decoded.{flag_val}
use nxs_anomaly.Schedule.Calendar.{Calendar}
use nxs_anomaly.Schedule.Rotation.{Rotation, Parsed, parsed, failed}
use nxs_anomaly.Schedule.Periods.{IsUnit}

-- What is parsed, if it is, has the property.
abbrev IfParsed : {A : Type 0} → (A → Type 0) → Parsed A → Type 0
IfParsed P (parsed a) = P a
IfParsed P (failed e) = Unit {0}

-- A rotation hands over after a whole number of hours, days or weeks, and more than none.
record Turns (r : Rotation) : Type 0 where
  turns_unit : IsUnit r.unit
  turns_interval : 0 < r.interval

-- A rotation in use: it turns, is enabled and has participants.
record InUse (r : Rotation) : Type 0 where
  turns : Turns r
  is_on : r.enabled ≡ true
  someone : 0 < length r.participant_ids

abbrev UsedIf : Option Rotation → Type 0
UsedIf none = Unit {0}
UsedIf (some r) = InUse r

-- ===== src/Schedule/Calendar.antt =====
-- What internal/engine/schedule.go asks of Go's `time` and `strings`: a time zone is its name, and the
-- zone files and the calendar are an argument.
use nxs_anomaly.Base.{ℕ, zero, suc, ◌+◌, ◌*◌, ◌≤◌, ◌<◌, String, Bool, Option}
pub use nxs_anomaly.Base.Durations.{ℤ, pos, negsuc}
use nxs_anomaly.Base.Durations.{max_int64}
use nxs_anomaly.Base.Time.{Instant, TimeText, hour}

-- `n++`.
abbrev pub next : ℤ → ℤ
next (pos n) = pos (suc n)
next (negsuc zero) = pos 0
next (negsuc (suc n)) = negsuc n

-- `n--`.
abbrev pub previous : ℤ → ℤ
previous (pos zero) = negsuc 0
previous (pos (suc n)) = pos n
previous (negsuc n) = negsuc (suc n)

abbrev pub day : ℕ
day = 24 * hour

-- `ParseDatetime`, `strings.ToLower`, `time.Parse("15:04")` in minutes, `time.LoadLocation`, and of an
-- instant in a zone `AddDate(0, 0, n)`, `Hour()*60+Minute()`, `Weekday()` and the midnight before it.
pub record Calendar : Type 0 where
  pub time : TimeText
  pub to_lower : String → String
  pub clock : String → Option ℕ
  pub loads : String → Bool
  pub add_days : String → Instant → ℤ → Instant
  pub minute_of_day : String → Instant → ℕ
  pub weekday : String → Instant → ℕ
  pub midnight : String → Instant → Instant

-- What is used of the calendar: a day has 1440 minutes and a week seven days; and within the range of a
-- `time.Duration`, stepping n days arrives within a day of n times 24 hours later, which covers every
-- change of the clocks and of a zone.
pub record IsCalendar (c : Calendar) : Type 0 where
  pub minutes : (zone : String) (t : Instant) → c.minute_of_day zone t < 1440
  pub weekdays : (zone : String) (t : Instant) → c.weekday zone t < 7
  pub days_late :
      (zone : String) (t : Instant) (n : ℕ)
      → n * day ≤ max_int64
      → c.add_days zone t (pos n) ≤ t + n * day + day
  pub days_early :
      (zone : String) (t : Instant) (n : ℕ)
      → n * day ≤ max_int64
      → t + n * day ≤ c.add_days zone t (pos n) + day

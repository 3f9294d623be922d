-- ===== src/Base/Time.antt =====
-- Instants and the time texts of internal/utils/utils.go. An instant is a number of nanoseconds
-- since Go's zero time, so `IsZero` is a test for 0; a duration is a number of nanoseconds.
use Prim.Native.Nat.{ℕ, ◌*◌, ◌/◌}
use Prim.Native.String.{String}
use mathlib.Core.Path.{◌≡◌}
use mathlib.Core.Option.{Option, none, some}

abbrev pub Instant : Type 0
Instant = ℕ

abbrev pub second : ℕ
second = 1_000_000_000

abbrev pub minute : ℕ
minute = 60 * second

abbrev pub hour : ℕ
hour = 60 * minute

abbrev pub truncate_second : Instant → Instant
truncate_second t = (t / second) * second

-- `ParseDatetime` and `ToISO`, which hand their work to Go's `time.Parse` and `Time.Format`.
-- `ToISO` drops what is below a second; no layout reads the empty text.
pub record TimeText : Type 0 where
  pub parse : String → Option Instant
  pub to_iso : Instant → String
  pub parse-to_iso : (t : Instant) → parse (to_iso t) ≡ some (truncate_second t)
  pub parse_empty : parse "" ≡ none

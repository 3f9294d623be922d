-- ===== src/Base/Layouts.antt =====
-- internal/utils/utils.go: `ToISO` and `ParseDatetime` over Go's `time.Parse` and `Time.Format`, which are
-- an argument. They fill the interface that the other modules take.
use Prim.Native.Char.{code}
use Prim.Native.String.{String}
use mathlib.Core.Path.{◌≡◌, refl}
use mathlib.Core.Option.{Option, none, some}
use mathlib.Core.List.{List, [], ◌∷◌}
use nxs_anomaly.Base.Tests.{if◌then◌else◌, eqb}
use nxs_anomaly.Base.Text.{trim_space}
use nxs_anomaly.Base.Time.{Instant, truncate_second, TimeText}

-- `time.Parse(layout, s)` as a time in UTC, and `t.Format(layout)` of a time in UTC.
pub record GoTime : Type 0 where
  pub parse : String → String → Option Instant
  pub format : String → Instant → String

abbrev iso_layout : String
iso_layout = "2006-01-02T15:04:05+00:00"

abbrev formats : List String
formats =
    "2006-01-02T15:04:05-07:00" ∷ "2006-01-02T15:04:05" ∷ "2006-01-02T15:04:05.999999999-07:00"
    ∷ "2006-01-02T15:04:05.999999999" ∷ "2006-01-02" ∷ []

-- A `Z` at the end stands for the offset of UTC.
with_offset : String → String
with_offset String.[] = ""
with_offset (String.◌∷◌ c String.[]) =
    if eqb (code c) b'Z' then "+00:00" else String.◌∷◌ c String.[]
with_offset (String.◌∷◌ c (String.◌∷◌ d s)) = String.◌∷◌ c (with_offset (String.◌∷◌ d s))

or_next : Option Instant → Option Instant → Option Instant
or_next none later = later
or_next (some t) later = some t

first_that_reads : GoTime → List String → String → Option Instant
unfolding or_next
first_that_reads go [] s = none
first_that_reads go (f ∷ rest) s = or_next (go.parse f s) (first_that_reads go rest s)

unfoldable pub parse_datetime : GoTime → String → Option Instant
unfolding trim_space with_offset first_that_reads
parse_datetime go s = first_that_reads go formats (with_offset (trim_space s))

unfoldable to_iso : GoTime → Instant → String
to_iso go t = go.format iso_layout (truncate_second t)

-- What is used of Go: a time before the year 10000 that is written to the second has no space around it and
-- ends in the offset, and the first layout reads it back; and no layout reads the empty text.
record IsGoTime (go : GoTime) : Type 0 where
  no_space : (t : Instant) → trim_space (go.format iso_layout t) ≡ go.format iso_layout t
  no_letter : (t : Instant) → with_offset (go.format iso_layout t) ≡ go.format iso_layout t
  reads_back :
      (t : Instant)
      → go.parse "2006-01-02T15:04:05-07:00" (go.format iso_layout (truncate_second t))
        ≡ some (truncate_second t)
  reads_no_empty : (layout : String) → go.parse layout "" ≡ none

-- A time that is written and read back is itself to the second.
parse_datetime-to_iso :
    (go : GoTime) (laws : IsGoTime go) (t : Instant)
    → parse_datetime go (to_iso go t) ≡ some (truncate_second t)
unfolding parse_datetime to_iso
parse_datetime-to_iso go laws t =
    rw
      (
        laws.no_space (truncate_second t),
        laws.no_letter (truncate_second t),
        laws.reads_back t,
        first_that_reads,
      )
      refl

parse_datetime_empty : (go : GoTime) (laws : IsGoTime go) → parse_datetime go "" ≡ none
unfolding parse_datetime
parse_datetime_empty go laws =
    rw
      (
        laws.reads_no_empty "2006-01-02T15:04:05-07:00",
        laws.reads_no_empty "2006-01-02T15:04:05",
        laws.reads_no_empty "2006-01-02T15:04:05.999999999-07:00",
        laws.reads_no_empty "2006-01-02T15:04:05.999999999",
        laws.reads_no_empty "2006-01-02",
      )
      refl

-- The two functions as the interface.
abbrev time_text : (go : GoTime) → IsGoTime go → TimeText
time_text go laws = record {
  parse = parse_datetime go;
  to_iso = to_iso go;
  parse-to_iso = parse_datetime-to_iso go laws;
  parse_empty = parse_datetime_empty go laws;
}

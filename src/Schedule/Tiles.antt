-- ===== src/Schedule/Tiles.antt =====
-- The timeline of a schedule: segments side by side from the one end to the other, neighbours with
-- different answers, and at each boundary the answer of the schedule.
use nxs_anomaly.Base.{
  suc, ◌≤◌, ◌<◌, ◌≡◌, refl, inl, inr, true, false, List, [], ◌∷◌, Option, none, some, ltb, leb,
  arith, Bool-cases,
}
use mathlib.Core.Path.{subst}
use nxs_anomaly.Base.Time.{Instant}
use nxs_anomaly.Base.Decoded.{Fields}
use nxs_anomaly.Schedule.Calendar.{Calendar}
use nxs_anomaly.Schedule.Boundaries.{schedule_boundaries}
use nxs_anomaly.Schedule.Timeline.{
  ScheduleSegment, same_answer, add_segment, last_of, lay, segment_at, pieces, schedule_timeline,
}
use nxs_anomaly.Schedule.Points.{Up, RunsTo, IsBoundaries, schedule_boundaries-IsBoundaries}

-- Segments side by side from `s` to `e`, none of them empty.
abbrev pub Tiles : Instant → List ScheduleSegment → Instant → Type 0
Tiles s [] e = s ≡ e
Tiles s (seg ∷ rest) e = (seg.start ≡ s) × (seg.start < seg.end) × Tiles seg.end rest e

abbrev pub Differs : Option ScheduleSegment → ScheduleSegment → Type 0
Differs none seg = Unit {0}
Differs (some last) seg = same_answer last seg ≡ false

-- No two neighbours answer the same.
abbrev pub Apart : Option ScheduleSegment → List ScheduleSegment → Type 0
Apart last [] = Unit {0}
Apart last (seg ∷ rest) = Differs last seg × Apart (some seg) rest

lay-Tiles-some :
    (segs : List ScheduleSegment) (last : ScheduleSegment) (e : Instant)
    → last.start < last.end
    → Tiles last.end segs e
    → Tiles last.start (lay segs (some last)) e
unfolding lay add_segment last_of
lay-Tiles-some [] last e long tiles = (refl, long, tiles)
lay-Tiles-some (seg ∷ rest) last e long tiles = elim (Bool-cases (same_answer last seg)) [
  | inl same ↦ rw same (
      lay-Tiles-some rest (record last { end = seg.end }) e (omega (arith, tiles.0, tiles.1))
        tiles.2)
  | inr other ↦ rw other (
    refl,
    long,
    subst (λ s. Tiles s (lay rest (some seg)) e) tiles.0
        (lay-Tiles-some rest seg e tiles.1 tiles.2),
  )
]

Differs-longer :
    (prev : Option ScheduleSegment) (last : ScheduleSegment) (e : Instant)
    → Differs prev last
    → Differs prev (record last { end = e })
unfolding same_answer
Differs-longer none last e h = tt
Differs-longer (some seg) last e h = h

lay-Apart-some :
    (prev : Option ScheduleSegment) (segs : List ScheduleSegment) (last : ScheduleSegment)
    → Differs prev last
    → Apart prev (lay segs (some last))
unfolding lay add_segment last_of
lay-Apart-some prev [] last away = (away, tt)
lay-Apart-some prev (seg ∷ rest) last away = elim (Bool-cases (same_answer last seg)) [
  | inl same ↦ rw same (
      lay-Apart-some prev rest (record last { end = seg.end })
        (Differs-longer prev last seg.end away))
  | inr other ↦ rw other (away, lay-Apart-some (some last) rest seg other)
]

pub lay-Tiles :
    (segs : List ScheduleSegment) (s e : Instant) → Tiles s segs e → Tiles s (lay segs none) e
unfolding lay last_of
lay-Tiles [] s e tiles = tiles
lay-Tiles (seg ∷ rest) s e tiles =
    subst (λ t. Tiles t (lay rest (some seg)) e) tiles.0 (lay-Tiles-some rest seg e tiles.1 tiles.2)

pub lay-Apart : (segs : List ScheduleSegment) → Apart none (lay segs none)
unfolding lay last_of
lay-Apart [] = tt
lay-Apart (seg ∷ rest) = lay-Apart-some none rest seg tt

pieces-Tiles :
    (cal : Calendar) (schedule : Fields) (lo p hi e : Instant) (l : List Instant)
    → Up lo (p ∷ l) hi
    → RunsTo (p ∷ l) e
    → Tiles p (pieces cal schedule (p ∷ l)) e
unfolding pieces segment_at
pieces-Tiles cal schedule lo p hi e [] up runs = runs
pieces-Tiles cal schedule lo p hi e (q ∷ rest) up runs =
    rw (ordered up.2.0)
      (refl, omega (arith, up.2.0), pieces-Tiles cal schedule (suc p) q hi e rest up.2 runs)
  where
    ordered : suc p ≤ q → ltb p q ≡ true
    ordered h = ground arith

pub of_boundaries :
    (cal : Calendar) (schedule : Fields) (from to : Instant) (l : List Instant)
    → IsBoundaries from to l
    → Tiles from (pieces cal schedule l) to
of_boundaries cal schedule from to [] b = absurd b.starts
of_boundaries cal schedule from to (p ∷ rest) b =
    subst (λ s. Tiles s (pieces cal schedule (p ∷ rest)) to) b.starts
      (pieces-Tiles cal schedule from p to to rest b.up b.runs)

-- The timeline of a schedule covers the time from `from` to `to` without gap or overlap: its segments lie
-- side by side from the one to the other, none is empty, and no two neighbours answer the same.
pub schedule_timeline-Tiles :
    (cal : Calendar) (schedule : Fields) (from to : Instant)
    → from < to
    → Tiles from (schedule_timeline cal (some schedule) from to) to
      × Apart none (schedule_timeline cal (some schedule) from to)
unfolding schedule_timeline
schedule_timeline-Tiles cal schedule from to h = rw (not_over h) (
  lay-Tiles (pieces cal schedule (schedule_boundaries cal schedule from to)) from to (
      of_boundaries cal schedule from to (schedule_boundaries cal schedule from to)
        (schedule_boundaries-IsBoundaries cal schedule from to h)),
  lay-Apart (pieces cal schedule (schedule_boundaries cal schedule from to)),
)
  where
    not_over : from < to → leb to from ≡ false
    not_over h = ground arith

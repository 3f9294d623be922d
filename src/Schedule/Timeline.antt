-- ===== src/Schedule/Timeline.antt =====
-- internal/engine/schedule.go: the timeline of a schedule between two instants, its roster, gaps and
-- overlaps.
use nxs_anomaly.Base.{
  ◌+◌, ◌*◌, String, Bool, true, false, ◌&&◌, List, [], ◌∷◌, ◌++◌, Option, none, some, ltb, leb, eqb,
  ◌==◌, if◌then◌else◌, length, contains,
}
use nxs_anomaly.Base.Time.{Instant}
use nxs_anomaly.Base.Decoded.{Fields}
use nxs_anomaly.Schedule.Calendar.{day, Calendar}
use nxs_anomaly.Schedule.Resolve.{resolve_schedule_at, source_none}
use nxs_anomaly.Schedule.Boundaries.{schedule_boundaries}

pub record ScheduleSegment : Type 0 where
  pub start : Instant
  pub end : Instant
  pub user_ids : List String
  pub source : String

-- `sameIDs`.
unfoldable pub same_ids : List String → List String → Bool
same_ids [] [] = true
same_ids (a ∷ xs) (b ∷ ys) = a == b && same_ids xs ys
same_ids _ _ = false

unfoldable pub same_answer : ScheduleSegment → ScheduleSegment → Bool
unfolding same_ids
same_answer a b = a.source == b.source && same_ids a.user_ids b.user_ids

-- A new segment beside the last one, which it lengthens if the two answer the same: what is done with,
-- and the last one now.
unfoldable pub add_segment :
    ScheduleSegment → Option ScheduleSegment → List ScheduleSegment × ScheduleSegment
unfolding same_answer
add_segment seg none = ([], seg)
add_segment seg (some last) =
    if same_answer last seg then ([], record last { end = seg.end }) else (last ∷ [], seg)

unfoldable pub last_of : Option ScheduleSegment → List ScheduleSegment
last_of none = []
last_of (some seg) = seg ∷ []

-- The loops that lay segments side by side.
unfoldable pub lay : List ScheduleSegment → Option ScheduleSegment → List ScheduleSegment
unfolding add_segment last_of
lay [] last = last_of last
lay (seg ∷ rest) last = let (done, last') = add_segment seg last in done ++ lay rest (some last')

unfoldable pub segment_at : Calendar → Fields → Instant → Instant → ScheduleSegment
segment_at cal schedule start end =
    let (ids, source) = resolve_schedule_at cal (some schedule) start in
    record { start = start; end = end; user_ids = ids; source = source }

-- One segment for each two neighbouring boundaries.
unfoldable pub pieces : Calendar → Fields → List Instant → List ScheduleSegment
unfolding segment_at
pieces cal schedule [] = []
pieces cal schedule (p ∷ []) = []
pieces cal schedule (p ∷ q ∷ rest) =
    let more = pieces cal schedule (q ∷ rest) in
    if ltb p q then segment_at cal schedule p q ∷ more else more

-- `scheduleTimeline`.
unfoldable pub schedule_timeline :
    Calendar → Option Fields → Instant → Instant → List ScheduleSegment
unfolding pieces lay
schedule_timeline cal none from to = []
schedule_timeline cal (some schedule) from to =
    if leb to from
    then []
    else lay (pieces cal schedule (schedule_boundaries cal schedule from to)) none

unfoldable pub keep_known : List String → List String → List String
keep_known known [] = []
keep_known known (u ∷ rest) =
    let kept = keep_known known rest in if contains u known then u ∷ kept else kept

unfoldable pub with_users : ScheduleSegment → List String → ScheduleSegment
with_users seg [] = record seg { user_ids = []; source = source_none }
with_users seg (u ∷ us) = record seg { user_ids = u ∷ us }

unfoldable pub known_only : List String → ScheduleSegment → ScheduleSegment
unfolding keep_known with_users
known_only known seg = with_users seg (keep_known known seg.user_ids)

unfoldable pub each_known : List String → List ScheduleSegment → List ScheduleSegment
unfolding known_only
each_known known [] = []
each_known known (seg ∷ rest) = known_only known seg ∷ each_known known rest

-- `applyRoster`; without a roster the caller cannot check.
unfoldable pub apply_roster : List ScheduleSegment → Option (List String) → List ScheduleSegment
unfolding each_known lay
apply_roster segments none = segments
apply_roster segments (some known) = lay (each_known known segments) none

unfoldable pub uncovered : List ScheduleSegment → List ScheduleSegment
uncovered [] = []
uncovered (seg ∷ rest) =
    let more = uncovered rest in if eqb (length seg.user_ids) 0 then seg ∷ more else more

unfoldable pub shared : List ScheduleSegment → List ScheduleSegment
shared [] = []
shared (seg ∷ rest) =
    let more = shared rest in if ltb 1 (length seg.user_ids) then seg ∷ more else more

-- `scheduleGaps`.
unfoldable pub schedule_gaps :
    Calendar → Option Fields → Instant → Instant → Option (List String) → List ScheduleSegment
unfolding uncovered
schedule_gaps cal schedule from to known =
    uncovered (apply_roster (schedule_timeline cal schedule from to) known)

-- `scheduleOverlaps`.
unfoldable pub schedule_overlaps :
    Calendar → Option Fields → Instant → Instant → Option (List String) → List ScheduleSegment
unfolding shared
schedule_overlaps cal schedule from to known =
    shared (apply_roster (schedule_timeline cal schedule from to) known)

-- `ScheduleHasGaps`, over the week of `coverageCheckWindow`.
unfoldable pub schedule_has_gaps : Calendar → Fields → Instant → Bool
schedule_has_gaps cal schedule from =
    ltb 0 (length (schedule_gaps cal (some schedule) from (from + 7 * day) none))

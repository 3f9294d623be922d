-- ===== src/Schedule/Answers.antt =====
-- What the timeline of a schedule says at an instant is what the schedule answers then.
use nxs_anomaly.Base.{
  suc, ◌≤◌, ◌<◌, ◌≡◌, refl, ◌∙◌, ◌⊎◌, inl, inr, Bool, true, false, ◌&&◌, List, [], ◌∷◌, none, some,
  ltb, leb, ◌==◌, String, arith, Bool-cases, ==→eq, leb→le,
}
use mathlib.Core.Path.{subst}
use nxs_anomaly.Base.Time.{Instant}
use nxs_anomaly.Base.Decoded.{Fields}
use nxs_anomaly.Schedule.Calendar.{Calendar}
use nxs_anomaly.Schedule.Resolve.{resolve_schedule_at}
use nxs_anomaly.Schedule.Boundaries.{schedule_boundaries}
use nxs_anomaly.Schedule.Timeline.{
  ScheduleSegment, same_ids, same_answer, add_segment, last_of, lay, segment_at, pieces,
  schedule_timeline,
}
use nxs_anomaly.Schedule.Points.{Up, RunsTo, IsBoundaries, schedule_boundaries-IsBoundaries}
use nxs_anomaly.Schedule.Steady.{
  Still, IsPlain, Still-schedule_boundaries, resolve_schedule_at-Still,
}
use nxs_anomaly.Schedule.Tiles.{Tiles, of_boundaries}

-- The segment covers the instant and gives the answer.
abbrev pub Says : Instant → List String × String → ScheduleSegment → Type 0
Says t answer seg =
    (seg.start ≤ t) × (t < seg.end) × (seg.user_ids ≡ answer.0) × (seg.source ≡ answer.1)

abbrev pub Answered : Instant → List String × String → List ScheduleSegment → Type 0
Answered t answer [] = ⊥
Answered t answer (seg ∷ rest) = Says t answer seg ⊎ Answered t answer rest

pub both_true : (a b : Bool) → (a && b) ≡ true → (a ≡ true) × (b ≡ true)
both_true true b h = (refl, h)
both_true false b h = cc

same_ids→eq : (a b : List String) → same_ids a b ≡ true → a ≡ b
unfolding same_ids
same_ids→eq [] [] h = refl
same_ids→eq [] (b ∷ bs) h = cc
same_ids→eq (a ∷ rest) [] h = cc
same_ids→eq (a ∷ rest) (b ∷ bs) h =
    let (first, others) = both_true (a == b) (same_ids rest bs) h in
    cc (==→eq a b first, same_ids→eq rest bs others)

same_answer→eq :
    (a b : ScheduleSegment)
    → same_answer a b ≡ true
    → (a.user_ids ≡ b.user_ids) × (a.source ≡ b.source)
unfolding same_answer
same_answer→eq a b h =
    let (source, ids) = both_true (a.source == b.source) (same_ids a.user_ids b.user_ids) h in
    (same_ids→eq a.user_ids b.user_ids ids, ==→eq a.source b.source source)

lay-Answered-some :
    (segs : List ScheduleSegment) (last : ScheduleSegment) (e t : Instant)
    (answer : List String × String)
    → last.start < last.end
    → Tiles last.end segs e
    → Says t answer last ⊎ Answered t answer segs
    → Answered t answer (lay segs (some last))
unfolding lay add_segment last_of
lay-Answered-some [] last e t answer long tiles h = h
lay-Answered-some (seg ∷ rest) last e t answer long tiles h =
    elim (Bool-cases (same_answer last seg)) [
      | inl same ↦ rw same (
          lay-Answered-some rest (record last { end = seg.end }) e t answer
            (omega (arith, tiles.0, tiles.1)) tiles.2 (merged same h))
      | inr other ↦ rw other (elim h [
        | inl says ↦ inl says
        | inr later ↦ inr (lay-Answered-some rest seg e t answer tiles.1 tiles.2 later)
      ])
    ]
  where
    merged :
        same_answer last seg ≡ true
        → Says t answer last ⊎ Answered t answer (seg ∷ rest)
        → Says t answer (record last { end = seg.end }) ⊎ Answered t answer rest
    merged same (inl says) = inl (says.0, omega (arith, says.1, tiles.0, tiles.1), says.2, says.3)
    merged same (inr (inl says)) =
        let (ids, source) = same_answer→eq last seg same in
        inl (omega (arith, long, tiles.0, says.0), says.1, ids ∙ says.2, source ∙ says.3)
    merged same (inr (inr later)) = inr later

Still-Up : (q t lo hi : Instant) (l : List Instant) → t < lo → Up lo l hi → Still q t l
Still-Up q t lo hi [] h up = tt
Still-Up q t lo hi (x ∷ rest) h up = (
  λ late. absurd (omega (arith, late, h, up.0)),
  Still-Up q t (suc x) hi rest (omega (arith, h, up.0)) up.2,
)

-- The last boundary that is not after the instant: the piece that begins there covers the instant.
record LastBefore (cal : Calendar) (schedule : Fields) (lo t : Instant) (l : List Instant)
    : Type 0 where
  boundary : Instant
  not_under : lo ≤ boundary
  not_after : boundary ≤ t
  still : Still boundary t l
  answered : Answered t (resolve_schedule_at cal (some schedule) boundary) (pieces cal schedule l)

last_before :
    (cal : Calendar) (schedule : Fields) (lo p hi e t : Instant) (l : List Instant)
    → Up lo (p ∷ l) hi
    → RunsTo (p ∷ l) e
    → p ≤ t
    → t < e
    → LastBefore cal schedule p t (p ∷ l)
unfolding pieces segment_at
last_before cal schedule lo p hi e t [] up runs after before = absurd (omega (arith, runs))
last_before cal schedule lo p hi e t (q ∷ rest) up runs after before = elim (Bool-cases (leb q t)) [
  | inl reached ↦
      later (last_before cal schedule (suc p) q hi e t rest up.2 runs (leb→le q t reached) before)
  | inr not_yet ↦ here (not_reached not_yet)
]
  where
    ordered : suc p ≤ q → ltb p q ≡ true
    ordered h = ground arith

    not_reached : leb q t ≡ false → t < q
    not_reached h = ground arith

    here : t < q → LastBefore cal schedule p t (p ∷ q ∷ rest)
    here h = record {
      boundary = p;
      not_under = omega arith;
      not_after = after;
      still = (λ late. omega arith, Still-Up p t q hi (q ∷ rest) h (omega arith, up.2.1, up.2.2));
      answered = rw (ordered up.2.0) (inl (after, h, refl, refl));
    }

    later : LastBefore cal schedule q t (q ∷ rest) → LastBefore cal schedule p t (p ∷ q ∷ rest)
    later b = record {
      boundary = b.boundary;
      not_under = omega (arith, up.2.0, b.not_under);
      not_after = b.not_after;
      still = (λ late. omega (arith, up.2.0, b.not_under), b.still);
      answered = rw (ordered up.2.0) (inr b.answered);
    }

pub lay-Answered :
    (segs : List ScheduleSegment) (s e t : Instant) (answer : List String × String)
    → Tiles s segs e
    → Answered t answer segs
    → Answered t answer (lay segs none)
unfolding lay last_of
lay-Answered [] s e t answer tiles h = h
lay-Answered (seg ∷ rest) s e t answer tiles h =
    lay-Answered-some rest seg e t answer tiles.1 tiles.2 h

boundaries-LastBefore :
    (cal : Calendar) (schedule : Fields) (from to t : Instant) (l : List Instant)
    → IsBoundaries from to l
    → from ≤ t
    → t < to
    → LastBefore cal schedule from t l
boundaries-LastBefore cal schedule from to t [] b after before = absurd b.starts
boundaries-LastBefore cal schedule from to t (p ∷ rest) b after before =
    subst (λ s. LastBefore cal schedule s t (p ∷ rest)) b.starts
      (last_before cal schedule from p to to t rest b.up b.runs (omega (arith, b.starts)) before)

plain_pieces :
    (cal : Calendar) (schedule : Fields) (from to t : Instant)
    → IsPlain cal schedule t
    → t < to
    → LastBefore cal schedule from t (schedule_boundaries cal schedule from to)
    → Answered t
        (resolve_schedule_at cal (some schedule) t)
        (pieces cal schedule (schedule_boundaries cal schedule from to))
plain_pieces cal schedule from to t plain before b =
    subst
      (λ answer. Answered t answer (pieces cal schedule (schedule_boundaries cal schedule from to)))
      (resolve_schedule_at-Still cal schedule from to b.boundary t b.not_after plain
        (Still-schedule_boundaries cal schedule from to b.boundary t b.not_under before b.still))
      b.answered

-- At every instant from `from` on and before `to`, the timeline of a schedule between the two has a
-- segment that covers the instant and gives the users and the source that the schedule answers then, if
-- every override of the schedule says when it starts, and either an override is active at the instant, or
-- the schedule has no rotation in use and no shifts that recur.
pub schedule_timeline_answers :
    (cal : Calendar) (schedule : Fields) (from to t : Instant)
    → IsPlain cal schedule t
    → from ≤ t
    → t < to
    → Answered t
        (resolve_schedule_at cal (some schedule) t)
        (schedule_timeline cal (some schedule) from to)
unfolding schedule_timeline
schedule_timeline_answers cal schedule from to t plain after before =
    let points = schedule_boundaries cal schedule from to in
    let bounds = schedule_boundaries-IsBoundaries cal schedule from to (omega arith) in
    rw (not_over after before) (
      lay-Answered (pieces cal schedule points) from to t
        (resolve_schedule_at cal (some schedule) t)
        (of_boundaries cal schedule from to points bounds)
        (plain_pieces cal schedule from to t plain before
          (boundaries-LastBefore cal schedule from to t points bounds after before)))
  where
    not_over : from ≤ t → t < to → leb to from ≡ false
    not_over h k = ground arith

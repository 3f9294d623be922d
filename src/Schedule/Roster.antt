-- ===== src/Schedule/Roster.antt =====
-- What the roster does to a timeline, and what it means that a schedule has no gaps.
use nxs_anomaly.Base.{
  ◌≤◌, ◌<◌, ◌≡◌, ◌≢◌, refl, ap, ◌∙◌, inl, inr, true, false, List, [], ◌∷◌, Option, none, some, eqb,
  ◌==◌, String, arith, Bool-cases, ==→eq, contains, length,
}
use mathlib.Core.Path.{subst}
use nxs_anomaly.Base.Time.{Instant}
use nxs_anomaly.Base.Decoded.{Fields}
use nxs_anomaly.Schedule.Calendar.{Calendar}
use nxs_anomaly.Schedule.Resolve.{resolve_schedule_at, source_none}
use nxs_anomaly.Schedule.Steady.{IsPlain}
use nxs_anomaly.Schedule.Timeline.{
  ScheduleSegment, same_answer, add_segment, last_of, lay, schedule_timeline, keep_known,
  with_users, known_only, each_known, apply_roster, uncovered, schedule_gaps,
}
use nxs_anomaly.Schedule.Tiles.{Tiles, Apart, lay-Tiles, lay-Apart, schedule_timeline-Tiles}
use nxs_anomaly.Schedule.Answers.{Says, Answered, lay-Answered, schedule_timeline_answers}

-- Everybody whom the segment names is known, and a segment that names nobody has no source.
pub record IsKnown (known : List String) (seg : ScheduleSegment) : Type 0 where
  pub all_known : (u : String) → contains u seg.user_ids ≡ true → contains u known ≡ true
  pub no_source : seg.user_ids ≡ [] → seg.source ≡ source_none

abbrev pub All : (ScheduleSegment → Type 0) → List ScheduleSegment → Type 0
All P [] = Unit {0}
All P (seg ∷ rest) = P seg × All P rest

keep_known-known :
    (known ids : List String) (u : String)
    → contains u (keep_known known ids) ≡ true
    → contains u known ≡ true
unfolding keep_known
keep_known-known known [] u h = cc
keep_known-known known (v ∷ rest) u h = elim (Bool-cases (contains v known)) [
  | inl there ↦ kept there (keep_known-known known rest u) (rw there at h)
  | inr gone ↦ keep_known-known known rest u (rw gone at h)
]
  where
    kept :
        contains v known ≡ true
        → (contains u (keep_known known rest) ≡ true → contains u known ≡ true)
        → contains u (v ∷ keep_known known rest) ≡ true
        → contains u known ≡ true
    kept there ih h = elim (Bool-cases (v == u)) [
      | inl same ↦ subst (λ w. contains w known ≡ true) (==→eq v u same) there
      | inr other ↦ ih (rw other at h)
    ]

with_users-IsKnown :
    (known : List String) (seg : ScheduleSegment) (ids : List String)
    → ((u : String) → contains u ids ≡ true → contains u known ≡ true)
    → IsKnown known (with_users seg ids)
unfolding with_users
with_users-IsKnown known seg [] h = record { all_known = h; no_source = λ e. refl }
with_users-IsKnown known seg (u ∷ us) h = record { all_known = h; no_source = λ e. cc }

each_known-All :
    (known : List String) (segs : List ScheduleSegment)
    → All (IsKnown known) (each_known known segs)
unfolding each_known known_only
each_known-All known [] = tt
each_known-All known (seg ∷ rest) = (
  with_users-IsKnown known seg (keep_known known seg.user_ids)
      (keep_known-known known seg.user_ids),
  each_known-All known rest,
)

each_known-Tiles :
    (known : List String) (s e : Instant) (segs : List ScheduleSegment)
    → Tiles s segs e
    → Tiles s (each_known known segs) e
unfolding each_known known_only
each_known-Tiles known s e [] tiles = tiles
each_known-Tiles known s e (seg ∷ rest) tiles =
    same_place (keep_known known seg.user_ids) (each_known-Tiles known seg.end e rest tiles.2)
  where
    same_place :
        (ids : List String)
        → Tiles seg.end (each_known known rest) e
        → Tiles s (with_users seg ids ∷ each_known known rest) e
    same_place [] more = (tiles.0, tiles.1, more)
    same_place (u ∷ us) more = (tiles.0, tiles.1, more)

lay-IsKnown-some :
    (known : List String) (segs : List ScheduleSegment) (last : ScheduleSegment)
    → IsKnown known last
    → All (IsKnown known) segs
    → All (IsKnown known) (lay segs (some last))
unfolding lay add_segment last_of
lay-IsKnown-some known [] last h all = (h, tt)
lay-IsKnown-some known (seg ∷ rest) last h all = elim (Bool-cases (same_answer last seg)) [
  | inl same ↦ rw same (
      lay-IsKnown-some known rest (record last { end = seg.end })
        (record { all_known = h.all_known; no_source = h.no_source }) all.1)
  | inr other ↦ rw other (h, lay-IsKnown-some known rest seg all.0 all.1)
]

lay-IsKnown :
    (known : List String) (segs : List ScheduleSegment)
    → All (IsKnown known) segs
    → All (IsKnown known) (lay segs none)
unfolding lay last_of
lay-IsKnown known [] all = tt
lay-IsKnown known (seg ∷ rest) all = lay-IsKnown-some known rest seg all.0 all.1

-- Checked against a roster, a timeline from `s` to `e` still covers that time without gap or overlap, no
-- two neighbours answer the same, and its segments name only users of the roster; one that names nobody
-- has no source.
pub apply_roster_lem :
    (known : List String) (segs : List ScheduleSegment) (s e : Instant)
    → Tiles s segs e
    → Tiles s (apply_roster segs (some known)) e
      × Apart none (apply_roster segs (some known))
      × All (IsKnown known) (apply_roster segs (some known))
unfolding apply_roster
apply_roster_lem known segs s e tiles = (
  lay-Tiles (each_known known segs) s e (each_known-Tiles known s e segs tiles),
  lay-Apart (each_known known segs),
  lay-IsKnown known (each_known known segs) (each_known-All known segs),
)

-- The users of an answer who are on the roster, if there is one.
abbrev pub on_roster : Option (List String) → List String → List String
on_roster none ids = ids
on_roster (some known) ids = keep_known known ids

-- The segment covers the instant and names these users.
abbrev Names : Instant → List String → List ScheduleSegment → Type 0
Names t ids segs = (source : String) × Answered t (ids, source) segs

with_users-Says :
    (seg : ScheduleSegment) (t : Instant) (l ids : List String)
    → seg.start ≤ t
    → t < seg.end
    → l ≡ ids
    → (source : String) × Says t (ids, source) (with_users seg l)
unfolding with_users
with_users-Says seg t [] ids from until same = (source_none, (from, until, same, refl))
with_users-Says seg t (u ∷ us) ids from until same = (seg.source, (from, until, same, refl))

each_known-Answered :
    (known : List String) (segs : List ScheduleSegment) (t : Instant) (ids : List String)
    (source : String)
    → Answered t (ids, source) segs
    → Names t (keep_known known ids) (each_known known segs)
unfolding each_known known_only
each_known-Answered known [] t ids source h = absurd h
each_known-Answered known (seg ∷ rest) t ids source (inl says) =
    let (source', says') =
      with_users-Says seg t (keep_known known seg.user_ids) (keep_known known ids) says.0 says.1
        (ap (keep_known known) says.2) in
    (source', inl says')
each_known-Answered known (seg ∷ rest) t ids source (inr later) =
    let (source', found) = each_known-Answered known rest t ids source later in (source', inr found)

apply_roster-Names :
    (known : Option (List String)) (segs : List ScheduleSegment) (s e t : Instant)
    (answer : List String × String)
    → Tiles s segs e
    → Answered t answer segs
    → Names t (on_roster known answer.0) (apply_roster segs known)
unfolding apply_roster
apply_roster-Names none segs s e t answer tiles h = (answer.1, h)
apply_roster-Names (some known) segs s e t answer tiles h =
    let (source, found) = each_known-Answered known segs t answer.0 answer.1 h in
    (
      source,
      lay-Answered (each_known known segs) s e t (keep_known known answer.0, source)
          (each_known-Tiles known s e segs tiles) found,
    )

cons≢nil : {x : ScheduleSegment} {xs : List ScheduleSegment} → x ∷ xs ≢ []
cons≢nil e = cc

uncovered-ne :
    (segs : List ScheduleSegment) (t : Instant) (ids : List String) (source : String)
    → uncovered segs ≡ []
    → Answered t (ids, source) segs
    → ids ≢ []
unfolding uncovered
uncovered-ne [] t ids source covered h = absurd h
uncovered-ne (seg ∷ rest) t ids source covered h = elim (Bool-cases (eqb (length seg.user_ids) 0)) [
  | inl empty ↦ absurd (cons≢nil (rw empty at covered))
  | inr filled ↦ elim h [
    | inl says ↦ λ e. absurd (not_filled filled (ap length (says.2 ∙ e)))
    | inr later ↦ uncovered-ne rest t ids source (rw filled at covered) later
  ]
]
  where
    not_filled : eqb (length seg.user_ids) 0 ≡ false → length seg.user_ids ≡ 0 → ⊥
    not_filled filled zero_long = ground arith

-- A schedule that has no gaps between `from` and `to`, its roster considered, has somebody on call, on
-- the roster, at every instant from `from` on and before `to`, if every override of it says when it
-- starts, and either an override is active at the instant, or the schedule has no rotation in use and no
-- shifts that recur.
pub schedule_gaps_none :
    (cal : Calendar) (schedule : Fields) (from to t : Instant) (known : Option (List String))
    → schedule_gaps cal (some schedule) from to known ≡ []
    → IsPlain cal schedule t
    → from ≤ t
    → t < to
    → on_roster known (resolve_schedule_at cal (some schedule) t).0 ≢ []
unfolding schedule_gaps
schedule_gaps_none cal schedule from to t known no_gaps plain after before =
    let timeline = schedule_timeline cal (some schedule) from to in
    let answer = resolve_schedule_at cal (some schedule) t in
    let (source, found) =
      apply_roster-Names known timeline from to t answer
        (schedule_timeline-Tiles cal schedule from to (omega arith)).0
        (schedule_timeline_answers cal schedule from to t plain after before) in
    uncovered-ne (apply_roster timeline known) t (on_roster known answer.0) source no_gaps found

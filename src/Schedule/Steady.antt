-- ===== src/Schedule/Steady.antt =====
-- What the answer of a schedule depends on between two instants: that an override or a one-off shift begins
-- or ends.
use nxs_anomaly.Base.{
  ℕ, ◌≤◌, ◌<◌, ◌≡◌, ◌≢◌, refl, sym, ap, ◌∙◌, ◌⊎◌, inl, inr, true, List, [], ◌∷◌, ◌++◌, Option, none,
  some, ltb, leb, eqb, String, arith, Bool-cases, ne→==_false, ◌&&◌, not, if◌then◌else◌,
}
use mathlib.Core.Path.{subst}
use nxs_anomaly.Base.Time.{Instant}
use nxs_anomaly.Base.Decoded.{Fields, text_val, flag_val}
use nxs_anomaly.Schedule.Calendar.{Calendar}
use nxs_anomaly.Schedule.Rotation.{Rotation, parse_rotation_from_schedule}
use nxs_anomaly.Schedule.Resolve.{
  Cover, some_of, source_shift, nobody, rows_of, recurrence_period, cover_of, covering,
  winning_cover, later_cover, cover_users, active_override_users, in_phase, shift_between,
  shift_active, shift_users, active_shift_users, by_rotation, by_override, resolve_schedule_at,
}
use nxs_anomaly.Schedule.Boundaries.{
  or_no_point, override_points, shift_times, shift_between_points, shift_points, layer_points,
  change_points, between, insert_point, sort_points, schedule_boundaries,
}

-- None of the points is after `q` and not after `t`.
abbrev pub Still : Instant → Instant → List Instant → Type 0
Still q t [] = Unit {0}
Still q t (x ∷ rest) = (x ≤ t → x ≤ q) × Still q t rest

Still-append : (q t : Instant) (a b : List Instant) → Still q t (a ++ b) → Still q t a × Still q t b
Still-append q t [] b h = (tt, h)
Still-append q t (x ∷ a) b (here, more) =
    let (left, right) = Still-append q t a b more in ((here, left), right)

Still-insert_point :
    (q t x : Instant) (l : List Instant)
    → Still q t (insert_point x l)
    → (x ≤ t → x ≤ q) × Still q t l
unfolding insert_point
Still-insert_point q t x [] h = h
Still-insert_point q t x (p ∷ rest) h = elim (Bool-cases (ltb x p)) [
  | inl before ↦ rw before at h
  | inr not_before ↦ elim (Bool-cases (eqb x p)) [
    | inl same ↦
        let kept : Still q t (p ∷ rest) = rw (not_before, same) at h in
        (λ late. ground (arith, same, late, kept.0), kept)
    | inr other ↦
        let kept : Still q t (p ∷ insert_point x rest) = rw (not_before, other) at h in
        let (here, more) = Still-insert_point q t x rest kept.1 in (here, (kept.0, more))
  ]
]

Still-sort_points : (q t : Instant) (l : List Instant) → Still q t (sort_points l) → Still q t l
unfolding sort_points
Still-sort_points q t [] h = tt
Still-sort_points q t (x ∷ rest) h =
    let (here, more) = Still-insert_point q t x (sort_points rest) h in
    (here, Still-sort_points q t rest more)

Still-between :
    (q t from to : Instant) (l : List Instant)
    → from ≤ q
    → t < to
    → Still q t (between from to l)
    → Still q t l
unfolding between
Still-between q t from to [] low high h = tt
Still-between q t from to (x ∷ rest) low high h = elim (Bool-cases (leb from x && leb x to)) [
  | inl inside ↦
      let kept : Still q t (x ∷ between from to rest) = rw inside at h in
      (kept.0, Still-between q t from to rest low high kept.1)
  | inr outside ↦ (
    λ late. ground (arith, outside, late, low, high),
    Still-between q t from to rest low high (rw outside at h),
  )
]

-- No point at which the answer may change is between the two.
pub Still-schedule_boundaries :
    (cal : Calendar) (schedule : Fields) (from to q t : Instant)
    → from ≤ q
    → t < to
    → Still q t (schedule_boundaries cal schedule from to)
    → Still q t (change_points cal schedule from to)
unfolding schedule_boundaries
Still-schedule_boundaries cal schedule from to q t low high h =
    Still-between q t from to (change_points cal schedule from to) low high
      (Still-sort_points q t (from ∷ to ∷ between from to (change_points cal schedule from to))
        h).1.1

-- Whether an instant is in front of a point is the same at both.
before_point :
    (q t x : Instant) → q ≤ t → (x ≤ t → x ≤ q) → (ltb q x ≡ ltb t x) × (leb x q ≡ leb x t)
before_point q t x h still = elim (Bool-cases (leb x t)) [
  | inl reached ↦ (ground (arith, reached, still), ground (arith, reached, still))
  | inr not_yet ↦ (ground (arith, not_yet, h), ground (arith, not_yet, h))
]

covering-Still :
    (cal : Calendar) (o : Fields) (q t : Instant) (start until : Option Instant)
    → q ≤ t
    → Still q t (or_no_point start)
    → Still q t (or_no_point until)
    → covering cal o q start until ≡ covering cal o t start until
unfolding covering or_no_point
covering-Still cal o q t none until h s u = refl
covering-Still cal o q t (some start) none h s u = refl
covering-Still cal o q t (some start) (some until) h s u =
    rw ((before_point q t start h s.0).0, (before_point q t until h u.0).1) refl

-- Every override says when it starts.
abbrev pub AllDated : List Fields → Type 0
AllDated [] = Unit {0}
AllDated (o ∷ rest) = (text_val o "start_at" ≢ "") × AllDated rest

cover_of-Still :
    (cal : Calendar) (o : Fields) (q t : Instant)
    → q ≤ t
    → text_val o "start_at" ≢ ""
    → Still q t (or_no_point (cal.time.parse (text_val o "start_at")))
    → Still q t (or_no_point (cal.time.parse (text_val o "until")))
    → cover_of cal q o ≡ cover_of cal t o
unfolding cover_of
cover_of-Still cal o q t h dated s u = rw (ne→==_false (text_val o "start_at") "" dated) (
    covering-Still cal o q t (cal.time.parse (text_val o "start_at"))
      (cal.time.parse (text_val o "until")) h s u)

winning_cover-Still :
    (cal : Calendar) (q t : Instant) (l : List Fields) (before : Option Cover)
    → q ≤ t
    → AllDated l
    → Still q t (override_points cal l)
    → winning_cover cal q l before ≡ winning_cover cal t l before
unfolding winning_cover override_points
winning_cover-Still cal q t [] before h dated still = refl
winning_cover-Still cal q t (o ∷ rest) before h (dated, all) still =
    let (start, more) =
      Still-append q t (or_no_point (cal.time.parse (text_val o "start_at")))
        (or_no_point (cal.time.parse (text_val o "until")) ++ override_points cal rest) still in
    let (until, others) =
      Still-append q t (or_no_point (cal.time.parse (text_val o "until")))
        (override_points cal rest) more in
    rw (cover_of-Still cal o q t h dated start until)
      (winning_cover-Still cal q t rest (later_cover before (cover_of cal t o)) h all others)

in_phase-Still :
    (start until q t : Instant) (period : ℕ)
    → q ≤ t
    → (start ≤ t → start ≤ q)
    → (until ≤ t → until ≤ q)
    → period ≡ 0
    → in_phase period start until q ≡ in_phase period start until t
unfolding in_phase
in_phase-Still start until q t period h s u once =
    subst (λ k. in_phase k start until q ≡ in_phase k start until t) (sym once)
      (rw ((before_point q t start h s).1, (before_point q t until h u).0) refl)

shift_times_once :
    (from to q t start until : Instant) (period : ℕ)
    → period ≡ 0
    → Still q t (shift_times period from to start until)
    → Still q t (start ∷ until ∷ [])
unfolding shift_times
shift_times_once from to q t start until period once still =
    subst (λ k. Still q t (shift_times k from to start until)) once still

shift_between-Still :
    (cal : Calendar) (s : Fields) (from to q t : Instant) (start until : Option Instant)
    → q ≤ t
    → recurrence_period (cal.to_lower (text_val s "recurrence")) ≡ 0
    → Still q t (shift_between_points cal s from to start until)
    → shift_between cal s q start until ≡ shift_between cal s t start until
unfolding shift_between shift_between_points
shift_between-Still cal s from to q t none until h once still = refl
shift_between-Still cal s from to q t (some start) none h once still = refl
shift_between-Still cal s from to q t (some start) (some until) h once still =
    let period = recurrence_period (cal.to_lower (text_val s "recurrence")) in
    let points = shift_times_once from to q t start until period once still in
    in_phase-Still start until q t period h points.0 points.1.0 once

-- No shift recurs.
abbrev pub AllOnce : Calendar → List Fields → Type 0
AllOnce cal [] = Unit {0}
AllOnce cal (s ∷ rest) =
    (recurrence_period (cal.to_lower (text_val s "recurrence")) ≡ 0) × AllOnce cal rest

shift_users-Still :
    (cal : Calendar) (from to q t : Instant) (l : List Fields)
    → q ≤ t
    → AllOnce cal l
    → Still q t (shift_points cal from to l)
    → shift_users cal q l ≡ shift_users cal t l
unfolding shift_users shift_active shift_points
shift_users-Still cal from to q t [] h once still = refl
shift_users-Still cal from to q t (s ∷ rest) h (once, all) still =
    let start = cal.time.parse (text_val s "start_at") in
    let until = cal.time.parse (text_val s "end_at") in
    let (here, others) =
      Still-append q t (shift_between_points cal s from to start until)
        (shift_points cal from to rest) still in
    rw
      (
        shift_between-Still cal s from to q t start until h once here,
        shift_users-Still cal from to q t rest h all others,
      )
      refl

-- Every override says when it starts; and an override is active then, or there are no rotation and no
-- shifts that recur.
abbrev pub IsPlain : Calendar → Fields → Instant → Type 0
IsPlain cal schedule t =
    AllDated (rows_of schedule "overrides")
    × ((active_override_users cal schedule t ≢ [])
        ⊎ ((parse_rotation_from_schedule cal schedule ≡ none)
            × AllOnce cal (rows_of schedule "shifts")))

active_override_users-Still :
    (cal : Calendar) (schedule : Fields) (q t : Instant)
    → q ≤ t
    → AllDated (rows_of schedule "overrides")
    → Still q t (override_points cal (rows_of schedule "overrides"))
    → active_override_users cal schedule q ≡ active_override_users cal schedule t
unfolding active_override_users
active_override_users-Still cal schedule q t h dated still =
    ap cover_users (winning_cover-Still cal q t (rows_of schedule "overrides") none h dated still)

by_rotation-Still :
    (cal : Calendar) (schedule : Fields) (from to q t : Instant) (o : Option Rotation)
    → q ≤ t
    → o ≡ none
    → AllOnce cal (rows_of schedule "shifts")
    → Still q t (layer_points cal schedule from to o)
    → by_rotation cal schedule q o ≡ by_rotation cal schedule t o
unfolding by_rotation active_shift_users layer_points
by_rotation-Still cal schedule from to q t none h e once still =
    ap (λ ids. some_of ids source_shift)
      (shift_users-Still cal from to q t (rows_of schedule "shifts") h once still)
by_rotation-Still cal schedule from to q t (some r) h e once still = cc

by_override-Still :
    (cal : Calendar) (schedule : Fields) (from to q t : Instant) (ids : List String)
    → q ≤ t
    → (ids ≢ [])
      ⊎ ((parse_rotation_from_schedule cal schedule ≡ none)
          × AllOnce cal (rows_of schedule "shifts"))
    → Still q t (layer_points cal schedule from to (parse_rotation_from_schedule cal schedule))
    → by_override cal schedule q ids ≡ by_override cal schedule t ids
unfolding by_override
by_override-Still cal schedule from to q t (u ∷ us) h plain still = refl
by_override-Still cal schedule from to q t [] h (inl filled) still = absurd (filled refl)
by_override-Still cal schedule from to q t [] h (inr (no_rotation, once)) still =
    by_rotation-Still cal schedule from to q t (parse_rotation_from_schedule cal schedule) h
      no_rotation once still

-- Between two instants with no point between, a plain schedule answers the same.
pub resolve_schedule_at-Still :
    (cal : Calendar) (schedule : Fields) (from to q t : Instant)
    → q ≤ t
    → IsPlain cal schedule t
    → Still q t (change_points cal schedule from to)
    → resolve_schedule_at cal (some schedule) q ≡ resolve_schedule_at cal (some schedule) t
unfolding resolve_schedule_at change_points
resolve_schedule_at-Still cal schedule from to q t h (dated, plain) still =
    let rotation = parse_rotation_from_schedule cal schedule in
    let (overrides, layer) =
      Still-append q t (override_points cal (rows_of schedule "overrides"))
        (layer_points cal schedule from to rotation) still in
    let same = active_override_users-Still cal schedule q t h dated overrides in
    ap (λ answer. if not (flag_val schedule "enabled" true) then nobody else answer)
      (ap (by_override cal schedule q) same
        ∙ by_override-Still cal schedule from to q t (active_override_users cal schedule t) h plain
            layer)

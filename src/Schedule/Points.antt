-- ===== src/Schedule/Points.antt =====
-- The boundaries of a timeline: in order, each once, from the one end to the other.
use nxs_anomaly.Base.{
  suc, ◌≤◌, ◌<◌, ◌≡◌, refl, sym, inl, inr, ◌&&◌, List, [], ◌∷◌, ltb, leb, eqb, arith, Bool-cases,
  ltb→lt,
}
use nxs_anomaly.Base.Time.{Instant}
use nxs_anomaly.Base.Decoded.{Fields}
use nxs_anomaly.Schedule.Calendar.{Calendar}
use nxs_anomaly.Schedule.Boundaries.{
  between, insert_point, sort_points, schedule_boundaries, change_points,
}

-- Instants in order, each once, from `lo` up to `hi`.
abbrev pub Up : Instant → List Instant → Instant → Type 0
Up lo [] hi = Unit {0}
Up lo (p ∷ rest) hi = (lo ≤ p) × (p ≤ hi) × Up (suc p) rest hi

-- The last of a list.
abbrev pub RunsTo : List Instant → Instant → Type 0
RunsTo [] e = ⊥
RunsTo (p ∷ []) e = p ≡ e
RunsTo (p ∷ q ∷ rest) e = RunsTo (q ∷ rest) e

-- The first of a list.
abbrev pub StartsAt : List Instant → Instant → Type 0
StartsAt [] s = ⊥
StartsAt (p ∷ rest) s = p ≡ s

insert_point-Up :
    (t lo hi : Instant) (l : List Instant)
    → lo ≤ t
    → t ≤ hi
    → Up lo l hi
    → Up lo (insert_point t l) hi
unfolding insert_point
insert_point-Up t lo hi [] low high up = (low, high, tt)
insert_point-Up t lo hi (p ∷ rest) low high up = elim (Bool-cases (ltb t p)) [
  | inl before ↦ rw before (low, high, (ltb→lt t p before, up.1, up.2))
  | inr not_before ↦ elim (Bool-cases (eqb t p)) [
    | inl same ↦ rw (not_before, same) up
    | inr other ↦
        rw (not_before, other)
          (up.0, up.1, insert_point-Up t (suc p) hi rest (ground arith) high up.2)
  ]
]

sort_points-Up : (lo hi : Instant) (l : List Instant) → Up lo (sort_points (between lo hi l)) hi
unfolding sort_points between
sort_points-Up lo hi [] = tt
sort_points-Up lo hi (t ∷ rest) = elim (Bool-cases (leb lo t && leb t hi)) [
  | inl inside ↦ rw inside (
      insert_point-Up t lo hi (sort_points (between lo hi rest)) (ground arith) (ground arith)
        (sort_points-Up lo hi rest))
  | inr outside ↦ rw outside (sort_points-Up lo hi rest)
]

RunsTo-cons : (p e : Instant) (l : List Instant) → RunsTo l e → RunsTo (p ∷ l) e
RunsTo-cons p e [] h = absurd h
RunsTo-cons p e (q ∷ rest) h = h

RunsTo-only :
    (p e : Instant) (rest : List Instant) → e ≡ p → Up (suc p) rest e → RunsTo (p ∷ rest) e
RunsTo-only p e [] same up = sym same
RunsTo-only p e (q ∷ rest) same up = absurd (omega (arith, up.0, up.1))

insert_point_last : (lo e : Instant) (l : List Instant) → Up lo l e → RunsTo (insert_point e l) e
unfolding insert_point
insert_point_last lo e [] up = refl
insert_point_last lo e (p ∷ rest) up = elim (Bool-cases (ltb e p)) [
  | inl before ↦ absurd (omega (arith, up.1, ltb→lt e p before))
  | inr not_before ↦ elim (Bool-cases (eqb e p)) [
    | inl same ↦ rw (not_before, same) (RunsTo-only p e rest (ground arith) up.2)
    | inr other ↦
        rw (not_before, other)
          (RunsTo-cons p e (insert_point e rest) (insert_point_last (suc p) e rest up.2))
  ]
]

insert_point_first : (s hi : Instant) (l : List Instant) → Up s l hi → StartsAt (insert_point s l) s
unfolding insert_point
insert_point_first s hi [] up = refl
insert_point_first s hi (p ∷ rest) up = elim (Bool-cases (ltb s p)) [
  | inl before ↦ rw before refl
  | inr not_before ↦ elim (Bool-cases (eqb s p)) [
    | inl same ↦ rw (not_before, same) (ground arith)
    | inr other ↦ absurd (ground (arith, up.0))
  ]
]

insert_point-RunsTo :
    (s e : Instant) (l : List Instant) → s < e → RunsTo l e → RunsTo (insert_point s l) e
unfolding insert_point
insert_point-RunsTo s e [] below h = absurd h
insert_point-RunsTo s e (p ∷ []) below h = elim (Bool-cases (ltb s p)) [
  | inl before ↦ rw before h
  | inr not_before ↦ absurd (ground (arith, h))
]
insert_point-RunsTo s e (p ∷ q ∷ rest) below h = elim (Bool-cases (ltb s p)) [
  | inl before ↦ rw before h
  | inr not_before ↦ elim (Bool-cases (eqb s p)) [
    | inl same ↦ rw (not_before, same) h
    | inr other ↦
        rw (not_before, other)
          (RunsTo-cons p e (insert_point s (q ∷ rest)) (insert_point-RunsTo s e (q ∷ rest) below h))
  ]
]

-- The boundaries of a timeline: in order, each once, the first `from` and the last `to`.
pub record IsBoundaries (from to : Instant) (l : List Instant) : Type 0 where
  pub up : Up from l to
  pub starts : StartsAt l from
  pub runs : RunsTo l to

pub schedule_boundaries-IsBoundaries :
    (cal : Calendar) (schedule : Fields) (from to : Instant)
    → from < to
    → IsBoundaries from to (schedule_boundaries cal schedule from to)
unfolding schedule_boundaries sort_points
schedule_boundaries-IsBoundaries cal schedule from to h =
    let kept = sort_points (between from to (change_points cal schedule from to)) in
    let ups = sort_points-Up from to (change_points cal schedule from to) in
    record {
      up =
          insert_point-Up from from to (insert_point to kept) (omega arith) (omega arith)
            (insert_point-Up to from to kept (omega arith) (omega arith) ups);
      starts =
          insert_point_first from to (insert_point to kept)
            (insert_point-Up to from to kept (omega arith) (omega arith) ups);
      runs =
          insert_point-RunsTo from to (insert_point to kept) h (insert_point_last from to kept ups);
    }

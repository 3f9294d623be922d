-- ===== src/Schedule/Periods.antt =====
-- The period that `periodIndex` finds, in any zone and across every change of its clocks.
use nxs_anomaly.Base.{
  ℕ, zero, suc, ◌+◌, ◌-◌, ◌*◌, ◌/◌, ◌≤◌, ◌<◌, ◌≡◌, refl, sym, ap, ◌∙◌, ◌==◌, if◌then◌else◌, ◌⊎◌,
  inl, inr, String, false, ltb, leb, arith, Bool-cases, leb→le,
}
use mathlib.Core.Path.{subst}
use native.Mathlib.Nat.{
  mul_assoc, suc-mul, add-mul, mul-le-mul_right, mul-le-mul_left, div-mul-le_self, lt-div-mul-add,
}
use nxs_anomaly.Base.Time.{Instant, hour}
use nxs_anomaly.Base.Durations.{pos, max_int64, mul, mul_small, quot, add, sub_small}
use nxs_anomaly.Schedule.Calendar.{day, Calendar, IsCalendar}
use nxs_anomaly.Schedule.Rotation.{Rotation}
use nxs_anomaly.Schedule.Handoffs.{
  handoff_at, average_period, estimate, step_back, step_on, period_index,
}

abbrev pub IsUnit : String → Type 0
IsUnit u = (u ≡ "hours") ⊎ (u ≡ "days") ⊎ (u ≡ "weeks")

-- The length of a period of 24-hour days.
abbrev pub period : Rotation → ℕ
period r =
    if r.unit == "hours"
    then r.interval * hour
    else if r.unit == "days"
    then r.interval * day
    else r.interval * 7 * day

-- A product that is in range has its first factors in range.
product : (n i k : ℕ) → 0 < k → n * (i * k) ≤ max_int64 → mul (mul (pos n) i) k ≡ pos (n * (i * k))
product n i k some h =
    ap (λ d. mul d k)
      (mul_small n i (omega (arith, mul_assoc n i k, h, mul-le-mul_left (n * i) some)))
    ∙ (mul_small (n * i) k (omega (arith, mul_assoc n i k, h)) ∙ ap pos (mul_assoc n i k))

module _ (cal : Calendar) (laws : IsCalendar cal) (zone : String) (r : Rotation) where
  period_hours : r.unit ≡ "hours" → period r ≡ r.interval * hour
  period_hours u = rw u refl

  period_days : r.unit ≡ "days" → period r ≡ r.interval * day
  period_days u = rw u refl

  period_weeks : r.unit ≡ "weeks" → period r ≡ r.interval * 7 * day
  period_weeks u = rw u refl

  average_small : IsUnit r.unit → period r ≤ max_int64 → average_period r ≡ pos (period r)
  unfolding average_period
  average_small (inl u) h =
      let short = period_hours u in rw u (mul_small r.interval hour (omega (arith, h, short)))
  average_small (inr (inl u)) h =
      let short = period_days u in
      rw (u, mul_small r.interval 24 (omega (arith, h, short)))
        (mul_small (r.interval * 24) hour (omega (arith, h, short)) ∙ ap pos (omega arith))
  average_small (inr (inr u)) h =
      let short = period_weeks u in
      rw
        (
          u,
          mul_small r.interval 7 (omega (arith, h, short)),
          mul_small (r.interval * 7) 24 (omega (arith, h, short)),
        )
        (mul_small (r.interval * 7 * 24) hour (omega (arith, h, short)) ∙ ap pos (omega arith))

  hours_apart :
      (n : ℕ)
      → r.unit ≡ "hours"
      → n * (r.interval * hour) ≤ max_int64
      → handoff_at cal zone r (pos n) ≡ r.start_at + n * (r.interval * hour)
  unfolding handoff_at add
  hours_apart n u h = rw u (ap (add r.start_at) (product n r.interval hour (omega arith) h))

  days_apart :
      (n : ℕ)
      → r.unit ≡ "days"
      → n * r.interval ≤ max_int64
      → handoff_at cal zone r (pos n) ≡ cal.add_days zone r.start_at (pos (n * r.interval))
  unfolding handoff_at
  days_apart n u h = rw u (ap (cal.add_days zone r.start_at) (mul_small n r.interval h))

  weeks_apart :
      (n : ℕ)
      → r.unit ≡ "weeks"
      → n * (r.interval * 7) ≤ max_int64
      → handoff_at cal zone r (pos n) ≡ cal.add_days zone r.start_at (pos (n * (r.interval * 7)))
  unfolding handoff_at
  weeks_apart n u h =
      rw u (ap (cal.add_days zone r.start_at) (product n r.interval 7 (omega arith) h))

  -- Every handoff in range is within a slack of as many periods after the start.
  IsNear : ℕ → ℕ → Type 0
  IsNear slack n =
      (handoff_at cal zone r (pos n) ≤ r.start_at + n * period r + slack)
      × (r.start_at + n * period r ≤ handoff_at cal zone r (pos n) + slack)

  days-IsNear :
      (n k : ℕ)
      → handoff_at cal zone r (pos n) ≡ cal.add_days zone r.start_at (pos k)
      → k * day ≡ n * period r
      → n * period r ≤ max_int64
      → IsNear day n
  unfolding IsNear
  days-IsNear n k at apart h =
      let fits : k * day ≤ max_int64 = omega (arith, apart, h) in
      omega (
        arith,
        at,
        apart,
        laws.days_late zone r.start_at k fits,
        laws.days_early zone r.start_at k fits,
      )

  -- The slack is no longer than a period.
  record Near : Type 0 where
    slack : ℕ
    small : slack ≤ period r
    positive : 0 < period r
    close : (n : ℕ) → n * period r ≤ max_int64 → IsNear slack n

  near : IsUnit r.unit → 0 < r.interval → Near
  unfolding IsNear
  near (inl u) some = record {
    slack = 0;
    small = omega arith;
    positive = omega (arith, period_hours u);
    close = λ n h. close_hours n (subst (λ p. n * p ≤ max_int64) (period_hours u) h);
  }
    where
      close_hours : (n : ℕ) → n * (r.interval * hour) ≤ max_int64 → IsNear 0 n
      close_hours n h = omega (arith, hours_apart n u h, ap (λ p. n * p) (period_hours u))
  near (inr (inl u)) some = record {
    slack = day;
    small = omega (arith, period_days u);
    positive = omega (arith, period_days u);
    close = λ n h. close_days n h (ap (λ p. n * p) (period_days u));
  }
    where
      close_days :
          (n : ℕ) → n * period r ≤ max_int64 → n * period r ≡ n * (r.interval * day) → IsNear day n
      close_days n h e =
          days-IsNear n (n * r.interval)
            (days_apart n u (omega (arith, h, e, mul_assoc n r.interval day)))
            (mul_assoc n r.interval day ∙ sym e) h
  near (inr (inr u)) some = record {
    slack = day;
    small = omega (arith, period_weeks u);
    positive = omega (arith, period_weeks u);
    close = λ n h. close_weeks n h (ap (λ p. n * p) (period_weeks u));
  }
    where
      close_weeks :
          (n : ℕ)
          → n * period r ≤ max_int64
          → n * period r ≡ n * (r.interval * 7 * day)
          → IsNear day n
      close_weeks n h e =
          days-IsNear n (n * (r.interval * 7))
            (weeks_apart n u (omega (arith, h, e, mul_assoc n (r.interval * 7) day)))
            (mul_assoc n (r.interval * 7) day ∙ sym e) h

  -- The handoff before an instant, and the next one after it.
  pub record Brackets (at : Instant) (n : ℕ) : Type 0 where
    pub begun : handoff_at cal zone r (pos n) ≤ at
    pub lasts : at < handoff_at cal zone r (pos (suc n))

  step_back_stays :
      (i n : ℕ) (at : Instant)
      → handoff_at cal zone r (pos n) ≤ at
      → step_back i cal zone r at (pos n) ≡ pos n
  unfolding step_back
  step_back_stays zero n at h = refl
  step_back_stays (suc i) n at h = rw (not_after h) refl
    where
      not_after :
          handoff_at cal zone r (pos n) ≤ at → ltb at (handoff_at cal zone r (pos n)) ≡ false
      not_after h = ground arith

  -- One step back is enough where the handoff before is not after the instant.
  step_back_lands :
      (i n : ℕ) (at : Instant)
      → ((m : ℕ) → n ≡ suc m → handoff_at cal zone r (pos m) ≤ at)
      → handoff_at cal zone r (pos 0) ≤ at
      → (m : ℕ) × (step_back (suc i) cal zone r at (pos n) ≡ pos m)
        × (handoff_at cal zone r (pos m) ≤ at)
        × (m ≤ n)
        × (n ≤ m + 1)
  unfolding step_back
  step_back_lands i zero at before begun =
      (0, step_back_stays (suc i) 0 at begun, begun, omega arith, omega arith)
  step_back_lands i (suc n) at before begun =
      elim (Bool-cases (ltb at (handoff_at cal zone r (pos (suc n))))) [
        | inl after ↦ (
          n,
          rw after (step_back_stays i n at (before n refl)),
          before n refl,
          omega arith,
          omega arith,
        )
        | inr reached ↦ (suc n, rw reached refl, ground arith, omega arith, omega arith)
      ]

  step_on_lands :
      (i n : ℕ) (at : Instant)
      → handoff_at cal zone r (pos n) ≤ at
      → at < handoff_at cal zone r (pos (n + i))
      → (m : ℕ) × (step_on i cal zone r at (pos n) ≡ pos m) × Brackets at m
  unfolding step_on
  step_on_lands zero n at begun over =
      let over' : at < handoff_at cal zone r (pos n) =
        subst (λ k. at < handoff_at cal zone r (pos k)) (omega arith) over in
      absurd (omega arith)
  step_on_lands (suc i) n at begun over =
      elim (Bool-cases (leb (handoff_at cal zone r (pos (suc n))) at)) [
        | inl reached ↦ rw reached (
            step_on_lands i (suc n) at (leb→le (handoff_at cal zone r (pos (suc n))) at reached)
              (subst (λ k. at < handoff_at cal zone r (pos k)) (omega arith) over))
        | inr not_yet ↦ (n, rw not_yet refl, record { begun = begun; lasts = ground arith })
      ]

  -- From the start on, and so that ten periods more are still in the range of a `time.Duration`.
  pub record InRange (at : Instant) : Type 0 where
    pub started : r.start_at ≤ at
    pub in_range : at - r.start_at + 10 * period r ≤ max_int64

  estimated :
      (at : Instant)
      → IsUnit r.unit
      → InRange at
      → estimate r at ≡ pos ((at - r.start_at) / period r)
  unfolding estimate quot
  estimated at unit range =
      rw
        (
          sub_small at r.start_at range.started (omega (arith, range.in_range)),
          average_small unit (omega (arith, range.in_range)),
        )
        refl

  module _ (near : Near) (at : Instant) (range : InRange at) where
    open near use {slack, small, positive, close}
    open range use {started, in_range}

    quotient : ℕ
    quotient = (at - r.start_at) / period r

    whole_periods : quotient * period r ≤ at - r.start_at
    unfolding quotient
    whole_periods = div-mul-le_self (at - r.start_at) (period r)

    next_period : at - r.start_at < quotient * period r + period r
    unfolding quotient
    next_period = lt-div-mul-add {a = at - r.start_at} positive

    one_less : (m : ℕ) → quotient ≡ suc m → handoff_at cal zone r (pos m) ≤ at
    unfolding IsNear
    one_less m e =
        let before = ap (λ k. k * period r) e in
        let least = suc-mul m (period r) in
        omega (
          arith,
          (close m (omega (arith, before, least, whole_periods, in_range))).0,
          small,
          before,
          least,
          whole_periods,
          started,
        )

    far_enough :
        (m : ℕ) → m ≤ quotient → quotient ≤ m + 1 → at < handoff_at cal zone r (pos (m + 8))
    unfolding IsNear
    far_enough m low high =
        let eight = add-mul m 8 (period r) in
        let one = add-mul m 1 (period r) in
        let under = mul-le-mul_right (period r) low in
        let over = mul-le-mul_right (period r) high in
        omega (
          arith,
          (close (m + 8) (omega (arith, eight, under, whole_periods, in_range))).1,
          small,
          positive,
          eight,
          one,
          over,
          next_period,
          started,
        )

    lands :
        IsUnit r.unit
        → handoff_at cal zone r (pos 0) ≤ at
        → (n : ℕ) × (period_index cal zone r at ≡ pos n) × Brackets at n
    unfolding period_index quotient
    lands unit first =
        let (m, back, reached, under, close_by) = step_back_lands 7 quotient at one_less first in
        let (n, on, found) = step_on_lands 8 m at reached (far_enough m under close_by) in
        (
          n,
          ap (λ z. step_on 8 cal zone r at (step_back 8 cal zone r at z)) (estimated at unit range)
              ∙ (ap (step_on 8 cal zone r at) back ∙ on),
          found,
        )

  -- From its start and its first handoff on, a rotation of at least one hour, day or week is in the period
  -- that the instant falls in, within the range of a `time.Duration`: `periodIndex` finds a handoff that is
  -- not after the instant and whose next one is.
  pub period_index-Brackets :
      (at : Instant)
      → IsUnit r.unit
      → 0 < r.interval
      → InRange at
      → handoff_at cal zone r (pos 0) ≤ at
      → (n : ℕ) × (period_index cal zone r at ≡ pos n) × Brackets at n
  period_index-Brackets at u h range first = lands (near u h) at range u first

-- ===== src/Schedule/Windows.antt =====
-- The daily window of a restriction (`restrictionAllows`), against the week that it describes.
use nxs_anomaly.Base.{
  ℕ, ◌+◌, ◌-◌, ◌*◌, ◌%◌, ◌≡◌, refl, ◌≢◌, ◌↔◌, ◌⊎◌, inl, inr, ◌≤◌, ◌<◌, true, ltb, arith, Bool-cases,
}
use mathlib.Core.Path.{subst}
use nxs_anomaly.Schedule.Rotation.{Restriction}
use nxs_anomaly.Schedule.Handoffs.{allows_day, window_allows}

abbrev week_minutes : ℕ
week_minutes = 10_080

-- The minutes since the minute `start` of the day `d` was last there, on the minute `m` of the day `w`.
abbrev since : (d start w m : ℕ) → ℕ
since d start w m = (w * 1440 + m + week_minutes - (d * 1440 + start)) % week_minutes

-- How long the window is, which may run over midnight.
abbrev window_length : Restriction → ℕ
window_length res = (res.end_minute + 1440 - res.start_minute) % 1440

-- The window that opened on some day that the restriction allows is open still.
pub record IsOpen (res : Restriction) (m w : ℕ) : Type 0 where
  on_day : ℕ
  is_day : on_day < 7
  allowed : allows_day res on_day ≡ true
  still : since on_day res.start_minute w m < window_length res

module _ (s e d w m : ℕ) (is_minute : m < 1440) (is_weekday : w < 7) (is_day : d < 7)
    (is_start : s < 1440) (is_end : e < 1440) where
  within_day : s < e → since d s w m < (e + 1440 - s) % 1440 → (d ≡ w) × (s ≤ m) × (m < e)
  within_day h k = (omega arith, omega arith, omega arith)

  over_night :
      e < s
      → since d s w m < (e + 1440 - s) % 1440
      → ((d ≡ w) × (s ≤ m)) ⊎ ((d ≡ (w + 6) % 7) × (m < e))
  over_night h k = ground arith

  same_day : d ≡ w → s < e → s ≤ m → m < e → since d s w m < (e + 1440 - s) % 1440
  same_day day h k l = omega arith

  since_start : d ≡ w → e < s → s ≤ m → since d s w m < (e + 1440 - s) % 1440
  since_start day h k = omega arith

  day_before : d ≡ (w + 6) % 7 → e < s → m < e → since d s w m < (e + 1440 - s) % 1440
  day_before day h k = omega arith

-- A restriction allows the minute `m` of the weekday `w` exactly when a window is open then that opened on
-- one of its days, at its start, in the week that ends there: one that runs over midnight belongs to the
-- day it opened on.
pub window_allows_iff :
    (res : Restriction) (m w : ℕ)
    → m < 1440
    → w < 7
    → res.start_minute < 1440
    → res.end_minute < 1440
    → res.start_minute ≢ res.end_minute
    → (window_allows res m w ≡ true) ↔ IsOpen res m w
unfolding window_allows
window_allows_iff res m w is_minute is_weekday is_start is_end apart = (opens, allows)
  where
    opened :
        (d : ℕ)
        → d < 7
        → allows_day res d ≡ true
        → since d res.start_minute w m < window_length res
        → IsOpen res m w
    opened d is_day allowed still = record {
      on_day = d;
      is_day = is_day;
      allowed = allowed;
      still = still;
    }

    opens : window_allows res m w ≡ true → IsOpen res m w
    opens h = elim (Bool-cases (ltb res.start_minute res.end_minute)) [
      | inl day ↦ opened w is_weekday (ground arith) (
          same_day res.start_minute res.end_minute w w m is_minute is_weekday is_weekday is_start
            is_end refl (ground arith) (ground arith) (ground arith))
      | inr night ↦ elim (Bool-cases (ltb m res.end_minute)) [
        | inl early ↦ opened ((w + 6) % 7) (omega arith) (ground arith) (
            day_before res.start_minute res.end_minute ((w + 6) % 7) w m is_minute is_weekday
              (omega arith) is_start is_end refl (ground arith) (ground arith))
        | inr late ↦ opened w is_weekday (ground arith) (
            since_start res.start_minute res.end_minute w w m is_minute is_weekday is_weekday
              is_start is_end refl (ground arith) (ground arith))
      ]
    ]

    allowed_at : (o : IsOpen res m w) (d : ℕ) → o.on_day ≡ d → allows_day res d ≡ true
    allowed_at o d same = subst (λ k. allows_day res k ≡ true) same o.allowed

    allows : IsOpen res m w → window_allows res m w ≡ true
    allows o = elim (Bool-cases (ltb res.start_minute res.end_minute)) [
      | inl day ↦
          let (same, from, until) =
            within_day res.start_minute res.end_minute o.on_day w m is_minute is_weekday o.is_day
              is_start is_end (ground arith) o.still in
          ground (arith, allowed_at o w same)
      | inr night ↦
          elim (over_night res.start_minute res.end_minute o.on_day w m is_minute is_weekday
            o.is_day is_start is_end (ground arith) o.still) [
              | inl (same, from) ↦ ground (arith, allowed_at o w same)
              | inr (before, until) ↦ ground (arith, allowed_at o ((w + 6) % 7) before)
            ]
    ]

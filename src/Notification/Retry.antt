-- ===== src/Notification/Retry.antt =====
-- The retry budget and the time of the next attempt.
use nxs_anomaly.Base.{
  ℕ, zero, suc, ◌+◌, ◌-◌, ◌*◌, ◌≤◌, ◌<◌, String, true, false, ◌≡◌, refl, ◌∙◌, ap, ◌⊎◌, inl, inr,
  ◌≢◌, ◌↔◌, List, [], ◌∷◌, some, arith, leb, ltb, if◌then◌else◌, length, get_or,
}
use nxs_anomaly.Base.Time.{Instant, TimeText, minute, second, truncate_second}
use nxs_anomaly.Base.Json.{str_val}
use nxs_anomaly.Notification.State.{
  Notification, retry_scheduled, retry_index, instant_or_zero, retry_wait, gives_up, no_delays,
  schedule_retry_or_fail_after,
}

-- The delay after a failure that `i` others preceded: one entry each, and the last entry from
-- there on.
pub delay_after : ℕ → List ℕ → ℕ
delay_after i [] = 0
delay_after i (d ∷ []) = d
delay_after zero (d ∷ e ∷ rest) = d
delay_after (suc i) (d ∷ e ∷ rest) = delay_after i (e ∷ rest)

-- The index is within the list, so no lookup is out of range.
pub retry_index-lt-length :
    (retry_count : ℕ) (delays : List ℕ)
    → 0 < length delays
    → retry_index retry_count delays < length delays
unfolding retry_index
retry_index-lt-length n delays h = ground arith

clamp-suc :
    (i n : ℕ)
    → (if leb (suc (suc n)) (suc i) then suc (suc n) - 1 else suc i)
      ≡ suc (if leb (suc n) i then suc n - 1 else i)
clamp-suc i n = ground arith

get_or-clamped :
    (i : ℕ) (delays : List ℕ)
    → get_or delays (if leb (length delays) i then length delays - 1 else i) 0
      ≡ delay_after i delays
unfolding delay_after
get_or-clamped i [] = refl
get_or-clamped zero (d ∷ []) = refl
get_or-clamped (suc i) (d ∷ []) = ground arith
get_or-clamped zero (d ∷ e ∷ rest) = ground arith
get_or-clamped (suc i) (d ∷ e ∷ rest) =
    ap (λ j. get_or (d ∷ e ∷ rest) j 0) (clamp-suc i (length rest)) ∙ get_or-clamped i (e ∷ rest)

-- What a failure waits for: what the provider asked, or else the configured delay.
pub asked_wait : ℕ → List ℕ → ℕ → ℕ
asked_wait failures delays retry_after =
    if ltb 0 retry_after then retry_after else delay_after failures delays * minute

retry_wait_lem :
    (failures : ℕ) (delays : List ℕ) (retry_after : ℕ)
    → retry_wait (failures + 1) delays retry_after ≡ asked_wait failures delays retry_after
unfolding retry_wait asked_wait
retry_wait_lem k delays retry_after =
    let before : (k + 1 - 1 ≡ k) = omega arith in rw (before, get_or-clamped k delays)

truncate_second_bounds : (t : Instant) → (truncate_second t ≤ t) × (t < truncate_second t + second)
truncate_second_bounds t = omega arith

-- When a failure is the last: the budget is spent, or nothing says how long to wait.
pub gives_up_iff :
    (retry_count max_retries : ℕ) (delays : List ℕ) (retry_after : ℕ)
    → (gives_up retry_count max_retries delays retry_after ≡ true)
      ↔ ((max_retries ≤ retry_count) ⊎ ((delays ≡ []) × (retry_after ≡ 0)))
unfolding gives_up no_delays
gives_up_iff k m [] a = ground arith
gives_up_iff k m (d ∷ rest) a = ground arith

goes_on :
    (retry_count max_retries : ℕ) (delays : List ℕ) (retry_after : ℕ)
    → retry_count < max_retries
    → (delays ≢ []) ⊎ (0 < retry_after)
    → gives_up retry_count max_retries delays retry_after ≡ false
unfolding gives_up no_delays
goes_on k m [] a room (inl e) = absurd (e refl)
goes_on k m [] a room (inr e) = ground arith
goes_on k m (d ∷ rest) a room e = ground arith

-- A failure below the budget, with a delay to wait for and a time that can be read, is retried:
-- one failure more is counted, and the next attempt is due less than a second before the wait is
-- over, and never after.
pub retry_due :
    (time : TimeText) (ts message : String) (max_retries : ℕ) (delays : List ℕ) (retry_after : ℕ)
    (n : Notification) (at : Instant)
    → time.parse ts ≡ some at
    → n.retry_count + 1 < max_retries
    → (delays ≢ []) ⊎ (0 < retry_after)
    → let n' = schedule_retry_or_fail_after time ts message max_retries delays retry_after n in
      let wait = asked_wait n.retry_count delays retry_after in
      (n'.status ≡ retry_scheduled)
      × (n'.retry_count ≡ n.retry_count + 1)
      × ((due : Instant) × (time.parse (str_val n'.extra "next_retry_at") ≡ some due)
          × (due ≤ at + wait)
          × (at + wait < due + second))
unfolding schedule_retry_or_fail_after str_val
retry_due time ts message max_retries delays retry_after n at read room some_wait =
    rw
      (
        goes_on (n.retry_count + 1) max_retries delays retry_after room some_wait,
        schedule_retry_or_fail_after,
      )
      (let due : Instant = at + asked_wait n.retry_count delays retry_after in
        rw (read, instant_or_zero, retry_wait_lem n.retry_count delays retry_after)
          (
            refl,
            refl,
            (
              truncate_second due,
              time.parse-to_iso due,
              (truncate_second_bounds due).0,
              (truncate_second_bounds due).1,
            ),
          ))

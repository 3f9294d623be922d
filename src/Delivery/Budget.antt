-- ===== src/Delivery/Budget.antt =====
-- The retry budget over any history of a notification row, and the end of its life.
use nxs_anomaly.Base.{
  ℕ, ◌<◌, String, ◌≡◌, refl, ◌⊎◌, ◌≢◌, List, Option, none, some, leb, if◌then◌else◌,
}
use nxs_anomaly.Base.Time.{TimeText}
use nxs_anomaly.Notification.State.{Notification, delivered, failed, skipped}
use nxs_anomaly.Delivery.Claims.{
  DeliveryConfig, Attempt, DeliveryResult, claimed_by, save_delivery_result, save_retry_result,
}
use nxs_anomaly.Delivery.Cases.{at_row, save_delivery_cases, save_retry_cases}

-- The failures that a notification may have: the first attempt is made whatever the setting.
abbrev pub allowance : DeliveryConfig → ℕ
allowance cfg = if leb 1 cfg.max_retries then cfg.max_retries else 1

-- Below the allowance, or failed at it.
abbrev pub InBudget : DeliveryConfig → Notification → Type 0
InBudget cfg n =
    (n.retry_count < allowance cfg) ⊎ ((n.status ≡ failed) × (n.retry_count ≡ allowance cfg))

abbrev pub RowInBudget : DeliveryConfig → Option Notification → Type 0
RowInBudget cfg none = Unit {0}
RowInBudget cfg (some n) = InBudget cfg n

-- A delivered, failed or skipped notification is at the end of its life.
abbrev pub IsFinal : Notification → Type 0
IsFinal n = (n.status ≡ delivered) ⊎ (n.status ≡ failed) ⊎ (n.status ≡ skipped)

module _ (time : TimeText) (cfg : DeliveryConfig) where
  -- A worker's result changes nothing, and records no attempt, where the last claim on the row is
  -- another worker's.
  pub save_by_other :
      (worker : String) (r : DeliveryResult) (n : Notification) (attempts : List Attempt)
      → claimed_by n ≢ worker
      → (save_delivery_result time cfg worker r (at_row n attempts) ≡ at_row n attempts)
        × (save_retry_result time cfg worker r (at_row n attempts) ≡ at_row n attempts)
  save_by_other worker r n attempts other = (
    save_delivery_cases (λ s. s ≡ at_row n attempts) time cfg worker r n attempts refl
        (λ _ w. absurd (other w)) (λ _ w. absurd (other w)),
    save_retry_cases (λ s. s ≡ at_row n attempts) time cfg worker r n attempts refl
        (λ _ w. absurd (other w)) (λ _ w. absurd (other w)) (λ _ w. absurd (other w)),
  )

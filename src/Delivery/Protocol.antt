-- ===== src/Delivery/Protocol.antt =====
-- Any interleaving of any number of workers and the reaper on one notification row.
use nxs_anomaly.Base.{
  ℕ, ◌+◌, ◌≤◌, String, ◌||◌, List, [], ◌∷◌, Option, none, some, arith, ◌==◌, if◌then◌else◌, length,
}
use nxs_anomaly.Base.Time.{TimeText}
use nxs_anomaly.Notification.State.{Notification, delivering, retrying}
use nxs_anomaly.Delivery.Claims.{
  DeliveryConfig, Attempt, DeliveryResult, Shared, claim_deliverable, claim_retryable,
  reclaim_stale, save_delivery_result, save_retry_result,
}

pub data Event : Type 0 where
  claims : (worker now : String) → Event
  claims_retry : (worker now : String) → Event
  reclaims : (cutoff : String) → Event
  saves : (worker : String) → DeliveryResult → Event
  saves_retry : (worker : String) → DeliveryResult → Event
  deletes : Event

on_row : (Notification → Notification) → Shared → Shared
on_row f s = elim s.row [ none ↦ s | some n ↦ record { row = some (f n); attempts = s.attempts } ]

module _ (time : TimeText) (cfg : DeliveryConfig) where
  unfoldable pub step : Event → Shared → Shared
  unfolding on_row
  step (claims worker now) s = on_row (claim_deliverable worker now) s
  step (claims_retry worker now) s = on_row (claim_retryable time worker now) s
  step (reclaims cutoff) s = on_row (reclaim_stale time cutoff) s
  step (saves worker r) s = save_delivery_result time cfg worker r s
  step (saves_retry worker r) s = save_retry_result time cfg worker r s
  step deletes s = record { row = none; attempts = s.attempts }

  unfoldable pub run : List Event → Shared → Shared
  run [] s = s
  run (e ∷ es) s = run es (step e s)

-- Whether a worker holds the row.
abbrev pub held : Notification → ℕ
held n = if n.status == delivering || n.status == retrying then 1 else 0

abbrev pub held_row : Option Notification → ℕ
held_row none = 0
held_row (some n) = held n

abbrev pub is_claim : Event → ℕ
is_claim (claims worker now) = 1
is_claim (claims_retry worker now) = 1
is_claim _ = 0

unfoldable pub claim_count : List Event → ℕ
claim_count [] = 0
claim_count (e ∷ es) = is_claim e + claim_count es

-- The claims that a row's history has used up: one for each attempt, and one that is held.
abbrev pub spent : Shared → ℕ
spent s = length s.attempts + held_row s.row

held-le : (n : Notification) → held n ≤ 1
held-le n = ground arith

module _ (time : TimeText) (cfg : DeliveryConfig) where
  claim-spent :
      (f : Notification) (attempts : List Attempt) → length attempts + held f ≤ length attempts + 1
  claim-spent f attempts = omega (arith, held-le f)

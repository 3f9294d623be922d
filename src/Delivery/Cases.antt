-- ===== src/Delivery/Cases.antt =====
-- The ways in which saving the result of an attempt can go.
use nxs_anomaly.Base.{
  String, Bool, true, false, inl, inr, not, ◌&&◌, ◌||◌, ◌≡◌, List, ◌∷◌, some, arith, ◌==◌,
  if◌then◌else◌, Bool-cases, ==→eq, if_cases,
}
use nxs_anomaly.Base.Time.{TimeText}
use nxs_anomaly.Notification.State.{
  Notification, delivery_scheduled, retry_scheduled, delivering, retrying, release_claim,
  fail_retry_context,
}
use nxs_anomaly.Delivery.Claims.{
  DeliveryConfig, Attempt, DeliveryResult, Shared, claimed_by, claim, claim_deliverable,
  claim_retryable, retry_is_due, reclaim_stale, claim_is_stale, apply_outcome, save_delivery_result,
  save_retry_result,
}

and_left : (a b : Bool) → (a && b) ≡ true → a ≡ true
and_left a b h = ground arith

and_right : (a b : Bool) → (a && b) ≡ true → b ≡ true
and_right a b h = ground arith

or_right : (a b : Bool) → a ≡ false → (a || b) ≡ true → b ≡ true
or_right a b h k = ground arith

abbrev pub at_row : Notification → List Attempt → Shared
at_row n attempts = record { row = some n; attempts = attempts }

module _ {ℓ} (P : Notification → Type ℓ) (time : TimeText) (worker now : String)
    (n : Notification) where
  pub claim_cases :
      P n
      → (n.status ≡ delivery_scheduled → P (claim delivering worker now n))
      → P (claim_deliverable worker now n)
  unfolding claim_deliverable
  claim_cases same taken =
      if_cases P (n.status == delivery_scheduled) (λ h. taken (==→eq n.status _ h)) (λ _. same)

  pub claim_retry_cases :
      P n
      → (n.status ≡ retry_scheduled
          → retry_is_due time now n ≡ true
          → P (claim retrying worker now n))
      → P (claim_retryable time worker now n)
  unfolding claim_retryable
  claim_retry_cases same taken =
      if_cases P (n.status == retry_scheduled && retry_is_due time now n)
        (λ h. taken (==→eq n.status _ (and_left _ _ h)) (and_right _ _ h)) (λ _. same)

reclaimed : Notification → Notification
reclaimed n = record n {
  status = if n.status == delivering then delivery_scheduled else retry_scheduled;
}

pub reclaim_cases {ℓ} :
    (P : Notification → Type ℓ) (time : TimeText) (cutoff : String) (n : Notification)
    → P n
    → (n.status ≡ delivering → P (record n { status = delivery_scheduled }))
    → (n.status ≡ retrying → P (record n { status = retry_scheduled }))
    → P (reclaim_stale time cutoff n)
unfolding reclaim_stale reclaimed
reclaim_cases P time cutoff n same fresh again =
    if_cases P {x = reclaimed n}
      ((n.status == delivering || n.status == retrying) && claim_is_stale time cutoff n)
      (λ h. elim (Bool-cases (n.status == delivering)) [
        | inl d ↦ rw d (fresh (==→eq n.status _ d))
        | inr d ↦ rw d (again (==→eq n.status _ (or_right _ _ d (and_left _ _ h))))
      ])
      (λ _. same)

both_fail : (a b : Bool) → (not a || not b) ≡ false → (a ≡ true) × (b ≡ true)
both_fail a b h = ground arith

module _ {ℓ} (P : Shared → Type ℓ) (time : TimeText) (cfg : DeliveryConfig) (worker : String)
    (r : DeliveryResult) (n : Notification) (attempts : List Attempt) where
  pub save_delivery_cases :
      P (at_row n attempts)
      → (n.status ≡ delivering
          → claimed_by n ≡ worker
          → P (at_row (release_claim delivery_scheduled n) attempts))
      → (n.status ≡ delivering
          → claimed_by n ≡ worker
          → P (at_row (apply_outcome time cfg r.outcome r.finished_at n) (r.attempt ∷ attempts)))
      → P (save_delivery_result time cfg worker r (at_row n attempts))
  unfolding save_delivery_result
  save_delivery_cases unchanged released applied =
      if_cases P (not (n.status == delivering) || not (claimed_by n == worker)) (λ _. unchanged)
        λ ours.
          let (d, w) = both_fail _ _ ours in
          if_cases P r.short_circuited
            (λ _. released (==→eq n.status _ d) (==→eq (claimed_by n) _ w))
            (λ _. applied (==→eq n.status _ d) (==→eq (claimed_by n) _ w))

  pub save_retry_cases :
      P (at_row n attempts)
      → (n.status ≡ retrying
          → claimed_by n ≡ worker
          → P (at_row (release_claim retry_scheduled n) attempts))
      → (n.status ≡ retrying → claimed_by n ≡ worker → P (at_row (fail_retry_context n) attempts))
      → (n.status ≡ retrying
          → claimed_by n ≡ worker
          → P (at_row (apply_outcome time cfg r.outcome r.finished_at n) (r.attempt ∷ attempts)))
      → P (save_retry_result time cfg worker r (at_row n attempts))
  unfolding save_retry_result
  save_retry_cases unchanged released lost applied =
      if_cases P (not (n.status == retrying) || not (claimed_by n == worker)) (λ _. unchanged)
        λ ours.
          let (d, w) = both_fail _ _ ours in
          if_cases P r.short_circuited
            (λ _. released (==→eq n.status _ d) (==→eq (claimed_by n) _ w))
            λ _.
              if_cases P r.failed_context
                (λ _. lost (==→eq n.status _ d) (==→eq (claimed_by n) _ w))
                (λ _. applied (==→eq n.status _ d) (==→eq (claimed_by n) _ w))

-- ===== src/Delivery/Claims.antt =====
-- One notification row under several workers: the claims of internal/store/store_lookups.go, and how
-- internal/engine/delivery.go saves what came of a claim. Each SQL statement and each saving
-- transaction is one step on the row, since both hold the row's lock; which rows a batch picks is
-- left open. What a provider answers is an argument.
use nxs_anomaly.Base.{
  ℕ, ◌+◌, String, Bool, false, not, ◌&&◌, ◌||◌, List, ◌∷◌, Option, none, some, leb, ltb, ◌==◌,
  if◌then◌else◌,
}
use nxs_anomaly.Base.Text.{str_default}
use nxs_anomaly.Base.Time.{Instant, TimeText}
use nxs_anomaly.Base.Json.{str, put, str_val}
use nxs_anomaly.Notification.State.{
  Notification, delivery_scheduled, retry_scheduled, delivering, retrying, release_claim,
  mark_delivered, mark_skipped, schedule_retry_or_fail_after, fail_retry_context,
}

-- `deliveryOutcome`.
pub record Outcome : Type 0 where
  pub status : String
  pub provider_status : String
  pub code : ℕ
  pub response : String
  pub err : String
  pub retry_after : ℕ

abbrev pub delivery_delivered : String
delivery_delivered = "delivered"

abbrev pub delivery_failed : String
delivery_failed = "failed"

abbrev pub delivery_skipped : String
delivery_skipped = "skipped"

-- The part of `DeliveryConfig` that the outcome of an attempt depends on.
pub record DeliveryConfig : Type 0 where
  pub max_retries : ℕ
  pub retry_delays : List ℕ

-- A row of the delivery attempts.
pub record Attempt : Type 0 where
  pub id : String
  pub notification_id : String
  pub channel : String
  pub target : String
  pub number : ℕ
  pub status : String
  pub provider_status : String
  pub response : String
  pub error : String
  pub started_at : String
  pub finished_at : String
  pub provider_code : Option ℕ

unfoldable pub delivery_attempt_row :
    String → Notification → Outcome → (started_at finished_at : String) → Attempt
delivery_attempt_row fresh_id n res started_at finished_at = record {
  id = fresh_id;
  notification_id = n.id;
  channel = n.channel;
  target = n.target;
  number = n.retry_count + 1;
  status = res.status;
  provider_status = res.provider_status;
  response = res.response;
  error = res.err;
  started_at = started_at;
  finished_at = finished_at;
  provider_code = if ltb 0 res.code then some res.code else none;
}

-- `deliveryResult` and `retryResult`: what a worker found out about a row it had claimed.
pub record DeliveryResult : Type 0 where
  pub short_circuited : Bool
  pub failed_context : Bool
  pub outcome : Outcome
  pub attempt : Attempt
  pub finished_at : String

-- The row, which a deletion removes, and the attempts recorded for it.
pub record Shared : Type 0 where
  pub row : Option Notification
  pub attempts : List Attempt

abbrev pub claim : String → String → String → Notification → Notification
claim status worker now n = record n {
  status = status;
  extra = put "claimed_by" (str worker) (put "claimed_at" (str now) n.extra);
}

-- `ClaimDeliverableNotifications`, on one row.
unfoldable pub claim_deliverable : String → String → Notification → Notification
claim_deliverable worker now n =
    if n.status == delivery_scheduled then claim delivering worker now n else n

before : Option Instant → Option Instant → (ℕ → ℕ → Bool) → Bool
before (some a) (some b) test = test a b
before _ _ test = false

-- `next_retry_at <= now`: no row without a retry time passes.
unfoldable pub retry_is_due : TimeText → String → Notification → Bool
unfolding before
retry_is_due time now n = before (time.parse (str_val n.extra "next_retry_at")) (time.parse now) leb

-- `ClaimRetryableNotifications`, on one row.
unfoldable pub claim_retryable : TimeText → String → String → Notification → Notification
claim_retryable time worker now n =
    if n.status == retry_scheduled && retry_is_due time now n
    then claim retrying worker now n
    else n

unfoldable pub claim_is_stale : TimeText → String → Notification → Bool
unfolding before
claim_is_stale time cutoff n =
    before (time.parse (str_val n.extra "claimed_at")) (time.parse cutoff) ltb

-- `ReclaimStaleClaims`, on one row.
unfoldable pub reclaim_stale : TimeText → String → Notification → Notification
unfolding claim_is_stale
reclaim_stale time cutoff n =
    if (n.status == delivering || n.status == retrying) && claim_is_stale time cutoff n
    then record n {
      status = if n.status == delivering then delivery_scheduled else retry_scheduled;
    }
    else n

unfoldable pub apply_outcome :
    TimeText → DeliveryConfig → Outcome → String → Notification → Notification
apply_outcome time cfg res ts n =
    if res.status == delivery_delivered
    then mark_delivered ts (str_default res.provider_status "delivered") n
    else if res.status == delivery_skipped
    then mark_skipped ts (str_default res.provider_status "not_configured") res.err n
    else schedule_retry_or_fail_after time ts res.err cfg.max_retries cfg.retry_delays
        res.retry_after n

unfoldable pub claimed_by : Notification → String
claimed_by n = str_val n.extra "claimed_by"

-- The body of `saveDeliveryResults` for one result.
save_found :
    TimeText → DeliveryConfig → String → DeliveryResult → Notification → List Attempt → Shared
unfolding claimed_by
save_found time cfg worker r n attempts =
    if not (n.status == delivering) || not (claimed_by n == worker)
    then record { row = some n; attempts = attempts }
    else if r.short_circuited
    then record { row = some (release_claim delivery_scheduled n); attempts = attempts }
    else record {
      row = some (apply_outcome time cfg r.outcome r.finished_at n);
      attempts = r.attempt ∷ attempts;
    }

unfoldable pub save_delivery_result :
    TimeText → DeliveryConfig → String → DeliveryResult → Shared → Shared
unfolding save_found
save_delivery_result time cfg worker r s = elim s.row [
  | none ↦ s
  | some n ↦ save_found time cfg worker r n s.attempts
]

-- The body of `saveRetryResults` for one result.
save_retried :
    TimeText → DeliveryConfig → String → DeliveryResult → Notification → List Attempt → Shared
unfolding claimed_by
save_retried time cfg worker r n attempts =
    if not (n.status == retrying) || not (claimed_by n == worker)
    then record { row = some n; attempts = attempts }
    else if r.short_circuited
    then record { row = some (release_claim retry_scheduled n); attempts = attempts }
    else if r.failed_context
    then record { row = some (fail_retry_context n); attempts = attempts }
    else record {
      row = some (apply_outcome time cfg r.outcome r.finished_at n);
      attempts = r.attempt ∷ attempts;
    }

unfoldable pub save_retry_result :
    TimeText → DeliveryConfig → String → DeliveryResult → Shared → Shared
unfolding save_retried
save_retry_result time cfg worker r s = elim s.row [
  | none ↦ s
  | some n ↦ save_retried time cfg worker r n s.attempts
]

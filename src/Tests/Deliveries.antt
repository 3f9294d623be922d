-- ===== src/Tests/Deliveries.antt =====
-- Deliveries of one notification, on concrete data.
use nxs_anomaly.Base.{◌+◌, ◌*◌, ◌≤◌, ◌<◌, false, ◌≡◌, refl, inl, List, [], ◌∷◌, some, arith, length}
use nxs_anomaly.Base.Json.{str_val, empty_row}
use nxs_anomaly.Base.Time.{Instant, second}
use nxs_anomaly.Notification.State.{Notification, schedule_retry_or_fail_after}
use nxs_anomaly.Notification.Retry.{asked_wait, retry_due}
use nxs_anomaly.Delivery.Claims.{
  Outcome, DeliveryConfig, DeliveryResult, delivery_attempt_row, save_delivery_result,
  claim_deliverable, reclaim_stale, apply_outcome,
}
use nxs_anomaly.Delivery.Cases.{at_row}
use nxs_anomaly.Delivery.Protocol.{Event, claims, reclaims, saves, step, run}
use nxs_anomaly.Tests.Data.{tick_time}

abbrev config : DeliveryConfig
config = record { max_retries = 3; retry_delays = 1 ∷ 5 ∷ [] }

abbrev waiting : Notification
waiting = record {
  id = "ntf_1";
  alert_group_id = "grp_1";
  channel = "sms";
  target = "+100";
  status = "delivery_scheduled";
  reason = "escalation";
  idempotency_key = "k";
  retry_count = 0;
  created_at = "+i";
  updated_at = "+i";
  extra = empty_row;
}

abbrev outage : Outcome
outage = record {
  status = "failed";
  provider_status = "";
  code = 503;
  response = "";
  err = "unavailable";
  retry_after = 0;
}

abbrev outage_result : DeliveryResult
outage_result = record {
  short_circuited = false;
  failed_context = false;
  outcome = outage;
  attempt = delivery_attempt_row "att_1" waiting outage "+ii" "+iii";
  finished_at = "+iii";
}

-- Two workers and the reaper: the first worker's claim goes stale, the second delivers in its
-- place, and the first comes back late.
abbrev contest : List Event
contest =
    claims "w1" "+i"
    ∷ reclaims "+iii"
    ∷ claims "w2" "+iii"
    ∷ saves "w2" outage_result
    ∷ saves "w1" outage_result
    ∷ []

contest_attempts : length (run tick_time config contest (at_row waiting [])).attempts ≡ 1
unfolding run step save_delivery_result claim_deliverable reclaim_stale str_val apply_outcome
    schedule_retry_or_fail_after
contest_attempts = refl

abbrev given_up : Notification
given_up = record waiting { status = "failed"; retry_count = 3 }

retry_due_example :
    let n' = schedule_retry_or_fail_after tick_time "+iii" "unavailable" 3 (1 ∷ 5 ∷ []) 0 waiting in
    let wait = asked_wait 0 (1 ∷ 5 ∷ []) 0 in
    (n'.status ≡ "retry_scheduled")
    × (n'.retry_count ≡ 0 + 1)
    × ((due : Instant) × (tick_time.parse (str_val n'.extra "next_retry_at") ≡ some due)
        × (due ≤ 3 * second + wait)
        × (3 * second + wait < due + second))
retry_due_example =
    retry_due tick_time "+iii" "unavailable" 3 (1 ∷ 5 ∷ []) 0 waiting (3 * second) refl
      (omega arith) (inl (λ e. ground (arith, e)))

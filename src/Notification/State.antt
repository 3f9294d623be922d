-- ===== src/Notification/State.antt =====
-- internal/model/notification.go: the record of a notification and its delivery and retry state
-- machine. Methods return the new notification; the random id is an argument. Delays are minutes,
-- and `RetryAfter`, a duration, is nanoseconds.
use nxs_anomaly.Base.{
  ℕ, ◌+◌, ◌-◌, ◌*◌, String, Bool, true, false, List, [], ◌∷◌, Option, none, some, leb, ltb, ◌==◌,
  if◌then◌else◌, length, get_or, ◌&&◌, ◌||◌,
}
use nxs_anomaly.Base.Text.{concat}
use nxs_anomaly.Base.Time.{Instant, TimeText, minute}
use nxs_anomaly.Base.Json.{Scalar, Value, null, str, obj, Row, empty_row, put}

abbrev pub delivery_scheduled : String
delivery_scheduled = "delivery_scheduled"

abbrev pub batched : String
batched = "batched"

abbrev pub retry_scheduled : String
retry_scheduled = "retry_scheduled"

abbrev pub delivered : String
delivered = "delivered"

abbrev pub failed : String
failed = "failed"

abbrev pub skipped : String
skipped = "skipped"

abbrev pub delivering : String
delivering = "delivering"

abbrev pub retrying : String
retrying = "retrying"

-- `ntfData`.
pub record Notification : Type 0 where
  pub id : String
  pub alert_group_id : String
  pub channel : String
  pub target : String
  pub status : String
  pub reason : String
  pub idempotency_key : String
  pub retry_count : ℕ
  pub created_at : String
  pub updated_at : String
  pub extra : Row

nil_string : String → Value
nil_string s = if s == "" then null else str s

default_key : String → String → String → String → String → String
default_key group user channel target reason =
    concat (group ∷ ":" ∷ user ∷ ":" ∷ channel ∷ ":" ∷ target ∷ ":" ∷ reason ∷ [])

unfoldable pub new_notification :
    (fresh_id : String)
    → (alert_group_id integration_id user_id channel target reason timestamp key : String)
    → Notification
unfolding nil_string default_key
new_notification fresh_id group integration user channel target reason timestamp key = record {
  id = fresh_id;
  alert_group_id = group;
  channel = channel;
  target = target;
  status = delivered;
  reason = reason;
  idempotency_key = if key == "" then default_key group user channel target reason else key;
  retry_count = 0;
  created_at = timestamp;
  updated_at = timestamp;
  extra = put "user_id" (nil_string user) (
      put "integration_id" (nil_string integration) (
        put "next_retry_at" null (
          put "last_error" null (
            put "batch_id" null (
              put "batch_key" null (put "provider_status" null (put "payload" null empty_row)))))));
}

unfoldable pub release_claim : String → Notification → Notification
release_claim pending n = record n { status = pending }

unfoldable pub schedule_delivery : List (String × Scalar) → Notification → Notification
schedule_delivery payload n = record n {
  extra = put "payload" (obj payload) n.extra;
  status = delivery_scheduled;
}

unfoldable pub attach_to_batch : String → String → Notification → Notification
attach_to_batch batch_id batch_key n = record n {
  status = batched;
  extra =
      put "provider_status" (str "waiting_for_batch")
        (put "batch_key" (str batch_key) (put "batch_id" (str batch_id) n.extra));
}

unfoldable pub mark_skipped : String → String → String → Notification → Notification
unfolding nil_string
mark_skipped ts reason detail n = record n {
  status = skipped;
  extra =
      put "next_retry_at" null
        (put "last_error" (nil_string detail) (put "provider_status" (str reason) n.extra));
  updated_at = ts;
}

unfoldable pub mark_delivered : String → String → Notification → Notification
mark_delivered ts provider_status n = record n {
  status = delivered;
  extra =
      put "next_retry_at" null
        (put "last_error" null (put "provider_status" (str provider_status) n.extra));
  updated_at = ts;
}

-- An index past the end is moved to the last entry.
unfoldable pub retry_index : ℕ → List ℕ → ℕ
retry_index retry_count delays =
    let i = retry_count - 1 in if leb (length delays) i then length delays - 1 else i

-- The zero time, where the text cannot be read.
unfoldable pub instant_or_zero : Option Instant → Instant
instant_or_zero none = 0
instant_or_zero (some t) = t

-- The wait is in the range of a `time.Duration`: the delays, in minutes, are the operator's configuration.
unfoldable pub retry_wait : ℕ → List ℕ → ℕ → ℕ
unfolding retry_index
retry_wait retry_count delays retry_after =
    if ltb 0 retry_after
    then retry_after
    else get_or delays (retry_index retry_count delays) 0 * minute

unfoldable pub no_delays : List ℕ → Bool
no_delays [] = true
no_delays (d ∷ rest) = false

-- `retryCount >= maxRetries || (len(delays) == 0 && retryAfter <= 0)`.
unfoldable pub gives_up : ℕ → ℕ → List ℕ → ℕ → Bool
unfolding no_delays
gives_up retry_count max_retries delays retry_after =
    leb max_retries retry_count || (no_delays delays && leb retry_after 0)

unfoldable pub schedule_retry_or_fail_after :
    TimeText → String → String → ℕ → List ℕ → ℕ → Notification → Notification
unfolding gives_up retry_wait instant_or_zero
schedule_retry_or_fail_after time ts err_msg max_retries delays retry_after n =
    let retry_count = n.retry_count + 1 in
    let tried = record n {
      retry_count = retry_count;
      extra =
          put "last_error" (str (if err_msg == "" then "delivery failed" else err_msg))
            (put "provider_status" (str "delivery_failed") n.extra);
      updated_at = ts;
    } in
    if gives_up retry_count max_retries delays retry_after
    then record tried { status = failed; extra = put "next_retry_at" null tried.extra }
    else record tried {
      status = retry_scheduled;
      extra =
          put "next_retry_at"
            (str (
              time.to_iso
                (instant_or_zero (time.parse ts) + retry_wait retry_count delays retry_after)))
            tried.extra;
    }

unfoldable pub schedule_retry_or_fail :
    TimeText → String → String → ℕ → List ℕ → Notification → Notification
unfolding schedule_retry_or_fail_after
schedule_retry_or_fail time ts err_msg max_retries delays =
    schedule_retry_or_fail_after time ts err_msg max_retries delays 0

unfoldable pub fail_retry_context : Notification → Notification
fail_retry_context n = record n {
  status = failed;
  extra = put "next_retry_at" null (put "last_error" (str "retry context not found") n.extra);
}

unfoldable pub release_from_batch : String → List (String × Scalar) → Notification → Notification
release_from_batch ts payload n = record n {
  status = delivery_scheduled;
  extra = put "provider_status" (str "batch_flushed") (put "payload" (obj payload) n.extra);
  updated_at = ts;
}

unfoldable pub fail_batch_context : String → Notification → Notification
fail_batch_context ts n = record n {
  status = failed;
  extra =
      put "provider_status" (str "batch_flushed")
        (put "last_error" (str "batch delivery context not found") n.extra);
  updated_at = ts;
}

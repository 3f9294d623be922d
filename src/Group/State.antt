-- ===== src/Group/State.antt =====
-- internal/model/alertgroup.go: the record of an alert group, its construction, its episode and
-- escalation pass, and its embedded log. The source's methods write through a shared pointer; here
-- each returns the new group. What the source draws from the clock and from random ids is an
-- argument, `Fresh`.
use nxs_anomaly.Base.{
  ℕ, ◌+◌, ◌-◌, String, Bool, List, [], ◌∷◌, ◌++◌, Option, none, some, ltb, ◌==◌, if◌then◌else◌,
  contains, length, drop, list_or_nil,
}
use nxs_anomaly.Base.Text.{concat, decimal}
use nxs_anomaly.Base.Json.{
  Scalar, text, LogEntry, Value, null, str, num, bool, list, obj, Row, empty_row, put, str_val,
  int_val, str_slice,
}
use nxs_anomaly.Authz.{Actor, system_actor, is_system, describe}

abbrev pub status_open : String
status_open = "open"

abbrev pub status_acknowledged : String
status_acknowledged = "acknowledged"

abbrev pub status_resolved : String
status_resolved = "resolved"

abbrev pub status_silenced : String
status_silenced = "silenced"

abbrev pub max_group_logs : ℕ
max_group_logs = 200

pub data Error : Type 0 where
  acknowledge_resolved unresolve_not_resolved unacknowledge_not_acked silence_resolved : Error

pub data Result {ℓ} (A : Type ℓ) : Type ℓ where
  ok : A → Result A
  err : Error → Result A

-- `agData`. A nil slice or map is `none`.
pub record Group : Type 0 where
  pub id : String
  pub route_id : String
  pub dedupe_key : String
  pub status : String
  pub title : String
  pub severity : String
  pub created_at : String
  pub updated_at : String
  pub last_received_at : String
  pub alert_count : ℕ
  pub current_step : ℕ
  pub repeat_count : ℕ
  pub labels : Option (List (String × Scalar))
  pub alert_ids : Option (List String)
  pub logs : Option (List LogEntry)
  pub extra : Row

-- What one call draws from `utils.MakeID` and `utils.UTCNow`.
pub record Fresh : Type 0 where
  pub group_id : String
  pub log_id : String
  pub episode_id : String
  pub now : String

pub record NewAlertGroupParams : Type 0 where
  pub integration_id : String
  pub route_id : String
  pub escalation_chain_id : String
  pub dedupe_key : String
  pub title : String
  pub severity : String
  pub labels : Option (List (String × Scalar))
  pub notification_channels : List String
  pub emergency_alert : Bool
  pub timestamp : String
  pub trace_parent : String

new_extra : Fresh → NewAlertGroupParams → Row
new_extra f p =
    let base = put "integration_id" (str p.integration_id) (
      put "escalation_chain_id" (str p.escalation_chain_id) (
        put "notification_channels" (list p.notification_channels) (
          put "emergency_alert" (bool p.emergency_alert) (
            put "epic_sent_at" null (
              put "next_run_at" (str p.timestamp) (
                put "acknowledged_at" null
                  (put "resolved_at" null (put "episode_id" (str f.episode_id) empty_row)))))))) in
    if p.trace_parent == "" then base else put "trace_parent" (str p.trace_parent) base

or_empty {ℓ} : {A : Type ℓ} → Option (List A) → Option (List A)
or_empty none = some []
or_empty (some xs) = some xs

unfoldable pub new_alert_group : Fresh → NewAlertGroupParams → Group
unfolding new_extra or_empty
new_alert_group f p = record {
  id = f.group_id;
  route_id = p.route_id;
  dedupe_key = p.dedupe_key;
  status = status_open;
  title = p.title;
  severity = p.severity;
  created_at = p.timestamp;
  updated_at = p.timestamp;
  last_received_at = p.timestamp;
  alert_count = 0;
  current_step = 0;
  repeat_count = 0;
  labels = or_empty p.labels;
  alert_ids = some [];
  logs = some [];
  extra = new_extra f p;
}

-- `g.d.Extra[key] = v`.
abbrev pub put_extra : String → Value → Group → Group
put_extra key v g = record g { extra = put key v g.extra }

abbrev pub is_resolved : Group → Bool
is_resolved g = g.status == status_resolved

abbrev pub is_acknowledged : Group → Bool
is_acknowledged g = g.status == status_acknowledged

abbrev pub next_run_at : Group → String
next_run_at g = str_val g.extra "next_run_at"

abbrev pub notified_user_ids : Group → List String
notified_user_ids g = str_slice (g.extra "notified_user_ids")

unfoldable pub add_notified_user : String → Group → Group
add_notified_user user g =
    if user == ""
    then g
    else if contains user (notified_user_ids g)
    then g
    else put_extra "notified_user_ids" (list (notified_user_ids g ++ user ∷ [])) g

abbrev pub episode_id : Group → String
episode_id g = str_val g.extra "episode_id"

-- `EnsureEpisodeID`, with the id that it returns.
unfoldable pub ensure_episode_id : Fresh → Group → Group × String
ensure_episode_id f g =
    if episode_id g == ""
    then (put_extra "episode_id" (str f.episode_id) g, f.episode_id)
    else (g, episode_id g)

unfoldable pub start_episode : Fresh → Group → Group
start_episode f g = put_extra "episode_id" (str f.episode_id) g

abbrev pub escalation_pass : Group → ℕ
escalation_pass g = int_val g.extra "escalation_pass"

unfoldable pub restart_escalation : String → Group → Group
restart_escalation ts g = record g {
  current_step = 0;
  repeat_count = 0;
  extra = put "next_run_at" (str ts) (put "escalation_pass" (num (escalation_pass g + 1)) g.extra);
}

unfoldable pub escalation_key : Group → String
escalation_key g = concat (
    episode_id g
    ∷ ":"
    ∷ decimal (escalation_pass g)
    ∷ ":"
    ∷ decimal g.current_step
    ∷ ":"
    ∷ decimal g.repeat_count
    ∷ [])

abbrev pub set_next_run_at : String → Group → Group
set_next_run_at iso = put_extra "next_run_at" (str iso)

abbrev pub clear_next_run_at : Group → Group
clear_next_run_at = put_extra "next_run_at" null

-- The attribution that a log entry and a transition keep: the fields in key order.
unfoldable pub attribution : Actor → List (String × Scalar)
attribution a =
    ("id", text a.id)
    ∷ ("kind", text a.kind)
    ∷ ("name", text (describe a))
    ∷ ("role", text a.role)
    ∷ []

-- `logs[len(logs)-maxGroupLogs:]` where there are more.
unfoldable pub cap_logs : List LogEntry → List LogEntry
cap_logs es = if ltb max_group_logs (length es) then drop (length es - max_group_logs) es else es

unfoldable pub log_entry : Fresh → Actor → String → String → List (String × Scalar) → LogEntry
unfolding attribution
log_entry f actor kind message details = record {
  id = f.log_id;
  kind = kind;
  message = message;
  details = details;
  created_at = f.now;
  actor = attribution actor;
}

unfoldable pub append_log_by :
    Fresh → Actor → String → String → List (String × Scalar) → Group → Group
unfolding log_entry
append_log_by f actor kind message details g = record g {
  logs = some (cap_logs (list_or_nil g.logs ++ log_entry f actor kind message details ∷ []));
}

unfoldable pub append_log : Fresh → String → String → List (String × Scalar) → Group → Group
unfolding append_log_by
append_log f = append_log_by f system_actor

-- Nil for the system: an unattended transition has no one to attribute it to.
unfoldable pub actor_ref : Actor → Value
unfolding attribution
actor_ref a = if is_system a then null else obj (attribution a)

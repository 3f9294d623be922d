-- ===== src/Tests/Data.antt =====
-- Data for the runs: a way to write times as texts, an operator, and rows.
use Prim.Native.String.{String}
use nxs_anomaly.Base.{
  ℕ, zero, suc, ◌*◌, ◌/◌, ◌≡◌, refl, ap, Option, none, some, [], ◌∷◌, true, false,
}
use nxs_anomaly.Base.Time.{Instant, TimeText, second}
use nxs_anomaly.Base.Json.{empty_row, put, str, null}
use nxs_anomaly.Steps.{Directory, PolicyRuns}
use nxs_anomaly.Authz.{Actor}
use nxs_anomaly.Group.State.{Group, Fresh, NewAlertGroupParams}

abbrev marks : ℕ → String
marks zero = String.[]
marks (suc n) = String.◌∷◌ "i" (marks n)

abbrev marks_read : String → ℕ
marks_read String.[] = 0
marks_read (String.◌∷◌ c s) = suc (marks_read s)

pub marks_read-marks : (n : ℕ) → marks_read (marks n) ≡ n
marks_read-marks zero = refl
marks_read-marks (suc n) = ap suc (marks_read-marks n)

abbrev read : String → Option Instant
read String.[] = none
read (String.◌∷◌ c s) = some (marks_read s * second)

-- Times as texts: a sign, and one mark for each second.
abbrev pub tick_time : TimeText
tick_time = record {
  parse = read;
  to_iso = λ t. String.◌∷◌ "+" (marks (t / second));
  parse-to_iso = λ t. ap (λ n. some (n * second)) (marks_read-marks (t / second));
  parse_empty = refl;
}

abbrev pub fresh : Fresh
fresh = record { group_id = "grp_1"; log_id = "log_1"; episode_id = "ep_2"; now = "+ii" }

abbrev pub operator : Actor
operator = record {
  id = "usr_1";
  kind = "user";
  display_name = "Ann";
  role = "responder";
  team_ids = "team_a" ∷ [];
  team_scoped = true;
  provisioner = "";
}

abbrev pub params : NewAlertGroupParams
params = record {
  integration_id = "int_1";
  route_id = "route_1";
  escalation_chain_id = "chain_1";
  dedupe_key = "disk";
  title = "Disk full";
  severity = "critical";
  labels = none;
  notification_channels = [];
  emergency_alert = false;
  timestamp = "+i";
  trace_parent = "";
}

-- A group after its third repeat, resolved.
abbrev pub resolved_group : Group
resolved_group = record {
  id = "grp_1";
  route_id = "route_1";
  dedupe_key = "disk";
  status = "resolved";
  title = "Disk full";
  severity = "critical";
  created_at = "+i";
  updated_at = "+i";
  last_received_at = "+i";
  alert_count = 1;
  current_step = 2;
  repeat_count = 3;
  labels = none;
  alert_ids = some ("alr_1" ∷ []);
  logs = some [];
  extra =
      put "episode_id" (str "ep_1")
        (put "resolved_at" (str "+i") (put "next_run_at" null empty_row));
}

abbrev pub open_group : Group
open_group = record resolved_group {
  status = "open";
  extra =
      put "integration_id" (str "int_1")
        (put "episode_id" (str "ep_1") (put "next_run_at" (str "+i") empty_row));
}

abbrev pub quiet_policies : PolicyRuns
quiet_policies = record {
  begin = λ user policy g. g;
  begin_logs = λ user policy g. (g.logs, refl);
  begin_capped = λ user policy g c. c;
}

-- Nobody to page; a notice of a resolution goes out.
abbrev pub quiet_directory : Directory
quiet_directory = record {
  chains = λ id. none;
  users = λ id. none;
  user_ids = [];
  teams = λ id. none;
  integrations = λ id. none;
  on_call = λ schedule t. [];
  policies = quiet_policies;
  notify_on_resolve = true;
}

-- ===== src/Tests/Operators.antt =====
-- What an operator does to alert groups, on concrete data.
use nxs_anomaly.Base.{◌*◌, String, ◌≡◌, refl, ◌↔◌, List, [], ◌∷◌, none, some, ◌==◌, if◌then◌else◌}
use nxs_anomaly.Base.Time.{second}
use nxs_anomaly.Base.Json.{Row, str, str_val, empty_row, put}
use nxs_anomaly.Authz.{may_access_team}
use nxs_anomaly.Group.State.{Group, ok, status_acknowledged}
use nxs_anomaly.Scope.{Answer, answers, fails, item, Reads, authorize_group_action}
use nxs_anomaly.Escalation.{State, Request, acknowledge_group}
use nxs_anomaly.Escalation.Bulk.{
  Outcome, bulk_acknowledge_groups, bulk_silence_groups, bulk_resolve_groups,
}
use nxs_anomaly.Escalation.Bulk.Batches.{IsBatch}
use nxs_anomaly.Escalation.Bulk.Operations.{IsStatus, Rests, Pages, bulk_acknowledge_lem}
use nxs_anomaly.Escalation.Single.{
  IsDone, acknowledging, call, action_of, transition_of, operation-IsDone, operation_answers_iff,
}
use nxs_anomaly.Tests.Data.{quiet_directory, tick_time, fresh, operator, open_group, resolved_group}

abbrev ours : Row
ours = put "integration_id" (str "int_1") empty_row

abbrev theirs : Row
theirs = put "integration_id" (str "int_2") empty_row

abbrev lone : Row
lone = empty_row

abbrev owner : String → Row
owner team = put "team_id" (str team) empty_row

abbrev reads : Reads
reads collection id =
    if collection == "integrations"
    then item (some (owner (if id == "int_1" then "team_a" else "team_b")))
    else if id == "grp_1"
    then item (some ours)
    else if id == "grp_2"
    then item (some theirs)
    else if id == "grp_3"
    then item (some lone)
    else item none

abbrev request : Request
request = record {
  actor = operator;
  request_ip = "10.0.0.1";
  request_id = "req_1";
  trace_id = "";
  now = 2 * second;
  fresh = λ i. fresh;
  audit_stamp = λ i. ("aud_1", "+ii");
}

abbrev state : State
state = record {
  alert_groups = λ id.
      if id == "grp_1"
      then some open_group
      else if id == "grp_2"
      then some open_group
      else if id == "grp_3"
      then some resolved_group
      else none;
  audit_events = [];
}

abbrev batch : List String
batch = "grp_1" ∷ "grp_2" ∷ "grp_3" ∷ "grp_4" ∷ []

abbrev answered : Answer Outcome → Outcome
answered (answers o) = o
answered (fails e) = record {
  state = state;
  report = record { changed = []; not_found = []; skipped = [] };
  forbidden = [];
}

abbrev acknowledged : Outcome
acknowledged = answered (bulk_acknowledge_groups tick_time reads request batch state)

acknowledged_ids : acknowledged.report.changed ≡ "grp_1" ∷ []
unfolding bulk_acknowledge_groups str_val may_access_team
acknowledged_ids = refl

bulk_acknowledge_lem_example :
    IsBatch Pages (IsStatus status_acknowledged) Rests reads request batch state acknowledged
unfolding bulk_acknowledge_groups str_val may_access_team
bulk_acknowledge_lem_example =
    bulk_acknowledge_lem tick_time reads request batch state acknowledged refl

abbrev resolved : Outcome
resolved = answered (bulk_resolve_groups tick_time reads request quiet_directory batch state)

abbrev silenced : Outcome
silenced = answered (bulk_silence_groups tick_time reads request 5 batch state)

abbrev done_of : Answer (State × Group) → State × Group
done_of (answers r) = r
done_of (fails e) = (state, open_group)

abbrev done : State × Group
done = done_of (call tick_time quiet_directory reads request acknowledging "grp_1" state)

operation-IsDone_example :
    IsDone reads request
      (action_of acknowledging)
      "grp_1"
      (transition_of tick_time quiet_directory request acknowledging)
      state
      done
unfolding call acknowledge_group str_val may_access_team
operation-IsDone_example =
    operation-IsDone tick_time quiet_directory reads request acknowledging "grp_1" state done refl

operation_answers_iff_example :
    ((authorize_group_action reads operator "grp_1" ≡ none)
      × ((g : Group) × (h : Group) × (some open_group ≡ some g)
          × (transition_of tick_time quiet_directory request acknowledging g ≡ ok h)))
    ↔ ((r : State × Group) × (call tick_time quiet_directory reads request acknowledging "grp_1"
            state
          ≡ answers r))
operation_answers_iff_example =
    operation_answers_iff tick_time quiet_directory reads request acknowledging "grp_1" state

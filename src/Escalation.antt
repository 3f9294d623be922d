-- ===== src/Escalation.antt =====
-- internal/engine/escalation.go: what an operator does to alert groups, one or many, and the audit
-- events of internal/engine/audit.go that the same transaction writes. A state is what the
-- transaction commits; a mutator that fails commits nothing, so an answer that fails has no state.
-- Of the notice of a resolution the state has the group's half.
-- In the community edition (internal/engine/analytics_community.go) `emitGroupEvent` does nothing
-- and `withAnalyticsOutbox` adds nothing; `wakeWorker` only signals the worker, and the write that
-- `syncAlertStatusForGroups` makes after the commit touches the alerts, which are not in this state.
pub mod Single
pub mod Bulk
use nxs_anomaly.Base.{
  ℕ, ◌+◌, ◌*◌, String, Bool, true, ◌||◌, List, [], ◌∷◌, ◌++◌, Option, none, some, ltb, ◌==◌,
  if◌then◌else◌,
}
use nxs_anomaly.Base.Text.{concat}
use nxs_anomaly.Base.Time.{Instant, TimeText, minute}
use nxs_anomaly.Base.Durations.{signed, add}
use nxs_anomaly.Base.Json.{Scalar, text, number, flag}
use nxs_anomaly.Authz.{Actor, describe}
use nxs_anomaly.Group.State.{Error, Result, ok, err, Group, Fresh, is_resolved, is_acknowledged}
use nxs_anomaly.Steps.{Directory}
use nxs_anomaly.Steps.Paging.{notify_group_resolved}
use nxs_anomaly.Group.Transitions.{resolve, acknowledge, unresolve, unacknowledge, silence}
use nxs_anomaly.Scope.{
  EngineError, not_found, validation, empty_ids, Answer, answers, fails, Reads,
  authorize_group_action, partition_authorized_groups,
}

abbrev pub audit_acknowledge : String
audit_acknowledge = "alert_group.acknowledge"

abbrev pub audit_unacknowledge : String
audit_unacknowledge = "alert_group.unacknowledge"

abbrev pub audit_resolve : String
audit_resolve = "alert_group.resolve"

abbrev pub audit_unresolve : String
audit_unresolve = "alert_group.unresolve"

abbrev pub audit_silence : String
audit_silence = "alert_group.silence"

pub record AuditEvent : Type 0 where
  pub id : String
  pub occurred_at : String
  pub actor_id : String
  pub actor_kind : String
  pub actor_name : String
  pub actor_role : String
  pub action : String
  pub entity_type : String
  pub entity_id : String
  pub request_ip : String
  pub request_id : String
  pub trace_id : String
  pub details : List (String × Scalar)

-- The rows that these operations read and write, by id, and the audit trail.
pub record State : Type 0 where
  pub alert_groups : String → Option Group
  pub audit_events : List AuditEvent

-- What the context of a request carries, the time of the call, and what the call draws: for the
-- i-th group that it changes and for the i-th event that it writes.
pub record Request : Type 0 where
  pub actor : Actor
  pub request_ip : String
  pub request_id : String
  pub trace_id : String
  pub now : Instant
  pub fresh : ℕ → Fresh
  pub audit_stamp : ℕ → String × String

unfoldable pub build_audit_event :
    Request → ℕ → String → String → String → List (String × Scalar) → AuditEvent
build_audit_event q i action entity_type entity_id details = record {
  id = (q.audit_stamp i).0;
  occurred_at = (q.audit_stamp i).1;
  actor_id = q.actor.id;
  actor_kind = q.actor.kind;
  actor_name = describe q.actor;
  actor_role = q.actor.role;
  action = action;
  entity_type = entity_type;
  entity_id = entity_id;
  request_ip = q.request_ip;
  request_id = q.request_id;
  trace_id = q.trace_id;
  details = details;
}

unfoldable pub audit_in : Request → ℕ → String → String → List (String × Scalar) → State → State
unfolding build_audit_event
audit_in q i action id details s = record s {
  audit_events = s.audit_events ++ build_audit_event q i action "alert_group" id details ∷ [];
}

audit_each : Request → ℕ → String → List String → State → State
unfolding audit_in
audit_each q i action [] s = s
audit_each q i action (id ∷ ids) s =
    audit_each q (i + 1) action ids (audit_in q i action id (("bulk", flag true) ∷ []) s)

unfoldable pub audit_bulk_in : Request → String → List String → State → State
unfolding audit_each
audit_bulk_in q action ids s = audit_each q 0 action ids s

abbrev pub put_group : String → Group → (String → Option Group) → String → Option Group
put_group id g groups k = if id == k then some g else groups k

-- `getGroupOrError`.
unfoldable pub get_group_or_error : State → String → Answer Group
get_group_or_error s id = elim (s.alert_groups id) [
  | none ↦ fails (not_found id)
  | some g ↦ answers g
]

commit :
    Request
    → String
    → String
    → List (String × Scalar)
    → State
    → Result Group
    → Answer (State × Group)
unfolding audit_in
commit q action id details s (err e) = fails (validation e)
commit q action id details s (ok g) =
    answers (
      audit_in q 0 action id details (record s { alert_groups = put_group id g s.alert_groups }),
      g,
    )

change :
    Request
    → String
    → String
    → List (String × Scalar)
    → (Group → Result Group)
    → State
    → Answer Group
    → Answer (State × Group)
unfolding commit
change q action id details transition s (fails e) = fails e
change q action id details transition s (answers g) = commit q action id details s (transition g)

-- The shape of the operations on one group: the team boundary, then in one transaction the row, the
-- transition and the audit event.
operate :
    Reads
    → Request
    → String
    → String
    → List (String × Scalar)
    → (Group → Result Group)
    → State
    → Answer (State × Group)
unfolding change authorize_group_action get_group_or_error
operate reads q action id details transition s = elim (authorize_group_action reads q.actor id) [
  | some e ↦ fails e
  | none ↦ change q action id details transition s (get_group_or_error s id)
]

-- `silencedUntil`: empty for a silence without an end. The duration of a request is not negative here; the
-- source takes a negative one as none.
abbrev pub silenced_until : TimeText → Request → ℕ → String
silenced_until time q duration_minutes =
    if ltb 0 duration_minutes
    then time.to_iso (add q.now (signed (duration_minutes * minute)))
    else ""

module _ (time : TimeText) (reads : Reads) (q : Request) where
  unfoldable pub acknowledge_group : String → State → Answer (State × Group)
  unfolding operate acknowledge
  acknowledge_group id = operate reads q audit_acknowledge id [] (
      acknowledge (q.fresh 0) (time.to_iso q.now)
        (concat ("Alert group acknowledged by " ∷ describe q.actor ∷ [])) q.actor)

  -- `ResolveGroup`: resolving is allowed from every status, so the transition never fails. The users and
  -- integrations that it reads first are the directory; a failure to read them ends the call before the
  -- transaction, with nothing changed, and is not among the answers here.
  unfoldable pub resolve_group : Directory → String → State → Answer (State × Group)
  unfolding operate resolve notify_group_resolved
  resolve_group d id = operate reads q audit_resolve id [] (λ g. ok (
      notify_group_resolved d (q.fresh 1) (time.to_iso q.now) (
        resolve (q.fresh 0) (time.to_iso q.now) (concat ("Resolved by " ∷ describe q.actor ∷ []))
          q.actor g)))

  unfoldable pub unresolve_group : String → State → Answer (State × Group)
  unfolding operate unresolve
  unresolve_group id =
      operate reads q audit_unresolve id [] (unresolve (q.fresh 0) (time.to_iso q.now) q.actor)

  unfoldable pub unacknowledge_group : String → State → Answer (State × Group)
  unfolding operate unacknowledge
  unacknowledge_group id =
      operate reads q audit_unacknowledge id []
        (unacknowledge (q.fresh 0) (time.to_iso q.now) q.actor)

  unfoldable pub silence_group : ℕ → String → State → Answer (State × Group)
  unfolding operate silence
  silence_group duration_minutes id =
      operate reads q audit_silence id (("duration_minutes", number duration_minutes) ∷ []) (
        silence (q.fresh 0) (time.to_iso q.now) (silenced_until time q duration_minutes)
          (concat ("Alert group silenced by " ∷ describe q.actor ∷ [])) duration_minutes q.actor)

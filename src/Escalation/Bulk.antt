-- ===== src/Escalation/Bulk.antt =====
-- internal/engine/escalation.go: the bulk operations on alert groups. The loop over the ids is
-- written once here, with the body's three ways to end: the source writes it out in each operation.
pub mod Loop
pub mod Batches
pub mod Operations
use nxs_anomaly.Base.{
  ℕ, ◌+◌, ◌*◌, String, Bool, ◌||◌, List, [], ◌∷◌, Option, none, some, if◌then◌else◌,
}
use nxs_anomaly.Base.Text.{concat}
use nxs_anomaly.Base.Time.{TimeText}
use nxs_anomaly.Authz.{Actor, describe}
use nxs_anomaly.Group.State.{Result, ok, err, Group, Fresh, is_resolved, is_acknowledged}
use nxs_anomaly.Group.Transitions.{acknowledge, resolve, silence}
use nxs_anomaly.Steps.{Directory}
use nxs_anomaly.Steps.Paging.{notify_group_resolved}
use nxs_anomaly.Scope.{empty_ids, Answer, answers, fails, Reads, partition_authorized_groups}
use nxs_anomaly.Escalation.{
  State, Request, audit_acknowledge, audit_resolve, audit_silence, audit_bulk_in, put_group,
  silenced_until,
}

-- The three lists of the answer: `acknowledged`, `silenced` or `resolved` is `changed`,
-- and `already_resolved` is `skipped`.
pub record Report : Type 0 where
  pub changed : List String
  pub not_found : List String
  pub skipped : List String

-- What the body of the loop does with one group that is there: a new group, or nothing.
abbrev pub Body : Type 0
Body = ℕ → Group → Option Group

add_changed : String → Report → Report
add_changed id r = record r { changed = id ∷ r.changed }

add_not_found : String → Report → Report
add_not_found id r = record r { not_found = id ∷ r.not_found }

add_skipped : String → Report → Report
add_skipped id r = record r { skipped = id ∷ r.skipped }

abbrev pub Groups : Type 0
Groups = String → Option Group

-- The groups after one id.
after_body : String → Groups → Option Group → Groups
after_body id groups none = groups
after_body id groups (some g) = put_group id g groups

after_visit : Body → ℕ → String → Groups → Option Group → Groups
unfolding after_body
after_visit body i id groups none = groups
after_visit body i id groups (some g) = after_body id groups (body i g)

report_body : String → Option Group → Report → Report
unfolding add_changed add_skipped
report_body id none r = add_skipped id r
report_body id (some g) r = add_changed id r

report_visit : Body → ℕ → String → Option Group → Report → Report
unfolding add_not_found report_body
report_visit body i id none r = add_not_found id r
report_visit body i id (some g) r = report_body id (body i g) r

-- `for _, gid := range groupIDs`: the rows are shared, so a later id sees what an earlier one did.
unfoldable pub bulk_loop : Body → ℕ → List String → Groups → Report × Groups
unfolding after_visit report_visit
bulk_loop body i [] groups = (record { changed = []; not_found = []; skipped = [] }, groups)
bulk_loop body i (id ∷ ids) groups =
    let rest = bulk_loop body (i + 1) ids (after_visit body i id groups (groups id)) in
    (report_visit body i id (groups id) rest.0, rest.1)

-- The answer to a bulk operation.
pub record Outcome : Type 0 where
  pub state : State
  pub report : Report
  pub forbidden : List String

bulk_commit : Request → String → State → List String → Report × Groups → Outcome
unfolding audit_bulk_in
bulk_commit q action s forbidden (report, groups) = record {
  state = audit_bulk_in q action report.changed (record s { alert_groups = groups });
  report = report;
  forbidden = forbidden;
}

bulk_parts : Request → String → Body → State → Answer (List String × List String) → Answer Outcome
unfolding bulk_commit bulk_loop
bulk_parts q action body s (fails e) = fails e
bulk_parts q action body s (answers (allowed, forbidden)) =
    answers (bulk_commit q action s forbidden (bulk_loop body 0 allowed s.alert_groups))

pub bulk_operate : Reads → Request → String → Body → List String → State → Answer Outcome
unfolding bulk_parts partition_authorized_groups
bulk_operate reads q action body [] s = fails empty_ids
bulk_operate reads q action body (id ∷ ids) s =
    bulk_parts q action body s (partition_authorized_groups reads q.actor (id ∷ ids))

abbrev pub result_or_none : Result Group → Option Group
result_or_none (ok g) = some g
result_or_none (err e) = none

module _ (time : TimeText) (q : Request) where
  -- The body of `BulkAcknowledgeGroups`.
  unfoldable pub bulk_acknowledge_body : Body
  unfolding acknowledge
  bulk_acknowledge_body i g =
      if is_resolved g || is_acknowledged g
      then none
      else result_or_none (
          acknowledge (q.fresh i) (time.to_iso q.now)
            (concat ("Alert group acknowledged by " ∷ describe q.actor ∷ " (bulk)" ∷ [])) q.actor g)

  -- The body of `BulkResolveGroups`, with two draws for each group.
  unfoldable pub bulk_resolve_body : Directory → Body
  unfolding resolve notify_group_resolved
  bulk_resolve_body d i g =
      if is_resolved g
      then none
      else some (
          notify_group_resolved d (q.fresh (2 * i + 1)) (time.to_iso q.now) (
            resolve (q.fresh (2 * i)) (time.to_iso q.now)
              (concat ("Resolved by " ∷ describe q.actor ∷ " (bulk)" ∷ [])) q.actor g))

  -- The body of `BulkSilenceGroups`.
  unfoldable pub bulk_silence_body : ℕ → Body
  unfolding silence
  bulk_silence_body duration_minutes i g = result_or_none (
      silence (q.fresh i) (time.to_iso q.now) (silenced_until time q duration_minutes)
        (concat ("Alert group silenced by " ∷ describe q.actor ∷ " (bulk)" ∷ [])) duration_minutes
        q.actor g)

module _ (time : TimeText) (reads : Reads) (q : Request) where
  unfoldable pub bulk_acknowledge_groups : List String → State → Answer Outcome
  unfolding bulk_operate bulk_acknowledge_body
  bulk_acknowledge_groups = bulk_operate reads q audit_acknowledge (bulk_acknowledge_body time q)

  unfoldable pub bulk_silence_groups : ℕ → List String → State → Answer Outcome
  unfolding bulk_operate bulk_silence_body
  bulk_silence_groups duration_minutes =
      bulk_operate reads q audit_silence (bulk_silence_body time q duration_minutes)

  unfoldable pub bulk_resolve_groups : Directory → List String → State → Answer Outcome
  unfolding bulk_operate bulk_resolve_body
  bulk_resolve_groups d = bulk_operate reads q audit_resolve (bulk_resolve_body time q d)

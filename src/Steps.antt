-- ===== src/Steps.antt =====
-- internal/engine/steps.go: the walk of an open alert group along its escalation chain, as it changes
-- the group. Whom a step pages is read from the rows of the directory; of
-- internal/engine/notifications.go this is the group's half, the record of who was paged and the
-- log: the notifications that are queued beside it are not in this state.
pub mod Paging
pub mod Walk
use nxs_anomaly.Base.{
  ◌≤◌, length, list_or_nil, String, Bool, ◌≡◌, List, [], ◌∷◌, Option, none, some, ◌==◌,
  if◌then◌else◌,
}
use nxs_anomaly.Base.Time.{Instant, TimeText}
use nxs_anomaly.Base.Json.{
  Scalar, text, number, texts, flag, LogEntry, Value, str, num, bool, list, obj, Row,
}
use nxs_anomaly.Group.State.{Group, max_group_logs}

-- `startPolicyRun`, on the group: it may log that a step of the policy has no address, within the
-- cap of the log.
pub record PolicyRuns : Type 0 where
  pub begin : Row → String → Group → Group
  pub begin_logs :
      (user : Row) (policy : String) (g : Group)
      → (logs : Option (List LogEntry)) × (begin user policy g ≡ record g { logs = logs })
  pub begin_capped :
      (user : Row) (policy : String) (g : Group)
      → length (list_or_nil g.logs) ≤ max_group_logs
      → length (list_or_nil (begin user policy g).logs) ≤ max_group_logs

-- The rows that a walk reads, in the order that a range over the users gives, and the two components
-- that it asks: who is on call, and the personal policies.
pub record Directory : Type 0 where
  pub chains : String → Option (List (Option Row))
  pub users : String → Option Row
  pub user_ids : List String
  pub teams : String → Option Row
  pub integrations : String → Option Row
  pub on_call : String → Instant → List String
  pub policies : PolicyRuns
  pub notify_on_resolve : Bool

abbrev scalar_value : Scalar → Value
scalar_value (text s) = str s
scalar_value (number n) = num n
scalar_value (texts xs) = list xs
scalar_value (flag b) = bool b

-- A nested object as a row; anything else is a nil map.
abbrev fields_row : List (String × Scalar) → Row
fields_row [] k = none
fields_row ((j, v) ∷ rest) k = if j == k then some (scalar_value v) else fields_row rest k

unfoldable pub nested : Option Value → Option Row
nested (some (obj fields)) = some (fields_row fields)
nested _ = none

-- ===== src/Scope.antt =====
-- internal/engine/scope.go: the team boundary on objects that are addressed by id. What the store
-- answers to a read is an argument, since these reads stand outside the transaction that follows.
pub mod Boundary
use nxs_anomaly.Base.{
  String, Bool, not, ◌||◌, ◌&&◌, List, [], ◌∷◌, Option, none, some, ◌==◌, if◌then◌else◌,
}
use nxs_anomaly.Base.Json.{Row, str_val}
use nxs_anomaly.Authz.{Actor, may_access_team}
use nxs_anomaly.Group.State.{Error}

-- The errors of internal/engine/errors.go that these operations return, and a read that failed.
pub data EngineError : Type 0 where
  forbidden_team : (collection : String) → EngineError
  not_found : (group_id : String) → EngineError
  validation : Error → EngineError
  empty_ids : EngineError
  unavailable : EngineError

pub data Answer {ℓ} (A : Type ℓ) : Type ℓ where
  answers : A → Answer A
  fails : EngineError → Answer A

-- What `GetItem` returns: an error, or a row that may be nil.
pub data Lookup : Type 0 where
  broken : Lookup
  item : Option Row → Lookup

-- `GetItem`, of a collection and an id.
abbrev pub Reads : Type 0
Reads = String → String → Lookup

unfoldable pub team_owned : String → Bool
team_owned c =
    c == "integrations"
    || c == "schedules"
    || c == "chatops_channels"
    || c == "maintenance_windows"
    || c == "reports"

unfoldable pub integration_scoped : String → Bool
integration_scoped c = c == "alerts" || c == "alert_groups" || c == "notifications"

team_check : Actor → String → String → Option EngineError
team_check actor collection team_id =
    if may_access_team actor team_id then none else some (forbidden_team collection)

owner_check : Actor → String → Lookup → Option EngineError
unfolding team_check
owner_check actor collection broken = some unavailable
owner_check actor collection (item none) = none
owner_check actor collection (item (some integration)) =
    team_check actor collection (str_val integration "team_id")

-- `authorizeItem`, where no error is `none`.
unfoldable pub authorize_item : Reads → Actor → String → Option Row → Option EngineError
unfolding team_owned integration_scoped team_check owner_check
authorize_item reads actor collection none = none
authorize_item reads actor collection (some row) =
    if not actor.team_scoped
    then none
    else if collection == "reports"
    then (if str_val row "team_id" == "" || not (may_access_team actor (str_val row "team_id"))
        then some (forbidden_team collection)
        else none)
    else if collection == "notifications" && str_val row "reason" == "oncall_quality_report"
    then some (forbidden_team collection)
    else if team_owned collection
    then team_check actor collection (str_val row "team_id")
    else if integration_scoped collection
    then (if str_val row "integration_id" == ""
        then none
        else owner_check actor collection (reads "integrations" (str_val row "integration_id")))
    else none

authorize_group : Reads → Actor → Lookup → Option EngineError
unfolding authorize_item
authorize_group reads actor broken = some unavailable
authorize_group reads actor (item row) = authorize_item reads actor "alert_groups" row

unfoldable pub authorize_group_action : Reads → Actor → String → Option EngineError
unfolding authorize_group
authorize_group_action reads actor group_id =
    if not actor.team_scoped
    then none
    else authorize_group reads actor (reads "alert_groups" group_id)

allow_id : String → Answer (List String × List String) → Answer (List String × List String)
allow_id id (answers (allowed, forbidden)) = answers (id ∷ allowed, forbidden)
allow_id id (fails e) = fails e

forbid_id : String → Answer (List String × List String) → Answer (List String × List String)
forbid_id id (answers (allowed, forbidden)) = answers (allowed, id ∷ forbidden)
forbid_id id (fails e) = fails e

-- `isForbidden` on the error of one id, in front of the ids after it; any other error ends the loop.
place :
    String
    → Option EngineError
    → Answer (List String × List String)
    → Answer (List String × List String)
unfolding allow_id forbid_id
place id none rest = allow_id id rest
place id (some (forbidden_team c)) rest = forbid_id id rest
place id (some e) rest = fails e

unfoldable pub partition_ids : Reads → Actor → List String → Answer (List String × List String)
unfolding place authorize_group_action
partition_ids reads actor [] = answers ([], [])
partition_ids reads actor (id ∷ ids) =
    place id (authorize_group_action reads actor id) (partition_ids reads actor ids)

-- `partitionAuthorizedGroups`: the ids allowed, and the ids forbidden.
unfoldable pub partition_authorized_groups :
    Reads → Actor → List String → Answer (List String × List String)
unfolding partition_ids
partition_authorized_groups reads actor ids =
    if not actor.team_scoped then answers (ids, []) else partition_ids reads actor ids

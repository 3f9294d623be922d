-- ===== src/Authz.antt =====
-- internal/authz/authz.go: roles, actions, actors, and what an actor may do. Roles and actions are
-- texts, as in the source, so an unknown one is a value too.
pub mod Access
use nxs_anomaly.Base.{
  ℕ, String, Bool, true, false, not, ◌||◌, ◌≡◌, List, [], Option, none, some, leb, ltb, ◌==◌,
  if◌then◌else◌, contains,
}

abbrev pub Role : Type 0
Role = String

abbrev pub role_admin : Role
role_admin = "admin"

abbrev pub role_editor : Role
role_editor = "editor"

abbrev pub role_responder : Role
role_responder = "responder"

abbrev pub role_viewer : Role
role_viewer = "viewer"

abbrev pub role_none : Role
role_none = ""

-- The `rank` map: a role that is not in it has rank 0.
unfoldable pub rank : Role → ℕ
rank r =
    if r == role_viewer
    then 1
    else if r == role_responder
    then 2
    else if r == role_editor
    then 3
    else if r == role_admin
    then 4
    else 0

is_real : Role → Bool
is_real r = r == role_admin || r == role_editor || r == role_responder || r == role_viewer

unfoldable pub parse_role : String → Role
unfolding is_real
parse_role s = if is_real s then s else if s == "readonly" then role_viewer else role_none

-- `Role.Valid`.
unfoldable pub is_valid : Role → Bool
unfolding rank
is_valid r = ltb 0 (rank r)

abbrev pub Action : Type 0
Action = String

abbrev pub action_read : Action
action_read = "read"

abbrev pub action_respond : Action
action_respond = "respond"

abbrev pub action_edit : Action
action_edit = "edit"

abbrev pub action_admin : Action
action_admin = "admin"

-- The `minRole` map.
unfoldable pub min_role : Action → Option Role
min_role a =
    if a == action_read
    then some role_viewer
    else if a == action_respond
    then some role_responder
    else if a == action_edit
    then some role_editor
    else if a == action_admin
    then some role_admin
    else none

abbrev pub kind_user : String
kind_user = "user"

abbrev pub kind_service : String
kind_service = "service"

abbrev pub kind_system : String
kind_system = "system"

pub record Actor : Type 0 where
  pub id : String
  pub kind : String
  pub display_name : String
  pub role : Role
  pub team_ids : List String
  pub team_scoped : Bool
  pub provisioner : String

unfoldable pub may_access_team : Actor → String → Bool
may_access_team a team_id =
    if not a.team_scoped || team_id == "" then true else contains team_id a.team_ids

unfoldable pub system_actor : Actor
system_actor = record {
  id = "";
  kind = kind_system;
  display_name = "system";
  role = role_none;
  team_ids = [];
  team_scoped = false;
  provisioner = "";
}

permits : Role → Option Role → Bool
permits r none = false
permits r (some required) = leb (rank required) (rank r)

-- `Actor.Can`.
unfoldable pub can : Actor → Action → Bool
unfolding permits min_role rank
can a action = permits a.role (min_role action)

unfoldable pub is_system : Actor → Bool
is_system a = a.kind == kind_system

unfoldable pub describe : Actor → String
describe a =
    if a.display_name == "" then (if a.id == "" then "unknown" else a.id) else a.display_name

-- `FromContext`: the request's actor, or the system's where no request stands behind the work.
unfoldable pub from_context : Option Actor → Actor
unfolding system_actor
from_context none = system_actor
from_context (some a) = a

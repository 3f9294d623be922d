-- ===== src/Steps/Paging.antt =====
-- internal/engine/steps.go and notifications.go: whom a step pages, and what the group keeps of it.
pub mod Kept
pub mod Duty
use nxs_anomaly.Base.{
  ℕ, String, Bool, true, false, not, List, [], ◌∷◌, ◌++◌, Option, none, some, ◌==◌, if◌then◌else◌,
  length,
}
use nxs_anomaly.Base.Text.{concat, join, decimal}
use nxs_anomaly.Base.Json.{text, texts, Row, put, str, str_val, bool_val, str_slice}
use nxs_anomaly.Group.State.{
  Group, Fresh, add_notified_user, append_log, notified_user_ids, put_extra,
}
use nxs_anomaly.Steps.{PolicyRuns, Directory, nested}

abbrev pub no_users : List String → Bool
no_users [] = true
no_users (x ∷ xs) = false

-- The loop of `notifyUsersPolicy`: the group, the names of those paged, and the ids of nobody.
pub record Paged : Type 0 where
  pub group : Group
  pub notified : List String
  pub unknown : List String

page_one : Directory → String → String → Option Row → Paged → Paged
unfolding add_notified_user str_val
page_one d policy user_id none p = record p { unknown = p.unknown ++ user_id ∷ [] }
page_one d policy user_id (some user) p = record p {
  group = add_notified_user user_id (d.policies.begin user policy p.group);
  notified = p.notified ++ str_val user "username" ∷ [];
}

page_all : Directory → String → List String → Paged → Paged
unfolding page_one
page_all d policy [] p = p
page_all d policy (id ∷ ids) p = page_all d policy ids (page_one d policy id (d.users id) p)

log_notified : Fresh → String → Paged → Group
unfolding append_log
log_notified f reason p =
    if no_users p.notified
    then p.group
    else append_log f "notified" (concat ("Notified users: " ∷ join ", " p.notified ∷ []))
        (("reason", text reason) ∷ ("users", texts p.notified) ∷ []) p.group

log_unknown : Fresh → String → List String → Group → Group
unfolding append_log
log_unknown f reason unknown g =
    if no_users unknown
    then g
    else append_log f "notify_skipped_unknown_users"
        (concat ("Skipped " ∷ decimal (length unknown) ∷ " recipient(s) that no longer exist" ∷ []))
        (("reason", text reason) ∷ ("user_ids", texts unknown) ∷ []) g

-- `notifyUsersPolicy`, on the group.
unfoldable pub notify_users_policy :
    Directory → (ℕ → Fresh) → List String → String → String → Group → Group
unfolding page_all log_notified log_unknown
notify_users_policy d draw ids reason policy g =
    let paged = page_all d policy ids (record { group = g; notified = []; unknown = [] }) in
    log_unknown (draw 1) reason paged.unknown (log_notified (draw 0) reason paged)

unfoldable pub notify_users : Directory → (ℕ → Fresh) → List String → String → Group → Group
unfolding notify_users_policy
notify_users d draw ids reason = notify_users_policy d draw ids reason "default"

unfoldable pub normalize_policy_name : String → String
normalize_policy_name name = if name == "important" then "important" else "default"

-- The names that the ids of `recipients` have, of those that are there.
known_names : Directory → List String → List String
unfolding str_val
known_names d [] = []
known_names d (id ∷ ids) = elim (d.users id) [
  | none ↦ known_names d ids
  | some user ↦ str_val user "username" ∷ known_names d ids
]

log_resolve_notified : Fresh → List String → Group → Group
unfolding append_log
log_resolve_notified f notified g =
    if no_users notified
    then g
    else append_log f "resolve_notified"
        (concat ("Notified of resolution: " ∷ join ", " notified ∷ []))
        (("users", texts notified) ∷ []) g

-- `notifyGroupResolved`, on the group.
unfoldable pub notify_group_resolved : Directory → Fresh → String → Group → Group
unfolding log_resolve_notified known_names str_val
notify_group_resolved d f ts g =
    if not d.notify_on_resolve
    then g
    else if not (str_val g.extra "resolve_notified_at" == "")
    then g
    else if no_users (notified_user_ids g)
    then g
    else log_resolve_notified f (known_names d (notified_user_ids g))
        (put_extra "resolve_notified_at" (str ts) g)

unfoldable pub member_ids : Option Row → List String
unfolding str_slice
member_ids none = []
member_ids (some team) = str_slice (team "member_ids")

-- The users of the ids that are there and on duty, as rows.
unfoldable pub on_duty : Directory → List String → List Row
unfolding bool_val
on_duty d [] = []
on_duty d (id ∷ ids) = elim (d.users id) [
  | none ↦ on_duty d ids
  | some user ↦ if bool_val user "on_duty" false then user ∷ on_duty d ids else on_duty d ids
]

unfoldable pub priority_of : Row → String
unfolding str_val
priority_of user = if str_val user "priority" == "" then "medium" else str_val user "priority"

-- The ids of those of a priority.
unfoldable pub tier : String → List Row → List String
unfolding priority_of
tier priority [] = []
tier priority (user ∷ users) =
    if priority_of user == priority
    then str_val user "id" ∷ tier priority users
    else tier priority users

all_ids : List Row → List String
all_ids [] = []
all_ids (user ∷ users) = str_val user "id" ∷ all_ids users

first_tier : List String → List Row → List String
unfolding tier all_ids
first_tier [] users = all_ids users
first_tier (p ∷ ps) users = if no_users (tier p users) then first_tier ps users else tier p users

elected : List String → Bool → List Row → List String
unfolding first_tier
elected candidates fallback [] = if fallback then candidates else []
elected candidates fallback (u ∷ users) = first_tier ("high" ∷ "medium" ∷ "low" ∷ []) (u ∷ users)

unfoldable pub candidate_ids : Directory → Row → List String
unfolding member_ids str_val
candidate_ids d step =
    if str_val step "team_id" == ""
    then d.user_ids
    else member_ids (d.teams (str_val step "team_id"))

-- `electDutyUsers`.
unfoldable pub elect_duty_users : Directory → Row → List String
unfolding elected on_duty candidate_ids bool_val
elect_duty_users d step =
    elected (candidate_ids d step) (bool_val step "fallback_to_all" true)
      (on_duty d (candidate_ids d step))

abbrev or_empty_row : Option Row → Row
or_empty_row none k = none
or_empty_row (some r) k = r k

abbrev integration_row : Directory → Group → Row
integration_row d g = or_empty_row (d.integrations (str_val g.extra "integration_id"))

-- `emergencyUserIDs`.
unfoldable pub emergency_user_ids : Directory → Group → String → List String
unfolding nested str_val
emergency_user_ids d g explicit =
    let policy = or_empty_row (nested (integration_row d g "notification_policy")) in
    let legacy = or_empty_row (nested (integration_row d g "legacy_pool")) in
    if not (explicit == "")
    then explicit ∷ []
    else if not (str_val policy "emergency_user_id" == "")
    then str_val policy "emergency_user_id" ∷ []
    else if not (str_val policy "epic_user_id" == "")
    then str_val policy "epic_user_id" ∷ []
    else if not (str_val legacy "emergency_user_id" == "")
    then str_val legacy "emergency_user_id" ∷ []
    else []

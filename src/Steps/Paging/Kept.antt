-- ===== src/Steps/Paging/Kept.antt =====
-- Paging touches the log of a group, and the lists of whom it told, and nothing else of its course.
use nxs_anomaly.Group.Logs.{log_of, length-cap_logs}
use nxs_anomaly.Base.{
  ℕ, length, ◌≤◌, String, not, ◌≡◌, refl, ◌∙◌, List, [], ◌∷◌, Option, none, some, ◌==◌, if_cases,
  contains,
}
use nxs_anomaly.Base.Json.{Row, str, str_val}
use nxs_anomaly.Group.State.{
  Group, Fresh, max_group_logs, add_notified_user, append_log, notified_user_ids, put_extra,
}
use nxs_anomaly.Steps.{Directory, PolicyRuns}
use nxs_anomaly.Steps.Paging.{
  Paged, page_one, page_all, log_notified, log_unknown, notify_users_policy, no_users,
  log_resolve_notified, known_names, notify_group_resolved,
}

-- Where the group stands is the same: its status, its repeats, its step, when it is due and when it
-- was resolved; and its log stays within the cap.
pub record Kept (g h : Group) : Type 0 where
  pub status : h.status ≡ g.status
  pub repeats : h.repeat_count ≡ g.repeat_count
  pub step : h.current_step ≡ g.current_step
  pub due : h.extra "next_run_at" ≡ g.extra "next_run_at"
  pub resolved : h.extra "resolved_at" ≡ g.extra "resolved_at"
  pub capped : length (log_of g) ≤ max_group_logs → length (log_of h) ≤ max_group_logs

pub Kept-refl : (g : Group) → Kept g g
Kept-refl g = record {
  status = refl;
  repeats = refl;
  step = refl;
  due = refl;
  resolved = refl;
  capped = λ c. c;
}

pub Kept-trans : {g h k : Group} → Kept g h → Kept h k → Kept g k
Kept-trans a b = record {
  status = b.status ∙ a.status;
  repeats = b.repeats ∙ a.repeats;
  step = b.step ∙ a.step;
  due = b.due ∙ a.due;
  resolved = b.resolved ∙ a.resolved;
  capped = λ c. b.capped (a.capped c);
}

add_notified_user-Kept : (user : String) (g : Group) → Kept g (add_notified_user user g)
unfolding add_notified_user
add_notified_user-Kept user g =
    if_cases (Kept g) (user == "") (λ _. Kept-refl g)
      λ _.
        if_cases (Kept g) (contains user (notified_user_ids g)) (λ _. Kept-refl g)
          (λ _. record {
            status = refl;
            repeats = refl;
            step = refl;
            due = refl;
            resolved = refl;
            capped = λ c. c;
          })

begin-Kept :
    (p : PolicyRuns) (user : Row) (policy : String) (g : Group) → Kept g (p.begin user policy g)
begin-Kept p user policy g =
    let (logs, e) = p.begin_logs user policy g in
    rw e (record {
      status = refl;
      repeats = refl;
      step = refl;
      due = refl;
      resolved = refl;
      capped = λ c. rw e at (p.begin_capped user policy g c);
    })

page_one-Kept :
    (d : Directory) (policy id : String) (user : Option Row) (p : Paged)
    → Kept p.group (page_one d policy id user p).group
unfolding page_one
page_one-Kept d policy id none p = Kept-refl p.group
page_one-Kept d policy id (some user) p =
    Kept-trans (begin-Kept d.policies user policy p.group) (add_notified_user-Kept id _)

page_all-Kept :
    (d : Directory) (policy : String) (ids : List String) (p : Paged)
    → Kept p.group (page_all d policy ids p).group
unfolding page_all
page_all-Kept d policy [] p = Kept-refl p.group
page_all-Kept d policy (id ∷ ids) p =
    Kept-trans (page_one-Kept d policy id (d.users id) p) (page_all-Kept d policy ids _)

pub append_log-Kept :
    (f : Fresh) (kind message : String) (details : _) (g : Group)
    → Kept g (append_log f kind message details g)
unfolding append_log
append_log-Kept f kind message details g = record {
  status = refl;
  repeats = refl;
  step = refl;
  due = refl;
  resolved = refl;
  capped = λ c. length-cap_logs _;
}

pub notify_users_policy-Kept :
    (d : Directory) (draw : ℕ → Fresh) (ids : List String) (reason policy : String) (g : Group)
    → Kept g (notify_users_policy d draw ids reason policy g)
unfolding notify_users_policy log_notified log_unknown
notify_users_policy-Kept d draw ids reason policy g =
    let paged : Paged = page_all d policy ids (record { group = g; notified = []; unknown = [] }) in
    Kept-trans (page_all-Kept d policy ids (record { group = g; notified = []; unknown = [] })) (
      Kept-trans
        (if_cases (Kept paged.group) (no_users paged.notified) (λ _. Kept-refl paged.group)
          (λ _. append_log-Kept (draw 0) _ _ _ paged.group))
        (if_cases (Kept (log_notified (draw 0) reason paged)) (no_users paged.unknown)
          (λ _. Kept-refl _) (λ _. append_log-Kept (draw 1) _ _ _ _)))

log_resolve_notified-Kept :
    (f : Fresh) (names : List String) (g : Group) → Kept g (log_resolve_notified f names g)
unfolding log_resolve_notified
log_resolve_notified-Kept f names g =
    if_cases (Kept g) (no_users names) (λ _. Kept-refl g) (λ _. append_log-Kept f _ _ _ g)

pub notify_group_resolved-Kept :
    (d : Directory) (f : Fresh) (ts : String) (g : Group) → Kept g (notify_group_resolved d f ts g)
unfolding notify_group_resolved
notify_group_resolved-Kept d f ts g =
    let marked : Group = put_extra "resolve_notified_at" (str ts) g in
    let told : Kept g (log_resolve_notified f (known_names d (notified_user_ids g)) marked) =
      Kept-trans
        (record {
          status = refl;
          repeats = refl;
          step = refl;
          due = refl;
          resolved = refl;
          capped = λ c. c;
        })
        (log_resolve_notified-Kept f (known_names d (notified_user_ids g)) marked) in
    if_cases (Kept g) (not d.notify_on_resolve) (λ _. Kept-refl g)
      λ _.
        if_cases (Kept g) (not (str_val g.extra "resolve_notified_at" == "")) (λ _. Kept-refl g)
          λ _. if_cases (Kept g) (no_users (notified_user_ids g)) (λ _. Kept-refl g) (λ _. told)

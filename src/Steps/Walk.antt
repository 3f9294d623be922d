-- ===== src/Steps/Walk.antt =====
-- internal/engine/steps.go: the walk along the chain, and internal/engine/worker.go: the worker's turn
-- on one group. The walk follows the list of the steps that are left, so it ends.
pub mod Course
pub mod Advance
pub mod Safe
use nxs_anomaly.Base.{
  ℕ, suc, ◌+◌, ◌*◌, String, Bool, true, not, List, [], ◌∷◌, Option, none, some, false, ltb, leb,
  ◌==◌, if◌then◌else◌, length, drop, map,
}
use nxs_anomaly.Base.Text.{concat, decimal}
use nxs_anomaly.Base.Time.{Instant, TimeText, minute}
use nxs_anomaly.Base.Durations.{signed, add}
use nxs_anomaly.Base.Json.{Scalar, text, texts, Value, obj, Row, str_val, int_val, str_slice}
use nxs_anomaly.Authz.{system_actor}
use nxs_anomaly.Group.State.{
  Group, Fresh, status_open, next_run_at, set_next_run_at, clear_next_run_at, append_log,
}
use nxs_anomaly.Group.Transitions.{resolve, silence_expired, end_silence}
use nxs_anomaly.Steps.{Directory}
use nxs_anomaly.Steps.Paging.{
  no_users, notify_users, notify_users_policy, normalize_policy_name, notify_group_resolved,
  elect_duty_users, emergency_user_ids, member_ids,
}

-- What a step draws, by its position in the chain and by the place of the draw in the step.
abbrev pub Draws : Type 0
Draws = ℕ → ℕ → Fresh

-- What a turn of the loop ends with: the walk stops here, or goes on to the next step.
pub data Turn : Type 0 where
  stops : Group → Turn
  goes_on : Group → Turn

-- `mustParseTime`: now, where the text cannot be read.
unfoldable pub must_parse_time : TimeText → Instant → String → Instant
must_parse_time time now s = elim (time.parse s) [ none ↦ now | some t ↦ t ]

header_names : Option Value → List String
header_names (some (obj fields)) = map (λ (p : String × Scalar). p.0) fields
header_names _ = []

-- The log data of `triggerWebhook`, in key order.
webhook_data : (notification_id : String) → String → List String → List (String × Scalar)
webhook_data id url [] =
    ("delivery_status", text "delivery_scheduled")
    ∷ ("notification_id", text id)
    ∷ ("webhook_url", text url)
    ∷ []
webhook_data id url (h ∷ hs) =
    ("delivery_status", text "delivery_scheduled")
    ∷ ("headers", texts (h ∷ hs))
    ∷ ("notification_id", text id)
    ∷ ("webhook_url", text url)
    ∷ []

unfoldable pub max_int : ℕ → ℕ → ℕ
max_int a b = if ltb b a then a else b

module _ (time : TimeText) (d : Directory) (draw : Draws) (now : Instant) (ts : String) where
  -- Pages those named, or logs that there is nobody.
  page_or_log : ℕ → List String → String → String → String → Group → Group
  unfolding notify_users append_log
  page_or_log i ids reason kind message g =
      if no_users ids
      then append_log (draw i 0) kind message [] g
      else notify_users d (draw i) ids reason g

  pub wait_step : ℕ → Row → Group → Turn
  unfolding append_log must_parse_time int_val str_val
  wait_step i step g =
      let due =
        add (must_parse_time time now ts) (signed (int_val step "delay_minutes" * minute)) in
      let waiting = record (set_next_run_at (time.to_iso due) g) { current_step = i + 1 } in
      stops (
        append_log (draw i 0) "wait_scheduled" "Scheduled next escalation step after wait window"
          (("next_run_at", text (next_run_at waiting)) ∷ []) waiting)

  pub resolve_step : ℕ → Group → Turn
  unfolding resolve notify_group_resolved system_actor
  resolve_step i g = stops (
      notify_group_resolved d (draw i 1) ts
        (resolve (draw i 0) ts "Resolved by escalation policy" system_actor g))

  pub repeat_step : ℕ → Row → Group → Turn
  unfolding append_log must_parse_time int_val max_int
  repeat_step i step g =
      let max_repeats = max_int (int_val step "max_repeat_count") 1 in
      let from_position = int_val step "from_position" in
      let due =
        add (must_parse_time time now ts) (signed (int_val step "cooldown_minutes" * minute)) in
      if ltb max_repeats (g.repeat_count + 1)
      then stops (
          clear_next_run_at (
            append_log (draw i 0) "escalation_repeat_exhausted"
              (concat ("REPEAT exhausted after " ∷ decimal max_repeats ∷ " repetitions" ∷ [])) []
              g))
      else stops (
          append_log (draw i 0) "escalation_repeat"
            (concat (
              "Repeating escalation from step "
              ∷ decimal from_position
              ∷ " (#"
              ∷ decimal (g.repeat_count + 1)
              ∷ "/"
              ∷ decimal max_repeats
              ∷ ")"
              ∷ []))
            []
            (record (set_next_run_at (time.to_iso due)
              (record g { repeat_count = g.repeat_count + 1 })) { current_step = from_position }))

  -- The steps that page, call or do nothing: the walk goes on after them.
  pub other_step : ℕ → String → Row → Group → Group
  unfolding page_or_log notify_users_policy normalize_policy_name elect_duty_users
      emergency_user_ids member_ids str_val str_slice append_log webhook_data header_names
  other_step i kind step g =
      if kind == "NOTIFY_USER"
      then notify_users_policy d (draw i) (str_slice (step "user_ids")) "direct user notification"
          (normalize_policy_name (str_val step "notify_policy")) g
      else if kind == "NOTIFY_SCHEDULE"
      then page_or_log i (d.on_call (str_val step "schedule_id") (must_parse_time time now ts))
          "on-call schedule notification" "schedule_gap"
          "No active user found in current schedule window" g
      else if kind == "NOTIFY_TEAM"
      then page_or_log i (member_ids (d.teams (str_val step "team_id")))
          "team escalation notification" "team_empty" "Team escalation step has no members" g
      else if kind == "NOTIFY_EMERGENCY"
      then page_or_log i (emergency_user_ids d g (str_val step "user_id"))
          "emergency escalation notification" "emergency_missing"
          "Emergency escalation step has no configured user" g
      else if kind == "NOTIFY_DUTY_USERS"
      then page_or_log i (elect_duty_users d step) "duty user notification" "no_duty_users"
          "No on-duty users available for this escalation step" g
      else if kind == "TRIGGER_WEBHOOK"
      then append_log (draw i 0) "webhook" "Triggered escalation webhook"
          (webhook_data (draw i 1).log_id (str_val step "webhook_url")
            (header_names (step "headers")))
          g
      else if kind == "CREATE_ISSUE"
      then append_log (draw i 0) "create_issue_scheduled"
          (concat (
            "Issue creation via "
            ∷ (if str_val step "tracker_type" == "" then "redmine" else str_val step "tracker_type")
            ∷ " scheduled"
            ∷ []))
          (("url", text (str_val step "url")) ∷ []) g
      else g

  pub take_step : ℕ → String → Row → Group → Turn
  unfolding wait_step resolve_step repeat_step other_step
  take_step i kind step g =
      if kind == "WAIT"
      then wait_step i step g
      else if kind == "RESOLVE"
      then resolve_step i g
      else if kind == "REPEAT"
      then repeat_step i step g
      else goes_on (other_step i kind step g)

  -- After the loop.
  pub finish : ℕ → Group → Group
  unfolding append_log
  finish i g =
      if g.status == status_open
      then clear_next_run_at
          (append_log (draw i 0) "escalation_complete" "Escalation chain completed" [] g)
      else g

  next_turn : ℕ → (Group → Group) → Turn → Group
  next_turn i rest (stops g) = g
  next_turn i rest (goes_on g) = rest (clear_next_run_at (record g { current_step = i + 1 }))

  pub walk : ℕ → List (Option Row) → Group → Group
  unfolding finish take_step next_turn str_val
  walk i [] g = finish i g
  walk i (none ∷ steps) g = walk (i + 1) steps g
  walk i (some step ∷ steps) g =
      let rest = walk (i + 1) steps in
      if g.status == status_open
      then next_turn i rest (take_step i (str_val step "kind") step (record g { updated_at = ts }))
      else finish i g

  on_chain : Option (List (Option Row)) → Group → Group
  unfolding walk append_log
  on_chain none g =
      clear_next_run_at (append_log (draw 0 0) "missing_chain" "Escalation chain not found" [] g)
  on_chain (some steps) g = walk g.current_step (drop g.current_step steps) g

  -- `advanceGroupLocked`.
  unfoldable pub advance_group_locked : Group → Group
  unfolding on_chain str_val
  advance_group_locked g =
      if g.status == status_open
      then on_chain (d.chains (str_val g.extra "escalation_chain_id")) g
      else g

  is_due : Option Instant → Bool
  is_due none = false
  is_due (some due) = leb due now

  resume : Fresh → Group → Group × Bool
  unfolding is_due advance_group_locked append_log
  resume f g =
      if not (g.status == status_open)
      then (g, false)
      else if next_run_at g == ""
      then (g, false)
      else if not (is_due (time.parse (next_run_at g)))
      then (g, false)
      else (
        advance_group_locked (
            clear_next_run_at
              (append_log f "escalation_resumed" "Resuming escalation after wait window" [] g)),
        true,
      )

  -- The body of `advanceEscalationShard` for one group, with its report of whether the group was
  -- advanced.
  unfoldable pub advance_due_group : Fresh → Fresh → Group → Group × Bool
  unfolding resume silence_expired end_silence str_val
  advance_due_group f f' g =
      resume f' (if silence_expired time now g then end_silence f ts g else g)

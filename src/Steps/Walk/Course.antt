-- ===== src/Steps/Walk/Course.antt =====
-- Where an advance along the chain leaves a group.
use nxs_anomaly.Base.{
  ℕ, ◌+◌, ◌*◌, ◌≤◌, ◌<◌, String, true, ◌≡◌, refl, sym, ◌∙◌, ap, List, [], ◌∷◌, Option, none, some,
  arith, ltb, ◌==◌, if_cases, eq→==, ==→eq, false≢true, length,
}
use nxs_anomaly.Base.Json.{Scalar, Row, null, str, str_val, int_val, str_slice}
use nxs_anomaly.Base.Time.{Instant, TimeText, minute}
use nxs_anomaly.Base.Durations.{signed, add}
use nxs_anomaly.Group.State.{Group, status_open, status_resolved, append_log, clear_next_run_at}
use nxs_anomaly.Group.Transitions.{resolve}
use nxs_anomaly.Authz.{system_actor}
use nxs_anomaly.Steps.{Directory}
use nxs_anomaly.Steps.Paging.{
  no_users, notify_users, normalize_policy_name, member_ids, emergency_user_ids, elect_duty_users,
}
use nxs_anomaly.Steps.Paging.Kept.{
  Kept, Kept-refl, append_log-Kept, notify_users_policy-Kept, notify_group_resolved-Kept,
}
use nxs_anomaly.Steps.Walk.{
  Draws, Turn, goes_on, must_parse_time, max_int, page_or_log, wait_step, resolve_step, repeat_step,
  other_step, take_step, finish, next_turn, walk,
}

-- Every REPEAT step of a chain allows at most so many repeats.
abbrev pub Limited : ℕ → List (Option Row) → Type 0
Limited limit [] = Unit {0}
Limited limit (none ∷ steps) = Limited limit steps
Limited limit (some step ∷ steps) =
    (str_val step "kind" ≡ "REPEAT" → max_int (int_val step "max_repeat_count") 1 ≤ limit)
    × Limited limit steps

-- Every delay of a chain that is walked at `at` ends at `lo` or after it.
abbrev pub EndsAfter : (lo at : Instant) → List (Option Row) → Type 0
EndsAfter lo at [] = Unit {0}
EndsAfter lo at (none ∷ steps) = EndsAfter lo at steps
EndsAfter lo at (some step ∷ steps) =
    (lo ≤ add at (signed (int_val step "delay_minutes" * minute)))
    × (lo ≤ add at (signed (int_val step "cooldown_minutes" * minute)))
    × EndsAfter lo at steps

-- A group that waits for its next step, due at `at` or after it.
pub record IsScheduled (time : TimeText) (at : Instant) (h : Group) : Type 0 where
  pub stays_open : h.status ≡ status_open
  pub due : (t : Instant) × (at ≤ t) × (h.extra "next_run_at" ≡ some (str (time.to_iso t)))

-- How an advance ends, for a group that had `repeats` repeats and stood at `from`, on a chain of
-- `steps` steps.
pub data Ends (time : TimeText) (at : Instant) (limit steps repeats from : ℕ) (h : Group)
    : Type 0 where
  waits :
      IsScheduled time at h
      → (h.repeat_count ≡ repeats)
      → (from < h.current_step)
      → (h.current_step ≤ steps)
      → Ends time at limit steps repeats from h
  repeats_again :
      IsScheduled time at h
      → (h.repeat_count ≡ repeats + 1)
      → (h.repeat_count ≤ limit)
      → Ends time at limit steps repeats from h
  completes :
      (h.status ≡ status_open)
      → (h.extra "next_run_at" ≡ some null)
      → Ends time at limit steps repeats from h
  resolves :
      (h.status ≡ status_resolved)
      → (h.extra "next_run_at" ≡ some null)
      → Ends time at limit steps repeats from h

module _ (time : TimeText) (d : Directory) (draw : Draws) (now : Instant) (ts : String) where
  page_or_log-Kept :
      (i : ℕ) (ids : List String) (reason kind message : String) (g : Group)
      → Kept g (page_or_log time d draw now ts i ids reason kind message g)
  unfolding page_or_log notify_users
  page_or_log-Kept i ids reason kind message g =
      if_cases (Kept g) (no_users ids) (λ _. append_log-Kept (draw i 0) _ _ _ g)
        (λ _. notify_users_policy-Kept d (draw i) ids reason "default" g)

  pub other_step-Kept :
      (i : ℕ) (kind : String) (step : Row) (g : Group)
      → Kept g (other_step time d draw now ts i kind step g)
  unfolding other_step
  other_step-Kept i kind step g =
      let logged = λ (what message : String) (details : List (String × Scalar)).
        append_log-Kept (draw i 0) what message details g in
      let paged = λ (ids : List String) (reason what message : String).
        page_or_log-Kept i ids reason what message g in
      if_cases (Kept g) (kind == "NOTIFY_USER")
        (λ _.
          notify_users_policy-Kept d (draw i) (str_slice (step "user_ids"))
            "direct user notification" (normalize_policy_name (str_val step "notify_policy")) g)
        λ _.
          if_cases (Kept g) (kind == "NOTIFY_SCHEDULE")
            (λ _.
              paged (d.on_call (str_val step "schedule_id") (must_parse_time time now ts))
                "on-call schedule notification" "schedule_gap"
                "No active user found in current schedule window")
            λ _.
              if_cases (Kept g) (kind == "NOTIFY_TEAM")
                (λ _.
                  paged (member_ids (d.teams (str_val step "team_id")))
                    "team escalation notification" "team_empty"
                    "Team escalation step has no members")
                λ _.
                  if_cases (Kept g) (kind == "NOTIFY_EMERGENCY")
                    (λ _.
                      paged (emergency_user_ids d g (str_val step "user_id"))
                        "emergency escalation notification" "emergency_missing"
                        "Emergency escalation step has no configured user")
                    λ _.
                      if_cases (Kept g) (kind == "NOTIFY_DUTY_USERS")
                        (λ _.
                          paged (elect_duty_users d step) "duty user notification" "no_duty_users"
                            "No on-duty users available for this escalation step")
                        λ _.
                          if_cases (Kept g) (kind == "TRIGGER_WEBHOOK") (λ _. logged _ _ _)
                            λ _.
                              if_cases (Kept g) (kind == "CREATE_ISSUE") (λ _. logged _ _ _)
                                (λ _. Kept-refl g)

  -- When the walk happens.
  abbrev pub at : Instant
  at = must_parse_time time now ts

  pub open_group : (g : Group) → g.status ≡ status_open → (g.status == status_open) ≡ true
  open_group g o = eq→== g.status status_open o

  pub finish-Ends :
      (lo : Instant) (limit steps repeats from i : ℕ) (g : Group)
      → g.status ≡ status_open
      → Ends time lo limit steps repeats from (finish time d draw now ts i g)
  unfolding finish append_log
  finish-Ends lo limit steps repeats from i g o =
      if_cases (Ends time lo limit steps repeats from) (g.status == status_open)
        (λ _. completes o refl) (λ miss. absurd (false≢true (sym miss ∙ open_group g o)))

  wait_step-Ends :
      (lo : Instant) (limit steps repeats from i : ℕ) (step : Row) (g : Group)
      (rest : Group → Group)
      → g.status ≡ status_open
      → g.repeat_count ≡ repeats
      → from ≤ i
      → i < steps
      → lo ≤ add at (signed (int_val step "delay_minutes" * minute))
      → Ends time lo limit steps repeats from
          (next_turn time d draw now ts i rest (wait_step time d draw now ts i step g))
  unfolding next_turn wait_step append_log
  wait_step-Ends lo limit steps repeats from i step g rest o r f s later =
      waits (record { stays_open = o; due = (_, later, refl) }) r (omega arith) (omega arith)

  resolve_step-Ends :
      (lo : Instant) (limit steps repeats from i : ℕ) (g : Group) (rest : Group → Group)
      → Ends time lo limit steps repeats from
          (next_turn time d draw now ts i rest (resolve_step time d draw now ts i g))
  unfolding next_turn resolve_step resolve
  resolve_step-Ends lo limit steps repeats from i g rest =
      let told =
        notify_group_resolved-Kept d (draw i 1) ts
          (resolve (draw i 0) ts "Resolved by escalation policy" system_actor g) in
      resolves told.status told.due

  repeat_step-Ends :
      (lo : Instant) (limit steps repeats from i : ℕ) (step : Row) (g : Group)
      (rest : Group → Group)
      → g.status ≡ status_open
      → g.repeat_count ≡ repeats
      → max_int (int_val step "max_repeat_count") 1 ≤ limit
      → lo ≤ add at (signed (int_val step "cooldown_minutes" * minute))
      → Ends time lo limit steps repeats from
          (next_turn time d draw now ts i rest (repeat_step time d draw now ts i step g))
  unfolding next_turn repeat_step append_log
  repeat_step-Ends lo limit steps repeats from i step g rest o r l later =
      if_cases (λ t. Ends time lo limit steps repeats from (next_turn time d draw now ts i rest t))
        (ltb (max_int (int_val step "max_repeat_count") 1) (g.repeat_count + 1))
        (λ _. completes o refl)
        (λ more.
          repeats_again (record { stays_open = o; due = (_, later, refl) }) (ap (λ k. k + 1) r)
            (ground (arith, more, l)))

  pub take_step_cases :
      (P : Turn → Type 0) (i : ℕ) (kind : String) (step : Row) (g : Group)
      → P (wait_step time d draw now ts i step g)
      → P (resolve_step time d draw now ts i g)
      → (kind ≡ "REPEAT" → P (repeat_step time d draw now ts i step g))
      → P (goes_on (other_step time d draw now ts i kind step g))
      → P (take_step time d draw now ts i kind step g)
  unfolding take_step
  take_step_cases P i kind step g waiting closing again onward =
      if_cases P (kind == "WAIT") (λ _. waiting)
        λ _.
          if_cases P (kind == "RESOLVE") (λ _. closing)
            λ _. if_cases P (kind == "REPEAT") (λ e. again (==→eq kind "REPEAT" e)) (λ _. onward)

  pub walk-Ends :
      (lo : Instant) (limit steps repeats from : ℕ) (left : List (Option Row)) (i : ℕ) (g : Group)
      → g.status ≡ status_open
      → g.repeat_count ≡ repeats
      → from ≤ i
      → i + length left ≤ steps
      → Limited limit left
      → EndsAfter lo at left
      → Ends time lo limit steps repeats from (walk time d draw now ts i left g)
  unfolding walk
  walk-Ends lo limit steps repeats from [] i g o r f n l e =
      finish-Ends lo limit steps repeats from i g o
  walk-Ends lo limit steps repeats from (none ∷ left) i g o r f n l e =
      walk-Ends lo limit steps repeats from left (i + 1) g o r (omega arith) (omega arith) l e
  walk-Ends lo limit steps repeats from (some step ∷ left) i g o r f n (l, ls)
        (waited, cooled, es) =
      let kind : String = str_val step "kind" in
      let now_at : Group = record g { updated_at = ts } in
      let rest : (Group → Group) = walk time d draw now ts (i + 1) left in
      let after : Turn → Group = next_turn time d draw now ts i rest in
      if_cases (Ends time lo limit steps repeats from) (g.status == status_open)
        (λ _.
          take_step_cases (λ t. Ends time lo limit steps repeats from (after t)) i kind step now_at
            (wait_step-Ends lo limit steps repeats from i step now_at rest o r f (omega arith)
              waited)
            (resolve_step-Ends lo limit steps repeats from i now_at rest)
            (λ again.
              repeat_step-Ends lo limit steps repeats from i step now_at rest o r (l again) cooled)
            (walk-Ends lo limit steps repeats from left (i + 1)
              (clear_next_run_at (record (other_step time d draw now ts i kind step now_at) {
                current_step = i + 1;
              }))
              ((other_step-Kept i kind step now_at).status ∙ o)
              ((other_step-Kept i kind step now_at).repeats ∙ r) (omega arith) (omega arith) ls es))
        (λ miss. absurd (false≢true (sym miss ∙ open_group g o)))

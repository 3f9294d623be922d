-- ===== src/Steps/Walk/Safe.antt =====
-- The worker's turn keeps a group sound.
use nxs_anomaly.Base.{
  ℕ, ◌+◌, ◌≤◌, String, Bool, not, ◌≡◌, refl, sym, ◌∙◌, inl, inr, List, [], ◌∷◌, Option, none, some,
  ltb, ◌==◌, if_cases, length, drop, false≢true, ==→eq,
}
use nxs_anomaly.Base.Json.{Row, null, str, str_val, int_val}
use nxs_anomaly.Base.Time.{Instant, TimeText}
use nxs_anomaly.Authz.{system_actor}
use nxs_anomaly.Group.State.{
  Group, Fresh, status_open, status_resolved, max_group_logs, append_log, clear_next_run_at,
  next_run_at,
}
use nxs_anomaly.Group.Transitions.{resolve, silence_expired, end_silence}
use nxs_anomaly.Group.Logs.{log_of, length-cap_logs}
use nxs_anomaly.Group.Sound.{IsSound, opened, distinct}
use nxs_anomaly.Steps.{Directory}
use nxs_anomaly.Steps.Paging.Kept.{notify_group_resolved-Kept}
use nxs_anomaly.Steps.Walk.{
  Draws, Turn, max_int, wait_step, resolve_step, repeat_step, other_step, finish, next_turn, walk,
  on_chain, advance_group_locked, is_due, resume, advance_due_group,
}
use nxs_anomaly.Steps.Walk.Advance.{not-false}
use nxs_anomaly.Steps.Walk.Course.{take_step_cases, other_step-Kept, open_group}

closed :
    (g : Group)
    → g.status ≡ status_resolved
    → g.extra "next_run_at" ≡ some null
    → (ts : String) → g.extra "resolved_at" ≡ some (str ts)
    → length (log_of g) ≤ max_group_logs
    → IsSound g
closed g r n ts a c = record {
  known = inr (inr (inl r));
  acknowledged_rests = λ e. absurd (distinct (sym r ∙ e) refl);
  resolved_rests = λ _. (n, (ts, a));
  silenced_due = λ e. absurd (distinct (sym r ∙ e) refl);
  capped = c;
}

module _ (time : TimeText) (d : Directory) (draw : Draws) (now : Instant) (ts : String) where
  finish-IsSound :
      (i : ℕ) (g : Group) → g.status ≡ status_open → IsSound (finish time d draw now ts i g)
  unfolding finish append_log
  finish-IsSound i g o =
      if_cases IsSound (g.status == status_open) (λ _. opened _ o (length-cap_logs _))
        (λ miss. absurd (false≢true (sym miss ∙ open_group time d draw now ts g o)))

  wait_step-IsSound :
      (i : ℕ) (step : Row) (g : Group) (rest : Group → Group)
      → g.status ≡ status_open
      → IsSound (next_turn time d draw now ts i rest (wait_step time d draw now ts i step g))
  unfolding next_turn wait_step append_log
  wait_step-IsSound i step g rest o = opened _ o (length-cap_logs _)

  resolve_step-IsSound :
      (i : ℕ) (g : Group) (rest : Group → Group)
      → IsSound (next_turn time d draw now ts i rest (resolve_step time d draw now ts i g))
  unfolding next_turn resolve_step resolve
  resolve_step-IsSound i g rest =
      let told =
        notify_group_resolved-Kept d (draw i 1) ts
          (resolve (draw i 0) ts "Resolved by escalation policy" system_actor g) in
      closed _ told.status told.due ts told.resolved (told.capped (length-cap_logs _))

  repeat_step-IsSound :
      (i : ℕ) (step : Row) (g : Group) (rest : Group → Group)
      → g.status ≡ status_open
      → IsSound (next_turn time d draw now ts i rest (repeat_step time d draw now ts i step g))
  unfolding next_turn repeat_step append_log
  repeat_step-IsSound i step g rest o =
      if_cases (λ t. IsSound (next_turn time d draw now ts i rest t))
        (ltb (max_int (int_val step "max_repeat_count") 1) (g.repeat_count + 1))
        (λ _. opened _ o (length-cap_logs _)) (λ _. opened _ o (length-cap_logs _))

  walk-IsSound :
      (left : List (Option Row)) (i : ℕ) (g : Group)
      → g.status ≡ status_open
      → IsSound (walk time d draw now ts i left g)
  unfolding walk
  walk-IsSound [] i g o = finish-IsSound i g o
  walk-IsSound (none ∷ left) i g o = walk-IsSound left (i + 1) g o
  walk-IsSound (some step ∷ left) i g o =
      let kind : String = str_val step "kind" in
      let now_at : Group = record g { updated_at = ts } in
      let rest : (Group → Group) = walk time d draw now ts (i + 1) left in
      let after : Turn → Group = next_turn time d draw now ts i rest in
      if_cases IsSound (g.status == status_open)
        (λ _.
          take_step_cases time d draw now ts (λ t. IsSound (after t)) i kind step now_at
            (wait_step-IsSound i step now_at rest o) (resolve_step-IsSound i now_at rest)
            (λ _. repeat_step-IsSound i step now_at rest o)
            (walk-IsSound left (i + 1)
              (clear_next_run_at (record (other_step time d draw now ts i kind step now_at) {
                current_step = i + 1;
              }))
              ((other_step-Kept time d draw now ts i kind step now_at).status ∙ o)))
        (λ miss. absurd (false≢true (sym miss ∙ open_group time d draw now ts g o)))

  on_chain-IsSound :
      (chain : Option (List (Option Row))) (g : Group)
      → g.status ≡ status_open
      → IsSound (on_chain time d draw now ts chain g)
  unfolding on_chain append_log
  on_chain-IsSound none g o = opened _ o (length-cap_logs _)
  on_chain-IsSound (some steps) g o = walk-IsSound (drop g.current_step steps) g.current_step g o

  advance-IsSound :
      (g : Group) → g.status ≡ status_open → IsSound (advance_group_locked time d draw now ts g)
  unfolding advance_group_locked
  advance-IsSound g o =
      if_cases IsSound (g.status == status_open) (λ _. on_chain-IsSound _ g o)
        (λ miss. absurd (false≢true (sym miss ∙ open_group time d draw now ts g o)))

  resume-IsSound : (f : Fresh) (g : Group) → IsSound g → IsSound (resume time d draw now ts f g).0
  unfolding resume append_log
  resume-IsSound f g s =
      if_cases (λ (r : Group × Bool). IsSound r.0) (not (g.status == status_open)) (λ _. s)
        λ live.
          if_cases (λ (r : Group × Bool). IsSound r.0) (next_run_at g == "") (λ _. s)
            λ _.
              if_cases (λ (r : Group × Bool). IsSound r.0)
                (not (is_due time d draw now ts (time.parse (next_run_at g)))) (λ _. s)
                (λ _.
                  advance-IsSound
                    (clear_next_run_at (
                      append_log f "escalation_resumed" "Resuming escalation after wait window" []
                        g))
                    (==→eq g.status status_open (not-false live)))

  -- The worker's turn on a group, with the end of its silence and the whole walk along its chain, keeps
  -- the group sound: of a known status; not due and with the time of it where it is resolved or
  -- acknowledged; due at the end of its silence where it is silenced; with its log within the cap.
  pub advance_due_group-IsSound :
      (f f' : Fresh) (g : Group)
      → IsSound g
      → IsSound (advance_due_group time d draw now ts f f' g).0
  unfolding advance_due_group end_silence
  advance_due_group-IsSound f f' g s =
      if_cases (λ (h : Group). IsSound (resume time d draw now ts f' h).0)
        (silence_expired time now g)
        (λ _. resume-IsSound f' (end_silence f ts g) (opened _ refl (length-cap_logs _)))
        (λ _. resume-IsSound f' g s)

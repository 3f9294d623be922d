-- ===== src/Group/Sound.antt =====
-- When an alert group is due for escalation: an invariant of every history of calls.
use nxs_anomaly.Base.{
  if_cases, ne_of_test, ◌≤◌, String, Bool, false, ◌≡◌, refl, sym, ◌∙◌, ap, ◌⊎◌, inl, inr, ◌≢◌, List,
  [], ◌∷◌, Option, some, arith, ◌==◌, if◌then◌else◌, ==→eq, Bool-cases, length,
}
use nxs_anomaly.Base.Json.{Value, null, str}
use nxs_anomaly.Group.State.{
  acknowledge_resolved, unresolve_not_resolved, unacknowledge_not_acked, silence_resolved, Group,
  Fresh, NewAlertGroupParams, new_alert_group, status_open, status_acknowledged, status_resolved,
  status_silenced, is_resolved, is_acknowledged, max_group_logs,
}
use nxs_anomaly.Group.Logs.{log_of, length-cap_logs}
use nxs_anomaly.Group.Lifecycle.{
  Call, acknowledges, resolves, unresolves, unacknowledges, ends_silence, receives_alert, silences,
  perform, refuse_or, allow_or,
}

-- When a silence ends and the worker looks at the group next: never, or at the same time.
abbrev pub SilenceDueAt : Option Value → Option Value → Type 0
SilenceDueAt silenced_until next_run =
    ((silenced_until ≡ some (str "")) × (next_run ≡ some null))
    ⊎ ((until : String) × (until ≢ "")
        × (silenced_until ≡ some (str until))
        × (next_run ≡ some (str until)))

abbrev pub SilenceDue : Group → Type 0
SilenceDue g = SilenceDueAt (g.extra "silenced_until") (g.extra "next_run_at")

pub record IsSound (g : Group) : Type 0 where
  pub known :
      (g.status ≡ status_open)
      ⊎ (g.status ≡ status_acknowledged)
      ⊎ (g.status ≡ status_resolved)
      ⊎ (g.status ≡ status_silenced)
  pub acknowledged_rests :
      g.status ≡ status_acknowledged
      → (g.extra "next_run_at" ≡ some null)
        × ((ts : String) × (g.extra "acknowledged_at" ≡ some (str ts)))
  pub resolved_rests :
      g.status ≡ status_resolved
      → (g.extra "next_run_at" ≡ some null)
        × ((ts : String) × (g.extra "resolved_at" ≡ some (str ts)))
  pub silenced_due : g.status ≡ status_silenced → SilenceDue g
  pub capped : length (log_of g) ≤ max_group_logs

pub distinct : {s t : String} → s ≡ t → (s == t) ≡ false → ⊥
distinct e miss = ne_of_test miss e

pub new_alert_group-IsSound : (f : Fresh) (p : NewAlertGroupParams) → IsSound (new_alert_group f p)
unfolding new_alert_group
new_alert_group-IsSound f p = record {
  known = inl refl;
  acknowledged_rests = λ e. absurd (distinct e refl);
  resolved_rests = λ e. absurd (distinct e refl);
  silenced_due = λ e. absurd (distinct e refl);
  capped = omega arith;
}

pub opened : (g : Group) → g.status ≡ status_open → length (log_of g) ≤ max_group_logs → IsSound g
opened g o l = record {
  known = inl o;
  acknowledged_rests = λ e. absurd (distinct (sym o ∙ e) refl);
  resolved_rests = λ e. absurd (distinct (sym o ∙ e) refl);
  silenced_due = λ e. absurd (distinct (sym o ∙ e) refl);
  capped = l;
}

silence-SilenceDue :
    (until : String)
    → SilenceDueAt (some (str until)) (some (if until == "" then null else str until))
silence-SilenceDue until = elim (Bool-cases (until == "")) [
  | inl hit ↦ inl (ap (λ s. some (str s)) (==→eq until "" hit), rw hit)
  | inr miss ↦ inr (until, ne_of_test miss, refl, rw miss)
]

-- Every call keeps: the status is one of four; an acknowledged or a resolved group is not due, and
-- says since when; a silenced group is due when its silence ends, and never if it has no end; the
-- log is within its cap.
pub perform-IsSound : (f : Fresh) (c : Call) (g : Group) → IsSound g → IsSound (perform f c g)
unfolding perform
perform-IsSound f (acknowledges ts message actor) g s =
    refuse_or IsSound acknowledge_resolved (is_resolved g) (λ _. s)
      λ _. record {
        known = inr (inl refl);
        acknowledged_rests = λ _. (refl, (ts, refl));
        resolved_rests = λ e. absurd (distinct e refl);
        silenced_due = λ e. absurd (distinct e refl);
        capped = length-cap_logs _;
      }
perform-IsSound f (resolves ts reason actor) g s = record {
  known = inr (inr (inl refl));
  acknowledged_rests = λ e. absurd (distinct e refl);
  resolved_rests = λ _. (refl, (ts, refl));
  silenced_due = λ e. absurd (distinct e refl);
  capped = length-cap_logs _;
}
perform-IsSound f (unresolves ts actor) g s =
    allow_or IsSound unresolve_not_resolved (is_resolved g) (λ _. opened _ refl (length-cap_logs _))
      (λ _. s)
perform-IsSound f (unacknowledges ts actor) g s =
    allow_or IsSound unacknowledge_not_acked (is_acknowledged g)
      (λ _. opened _ refl (length-cap_logs _)) (λ _. s)
perform-IsSound f (ends_silence ts) g s =
    if_cases IsSound (g.status == status_silenced) (λ _. opened _ refl (length-cap_logs _)) (λ _. s)
perform-IsSound f receives_alert g s =
    if_cases (λ (h : Group × Bool). IsSound h.0) (is_acknowledged g)
      (λ _. opened _ refl (length-cap_logs _)) (λ _. s)
perform-IsSound f (silences ts until message minutes actor) g s =
    refuse_or IsSound silence_resolved (is_resolved g) (λ _. s)
      λ _. record {
        known = inr (inr (inr refl));
        acknowledged_rests = λ e. absurd (distinct e refl);
        resolved_rests = λ e. absurd (distinct e refl);
        silenced_due = λ _. silence-SilenceDue until;
        capped = length-cap_logs _;
      }

-- A history of calls, each with what it draws from the clock and from random ids.
unfoldable pub run : List (Fresh × Call) → Group → Group
run [] g = g
run ((f, c) ∷ calls) g = run calls (perform f c g)

run-IsSound_from : (calls : List (Fresh × Call)) (g : Group) → IsSound g → IsSound (run calls g)
unfolding run
run-IsSound_from [] g s = s
run-IsSound_from ((f, c) ∷ calls) g s =
    run-IsSound_from calls (perform f c g) (perform-IsSound f c g s)

-- After any history of calls since it was created, a group is sound: its status is one of four;
-- acknowledged or resolved, it is not due and says since when; silenced, it is due when its
-- silence ends, and never if that has no end; its log is within its cap.
pub run-IsSound :
    (f : Fresh) (p : NewAlertGroupParams) (calls : List (Fresh × Call))
    → IsSound (run calls (new_alert_group f p))
run-IsSound f p calls = run-IsSound_from calls _ (new_alert_group-IsSound f p)

-- ===== src/Group/Restart.antt =====
-- Which execution of the escalation chain a group is in: its episode, its pass, and where in the
-- chain it stands. Notification keys are built on these four.
use nxs_anomaly.Base.{
  if_cases, ne_of_test, ◌+◌, String, Bool, false, ◌≡◌, refl, sym, ◌∙◌, ◌⊎◌, inl, inr, ◌≢◌, ◌==◌,
}
use nxs_anomaly.Base.Json.{int_val, str_val}
use nxs_anomaly.Authz.{Actor}
use nxs_anomaly.Group.State.{
  Group, Fresh, status_open, status_resolved, acknowledge_resolved, unresolve_not_resolved,
  unacknowledge_not_acked, silence_resolved, status_silenced, is_resolved, is_acknowledged,
  episode_id, escalation_pass,
}
use nxs_anomaly.Group.Lifecycle.{
  Call, acknowledges, resolves, unresolves, unacknowledges, ends_silence, receives_alert, silences,
  perform, refuse_or, allow_or,
}

-- What a call did to the execution: left it alone, or began another at the top of the chain, in a
-- new episode or in the next pass of the same one.
pub data Began (f : Fresh) (g h : Group) : Type 0 where
  same :
      (episode_id h ≡ episode_id g)
      → (escalation_pass h ≡ escalation_pass g)
      → (h.current_step ≡ g.current_step)
      → (h.repeat_count ≡ g.repeat_count)
      → (h.status ≡ status_open → g.status ≡ status_open)
      → Began f g h
  next_episode :
      (episode_id h ≡ f.episode_id)
      → (escalation_pass h ≡ escalation_pass g)
      → (h.current_step ≡ 0)
      → Began f g h
  next_pass :
      (episode_id h ≡ episode_id g)
      → (escalation_pass h ≡ escalation_pass g + 1)
      → (h.current_step ≡ 0)
      → (h.repeat_count ≡ 0)
      → Began f g h

kept : {f : Fresh} (g : Group) → Began f g g
kept g = same refl refl refl refl (λ e. e)

closed :
    {s : String} → (s == status_open) ≡ false → {t : String} → s ≡ status_open → t ≡ status_open
closed miss e = absurd (ne_of_test miss e)

-- A call either leaves the execution of the chain as it was, and opens nothing, or begins at step 0
-- in a new episode (`unresolve`, a new alert) or in the next pass (`unacknowledge`, a silence that
-- ended).
pub perform-Began : (f : Fresh) (c : Call) (g : Group) → Began f g (perform f c g)
unfolding perform str_val int_val
perform-Began f (acknowledges ts message actor) g =
    refuse_or (Began f g) acknowledge_resolved (is_resolved g) (λ _. kept g)
      (λ _. same refl refl refl refl (closed refl))
perform-Began f (resolves ts reason actor) g = same refl refl refl refl (closed refl)
perform-Began f (unresolves ts actor) g =
    allow_or (Began f g) unresolve_not_resolved (is_resolved g) (λ _. next_episode refl refl refl)
      (λ _. kept g)
perform-Began f (unacknowledges ts actor) g =
    allow_or (Began f g) unacknowledge_not_acked (is_acknowledged g)
      (λ _. next_pass refl refl refl refl) (λ _. kept g)
perform-Began f (ends_silence ts) g =
    if_cases (Began f g) (g.status == status_silenced) (λ _. next_pass refl refl refl refl)
      (λ _. kept g)
perform-Began f receives_alert g =
    if_cases (λ (h : Group × Bool). Began f g h.0) (is_acknowledged g)
      (λ _. next_episode refl refl refl) (λ _. kept g)
perform-Began f (silences ts until message minutes actor) g =
    refuse_or (Began f g) silence_resolved (is_resolved g) (λ _. kept g)
      (λ _. same refl refl refl refl (closed refl))

opens :
    {f : Fresh} {g h : Group}
    → Began f g h
    → f.episode_id ≢ episode_id g
    → g.status ≢ status_open
    → h.status ≡ status_open
    → (h.current_step ≡ 0)
      × ((episode_id h ≢ episode_id g) ⊎ (escalation_pass h ≡ escalation_pass g + 1))
opens (same e p s r o) fresh shut now = absurd (shut (o now))
opens (next_episode e p s) fresh shut now = (s, inl (λ q. fresh (sym e ∙ q)))
opens (next_pass e p s r) fresh shut now = (s, inr p)

-- Where a call opens a group that was not open, and a new episode would have a new id, the chain
-- starts at step 0 in an execution other than the one the group was in: its episode is another,
-- or its pass is the next.
pub perform_opens :
    (f : Fresh) (c : Call) (g : Group)
    → f.episode_id ≢ episode_id g
    → g.status ≢ status_open
    → (perform f c g).status ≡ status_open
    → ((perform f c g).current_step ≡ 0)
      × ((episode_id (perform f c g) ≢ episode_id g)
          ⊎ (escalation_pass (perform f c g) ≡ escalation_pass g + 1))
perform_opens f c g = opens (perform-Began f c g)

-- Reopening by an operator does not give the repeats back: a group that `unresolve` opens still
-- has the count of its last episode.
pub unresolve_keeps_repeats :
    (f : Fresh) (ts : String) (actor : Actor) (g : Group)
    → g.status ≡ status_resolved
    → ((perform f (unresolves ts actor) g).status ≡ status_open)
      × ((perform f (unresolves ts actor) g).repeat_count ≡ g.repeat_count)
unfolding perform
unresolve_keeps_repeats f ts actor g r =
    allow_or (λ h. (h.status ≡ status_open) × (h.repeat_count ≡ g.repeat_count))
      unresolve_not_resolved (is_resolved g) (λ _. (refl, refl))
      (λ miss. absurd (ne_of_test miss r))

-- ===== src/Escalation/Single.antt =====
-- What an operation on one alert group commits, and when it is answered.
use nxs_anomaly.Base.{
  ℕ, String, ◌≡◌, ◌≢◌, inl, inr, ◌↔◌, refl, List, [], ◌∷◌, ◌++◌, none, some, Option-cases,
  ne→==_false, ==_self,
}
use nxs_anomaly.Base.Text.{concat}
use nxs_anomaly.Base.Json.{Scalar}
use nxs_anomaly.Base.Time.{TimeText}
use nxs_anomaly.Authz.{describe}
use nxs_anomaly.Group.State.{Group, Result, ok, err}
use nxs_anomaly.Steps.{Directory}
use nxs_anomaly.Steps.Paging.{notify_group_resolved}
use nxs_anomaly.Group.Transitions.{acknowledge, resolve, unresolve, unacknowledge, silence}
use nxs_anomaly.Scope.{Answer, answers, fails, Reads, authorize_group_action}
use nxs_anomaly.Escalation.{
  State, Request, AuditEvent, audit_acknowledge, audit_resolve, audit_unresolve,
  audit_unacknowledge, audit_silence, audit_in, put_group, commit, change, operate,
  get_group_or_error, acknowledge_group, resolve_group, unresolve_group, unacknowledge_group,
  silence_group, silenced_until,
}

-- What an operation that is answered has done: the actor may act on the group, the group was there
-- and allowed the transition, it alone is changed, and one audit event more is in the trail, on this
-- group, by this actor and for this action.
pub record IsDone (reads : Reads) (q : Request) (action id : String)
    (transition : Group → Result Group) (s : State) (r : State × Group) : Type 0 where
  pub authorized : authorize_group_action reads q.actor id ≡ none
  pub made : (g : Group) × (s.alert_groups id ≡ some g) × (transition g ≡ ok r.1)
  pub stored : r.0.alert_groups id ≡ some r.1
  pub others : (k : String) → id ≢ k → r.0.alert_groups k ≡ s.alert_groups k
  pub trail :
      (e : AuditEvent) × (r.0.audit_events ≡ s.audit_events ++ e ∷ [])
      × (e.action ≡ action)
      × (e.entity_id ≡ id)
      × (e.actor_id ≡ q.actor.id)

abbrev OfAnswer : (State × Group → Type 0) → Answer (State × Group) → Type 0
OfAnswer P (answers r) = P r
OfAnswer P (fails e) = Unit

module _ (reads : Reads) (q : Request) (action id : String) (details : List (String × Scalar))
    (transition : Group → Result Group) (s : State) where
  commit-IsDone :
      (g : Group) (r : Result Group)
      → authorize_group_action reads q.actor id ≡ none
      → s.alert_groups id ≡ some g
      → transition g ≡ r
      → OfAnswer (IsDone reads q action id transition s) (commit q action id details s r)
  unfolding commit audit_in
  commit-IsDone g (err e) free at made = tt
  commit-IsDone g (ok h) free at made = record {
    authorized = free;
    made = (g, at, made);
    stored = rw (==_self id);
    others = λ k ne. rw (ne→==_false id k ne);
    trail = (_, refl, refl, refl, refl);
  }

  operate-IsDone :
      OfAnswer
        (IsDone reads q action id transition s)
        (operate reads q action id details transition s)
  unfolding operate change get_group_or_error
  operate-IsDone = elim (Option-cases (authorize_group_action reads q.actor id)) [
    | inr (e, out) ↦ rw (out, operate) tt
    | inl free ↦ elim (Option-cases (s.alert_groups id)) [
      | inl gone ↦ rw (free, operate, gone, get_group_or_error) tt
      | inr (g, at) ↦
          rw (free, operate, at, get_group_or_error) (commit-IsDone g (transition g) free at refl)
    ]
  ]

  -- What an answer needs: the right, a row, and a transition that the row allows.
  abbrev CanAnswer : Type 0
  CanAnswer =
      (authorize_group_action reads q.actor id ≡ none)
      × ((g : Group) × (h : Group) × (s.alert_groups id ≡ some g) × (transition g ≡ ok h))

  operate_answers :
      CanAnswer → (r : State × Group) × (operate reads q action id details transition s ≡ answers r)
  unfolding operate change get_group_or_error commit
  operate_answers (free, (g, h, at, made)) = (
    (audit_in q 0 action id details (record s { alert_groups = put_group id h s.alert_groups }), h),
    rw (free, operate, at, get_group_or_error, made),
  )

  operate_answered :
      (r : State × Group)
      → operate reads q action id details transition s ≡ answers r
      → IsDone reads q action id transition s r
  operate_answered r e = rw e at operate-IsDone

  operate_answers_iff :
      CanAnswer
      ↔ ((r : State × Group) × (operate reads q action id details transition s ≡ answers r))
  operate_answers_iff = (
    operate_answers,
    λ (r, e). (
      (operate_answered r e).authorized,
      (
        (operate_answered r e).made.0,
        r.1,
        (operate_answered r e).made.1,
        (operate_answered r e).made.2,
      ),
    ),
  )

-- The operations on one group.
pub data Operation : Type 0 where
  acknowledging resolving unresolving unacknowledging : Operation
  silencing : (duration_minutes : ℕ) → Operation

module _ (time : TimeText) (d : Directory) (reads : Reads) (q : Request) where
  unfoldable pub call : Operation → String → State → Answer (State × Group)
  call acknowledging = acknowledge_group time reads q
  call resolving = resolve_group time reads q d
  call unresolving = unresolve_group time reads q
  call unacknowledging = unacknowledge_group time reads q
  call (silencing duration_minutes) = silence_group time reads q duration_minutes

pub action_of : Operation → String
action_of acknowledging = audit_acknowledge
action_of resolving = audit_resolve
action_of unresolving = audit_unresolve
action_of unacknowledging = audit_unacknowledge
action_of (silencing duration_minutes) = audit_silence

-- The transition of the group that each is, with its arguments.
pub transition_of : TimeText → Directory → Request → Operation → Group → Result Group
transition_of time d q acknowledging =
    acknowledge (q.fresh 0) (time.to_iso q.now)
      (concat ("Alert group acknowledged by " ∷ describe q.actor ∷ [])) q.actor
transition_of time d q resolving = λ g. ok (
    notify_group_resolved d (q.fresh 1) (time.to_iso q.now) (
      resolve (q.fresh 0) (time.to_iso q.now) (concat ("Resolved by " ∷ describe q.actor ∷ []))
        q.actor g))
transition_of time d q unresolving = unresolve (q.fresh 0) (time.to_iso q.now) q.actor
transition_of time d q unacknowledging = unacknowledge (q.fresh 0) (time.to_iso q.now) q.actor
transition_of time d q (silencing duration_minutes) =
    silence (q.fresh 0) (time.to_iso q.now) (silenced_until time q duration_minutes)
      (concat ("Alert group silenced by " ∷ describe q.actor ∷ [])) duration_minutes q.actor

-- An operation on one group that is answered was allowed to the actor, has made its transition on
-- the group, stored it, left every other group as it was, and written one audit event that names the
-- action, the group and the actor.
pub operation-IsDone :
    (time : TimeText) (d : Directory) (reads : Reads) (q : Request) (op : Operation) (id : String)
    (s : State) (r : State × Group)
    → call time d reads q op id s ≡ answers r
    → IsDone reads q (action_of op) id (transition_of time d q op) s r
unfolding call action_of transition_of acknowledge_group resolve_group unresolve_group
    unacknowledge_group silence_group
operation-IsDone time d reads q acknowledging id s r e = operate_answered reads q _ id _ _ s r e
operation-IsDone time d reads q resolving id s r e = operate_answered reads q _ id _ _ s r e
operation-IsDone time d reads q unresolving id s r e = operate_answered reads q _ id _ _ s r e
operation-IsDone time d reads q unacknowledging id s r e = operate_answered reads q _ id _ _ s r e
operation-IsDone time d reads q (silencing minutes) id s r e =
    operate_answered reads q _ id _ _ s r e

-- An operation on one group is answered exactly when the actor may act on the group, the group is
-- there, and the transition is one that its status allows.
pub operation_answers_iff :
    (time : TimeText) (d : Directory) (reads : Reads) (q : Request) (op : Operation) (id : String)
    (s : State)
    → ((authorize_group_action reads q.actor id ≡ none)
        × ((g : Group) × (h : Group) × (s.alert_groups id ≡ some g)
            × (transition_of time d q op g ≡ ok h)))
      ↔ ((r : State × Group) × (call time d reads q op id s ≡ answers r))
unfolding call action_of transition_of acknowledge_group resolve_group unresolve_group
    unacknowledge_group silence_group
operation_answers_iff time d reads q acknowledging id s = operate_answers_iff reads q _ id _ _ s
operation_answers_iff time d reads q resolving id s = operate_answers_iff reads q _ id _ _ s
operation_answers_iff time d reads q unresolving id s = operate_answers_iff reads q _ id _ _ s
operation_answers_iff time d reads q unacknowledging id s = operate_answers_iff reads q _ id _ _ s
operation_answers_iff time d reads q (silencing minutes) id s =
    operate_answers_iff reads q _ id _ _ s

-- ===== src/Escalation/Bulk/Operations.antt =====
-- What each bulk operation changes, reports and records.
use mathlib.Core.Option.{none-ne-some, some-ne-none, some_inj}
use nxs_anomaly.Base.{
  ℕ, ◌+◌, ◌*◌, String, Bool, true, false, ◌||◌, ◌≡◌, ◌≢◌, ◌⊎◌, refl, sym, ◌∙◌, ap, inl, inr, List,
  Option, none, some, if_cases, false≢true, ==→eq, ne_of_test,
}
use nxs_anomaly.Base.Time.{TimeText}
use nxs_anomaly.Group.Transitions.{acknowledge, resolve, silence}
use nxs_anomaly.Steps.{Directory}
use nxs_anomaly.Steps.Paging.Kept.{notify_group_resolved-Kept}
use nxs_anomaly.Group.State.{
  append_log_by, Group, status_acknowledged, status_resolved, status_silenced, is_resolved,
  is_acknowledged,
}
use nxs_anomaly.Scope.{answers, Reads}
use nxs_anomaly.Scope.Boundary.{ap_answer}
use nxs_anomaly.Escalation.{State, Request}
use nxs_anomaly.Escalation.Bulk.Batches.{IsBatch, bulk_operate-IsBatch}
use nxs_anomaly.Escalation.Bulk.{
  Outcome, bulk_acknowledge_body, bulk_silence_body, result_or_none, bulk_acknowledge_groups,
  bulk_resolve_groups, bulk_resolve_body, bulk_silence_groups,
}

abbrev pub IsStatus : String → Group → Type 0
IsStatus status g = g.status ≡ status

abbrev pub Rests : Group → Type 0
Rests g = (g.status ≡ status_resolved) ⊎ (g.status ≡ status_acknowledged)

abbrev pub Pages : Group → Type 0
Pages g = (g.status ≢ status_resolved) × (g.status ≢ status_acknowledged)

either : (a b : Bool) → (a || b) ≡ true → (a ≡ true) ⊎ (b ≡ true)
either true b h = inl refl
either false b h = inr h

neither : (a b : Bool) → (a || b) ≡ false → (a ≡ false) × (b ≡ false)
neither true b h = absurd (false≢true (sym h))
neither false b h = (refl, h)

module _ (time : TimeText) (q : Request) where
  -- Both ways that a body can end.
  abbrev BodyCase : (Before After Refused : Group → Type 0) → Group → Option Group → Type 0
  BodyCase Before After Refused g o =
      ((h : Group) → o ≡ some h → Before g × After h) × (o ≡ none → Refused g)

  acknowledge_case :
      (i : ℕ) (g : Group)
      → BodyCase Pages (IsStatus status_acknowledged) Rests g (bulk_acknowledge_body time q i g)
  unfolding bulk_acknowledge_body acknowledge append_log_by
  acknowledge_case i g =
      if_cases (BodyCase Pages (IsStatus status_acknowledged) Rests g)
        (is_resolved g || is_acknowledged g)
        (λ hit. (
          λ h e. absurd (none-ne-some h e),
          λ _. elim (either _ _ hit) [
            | inl r ↦ inl (==→eq g.status _ r)
            | inr a ↦ inr (==→eq g.status _ a)
          ],
        ))
        λ miss.
          if_cases (λ r. BodyCase Pages (IsStatus status_acknowledged) Rests g (result_or_none r))
            (is_resolved g)
            (λ hit. (λ h e. absurd (none-ne-some h e), λ _. inl (==→eq g.status _ hit)))
            (λ free. (
              λ h e. (
                (ne_of_test (neither _ _ miss).0, ne_of_test (neither _ _ miss).1),
                ap (λ (x : Group). x.status) (sym (some_inj.0 e)),
              ),
              λ e. absurd (some-ne-none _ e),
            ))

  silence_case :
      (duration_minutes i : ℕ) (g : Group)
      → BodyCase
          (λ (x : Group). x.status ≢ status_resolved)
          (IsStatus status_silenced)
          (IsStatus status_resolved)
          g
          (bulk_silence_body time q duration_minutes i g)
  unfolding bulk_silence_body silence append_log_by
  silence_case duration_minutes i g =
      if_cases
        (λ r.
          BodyCase (λ (x : Group). x.status ≢ status_resolved) (IsStatus status_silenced)
            (IsStatus status_resolved) g (result_or_none r))
        (is_resolved g) (λ hit. (λ h e. absurd (none-ne-some h e), λ _. ==→eq g.status _ hit))
        (λ free. (
          λ h e. (ne_of_test free, ap (λ (x : Group). x.status) (sym (some_inj.0 e))),
          λ e. absurd (some-ne-none _ e),
        ))

module _ (time : TimeText) (q : Request) (d : Directory) where
  resolve_case :
      (i : ℕ) (g : Group)
      → BodyCase time q
          (λ (x : Group). x.status ≢ status_resolved)
          (IsStatus status_resolved)
          (IsStatus status_resolved)
          g
          (bulk_resolve_body time q d i g)
  unfolding bulk_resolve_body resolve
  resolve_case i g =
      if_cases
        (BodyCase time q (λ (x : Group). x.status ≢ status_resolved) (IsStatus status_resolved)
          (IsStatus status_resolved) g)
        (is_resolved g) (λ hit. (λ h e. absurd (none-ne-some h e), λ _. ==→eq g.status _ hit))
        (λ free. (
          λ h e. (
            ne_of_test free,
            ap (λ (x : Group). x.status) (sym (some_inj.0 e))
                ∙ (notify_group_resolved-Kept d (q.fresh (2 * i + 1)) (time.to_iso q.now)
                    (resolve (q.fresh (2 * i)) (time.to_iso q.now) _ q.actor g)).status,
          ),
          λ e. absurd (some-ne-none _ e),
        ))

-- When `BulkAcknowledgeGroups` answers: Every id of the request stands in the four lists of the
-- answer together as often as in the request; the rows that change are those of the ids reported
-- as changed, which the actor may act on and which were neither resolved nor acknowledged, and
-- they are acknowledged; every other row is as it was, and an id that is neither changed nor
-- forbidden, and that has a group, has one that was resolved or acknowledged; the forbidden ids
-- are refused by the team boundary; and the trail gains one event for each id reported as
-- changed, in their order.
pub bulk_acknowledge_lem :
    (time : TimeText) (reads : Reads) (q : Request) (ids : List String) (s : State) (o : Outcome)
    → bulk_acknowledge_groups time reads q ids s ≡ answers o
    → IsBatch Pages (IsStatus status_acknowledged) Rests reads q ids s o
unfolding bulk_acknowledge_groups
bulk_acknowledge_lem time reads q ids s o e =
    ap_answer (IsBatch Pages (IsStatus status_acknowledged) Rests reads q ids s) e (
      bulk_operate-IsBatch (bulk_acknowledge_body time q) _ _ _
        (λ i g. (acknowledge_case time q i g).0) (λ i g. (acknowledge_case time q i g).1) reads q _
        ids s)

-- When `BulkSilenceGroups` answers: Every id of the request stands in the four lists of the
-- answer together as often as in the request; the rows that change are those of the ids reported
-- as changed, which the actor may act on and which were not resolved, and they are silenced;
-- every other row is as it was, and an id that is neither changed nor forbidden, and that has a
-- group, has one that was resolved; the forbidden ids are refused by the team boundary; and the
-- trail gains one event for each id reported as changed, in their order.
pub bulk_silence_lem :
    (time : TimeText) (reads : Reads) (q : Request) (duration_minutes : ℕ) (ids : List String)
    (s : State) (o : Outcome)
    → bulk_silence_groups time reads q duration_minutes ids s ≡ answers o
    → IsBatch
        (λ g. g.status ≢ status_resolved)
        (IsStatus status_silenced)
        (IsStatus status_resolved)
        reads
        q
        ids
        s
        o
unfolding bulk_silence_groups
bulk_silence_lem time reads q duration_minutes ids s o e =
    ap_answer
      (IsBatch (λ g. g.status ≢ status_resolved) (IsStatus status_silenced)
        (IsStatus status_resolved) reads q ids s)
      e
      (bulk_operate-IsBatch (bulk_silence_body time q duration_minutes) _ _ _
        (λ i g. (silence_case time q duration_minutes i g).0)
        (λ i g. (silence_case time q duration_minutes i g).1) reads q _ ids s)

-- When `BulkResolveGroups` answers: Every id of the request stands in the four lists of the
-- answer together as often as in the request; the rows that change are those of the ids reported
-- as changed, which the actor may act on and which were not resolved, and they are resolved;
-- every other row is as it was, and an id that is neither changed nor forbidden, and that has a
-- group, has one that was resolved; the forbidden ids are refused by the team boundary; and the
-- trail gains one event for each id reported as changed, in their order.
pub bulk_resolve_lem :
    (time : TimeText) (reads : Reads) (q : Request) (d : Directory) (ids : List String) (s : State)
    (o : Outcome)
    → bulk_resolve_groups time reads q d ids s ≡ answers o
    → IsBatch
        (λ g. g.status ≢ status_resolved)
        (IsStatus status_resolved)
        (IsStatus status_resolved)
        reads
        q
        ids
        s
        o
unfolding bulk_resolve_groups
bulk_resolve_lem time reads q d ids s o e =
    ap_answer
      (IsBatch (λ g. g.status ≢ status_resolved) (IsStatus status_resolved)
        (IsStatus status_resolved) reads q ids s)
      e
      (bulk_operate-IsBatch (bulk_resolve_body time q d) _ _ _
        (λ i g. (resolve_case time q d i g).0) (λ i g. (resolve_case time q d i g).1) reads q _ ids
        s)

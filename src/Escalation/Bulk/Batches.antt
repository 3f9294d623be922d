-- ===== src/Escalation/Bulk/Batches.antt =====
-- What a bulk operation commits and reports.
use nxs_anomaly.Base.{
  ℕ, ◌+◌, ◌<◌, String, true, false, ◌≡◌, refl, sym, ◌∙◌, ap, inl, inr, List, [], ◌∷◌, ◌++◌, none,
  some, arith, ◌==◌, contains, Bool-cases, false≢true,
}
use nxs_anomaly.Base.Json.{flag}
use nxs_anomaly.Group.State.{Group}
use nxs_anomaly.Scope.{
  Answer, answers, fails, Reads, authorize_group_action, partition_authorized_groups,
}
use nxs_anomaly.Scope.Boundary.{count, IsSplit, Forbidden, partition-IsSplit, OfAnswer}
use nxs_anomaly.Escalation.{State, Request, AuditEvent, audit_each, audit_in, audit_bulk_in}
use nxs_anomaly.Escalation.Bulk.Loop.{IsReport, bulk_loop-IsReport, Fate, fate}
use nxs_anomaly.Escalation.Bulk.{
  Report, Body, Groups, Outcome, bulk_loop, bulk_commit, bulk_parts, bulk_operate,
}

-- The ids of an audit trail.
abbrev pub audited : List AuditEvent → List String
audited [] = []
audited (e ∷ es) = e.entity_id ∷ audited es

append_nil : (ids : List String) → ids ≡ ids ++ []
append_nil [] = refl
append_nil (x ∷ xs) = ap (λ t. x ∷ t) (append_nil xs)

audited-append_last :
    (events : List AuditEvent) (e : AuditEvent) (ids : List String)
    → audited (events ++ e ∷ []) ++ ids ≡ audited events ++ e.entity_id ∷ ids
audited-append_last [] e ids = refl
audited-append_last (x ∷ xs) e ids = ap (λ t. x.entity_id ∷ t) (audited-append_last xs e ids)

audit_each-audited :
    (q : Request) (i : ℕ) (action : String) (ids : List String) (s : State)
    → (audited (audit_each q i action ids s).audit_events ≡ audited s.audit_events ++ ids)
      × ((audit_each q i action ids s).alert_groups ≡ s.alert_groups)
unfolding audit_each audit_in
audit_each-audited q i action [] s = (append_nil (audited s.audit_events), refl)
audit_each-audited q i action (id ∷ ids) s =
    let after = audit_in q i action id (("bulk", flag true) ∷ []) s in
    let ih = audit_each-audited q (i + 1) action ids after in
    (ih.0 ∙ audited-append_last s.audit_events _ ids, ih.1)

member : (k : String) (xs : List String) → contains k xs ≡ true → 0 < count k xs
member k [] h = absurd (false≢true h)
member k (x ∷ xs) h = elim (Bool-cases (x == k)) [
  | inl hit ↦ ground (arith, hit)
  | inr miss ↦ ground (arith, member k xs (rw miss at h))
]

nonmember : (k : String) (xs : List String) → 0 < count k xs → contains k xs ≡ true
nonmember k [] h = absurd (omega arith)
nonmember k (x ∷ xs) h = elim (Bool-cases (x == k)) [
  | inl hit ↦ rw hit
  | inr miss ↦ rw miss (nonmember k xs (ground (arith, miss)))
]

missing : (k : String) (xs : List String) → contains k xs ≡ false → count k xs ≡ 0
missing k [] h = refl
missing k (x ∷ xs) h = elim (Bool-cases (x == k)) [
  | inl hit ↦ ground (arith, hit)
  | inr miss ↦ ground (arith, miss, missing k xs (rw miss at h))
]

-- What a bulk operation commits and reports. Every id of the request stands in the four lists of the
-- answer together as often as in the request. The row of an id is changed exactly where the id is
-- reported as changed: then the actor is allowed to act on it, the group was one to change, and it
-- is changed; where it is not, the row is as it was, and an id of the request that is not forbidden
-- and has a group has one not to change. The forbidden ids are refused by the team boundary. The
-- trail has one more event for each id reported as changed, in that order.
pub record IsBatch (Before After Refused : Group → Type 0) (reads : Reads) (q : Request)
    (ids : List String) (s : State) (o : Outcome) : Type 0 where
  pub partitioned :
      (k : String)
      → count k ids
        ≡ count k o.report.changed
          + count k o.report.not_found
          + count k o.report.skipped
          + count k o.forbidden
  pub changed :
      (k : String)
      → contains k o.report.changed ≡ true
      → (authorize_group_action reads q.actor k ≡ none)
        × ((g : Group) × (s.alert_groups k ≡ some g) × Before g)
        × ((h : Group) × (o.state.alert_groups k ≡ some h) × After h)
  pub kept :
      (k : String)
      → contains k o.report.changed ≡ false
      → (o.state.alert_groups k ≡ s.alert_groups k)
        × (contains k ids ≡ true
            → contains k o.forbidden ≡ false
            → (g : Group) → s.alert_groups k ≡ some g
            → Refused g)
  pub refused : Forbidden reads q.actor o.forbidden
  pub trail : audited o.state.audit_events ≡ audited s.audit_events ++ o.report.changed

module _ (body : Body) (Before After Refused : Group → Type 0)
    (step : (i : ℕ) (g h : Group) → body i g ≡ some h → Before g × After h)
    (refuse : (i : ℕ) (g : Group) → body i g ≡ none → Refused g) where
  inside :
      (k : String) (ids allowed forbidden : List String)
      → ((j : String) → count j ids ≡ count j allowed + count j forbidden)
      → contains k ids ≡ true
      → contains k forbidden ≡ false
      → contains k allowed ≡ true
  inside k ids allowed forbidden c i f =
      nonmember k allowed (omega (arith, c k, member k ids i, missing k forbidden f))

  committed :
      (reads : Reads) (q : Request) (action : String) (ids : List String) (s : State)
      (allowed forbidden : List String) (loop : Report × Groups)
      → IsSplit reads q.actor ids (allowed, forbidden)
      → IsReport allowed loop.0
      → ((k : String) → Fate body Before After Refused step refuse k allowed s.alert_groups loop)
      → IsBatch Before After Refused reads q ids s (bulk_commit q action s forbidden loop)
  unfolding bulk_commit audit_bulk_in
  committed reads q action ids s allowed forbidden (r, groups) (c, a, f) report fates =
      let after = record s { alert_groups = groups } in
      let written = audit_each-audited q 0 action r.changed after in
      record {
        partitioned = λ k. omega (arith, c k, report k);
        changed = λ k h. elim (fates k) [
          | inl (miss, kept, why) ↦ absurd (false≢true (sym miss ∙ h))
          | inr (hit, before, (x, at, done)) ↦ (
            a k (nonmember k allowed (omega (arith, report k, member k r.changed h))),
            before,
            (x, ap (λ m. m k) written.1 ∙ at, done),
          )
        ];
        kept = λ k h. elim (fates k) [
          | inl (miss, kept, why) ↦ (
            ap (λ m. m k) written.1 ∙ kept,
            λ i out. why (inside k ids allowed forbidden c i out),
          )
          | inr (hit, before, done) ↦ absurd (false≢true (sym h ∙ hit))
        ];
        refused = f;
        trail = written.0;
      }

  bulk_parts-IsBatch :
      (reads : Reads) (q : Request) (action : String) (ids : List String) (s : State)
      (p : Answer (List String × List String))
      → partition_authorized_groups reads q.actor ids ≡ p
      → OfAnswer (IsBatch Before After Refused reads q ids s) (bulk_parts q action body s p)
  unfolding bulk_parts bulk_commit audit_bulk_in
  bulk_parts-IsBatch reads q action ids s (fails e) at = tt
  bulk_parts-IsBatch reads q action ids s (answers (allowed, forbidden)) at =
      let loop = bulk_loop body 0 allowed s.alert_groups in
      committed reads q action ids s allowed forbidden loop
        (partition-IsSplit reads q.actor ids allowed forbidden at)
        (bulk_loop-IsReport body 0 allowed s.alert_groups)
        (fate body Before After Refused step refuse 0 allowed s.alert_groups)

  pub bulk_operate-IsBatch :
      (reads : Reads) (q : Request) (action : String) (ids : List String) (s : State)
      → OfAnswer
          (IsBatch Before After Refused reads q ids s)
          (bulk_operate reads q action body ids s)
  unfolding bulk_operate
  bulk_operate-IsBatch reads q action [] s = tt
  bulk_operate-IsBatch reads q action (id ∷ ids) s =
      bulk_parts-IsBatch reads q action (id ∷ ids) s _ refl

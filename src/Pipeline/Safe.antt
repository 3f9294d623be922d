-- ===== src/Pipeline/Safe.antt =====
-- When a run of a pipeline panics.
use nxs_anomaly.Base.{
  ℕ, suc, ◌≡◌, refl, String, Bool, true, false, not, List, [], ◌∷◌, none, ◌==◌, if_cases,
}
use nxs_anomaly.Pipeline.Document.{Regexps, PipelineDoc, Panics, returns, panics, eval}
use nxs_anomaly.Pipeline.Stages.{PipelineStage, Applied, applied, skipped, apply_stage, set_pairs}
use nxs_anomaly.Pipeline.Run.{PipelineResult, after_stage, note_step, step_name, apply_from, apply}
use nxs_anomaly.Pipeline.Kept.{
  HasLabels, Returns, Returns-bind, AppliedKeeps, apply_stage-HasLabels,
}

abbrev DocHasLabels : PipelineResult → Type 0
DocHasLabels r = HasLabels r.doc

note_step-HasLabels :
    (c : Bool) (s : String) (r : PipelineResult) → HasLabels r.doc → HasLabels (note_step c s r).doc
unfolding note_step
note_step-HasLabels true s r h = h
note_step-HasLabels false s r h = h

after_stage-HasLabels :
    (i : ℕ) (kind : String) (d : PipelineDoc) (next : PipelineDoc → Panics PipelineResult)
    (a : Applied)
    → HasLabels d
    → ((e : PipelineDoc) → HasLabels e → Returns DocHasLabels (next e))
    → AppliedKeeps HasLabels a
    → Returns DocHasLabels (after_stage i kind d next a)
unfolding after_stage
after_stage-HasLabels i kind d next skipped h k t = k d h
after_stage-HasLabels i kind d next (applied c e) h k t =
    if_cases (Returns DocHasLabels) (kind == "drop") (λ _. t)
      λ _.
        Returns-bind DocHasLabels DocHasLabels (next e) _ (k e t)
          (note_step-HasLabels c (step_name i kind))

apply_from-HasLabels :
    (rx : Regexps) (i : ℕ) (stages : List PipelineStage) (d : PipelineDoc)
    → HasLabels d
    → Returns DocHasLabels (apply_from rx i stages d)
unfolding apply_from
apply_from-HasLabels rx i [] d h = h
apply_from-HasLabels rx i (st ∷ rest) d h =
    if_cases (Returns DocHasLabels) (not (eval rx st.cond d))
      (λ _. apply_from-HasLabels rx (suc i) rest d h)
      λ _.
        Returns-bind (AppliedKeeps HasLabels) DocHasLabels (apply_stage rx st d) _
          (apply_stage-HasLabels rx st d h)
          (λ a.
            after_stage-HasLabels i st.kind d (apply_from rx (suc i) rest) a h
              (apply_from-HasLabels rx (suc i) rest))

-- A pipeline never panics on an alert whose labels are an object: it returns, whatever its stages
-- and the regular expressions do, and the document it leaves has labels again.
pub apply_lem :
    (rx : Regexps) (stages : List PipelineStage) (d : PipelineDoc)
    → HasLabels d
    → (r : PipelineResult) × (apply rx stages d ≡ returns r) × HasLabels r.doc
unfolding apply
apply_lem rx stages d h =
    of_returns (apply_from rx 0 stages d) (apply_from-HasLabels rx 0 stages d h)
  where
    of_returns :
        (m : Panics PipelineResult)
        → Returns DocHasLabels m
        → (r : PipelineResult) × (m ≡ returns r) × HasLabels r.doc
    of_returns (returns r) h = (r, refl, h)
    of_returns panics h = absurd h

-- On an alert whose labels are no object, a pipeline panics as soon as a stage that sets labels runs: any
-- pipeline that starts with one whose condition holds.
pub set_on_nil_panics :
    (rx : Regexps) (st : PipelineStage) (rest : List PipelineStage) (d : PipelineDoc)
    {p : String × String} {ps : List (String × String)}
    → st.kind ≡ "set"
    → st.pairs ≡ p ∷ ps
    → d.labels ≡ none
    → eval rx st.cond d ≡ true
    → apply rx (st ∷ rest) d ≡ panics
unfolding apply apply_from apply_stage set_pairs
set_on_nil_panics rx st rest d kind pairs nil runs = rw (runs, kind, pairs, nil) refl

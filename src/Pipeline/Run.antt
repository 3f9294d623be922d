-- ===== src/Pipeline/Run.antt =====
-- internal/engine/pipeline.go: a run of a pipeline over the document, `AlertPipeline.Apply`.
use nxs_anomaly.Base.{
  ℕ, suc, ◌+◌, String, Bool, true, false, not, List, [], ◌∷◌, ◌==◌, if◌then◌else◌,
}
use nxs_anomaly.Base.Text.{concat, decimal}
use nxs_anomaly.Pipeline.Document.{Regexps, PipelineDoc, Panics, returns, ◌>>=◌, eval}
use nxs_anomaly.Pipeline.Stages.{PipelineStage, Applied, applied, skipped, apply_stage}

-- `PipelineResult`, with the document it leaves.
pub record PipelineResult : Type 0 where
  pub dropped : Bool
  pub steps : List String
  pub doc : PipelineDoc

unfoldable pub step_name : ℕ → String → String
step_name i kind = concat (decimal (i + 1) ∷ ":" ∷ kind ∷ [])

unfoldable pub note_step : Bool → String → PipelineResult → PipelineResult
note_step true s r = record r { steps = s ∷ r.steps }
note_step false s r = r

unfoldable pub after_stage :
    ℕ
    → String
    → PipelineDoc
    → (PipelineDoc → Panics PipelineResult)
    → Applied
    → Panics PipelineResult
unfolding step_name note_step
after_stage i kind d next skipped = next d
after_stage i kind d next (applied changed d') =
    if kind == "drop"
    then returns (record { dropped = true; steps = step_name i kind ∷ []; doc = d' })
    else next d' >>= λ r. returns (note_step changed (step_name i kind) r)

unfoldable pub apply_from : Regexps → ℕ → List PipelineStage → PipelineDoc → Panics PipelineResult
unfolding after_stage apply_stage eval
apply_from rx i [] d = returns (record { dropped = false; steps = []; doc = d })
apply_from rx i (st ∷ rest) d =
    let next = apply_from rx (suc i) rest in
    if not (eval rx st.cond d) then next d else apply_stage rx st d >>= after_stage i st.kind d next

-- `AlertPipeline.Apply`, of the stages of a compiled pipeline.
unfoldable pub apply : Regexps → List PipelineStage → PipelineDoc → Panics PipelineResult
unfolding apply_from
apply rx stages d = apply_from rx 0 stages d

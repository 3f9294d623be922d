-- ===== src/Pipeline/Drops.antt =====
-- When a run of a pipeline drops the alert.
use nxs_anomaly.Base.{
  ℕ, suc, ◌≡◌, refl, sym, ap, ◌∙◌, ◌↔◌, false≢true, Bool, true, false, List, [], ◌∷◌, ◌++◌, eq→==,
}
use nxs_anomaly.Pipeline.Document.{Regexps, PipelineDoc, Panics, returns, ◌>>=◌, eval}
use nxs_anomaly.Pipeline.Stages.{PipelineStage, applied, apply_stage}
use nxs_anomaly.Pipeline.Run.{PipelineResult, after_stage, note_step, step_name, apply_from, apply}
use nxs_anomaly.Pipeline.Goes.{
  Reaches, was_dropped, doc_of, panics≢returns, >>=-eq-returns, note_step-dropped, note_step-doc,
  leaves, changes, drops, breaks, goes,
}

module _ (rx : Regexps) where
  abbrev Leaves : ℕ → PipelineStage → PipelineDoc → Type 0
  Leaves i st d =
      (rest : List PipelineStage) → apply_from rx i (st ∷ rest) d ≡ apply_from rx (suc i) rest d

  abbrev noted : ℕ → PipelineStage → Bool → Panics PipelineResult → Panics PipelineResult
  noted i st c m = m >>= λ r. returns (note_step c (step_name i st.kind) r)

  abbrev Changes : ℕ → PipelineStage → PipelineDoc → Bool → PipelineDoc → Type 0
  Changes i st d c e =
      (rest : List PipelineStage)
      → apply_from rx i (st ∷ rest) d ≡ noted i st c (apply_from rx (suc i) rest e)

  Reaches-past :
      (i : ℕ) (st : PipelineStage) (rest : List PipelineStage) (d : PipelineDoc)
      → Leaves i st d
      → Reaches rx (suc i) rest d
      → Reaches rx i (st ∷ rest) d
  Reaches-past i st rest d f h = record {
    before = st ∷ h.before;
    stage = h.stage;
    after = h.after;
    result = h.result;
    split = ap (λ l. st ∷ l) h.split;
    runs = f h.before ∙ h.runs;
    passes = h.passes;
    is_drop = h.is_drop;
    holds = h.holds;
  }

  Reaches-past_change :
      (i : ℕ) (st : PipelineStage) (rest : List PipelineStage) (d : PipelineDoc) (c : Bool)
      (e : PipelineDoc)
      → Changes i st d c e
      → Reaches rx (suc i) rest e
      → Reaches rx i (st ∷ rest) d
  Reaches-past_change i st rest d c e f h = record {
    before = st ∷ h.before;
    stage = h.stage;
    after = h.after;
    result = note_step c (step_name i st.kind) h.result;
    split = ap (λ l. st ∷ l) h.split;
    runs = f h.before ∙ ap (noted i st c) h.runs;
    passes = note_step-dropped c (step_name i st.kind) h.result ∙ h.passes;
    is_drop = h.is_drop;
    holds = ap (eval rx h.stage.cond) (note_step-doc c (step_name i st.kind) h.result) ∙ h.holds;
  }

  Reaches-of_dropped :
      (i : ℕ) (stages : List PipelineStage) (d : PipelineDoc) (r : PipelineResult)
      → apply_from rx i stages d ≡ returns r
      → r.dropped ≡ true
      → Reaches rx i stages d
  unfolding apply_from
  Reaches-of_dropped i [] d r e dropped = absurd (false≢true (ap was_dropped e ∙ dropped))
  Reaches-of_dropped i (st ∷ rest) d r e dropped = elim (goes rx i st d) [
    | leaves f ↦
        Reaches-past i st rest d f (Reaches-of_dropped (suc i) rest d r (sym (f rest) ∙ e) dropped)
    | changes c d' f ↦
        changed c d' f (Reaches-of_dropped (suc i) rest d')
          (>>=-eq-returns (apply_from rx (suc i) rest d') _ (sym (f rest) ∙ e))
    | drops kind runs q _ f ↦ record {
      before = [];
      stage = st;
      after = rest;
      result = record { dropped = false; steps = []; doc = d };
      split = refl;
      runs = refl;
      passes = refl;
      is_drop = kind;
      holds = runs;
    }
    | breaks f ↦ absurd (panics≢returns (sym (f rest) ∙ e))
  ]
    where
      changed :
          (c : Bool) (d' : PipelineDoc)
          → Changes i st d c d'
          → ((a : PipelineResult)
              → apply_from rx (suc i) rest d' ≡ returns a
              → a.dropped ≡ true
              → Reaches rx (suc i) rest d')
          → (a : PipelineResult) × (apply_from rx (suc i) rest d' ≡ returns a)
            × (returns (note_step c (step_name i st.kind) a) ≡ returns r)
          → Reaches rx i (st ∷ rest) d
      changed c d' f recall (a, runs, ends) = Reaches-past_change i st rest d c d' f (
          recall a runs
            (sym (note_step-dropped c (step_name i st.kind) a) ∙ ap was_dropped ends ∙ dropped))

  applies_drop :
      (st : PipelineStage) (d : PipelineDoc)
      → st.kind ≡ "drop"
      → apply_stage rx st d ≡ returns (applied true d)
  unfolding apply_stage
  applies_drop st d kind = rw (eq→== st.kind "drop" kind) refl

  drop_now :
      (i : ℕ) (st : PipelineStage) (rest : List PipelineStage) (d : PipelineDoc)
      (r : PipelineResult)
      → st.kind ≡ "drop"
      → eval rx st.cond d ≡ true
      → apply_from rx i (st ∷ rest) d ≡ returns r
      → r.dropped ≡ true
  unfolding apply_from after_stage
  drop_now i st rest d r kind runs e = ap was_dropped (sym e ∙ dropping)
    where
      dropping :
          apply_from rx i (st ∷ rest) d
          ≡ returns (record { dropped = true; steps = step_name i st.kind ∷ []; doc = d })
      dropping = rw (runs, applies_drop st d kind, eq→== st.kind "drop" kind) refl

  dropped_of_reaches :
      (i : ℕ) (before : List PipelineStage) (st : PipelineStage) (after : List PipelineStage)
      (d : PipelineDoc) (q r : PipelineResult)
      → apply_from rx i before d ≡ returns q
      → q.dropped ≡ false
      → st.kind ≡ "drop"
      → eval rx st.cond q.doc ≡ true
      → apply_from rx i (before ++ st ∷ after) d ≡ returns r
      → r.dropped ≡ true
  unfolding apply_from
  dropped_of_reaches i [] st after d q r runs passes kind holds e =
      drop_now i st after d r kind (ap (λ m. eval rx st.cond (doc_of d m)) runs ∙ holds) e
  dropped_of_reaches i (s ∷ before) st after d q r runs passes kind holds e = elim (goes rx i s d) [
    | leaves f ↦
        dropped_of_reaches (suc i) before st after d q r (sym (f before) ∙ runs) passes kind holds
          (sym (f (before ++ st ∷ after)) ∙ e)
    | changes c d' f ↦
        changed c d' (dropped_of_reaches (suc i) before st after d')
          (>>=-eq-returns (apply_from rx (suc i) before d') _ (sym (f before) ∙ runs))
          (>>=-eq-returns (apply_from rx (suc i) (before ++ st ∷ after) d') _
            (sym (f (before ++ st ∷ after)) ∙ e))
    | drops _ _ q' dropped f ↦
        absurd (false≢true (sym passes ∙ sym (ap was_dropped (sym (f before) ∙ runs)) ∙ dropped))
    | breaks f ↦ absurd (panics≢returns (sym (f before) ∙ runs))
  ]
    where
      changed :
          (c : Bool) (d' : PipelineDoc)
          → ((q' r' : PipelineResult)
              → apply_from rx (suc i) before d' ≡ returns q'
              → q'.dropped ≡ false
              → st.kind ≡ "drop"
              → eval rx st.cond q'.doc ≡ true
              → apply_from rx (suc i) (before ++ st ∷ after) d' ≡ returns r'
              → r'.dropped ≡ true)
          → (a : PipelineResult) × (apply_from rx (suc i) before d' ≡ returns a)
            × (returns (note_step c (step_name i s.kind) a) ≡ returns q)
          → (b : PipelineResult) × (apply_from rx (suc i) (before ++ st ∷ after) d' ≡ returns b)
            × (returns (note_step c (step_name i s.kind) b) ≡ returns r)
          → r.dropped ≡ true
      changed c d' recall (a, runs_a, ends_a) (b, runs_b, ends_b) =
          sym (ap was_dropped ends_b)
          ∙ (note_step-dropped c (step_name i s.kind) b
              ∙ recall a b runs_a
                  (sym (note_step-dropped c (step_name i s.kind) a)
                    ∙ (ap was_dropped ends_a ∙ passes))
                  kind
                  (ap (eval rx st.cond)
                      (sym (note_step-doc c (step_name i s.kind) a) ∙ ap (doc_of d) ends_a)
                    ∙ holds)
                  runs_b)

-- A run that returns has dropped the alert exactly when it reached a `drop` stage whose condition held:
-- one at which the stages before it, run alone, arrive without dropping the alert, and whose condition
-- holds of the document that they leave.
pub apply_drops_iff :
    (rx : Regexps) (stages : List PipelineStage) (d : PipelineDoc) (r : PipelineResult)
    → apply rx stages d ≡ returns r
    → (r.dropped ≡ true) ↔ Reaches rx 0 stages d
unfolding apply
apply_drops_iff rx stages d r e = (
  Reaches-of_dropped rx 0 stages d r e,
  λ h.
      dropped_of_reaches rx 0 h.before h.stage h.after d h.result r h.runs h.passes h.is_drop
        h.holds (ap (λ l. apply_from rx 0 l d) (sym h.split) ∙ e),
)

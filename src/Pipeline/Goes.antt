-- ===== src/Pipeline/Goes.antt =====
-- How a run of a pipeline goes on after its first stage, and what it is to reach a `drop` stage.
use nxs_anomaly.Base.{
  ℕ, suc, ◌≡◌, refl, inl, inr, ◌≢◌, String, Bool, true, false, List, [], ◌∷◌, ◌++◌, ◌==◌, ==→eq,
  Bool-cases,
}
use nxs_anomaly.Pipeline.Document.{Regexps, PipelineDoc, Panics, returns, panics, ◌>>=◌, eval}
use nxs_anomaly.Pipeline.Stages.{PipelineStage, Applied, applied, skipped, apply_stage}
use nxs_anomaly.Pipeline.Run.{PipelineResult, after_stage, note_step, step_name, apply_from}

-- A run reaches a `drop` stage whose condition holds: the stages before it, run alone, return, drop
-- nothing and leave a document at which it holds.
pub record Reaches (rx : Regexps) (i : ℕ) (stages : List PipelineStage) (d : PipelineDoc)
    : Type 0 where
  pub before : List PipelineStage
  pub stage : PipelineStage
  pub after : List PipelineStage
  pub result : PipelineResult
  pub split : stages ≡ before ++ stage ∷ after
  pub runs : apply_from rx i before d ≡ returns result
  pub passes : result.dropped ≡ false
  pub is_drop : stage.kind ≡ "drop"
  pub holds : eval rx stage.cond result.doc ≡ true

abbrev pub was_dropped : Panics PipelineResult → Bool
was_dropped (returns r) = r.dropped
was_dropped panics = false

abbrev pub doc_of : PipelineDoc → Panics PipelineResult → PipelineDoc
doc_of d (returns r) = r.doc
doc_of d panics = d

pub panics≢returns : {A : Type 0} {a : A} → panics ≢ returns a
panics≢returns e = cc

pub >>=-eq-returns :
    {A B : Type 0} (m : Panics A) (f : A → Panics B) {b : B}
    → (m >>= f) ≡ returns b
    → (a : A) × (m ≡ returns a) × (f a ≡ returns b)
>>=-eq-returns (returns a) f e = (a, refl, e)
>>=-eq-returns panics f e = cc

pub note_step-dropped :
    (c : Bool) (s : String) (r : PipelineResult) → (note_step c s r).dropped ≡ r.dropped
unfolding note_step
note_step-dropped true s r = refl
note_step-dropped false s r = refl

pub note_step-doc : (c : Bool) (s : String) (r : PipelineResult) → (note_step c s r).doc ≡ r.doc
unfolding note_step
note_step-doc true s r = refl
note_step-doc false s r = refl

module _ (rx : Regexps) where
  -- How a run goes on after the first stage, if not by dropping the alert.
  pub data Goes (i : ℕ) (st : PipelineStage) (d : PipelineDoc) : Type 0 where
    leaves :
        ((rest : List PipelineStage) → apply_from rx i (st ∷ rest) d ≡ apply_from rx (suc i) rest d)
        → Goes i st d
    changes :
        (c : Bool) (e : PipelineDoc)
        → ((rest : List PipelineStage)
            → apply_from rx i (st ∷ rest) d ≡ (
                apply_from rx (suc i) rest e >>= λ r.
                returns (note_step c (step_name i st.kind) r)))
        → Goes i st d
    drops :
        st.kind ≡ "drop"
        → eval rx st.cond d ≡ true
        → (r : PipelineResult) → r.dropped ≡ true
        → ((rest : List PipelineStage) → apply_from rx i (st ∷ rest) d ≡ returns r)
        → Goes i st d
    breaks : ((rest : List PipelineStage) → apply_from rx i (st ∷ rest) d ≡ panics) → Goes i st d

  pub goes : (i : ℕ) (st : PipelineStage) (d : PipelineDoc) → Goes i st d
  unfolding apply_from after_stage
  goes i st d = elim (Bool-cases (eval rx st.cond d)) [
    | inl runs ↦ ran runs (apply_stage rx st d) refl
    | inr off ↦ leaves (λ rest. rw off refl)
  ]
    where
      after :
          (runs : eval rx st.cond d ≡ true) (c : Bool) (e : PipelineDoc)
          → apply_stage rx st d ≡ returns (applied c e)
          → (b : Bool) → (st.kind == "drop") ≡ b
          → Goes i st d
      after runs c e does true kind =
          drops (==→eq st.kind "drop" kind) runs
            (record { dropped = true; steps = step_name i st.kind ∷ []; doc = e }) refl
            (λ rest. rw (runs, does, kind) refl)
      after runs c e does false kind = changes c e (λ rest. rw (runs, does, kind) refl)

      ran :
          (runs : eval rx st.cond d ≡ true) (m : Panics Applied)
          → apply_stage rx st d ≡ m
          → Goes i st d
      ran runs panics does = breaks (λ rest. rw (runs, does) refl)
      ran runs (returns skipped) does = leaves (λ rest. rw (runs, does) refl)
      ran runs (returns (applied c e)) does = after runs c e does (st.kind == "drop") refl

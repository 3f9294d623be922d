-- ===== src/Pipeline/Accepted.antt =====
-- A stage that compiles has exactly one action, and what the action needs; a pipeline that compiles is
-- made of such stages, within the limit on their number.
use nxs_anomaly.Base.{
  ℕ, suc, ◌≤◌, ◌≡◌, ◌≢◌, refl, sym, ap, ◌∙◌, ◌⊎◌, inl, inr, String, true, List, [], ◌∷◌, Option,
  none, some, ltb, ◌==◌, length, arith, ==→eq, ==_self, Bool-cases, contains,
}
use nxs_anomaly.Base.Decoded
use nxs_anomaly.Base.Decoded.{
  Json, Fields, find, present, array, object, fields, items, print_value, text_val, positive_val,
}
use nxs_anomaly.Pipeline.Document.{Regexps}
use nxs_anomaly.Pipeline.Stages.{PipelineStage}
use nxs_anomaly.Pipeline.Parts.{
  Checked, accepted, refused, cond_of, pipeline_actions, actions_found, one_action,
}
use nxs_anomaly.Pipeline.Texts.{none≢some}
use mathlib.Core.Path.{subst}
use nxs_anomaly.Pipeline.Compile.{bare_stage, compile_action, compile_stage}
use nxs_anomaly.Pipeline.Compile.{
  with_stage, compile_stages, Compiled, pipeline, invalid, compile_alert_pipeline,
}
use nxs_anomaly.Pipeline.WellFormed.{
  Accepts, Accepts-bind, Accepts-map, IsStage, CondFits, cond_of-fits,
}
use text.Mathlib.TextEquality.{eq_iff}
use nxs_anomaly.Pipeline.Parts.{if_present, max_pipeline_stages}
use nxs_anomaly.Pipeline.Actions.{Made, compile_action-Made}

-- Of the actions that a definition may name, `a` is the only one that it has.
abbrev pub OnlyAction : Fields → String → Type 0
OnlyAction m a =
    (contains a pipeline_actions ≡ true)
    × (present (find a m) ≢ none)
    × ((b : String) → contains b pipeline_actions ≡ true → b ≢ a → present (find b m) ≡ none)

-- `b` is not in the definition, or it is among those found.
abbrev Listed : Fields → String → List String → Type 0
Listed m b found = (present (find b m) ≡ none) ⊎ (contains b found ≡ true)

Listed-at :
    (m : Fields) (b a : String) (acts found : List String) (o : Option Json)
    → present (find a m) ≡ o
    → (contains b acts ≡ true → Listed m b found)
    → contains b (a ∷ acts) ≡ true
    → Listed m b (if_present a o found)
unfolding if_present
Listed-at m b a acts found none e ih h = elim (Bool-cases (a == b)) [
  | inl same ↦ inl (ap (λ k. present (find k m)) (sym (==→eq a b same)) ∙ e)
  | inr other ↦ ih (rw other at h)
]
Listed-at m b a acts found (some v) e ih h = elim (Bool-cases (a == b)) [
  | inl same ↦ inr (rw same refl)
  | inr other ↦ elim (ih (rw other at h)) [ inl gone ↦ inl gone | inr there ↦ inr (rw other there) ]
]

listed :
    (m : Fields) (b : String) (acts : List String)
    → contains b acts ≡ true
    → Listed m b (actions_found m acts)
unfolding actions_found
listed m b [] h = cc
listed m b (a ∷ acts) h =
    Listed-at m b a acts (actions_found m acts) (present (find a m)) refl (listed m b acts) h

abbrev Found : Fields → String → List String → Type 0
Found m b acts = (contains b acts ≡ true) × (present (find b m) ≢ none)

Found-at :
    (m : Fields) (b a : String) (acts found : List String) (o : Option Json)
    → present (find a m) ≡ o
    → (contains b found ≡ true → Found m b acts)
    → contains b (if_present a o found) ≡ true
    → Found m b (a ∷ acts)
unfolding if_present
Found-at m b a acts found none e ih h =
    let (there, has) = ih h in
    (elim (Bool-cases (a == b)) [ inl s ↦ rw s refl | inr n ↦ rw n there ], has)
Found-at m b a acts found (some v) e ih h = elim (Bool-cases (a == b)) [
  | inl same ↦ (
    rw same refl,
    λ gone. none≢some (sym gone ∙ (ap (λ k. present (find k m)) (sym (==→eq a b same)) ∙ e)),
  )
  | inr other ↦ let (there, has) = ih (rw other at h) in (rw other there, has)
]

Found-listed :
    (m : Fields) (b : String) (acts : List String)
    → contains b (actions_found m acts) ≡ true
    → Found m b acts
unfolding actions_found
Found-listed m b [] h = cc
Found-listed m b (a ∷ acts) h =
    Found-at m b a acts (actions_found m acts) (present (find a m)) refl (Found-listed m b acts) h

only_of_found :
    (m : Fields) (a : String) → actions_found m pipeline_actions ≡ a ∷ [] → OnlyAction m a
only_of_found m a e =
    let (known, has) = Found-listed m a pipeline_actions (ap (contains a) e ∙ self) in
    (known, has, other)
  where
    self : contains a (a ∷ []) ≡ true
    self = rw (==_self a) refl

    of_listed :
        (b : String)
        → b ≢ a
        → Listed m b (actions_found m pipeline_actions)
        → present (find b m) ≡ none
    of_listed b ne (inl gone) = gone
    of_listed b ne (inr there) = absurd (alone b ne (sym (ap (contains b) e) ∙ there))
      where
        alone : (b : String) → b ≢ a → contains b (a ∷ []) ≡ true → ⊥
        alone b ne h = ground (arith, eq_iff a b)

    other : (b : String) → contains b pipeline_actions ≡ true → b ≢ a → present (find b m) ≡ none
    other b known ne = of_listed b ne (listed m b pipeline_actions known)

one_action-OnlyAction :
    (m : Fields) (found : List String)
    → actions_found m pipeline_actions ≡ found
    → Accepts (OnlyAction m) (one_action found)
unfolding one_action
one_action-OnlyAction m [] e = tt
one_action-OnlyAction m (a ∷ []) e = only_of_found m a e
one_action-OnlyAction m (a ∷ b ∷ rest) e = tt

-- What is known of a stage that compiles.
pub record IsMade (rx : Regexps) (m : Fields) (st : PipelineStage) : Type 0 where
  pub only : OnlyAction m st.kind
  pub is_stage : IsStage rx st

compile_stage-IsMade : (rx : Regexps) (m : Fields) → Accepts (IsMade rx m) (compile_stage rx m)
unfolding compile_stage bare_stage
compile_stage-IsMade rx m =
    Accepts-bind (CondFits rx) (IsMade rx m) (cond_of rx (present (find "if" m))) _
      (cond_of-fits rx (present (find "if" m)))
      λ c hc.
        Accepts-bind (OnlyAction m) (IsMade rx m) (one_action (actions_found m pipeline_actions)) _
          (one_action-OnlyAction m (actions_found m pipeline_actions) refl)
          λ kind only.
            Accepts-map (Made rx (bare_stage c kind)) (compile_action rx m (bare_stage c kind))
              (compile_action-Made rx m (bare_stage c kind) only.0)
              (λ st h. record {
                only = subst (OnlyAction m) (sym h.same_kind) only;
                is_stage = record { is_cond = λ d e. hc d (sym h.same_cond ∙ e); fits = h.fits };
              })

-- A stage that is accepted is well-formed: its definition has exactly one of the seven actions, and that
-- is its kind; its condition, if it has one, is on a field, makes exactly one test, and its pattern
-- compiles and is within the limit; and its action has what it needs: a field and a pattern of one to 32
-- named groups to extract, pairs to set or rename, names to remove, a field and a pattern to rewrite, a
-- field and a positive limit to truncate, a condition to drop.
pub compile_stage_lem :
    (rx : Regexps) (m : Fields) (st : PipelineStage)
    → compile_stage rx m ≡ accepted st
    → OnlyAction m st.kind × IsStage rx st
compile_stage_lem rx m st e =
    let h = subst (Accepts (IsMade rx m)) e (compile_stage-IsMade rx m) in (h.only, h.is_stage)

abbrev pub AllStages : Regexps → List PipelineStage → Type 0
AllStages rx [] = Unit {0}
AllStages rx (st ∷ rest) = IsStage rx st × AllStages rx rest

abbrev CompiledFits : Regexps → ℕ → Compiled → Type 0
CompiledFits rx n (invalid e) = Unit {0}
CompiledFits rx n (pipeline stages) = AllStages rx stages × (length stages ≤ n)

with_stage-fits :
    (rx : Regexps) (m : Fields) (i n : ℕ) (c : Checked PipelineStage) (rest : Compiled)
    → Accepts (IsMade rx m) c
    → CompiledFits rx n rest
    → CompiledFits rx (suc n) (with_stage i c rest)
unfolding with_stage
with_stage-fits rx m i n (refused e) rest h k = tt
with_stage-fits rx m i n (accepted st) (invalid e) h k = tt
with_stage-fits rx m i n (accepted st) (pipeline stages) h k =
    ((h.is_stage, k.0), omega (arith, k.1))

compile_stages-fits :
    (rx : Regexps) (i : ℕ) (l : List Json) → CompiledFits rx (length l) (compile_stages rx i l)
unfolding compile_stages
compile_stages-fits rx i [] = (tt, omega arith)
compile_stages-fits rx i (object m ∷ rest) =
    with_stage-fits rx m i (length rest) (compile_stage rx m) (compile_stages rx (suc i) rest)
      (compile_stage-IsMade rx m) (compile_stages-fits rx (suc i) rest)
compile_stages-fits rx i (Decoded.null ∷ rest) = tt
compile_stages-fits rx i (Decoded.text s ∷ rest) = tt
compile_stages-fits rx i (Decoded.number n ∷ rest) = tt
compile_stages-fits rx i (Decoded.below n ∷ rest) = tt
compile_stages-fits rx i (Decoded.flag b ∷ rest) = tt
compile_stages-fits rx i (array xs ∷ rest) = tt

-- A pipeline that compiles has at most 32 stages, and each is well-formed: a `drop` has a condition, and
-- no stage has an action that a run would not know.
pub compile_alert_pipeline_lem :
    (rx : Regexps) (raw : Json) (stages : List PipelineStage)
    → compile_alert_pipeline rx raw ≡ pipeline stages
    → AllStages rx stages × (length stages ≤ max_pipeline_stages)
unfolding compile_alert_pipeline
compile_alert_pipeline_lem rx raw stages e =
    subst (CompiledFits rx max_pipeline_stages) e (fits raw)
  where
    widen :
        (n : ℕ) (c : Compiled)
        → n ≤ max_pipeline_stages
        → CompiledFits rx n c
        → CompiledFits rx max_pipeline_stages c
    widen n (pipeline l) h k = (k.0, omega (arith, k.1))
    widen n (invalid x) h k = tt

    fits : (v : Json) → CompiledFits rx max_pipeline_stages (compile_alert_pipeline rx v)
    fits (array xs) = elim (Bool-cases (ltb max_pipeline_stages (length (items xs)))) [
      | inl many ↦ rw many tt
      | inr few ↦ rw few (
          widen (length (items xs)) (compile_stages rx 1 (items xs)) (ground arith)
            (compile_stages-fits rx 1 (items xs)))
    ]
    fits Decoded.null = (tt, omega arith)
    fits (Decoded.text s) = tt
    fits (Decoded.number n) = tt
    fits (Decoded.below n) = tt
    fits (Decoded.flag b) = tt
    fits (object m) = tt

-- ===== src/Pipeline/WellFormed.antt =====
-- What is known of a pipeline that compiles.
use Prim.Native.String
use nxs_anomaly.Base.{
  ◌≤◌, ◌<◌, ◌≡◌, ◌≢◌, refl, sym, ◌⊎◌, inl, inr, String, Bool, true, [], Option, none, some, ltb,
  eqb, ◌==◌, arith, Bool-cases, ne_of_test,
}
use nxs_anomaly.Base.Text.{trim_space, cut_prefix, str_default}
use nxs_anomaly.Base.Decoded
use nxs_anomaly.Base.Decoded.{
  Json, Fields, find, present, array, object, fields, items, print_value, text_val, positive_val,
}
use nxs_anomaly.Pipeline.Document.{Regexps, PipelineField, PipelineCond}
use nxs_anomaly.Pipeline.Stages.{PipelineStage}
use nxs_anomaly.Pipeline.Parts.{
  Checked, accepted, refused, ◌>>=◌, max_pattern_len, max_extracted_labels, compile_regex,
  is_scalar_field, parse_pipeline_field, prefixed_field, field_of, equals_of, matches_of, exists_of,
  count_tests, one_test, compile_cond, cond_of,
}
use nxs_anomaly.Pipeline.Texts.{none≢some}
use mathlib.Core.Path.{subst}
use nxs_anomaly.Pipeline.Compile.{count_named}

-- What is accepted has the property.
abbrev pub Accepts {ℓ} : {A : Type ℓ} → (A → Type 0) → Checked A → Type 0
Accepts P (accepted a) = P a
Accepts P (refused e) = Unit {0}

pub Accepts-bind {ℓ κ} :
    {A : Type ℓ} {B : Type κ} (P : A → Type 0) (Q : B → Type 0) (m : Checked A) (f : A → Checked B)
    → Accepts P m
    → ((a : A) → P a → Accepts Q (f a))
    → Accepts Q (m >>= f)
Accepts-bind P Q (accepted a) f h k = k a h
Accepts-bind P Q (refused e) f h k = tt

pub Accepts-map {ℓ} :
    {A : Type ℓ} (P : A → Type 0) {Q : A → Type 0} (m : Checked A)
    → Accepts P m
    → ((a : A) → P a → Q a)
    → Accepts Q m
Accepts-map P (accepted a) h k = k a h
Accepts-map P (refused e) h k = tt

pub some_inj : {A : Type 0} {a b : A} → some a ≡ some b → a ≡ b
some_inj e = cc

pub Accepts-any {ℓ} : {A : Type ℓ} (m : Checked A) → Accepts (λ a. Unit {0}) m
Accepts-any (accepted a) = tt
Accepts-any (refused e) = tt

-- A field that a stage may address: a label with a name, or one of the three texts.
abbrev pub IsField : PipelineField → Type 0
IsField f = (f.label ≢ "") ⊎ ((f.label ≡ "") × (is_scalar_field f.name ≡ true))

abbrev pub IsPattern : Regexps → String → Type 0
IsPattern rx p = (String.len p ≤ max_pattern_len) × (rx.compiles p ≡ true)

pub record IsCond (rx : Regexps) (c : PipelineCond) : Type 0 where
  pub is_field : IsField c.field
  pub one : count_tests c ≡ 1
  pub is_pattern : (re : String) → c.matches ≡ some re → IsPattern rx re

-- The action of a stage has what it needs.
pub data Fits (rx : Regexps) (st : PipelineStage) : Type 0 where
  extracts :
      st.kind ≡ "extract"
      → IsField st.from
      → IsPattern rx st.pattern
      → 0 < count_named (rx.subexp_names st.pattern)
      → count_named (rx.subexp_names st.pattern) ≤ max_extracted_labels
      → Fits rx st
  pairs_up : ((st.kind ≡ "set") ⊎ (st.kind ≡ "rename")) → st.pairs ≢ [] → Fits rx st
  removes : st.kind ≡ "remove" → st.names ≢ [] → Fits rx st
  rewrites : st.kind ≡ "gsub" → IsField st.field → IsPattern rx st.pattern → Fits rx st
  truncates : st.kind ≡ "truncate" → IsField st.field → 0 < st.max → Fits rx st
  drops : st.kind ≡ "drop" → (c : PipelineCond) → st.cond ≡ some c → Fits rx st

pub record IsStage (rx : Regexps) (st : PipelineStage) : Type 0 where
  pub is_cond : (c : PipelineCond) → st.cond ≡ some c → IsCond rx c
  pub fits : Fits rx st

module _ (rx : Regexps) where
  pub compile_regex-IsPattern : (p : String) → Accepts (IsPattern rx) (compile_regex rx p)
  unfolding compile_regex
  compile_regex-IsPattern p = elim (Bool-cases (ltb max_pattern_len (String.len p))) [
    | inl long ↦ rw long tt
    | inr short ↦ elim (Bool-cases (rx.compiles p)) [
      | inl good ↦ rw (short, good) (ground arith, good)
      | inr bad ↦ rw (short, bad) tt
    ]
  ]

  prefixed_field-IsField : (s : String) (o : Option String) → Accepts IsField (prefixed_field s o)
  unfolding prefixed_field
  prefixed_field-IsField s (some rest) = elim (Bool-cases (trim_space rest == "")) [
    | inl empty ↦ rw empty tt
    | inr named ↦ rw named (inl (ne_of_test named))
  ]
  prefixed_field-IsField s none = elim (Bool-cases (is_scalar_field s)) [
    | inl known ↦ rw known (inr (refl, known))
    | inr other ↦ rw other tt
  ]

  parse_pipeline_field-IsField : (s : String) → Accepts IsField (parse_pipeline_field s)
  unfolding parse_pipeline_field
  parse_pipeline_field-IsField s =
      prefixed_field-IsField (trim_space s) (cut_prefix "label:" (trim_space s))

  pub field_of-IsField : (spec : Fields) (key : String) → Accepts IsField (field_of spec key)
  unfolding field_of
  field_of-IsField spec key = parse_pipeline_field-IsField (str_default (text_val spec key) "title")

  one_test-one : (c : PipelineCond) → Accepts (λ d. (d ≡ c) × (count_tests c ≡ 1)) (one_test c)
  unfolding one_test
  one_test-one c = elim (Bool-cases (eqb (count_tests c) 0)) [
    | inl z ↦ rw z tt
    | inr nz ↦ elim (Bool-cases (ltb 1 (count_tests c))) [
      | inl many ↦ rw (nz, many) tt
      | inr few ↦ rw (nz, few) (refl, ground arith)
    ]
  ]

  abbrev MatchesFit : Option String → Type 0
  MatchesFit o = (re : String) → o ≡ some re → IsPattern rx re

  matches_of-fits : (o : Option Json) → Accepts MatchesFit (matches_of rx o)
  unfolding matches_of
  matches_of-fits none = λ re e. absurd (none≢some e)
  matches_of-fits (some v) =
      Accepts-bind (IsPattern rx) MatchesFit (compile_regex rx (print_value v)) _
        (compile_regex-IsPattern (print_value v)) (λ p h re e. subst (IsPattern rx) (some_inj e) h)

  IsCond-fits :
      (f : PipelineField) (eq : Option String) (re : Option String) (ex : Option Bool)
      → IsField f
      → MatchesFit re
      → Accepts
          (IsCond rx)
          (one_test (record { field = f; equals = eq; matches = re; exists = ex }))
  IsCond-fits f eq re ex hf hm =
      Accepts-map _ (one_test (record { field = f; equals = eq; matches = re; exists = ex }))
        (one_test-one (record { field = f; equals = eq; matches = re; exists = ex }))
        λ d (e, one).
          subst (IsCond rx) (sym e) (record { is_field = hf; one = one; is_pattern = hm })

  compile_cond-IsCond : (v : Json) → Accepts (IsCond rx) (compile_cond rx v)
  unfolding compile_cond
  compile_cond-IsCond (object m) =
      Accepts-bind IsField (IsCond rx) (field_of m "field") _ (field_of-IsField m "field") λ f hf.
        Accepts-bind MatchesFit (IsCond rx) (matches_of rx (present (find "matches" m))) _
          (matches_of-fits (present (find "matches" m)))
          (λ re hm.
            IsCond-fits f (equals_of (present (find "equals" m))) re
              (exists_of m (present (find "exists" m))) hf hm)
  compile_cond-IsCond Decoded.null = tt
  compile_cond-IsCond (Decoded.text s) = tt
  compile_cond-IsCond (Decoded.number n) = tt
  compile_cond-IsCond (Decoded.below n) = tt
  compile_cond-IsCond (Decoded.flag b) = tt
  compile_cond-IsCond (array xs) = tt

  abbrev pub CondFits : Option PipelineCond → Type 0
  CondFits o = (c : PipelineCond) → o ≡ some c → IsCond rx c

  pub cond_of-fits : (o : Option Json) → Accepts CondFits (cond_of rx o)
  unfolding cond_of
  cond_of-fits none = λ c e. absurd (none≢some e)
  cond_of-fits (some v) =
      Accepts-bind (IsCond rx) CondFits (compile_cond rx v) _ (compile_cond-IsCond v)
        (λ d h c e. subst (IsCond rx) (some_inj e) h)

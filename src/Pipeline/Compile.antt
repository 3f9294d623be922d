-- ===== src/Pipeline/Compile.antt =====
-- internal/engine/pipeline.go: `CompileAlertPipeline` and `compileStage`, which validate the definition of
-- a pipeline and compile it.
use nxs_anomaly.Base.{
  ℕ, suc, String, ◌||◌, List, [], ◌∷◌, Option, none, some, ltb, leb, eqb, ◌==◌, if◌then◌else◌,
  length, map,
}
use nxs_anomaly.Base.Text.{trim_space, trim_prefix}
use nxs_anomaly.Base.Decoded
use nxs_anomaly.Base.Decoded.{
  Json, null, text, number, below, flag, array, object, Fields, items, fields, find, present,
  print_value, text_val, positive_val,
}
use nxs_anomaly.Pipeline.Document.{Regexps, PipelineField, PipelineCond}
use nxs_anomaly.Pipeline.Stages.{PipelineStage}
use nxs_anomaly.Pipeline.Parts.{
  StageError, pattern_required, not_object, no_named_groups, many_groups, no_pairs,
  empty_label_name, remove_not_names, max_not_positive, drop_needs_if, Checked, accepted, refused,
  ◌>>=◌, max_extracted_labels, max_pipeline_stages, compile_regex, field_of, cond_of,
  pipeline_actions, actions_found, one_action,
}

no_field : PipelineField
no_field = record { label = ""; name = "" }

-- The zero value of a stage, with its condition and its kind.
unfoldable pub bare_stage : Option PipelineCond → String → PipelineStage
unfolding no_field
bare_stage c kind = record {
  cond = c;
  kind = kind;
  from = no_field;
  pattern = "";
  pairs = [];
  names = [];
  field = no_field;
  replace = "";
  max = 0;
}

unfoldable pub object_of : String → Option Json → Checked Fields
object_of kind (some (object m)) = accepted m
object_of kind _ = refused (not_object kind)

unfoldable pub pattern_of : Regexps → Fields → Checked String
unfolding compile_regex
pattern_of rx spec =
    if text_val spec "pattern" == ""
    then refused pattern_required
    else compile_regex rx (text_val spec "pattern")

unfoldable pub count_named : List String → ℕ
count_named [] = 0
count_named (n ∷ ns) = let rest = count_named ns in if n == "" then rest else suc rest

unfoldable pub groups_of : Regexps → PipelineStage → Checked PipelineStage
groups_of rx st =
    let named = count_named (rx.subexp_names st.pattern) in
    if eqb named 0
    then refused no_named_groups
    else if ltb max_extracted_labels named
    then refused (many_groups named)
    else accepted st

unfoldable pub compile_extract : Regexps → PipelineStage → Fields → Checked PipelineStage
unfolding pattern_of groups_of
compile_extract rx st spec = do
  f ← field_of spec "from"
  re ← pattern_of rx spec
  groups_of rx (record st { from = f; pattern = re })

-- `st.pairs[name] = v`.
unfoldable pub put_pair : String → String → List (String × String) → List (String × String)
put_pair k v [] = (k, v) ∷ []
put_pair k v ((j, w) ∷ rest) = if j == k then (k, v) ∷ rest else (j, w) ∷ put_pair k v rest

unfoldable pub label_name : String → String
label_name k = trim_prefix "label:" (trim_space k)

unfoldable pub add_pair :
    String → String → String → List (String × String) → Checked (List (String × String))
unfolding put_pair
add_pair kind name v pairs =
    if name == "" then refused (empty_label_name kind) else accepted (put_pair name v pairs)

unfoldable pub read_pairs :
    String → List (String × Json) → List (String × String) → Checked (List (String × String))
unfolding add_pair label_name
read_pairs kind [] pairs = accepted pairs
read_pairs kind ((k, v) ∷ rest) pairs =
    add_pair kind (label_name k) (print_value v) pairs >>= read_pairs kind rest

unfoldable pub compile_pairs : String → PipelineStage → List (String × Json) → Checked PipelineStage
unfolding read_pairs
compile_pairs kind st [] = refused (no_pairs kind)
compile_pairs kind st (p ∷ rest) =
    read_pairs kind (p ∷ rest) [] >>= λ pairs. accepted (record st { pairs = pairs })

unfoldable pub compile_remove : PipelineStage → Option Json → Checked PipelineStage
unfolding label_name
compile_remove st (some (array (Decoded.cons x xs))) =
    accepted (record st { names = map (λ v. label_name (print_value v)) (x ∷ items xs) })
compile_remove st _ = refused remove_not_names

unfoldable pub compile_gsub : Regexps → PipelineStage → Fields → Checked PipelineStage
unfolding pattern_of
compile_gsub rx st spec = do
  f ← field_of spec "field"
  re ← pattern_of rx spec
  accepted (record st { field = f; pattern = re; replace = text_val spec "replace" })

unfoldable pub positive_max : PipelineStage → Checked PipelineStage
positive_max st = if leb st.max 0 then refused max_not_positive else accepted st

unfoldable pub compile_truncate : PipelineStage → Fields → Checked PipelineStage
unfolding positive_max
compile_truncate st spec = field_of spec "field" >>= λ f.
    positive_max (record st { field = f; max = positive_val spec "max" })

unfoldable pub compile_drop : PipelineStage → Option PipelineCond → Checked PipelineStage
compile_drop st none = refused drop_needs_if
compile_drop st (some c) = accepted st

-- The body of one action.
unfoldable pub compile_action : Regexps → Fields → PipelineStage → Checked PipelineStage
unfolding object_of compile_extract compile_pairs compile_remove compile_gsub compile_truncate
    compile_drop
compile_action rx m st =
    if st.kind == "extract"
    then object_of "extract" (find "extract" m) >>= compile_extract rx st
    else if st.kind == "set" || st.kind == "rename"
    then object_of st.kind (find st.kind m) >>= (λ spec. compile_pairs st.kind st (fields spec))
    else if st.kind == "remove"
    then compile_remove st (find "remove" m)
    else if st.kind == "gsub"
    then object_of "gsub" (find "gsub" m) >>= compile_gsub rx st
    else if st.kind == "truncate"
    then object_of "truncate" (find "truncate" m) >>= compile_truncate st
    else if st.kind == "drop"
    then compile_drop st st.cond
    else accepted st

unfoldable pub compile_stage : Regexps → Fields → Checked PipelineStage
unfolding compile_action bare_stage
compile_stage rx m = do
  c ← cond_of rx (present (find "if" m))
  kind ← one_action (actions_found m pipeline_actions)
  compile_action rx m (bare_stage c kind)

-- Why a definition is refused, with the number of the stage.
pub data PipelineError : Type 0 where
  not_a_list stage_not_object : PipelineError
  too_many_stages : ℕ → PipelineError
  bad_stage : ℕ → StageError → PipelineError

pub data Compiled : Type 0 where
  pipeline : List PipelineStage → Compiled
  invalid : PipelineError → Compiled

unfoldable pub with_stage : ℕ → Checked PipelineStage → Compiled → Compiled
with_stage i (refused e) rest = invalid (bad_stage i e)
with_stage i (accepted st) (invalid e) = invalid e
with_stage i (accepted st) (pipeline stages) = pipeline (st ∷ stages)

unfoldable pub compile_stages : Regexps → ℕ → List Json → Compiled
unfolding with_stage
compile_stages rx i [] = pipeline []
compile_stages rx i (object m ∷ rest) =
    with_stage i (compile_stage rx m) (compile_stages rx (suc i) rest)
compile_stages rx i (_ ∷ rest) = invalid stage_not_object

-- `CompileAlertPipeline`; the nil pipeline has no stages.
unfoldable pub compile_alert_pipeline : Regexps → Json → Compiled
unfolding compile_stages
compile_alert_pipeline rx null = pipeline []
compile_alert_pipeline rx (array xs) =
    if ltb max_pipeline_stages (length (items xs))
    then invalid (too_many_stages (length (items xs)))
    else compile_stages rx 1 (items xs)
compile_alert_pipeline rx _ = invalid not_a_list

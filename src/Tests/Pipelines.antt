-- ===== src/Tests/Pipelines.antt =====
-- Pipelines over concrete alerts.
use nxs_anomaly.Base.{
  ◌≡◌, refl, ◌≢◌, ◌↔◌, String, true, not, [], ◌∷◌, Option, none, some, arith, ne_of_test, ◌==◌,
  if◌then◌else◌, List,
}
use nxs_anomaly.Base.Text.{cut, decimal, cut_prefix, trim_space, trim_prefix}
use nxs_anomaly.Base.Decoded.{
  text_val, print_value, find, present, Json, text, flag, array, object, nil, cons, Fields, end,
  field,
}
use nxs_anomaly.Pipeline.Document.{
  Regexps, PipelineField, Labels, put_label, PipelineDoc, PipelineCond, returns, panics, label_at,
  get, eval,
}
use nxs_anomaly.Pipeline.Stages.{PipelineStage, applied, apply_stage}
use nxs_anomaly.Pipeline.Run.{PipelineResult, apply}
use nxs_anomaly.Pipeline.Goes.{Reaches}
use nxs_anomaly.Pipeline.Drops.{apply_drops_iff}
use nxs_anomaly.Pipeline.Parts.{cond_of, equals_of, exists_of, one_action, actions_found}
use nxs_anomaly.Pipeline.Compile.{compile_stage, compile_alert_pipeline}
use nxs_anomaly.Pipeline.WellFormed.{IsStage}
use nxs_anomaly.Pipeline.Accepted.{OnlyAction, compile_stage_lem}
use nxs_anomaly.Pipeline.Texts.{IsCut, truncate_lem}
use nxs_anomaly.Pipeline.Labels.{Extends, labels_after, extract_keeps, rename_order}
use nxs_anomaly.Pipeline.Payload.{
  fingerprint, Cache, compiled_pipeline, no_labels, not_object, Payload, Outcome,
  apply_alert_pipeline,
}
use nxs_anomaly.Pipeline.Cached.{
  IsCache, two_labels, one_label, compiled_pipeline_lem, edit_ignored,
}
use nxs_anomaly.Pipeline.Writes.{Spares, apply_alert_pipeline-Spares, not_object_panics}

-- Every pattern has one group `host`, and matches a text that it equals, whole.
abbrev pub literal : Regexps
literal = record {
  compiles = λ p. not (p == "(");
  subexp_names = λ p. "" ∷ "host" ∷ [];
  match_string = λ p s. p == s;
  find_submatch = λ p s. some (s ∷ s ∷ []);
  replace_all = λ p s by. by;
}

abbrev title : PipelineField
title = record { label = ""; name = "title" }

abbrev severity : PipelineField
severity = record { label = ""; name = "severity" }

abbrev team : Labels
team j = if j == "team" then some "db" else none

abbrev disk_full : PipelineDoc
disk_full = record { title = "disk full"; message = ""; severity = "info"; labels = some team }

abbrev stage : String → PipelineStage
stage kind = record {
  cond = none;
  kind = kind;
  from = title;
  pattern = "";
  pairs = [];
  names = [];
  field = title;
  replace = "";
  max = 4;
}

abbrev of_info : PipelineCond
of_info = record { field = severity; equals = some "info"; matches = none; exists = none }

abbrev drops_info : PipelineStage
drops_info = record (stage "drop") { cond = some of_info }

abbrev cuts_title : PipelineStage
cuts_title = stage "truncate"

abbrev cut_title : PipelineDoc
cut_title = record disk_full { title = "disk" }

abbrev result : PipelineResult
result = record { dropped = true; steps = "1:truncate" ∷ "2:drop" ∷ []; doc = cut_title }

truncated_then_dropped : apply literal (cuts_title ∷ drops_info ∷ []) disk_full ≡ returns result
unfolding apply decimal
truncated_then_dropped = refl

apply_drops_iff_example : (true ≡ true) ↔ Reaches literal 0 (cuts_title ∷ drops_info ∷ []) disk_full
apply_drops_iff_example =
    apply_drops_iff literal (cuts_title ∷ drops_info ∷ []) disk_full result truncated_then_dropped

truncate_lem_example :
    (e : PipelineDoc) × (apply_stage literal cuts_title disk_full ≡ returns (applied true e))
    × (get title e ≡ some (cut 4 "disk full"))
    × IsCut 4 "disk full" (cut 4 "disk full")
unfolding get
truncate_lem_example = truncate_lem literal cuts_title disk_full "disk full" refl refl (omega arith)

abbrev with_host : PipelineDoc
with_host = record disk_full { labels = some (put_label "host" "disk full" team) }

extract_keeps_example : Extends disk_full with_host
unfolding apply_stage
extract_keeps_example = extract_keeps literal (stage "extract") disk_full with_host true refl refl

abbrev renames : List (String × String) → PipelineStage
renames pairs = record (stage "rename") { pairs = pairs }

abbrev forth : PipelineStage
forth = renames (("team", "owner") ∷ ("owner", "squad") ∷ [])

abbrev back : PipelineStage
back = renames (("owner", "squad") ∷ ("team", "owner") ∷ [])

rename_order_example :
    (label_at (labels_after (apply_stage literal forth disk_full)) "owner" ≡ none)
    × (label_at (labels_after (apply_stage literal back disk_full)) "owner" ≡ some "db")
rename_order_example =
    rename_order literal forth back "team" "owner" "squad" "db" disk_full team refl refl refl refl
      (ne_of_test refl) (ne_of_test refl) (ne_of_test refl) refl refl

abbrev compiled : String → PipelineStage
compiled kind = record {
  cond = none;
  kind = kind;
  from = record { label = ""; name = "" };
  pattern = "";
  pairs = [];
  names = [];
  field = record { label = ""; name = "" };
  replace = "";
  max = 0;
}

abbrev drops_info_compiled : PipelineStage
drops_info_compiled = record (compiled "drop") { cond = some of_info }

abbrev zone_stage : PipelineStage
zone_stage = record (compiled "set") { pairs = ("zone", "a") ∷ [] }

-- A stage that drops alerts of severity info.
abbrev drop_definition : Fields
drop_definition =
    field "drop" (flag true)
      (field "if" (object (field "equals" (text "info") (field "field" (text "severity") end))) end)

compile_stage_lem_example : OnlyAction drop_definition "drop" × IsStage literal drops_info_compiled
unfolding compile_stage cond_of present find cut_prefix trim_space text_val equals_of exists_of
    one_action actions_found
compile_stage_lem_example = compile_stage_lem literal drop_definition drops_info_compiled refl

abbrev no_cache : Cache
no_cache id = none

no_cache-IsCache : IsCache literal no_cache
no_cache-IsCache id c e = cc

compiled_pipeline_lem_example :
    IsCache literal (compiled_pipeline literal "int_1" (one_label "a" "b" "c" "d") no_cache).1
    × ((from : Json) × (fingerprint from ≡ fingerprint (one_label "a" "b" "c" "d"))
        × ((compiled_pipeline literal "int_1" (one_label "a" "b" "c" "d") no_cache).0
            ≡ compile_alert_pipeline literal from))
compiled_pipeline_lem_example =
    compiled_pipeline_lem literal "int_1" (one_label "a" "b" "c" "d") no_cache no_cache-IsCache

edit_ignored_example :
    (compiled_pipeline literal "int_1"
      (one_label "team" "db" "zone" "a")
      (compiled_pipeline literal "int_1" (two_labels "team" "db" "zone" "a") no_cache).1).0
    ≡ compile_alert_pipeline literal (two_labels "team" "db" "zone" "a")
edit_ignored_example = edit_ignored literal "int_1" "team" "db" "zone" "a" no_cache refl

-- An integration whose pipeline sets the label `zone`.
abbrev sets_zone : Json
sets_zone = array (cons (object (field "set" (object (field "zone" (text "a") end)) end)) nil)

abbrev integration : Fields
integration = field "id" (text "int_1") (field "pipeline" sets_zone end)

abbrev titled : String → Option Json
titled k = if k == "title" then some (text "disk full") else none

abbrev alert : Payload
alert = record { values = titled; labels = no_labels }

apply_alert_pipeline-Spares_example :
    (o : Outcome) × (after : Cache) × (apply_alert_pipeline literal integration alert no_cache
      ≡ returns (o, after))
    × Spares alert o
apply_alert_pipeline-Spares_example =
    apply_alert_pipeline-Spares literal integration alert no_cache no_labels≢not_object
  where
    no_labels≢not_object : no_labels ≢ not_object
    no_labels≢not_object e = cc

not_object_panics_example :
    apply_alert_pipeline literal integration (record alert { labels = not_object }) no_cache
    ≡ panics
unfolding compiled_pipeline compile_alert_pipeline eval present find compile_stage cond_of
    one_action actions_found trim_prefix trim_space print_value
not_object_panics_example =
    not_object_panics literal integration sets_zone (record alert { labels = not_object }) no_cache
      zone_stage [] refl refl refl refl refl refl

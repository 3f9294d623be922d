-- ===== src/Pipeline/Payload.antt =====
-- internal/engine/pipeline.go: `applyAlertPipeline`, which runs the pipeline of an integration over the
-- payload of an alert, and `compiledPipeline`, its cache with one entry for each integration.
use nxs_anomaly.Base.{String, not, ◌&&◌, ◌||◌, [], ◌∷◌, Option, none, some, ◌==◌, if◌then◌else◌}
use nxs_anomaly.Base.Text.{concat}
use nxs_anomaly.Base.Decoded.{
  Json, text, array, object, Items, nil, cons, Fields, end, field, find, present, print_value,
  scalar_text, text_val,
}
use nxs_anomaly.Pipeline.Document.{Regexps, Labels, label_at, PipelineDoc, Panics, returns, ◌>>=◌}
use nxs_anomaly.Pipeline.Run.{PipelineResult, apply}
use nxs_anomaly.Pipeline.Compile.{Compiled, pipeline, invalid, compile_alert_pipeline}

-- `fingerprintPipeline`.
unfoldable mutual
  unfolding print_value

  pub fingerprint : Json → String
  fingerprint (object fs) = concat ("{" ∷ fingerprint_fields fs ∷ "}" ∷ [])
  fingerprint (array xs) = concat ("[" ∷ fingerprint_items xs ∷ "]" ∷ [])
  fingerprint v = print_value v

  pub fingerprint_items : Items → String
  fingerprint_items nil = ""
  fingerprint_items (cons x xs) = concat (fingerprint x ∷ "," ∷ fingerprint_items xs ∷ [])

  pub fingerprint_fields : Fields → String
  fingerprint_fields end = ""
  fingerprint_fields (field k v fs) =
      concat (k ∷ ":" ∷ fingerprint v ∷ "," ∷ fingerprint_fields fs ∷ [])

-- `cachedPipeline`.
pub record CachedPipeline : Type 0 where
  pub mark : String
  pub compiled : Compiled

-- `pipelineCompileCache`, by the id of the integration.
abbrev pub Cache : Type 0
Cache = String → Option CachedPipeline

-- `pipelineCompileCache.Store`.
abbrev pub store : String → CachedPipeline → Cache → Cache
store id c cache j = if id == j then some c else cache j

unfoldable pub compile_anew : Regexps → String → Json → Cache → Compiled × Cache
compile_anew rx id raw cache =
    let c = compile_alert_pipeline rx raw in
    (c, store id (record { mark = fingerprint raw; compiled = c }) cache)

unfoldable pub cached_or :
    Regexps → String → Json → Cache → Option CachedPipeline → Compiled × Cache
unfolding compile_anew
cached_or rx id raw cache none = compile_anew rx id raw cache
cached_or rx id raw cache (some c) =
    if c.mark == fingerprint raw then (c.compiled, cache) else compile_anew rx id raw cache

-- `compiledPipeline`.
unfoldable pub compiled_pipeline : Regexps → String → Json → Cache → Compiled × Cache
unfolding cached_or
compiled_pipeline rx id raw cache = cached_or rx id raw cache (cache id)

-- `payload["labels"]`: absent or nil, an object, or some other value.
pub data RawLabels : Type 0 where
  no_labels : RawLabels
  label_object : (String → Option Json) → RawLabels
  not_object : RawLabels

-- The payload of an alert.
pub record Payload : Type 0 where
  pub values : String → Option Json
  pub labels : RawLabels

unfoldable pub coerced : Option Json → Option String
coerced none = none
coerced (some v) = some (scalar_text v)

-- `CoerceLabelMap`, with its error dropped: the map is nil then.
unfoldable pub coerce_label_map : RawLabels → Option Labels
unfolding coerced
coerce_label_map no_labels = some (λ k. none)
coerce_label_map (label_object m) = some (λ k. coerced (m k))
coerce_label_map not_object = none

unfoldable pub as_text : Option String → Option Json
as_text none = none
as_text (some s) = some (text s)

-- `labelsAny`.
unfoldable pub labels_any : Option Labels → RawLabels
unfolding as_text
labels_any none = label_object (λ k. none)
labels_any (some m) = label_object (λ k. as_text (m k))

unfoldable pub value_text : Option Json → String
value_text none = ""
value_text (some v) = scalar_text v

or_blank : Option String → String
or_blank none = ""
or_blank (some s) = s

unfoldable pub doc_of_payload : Payload → PipelineDoc
unfolding value_text coerce_label_map
doc_of_payload p = record {
  title = value_text (p.values "title");
  message = value_text (p.values "message");
  severity = value_text (p.values "severity");
  labels = coerce_label_map p.labels;
}

-- `payload[key] = v`, where the pipeline left a text.
unfoldable pub write_text : String → String → (String → Option Json) → String → Option Json
write_text key s values j = if not (s == "") && key == j then some (text s) else values j

unfoldable pub severity_after : Option Labels → PipelineDoc → String
unfolding or_blank
severity_after before d =
    let after = or_blank (label_at d.labels "severity") in
    if after == "" || after == or_blank (label_at before "severity") then "" else after

unfoldable pub write_back : Option Labels → PipelineDoc → Payload → Payload
unfolding write_text severity_after labels_any
write_back before d p = record {
  values = write_text "severity" (severity_after before d) (
      write_text "severity" d.severity
        (write_text "message" d.message (write_text "title" d.title p.values)));
  labels = labels_any d.labels;
}

-- What `applyAlertPipeline` does to the payload: it drops the alert, or leaves a payload.
pub data Outcome : Type 0 where
  dropped : Outcome
  leaves : Payload → Outcome

unfoldable pub after_run : Payload → PipelineResult → Outcome
unfolding write_back coerce_label_map
after_run p r =
    if r.dropped then dropped else leaves (write_back (coerce_label_map p.labels) r.doc p)

unfoldable pub run_compiled : Regexps → Payload → Compiled → Panics Outcome
unfolding after_run doc_of_payload
run_compiled rx p (invalid e) = returns (leaves p)
run_compiled rx p (pipeline []) = returns (leaves p)
run_compiled rx p (pipeline (st ∷ rest)) =
    apply rx (st ∷ rest) (doc_of_payload p) >>= λ r. returns (after_run p r)

unfoldable pub run_raw : Regexps → String → Payload → Cache → Option Json → Panics (Outcome × Cache)
unfolding run_compiled
run_raw rx id p cache none = returns (leaves p, cache)
run_raw rx id p cache (some raw) =
    let (c, cache') = compiled_pipeline rx id raw cache in
    run_compiled rx p c >>= λ o. returns (o, cache')

-- `applyAlertPipeline`.
unfoldable pub apply_alert_pipeline : Regexps → Fields → Payload → Cache → Panics (Outcome × Cache)
unfolding run_raw
apply_alert_pipeline rx integration p cache =
    run_raw rx (text_val integration "id") p cache (present (find "pipeline" integration))

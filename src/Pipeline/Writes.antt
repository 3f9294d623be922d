-- ===== src/Pipeline/Writes.antt =====
-- What a pipeline may change of the payload of an alert, and the labels on which it panics.
use nxs_anomaly.Base.{
  ◌≡◌, ◌≢◌, refl, ap, ◌∙◌, String, true, List, [], ◌∷◌, Option, none, some, if_cases, arith,
}
use package.text.Mathlib.TextEquality.{eq_iff}
use nxs_anomaly.Base.Decoded.{Json, Fields, find, present, text_val}
use nxs_anomaly.Pipeline.Document.{
  Regexps, Labels, PipelineDoc, Panics, returns, panics, eval, ◌>>=◌,
}
use nxs_anomaly.Pipeline.Stages.{PipelineStage}
use nxs_anomaly.Pipeline.Run.{PipelineResult}
use nxs_anomaly.Pipeline.Kept.{HasLabels}
use nxs_anomaly.Pipeline.Safe.{apply_lem, set_on_nil_panics}
use nxs_anomaly.Pipeline.Compile.{Compiled, pipeline, invalid}
use nxs_anomaly.Pipeline.Payload.{
  Cache, compiled_pipeline, RawLabels, no_labels, label_object, not_object, Payload,
  coerce_label_map, labels_any, doc_of_payload, write_text, write_back, Outcome, dropped, leaves,
  after_run, run_compiled, run_raw, apply_alert_pipeline, severity_after,
}

-- The alert is dropped, or it keeps everything but its title, message, severity and labels.
pub data Spares (p : Payload) : Outcome → Type 0 where
  drops : Spares p dropped
  spares :
      (q : Payload)
      → ((key : String)
          → key ≢ "title"
          → key ≢ "message"
          → key ≢ "severity"
          → q.values key ≡ p.values key)
      → q.labels ≢ not_object
      → Spares p (leaves q)

write_text_other :
    (key s : String) (values : String → Option Json) (j : String)
    → j ≢ key
    → write_text key s values j ≡ values j
unfolding write_text
write_text_other key s values j ne = ground (arith, eq_iff key j)

labels_any-ne : (m : Option Labels) → labels_any m ≢ not_object
unfolding labels_any
labels_any-ne none = λ e. cc
labels_any-ne (some m) = λ e. cc

write_back-Spares :
    (before : Option Labels) (d : PipelineDoc) (p : Payload)
    → Spares p (leaves (write_back before d p))
unfolding write_back
write_back-Spares before d p = spares (write_back before d p) kept (labels_any-ne d.labels)
  where
    kept :
        (key : String)
        → key ≢ "title"
        → key ≢ "message"
        → key ≢ "severity"
        → (write_back before d p).values key ≡ p.values key
    kept key t m s =
        let titled = write_text "title" d.title p.values in
        let messaged = write_text "message" d.message titled in
        let rated = write_text "severity" d.severity messaged in
        write_text_other "severity" (severity_after before d) rated key s
        ∙ (write_text_other "severity" d.severity messaged key s
            ∙ (write_text_other "message" d.message titled key m
                ∙ write_text_other "title" d.title p.values key t))

after_run-Spares : (p : Payload) (r : PipelineResult) → Spares p (after_run p r)
unfolding after_run
after_run-Spares p r =
    if_cases (Spares p) r.dropped (λ _. drops)
      (λ _. write_back-Spares (coerce_label_map p.labels) r.doc p)

Spares-all : (p : Payload) → p.labels ≢ not_object → Spares p (leaves p)
Spares-all p h = spares p (λ key t m s. refl) h

doc_of_payload-HasLabels : (p : Payload) → p.labels ≢ not_object → HasLabels (doc_of_payload p)
unfolding doc_of_payload coerce_label_map
doc_of_payload-HasLabels p h = of_raw p.labels h
  where
    of_raw : (l : RawLabels) → l ≢ not_object → (m : Labels) × (coerce_label_map l ≡ some m)
    of_raw no_labels h = (λ k. none, refl)
    of_raw (label_object m) h = (_, refl)
    of_raw not_object h = absurd (h refl)

abbrev Safe : Payload → Panics Outcome → Type 0
Safe p m = (o : Outcome) × (m ≡ returns o) × Spares p o

run_compiled-Safe :
    (rx : Regexps) (p : Payload) (c : Compiled)
    → p.labels ≢ not_object
    → Safe p (run_compiled rx p c)
unfolding run_compiled
run_compiled-Safe rx p (invalid e) h = (leaves p, refl, Spares-all p h)
run_compiled-Safe rx p (pipeline []) h = (leaves p, refl, Spares-all p h)
run_compiled-Safe rx p (pipeline (st ∷ rest)) h =
    let (r, runs, _) = apply_lem rx (st ∷ rest) (doc_of_payload p) (doc_of_payload-HasLabels p h) in
    (after_run p r, ap (λ m. m >>= λ r. returns (after_run p r)) runs, after_run-Spares p r)

run_raw-Safe :
    (rx : Regexps) (id : String) (p : Payload) (cache : Cache) (raw : Option Json)
    → p.labels ≢ not_object
    → (o : Outcome) × (after : Cache) × (run_raw rx id p cache raw ≡ returns (o, after))
      × Spares p o
unfolding run_raw
run_raw-Safe rx id p cache none h = (leaves p, cache, refl, Spares-all p h)
run_raw-Safe rx id p cache (some raw) h =
    let (o, runs, kept) = run_compiled-Safe rx p (compiled_pipeline rx id raw cache).0 h in
    (
      o,
      (compiled_pipeline rx id raw cache).1,
      ap (λ m. m >>= λ o. returns (o, (compiled_pipeline rx id raw cache).1)) runs,
      kept,
    )

-- Of an alert whose labels are absent or an object, the pipeline of an integration never panics, whatever
-- its definition and the state of the cache: it drops the alert, or leaves a payload that differs at
-- most in its title, message, severity and labels, and whose labels are again absent or an object.
pub apply_alert_pipeline-Spares :
    (rx : Regexps) (integration : Fields) (p : Payload) (cache : Cache)
    → p.labels ≢ not_object
    → (o : Outcome) × (after : Cache) × (apply_alert_pipeline rx integration p cache
        ≡ returns (o, after))
      × Spares p o
unfolding apply_alert_pipeline
apply_alert_pipeline-Spares rx integration p cache h =
    run_raw-Safe rx (text_val integration "id") p cache (present (find "pipeline" integration)) h

nil_labels : (p : Payload) → p.labels ≡ not_object → (doc_of_payload p).labels ≡ none
unfolding doc_of_payload coerce_label_map
nil_labels p bad = rw bad refl

-- An alert whose labels are no object panics in a pipeline that starts with a `set` stage whose condition
-- holds: the map that it writes to is nil.
pub not_object_panics :
    (rx : Regexps) (integration : Fields) (raw : Json) (p : Payload) (cache : Cache)
    (st : PipelineStage) (rest : List PipelineStage) {q : String × String}
    {qs : List (String × String)}
    → present (find "pipeline" integration) ≡ some raw
    → (compiled_pipeline rx (text_val integration "id") raw cache).0 ≡ pipeline (st ∷ rest)
    → st.kind ≡ "set"
    → st.pairs ≡ q ∷ qs
    → eval rx st.cond (doc_of_payload p) ≡ true
    → p.labels ≡ not_object
    → apply_alert_pipeline rx integration p cache ≡ panics
unfolding apply_alert_pipeline run_raw run_compiled
not_object_panics rx integration raw p cache st rest has compiled kind pairs runs bad =
    rw
      (
        has,
        compiled,
        set_on_nil_panics rx st rest (doc_of_payload p) kind pairs (nil_labels p bad) runs,
      )
      refl

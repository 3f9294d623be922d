-- ===== src/Pipeline/Stages.antt =====
-- internal/engine/pipeline.go: the stages of a pipeline, and what one does to the document.
use Prim.Native.String
use nxs_anomaly.Base.{
  ℕ, String, Bool, true, false, ◌||◌, List, [], ◌∷◌, Option, none, some, leb, ltb, ◌==◌,
  if◌then◌else◌,
}
use nxs_anomaly.Base.Text.{cut}
use nxs_anomaly.Pipeline.Document.{
  Regexps, PipelineField, Labels, put_label, delete_label, PipelineDoc, label_at, get, Panics,
  returns, ◌>>=◌, write_label, set, PipelineCond, max_field_len, is_some,
}

-- `pipelineStage`.
pub record PipelineStage : Type 0 where
  pub cond : Option PipelineCond
  pub kind : String
  pub from : PipelineField
  pub pattern : String
  pub pairs : List (String × String)
  pub names : List String
  pub field : PipelineField
  pub replace : String
  pub max : ℕ

-- What `applyStage` returns: whether the document changed, or an error, at which the stage is skipped.
pub data Applied : Type 0 where
  applied : Bool → PipelineDoc → Applied
  skipped : Applied

abbrev pub Progress : Type 0
Progress = Bool × PipelineDoc

-- One named group of a match: it adds a label that is not there.
unfoldable pub take_group : String → String → Progress → Panics Progress
unfolding is_some write_label
take_group name v (changed, d) =
    if name == "" || v == "" || is_some (label_at d.labels name)
    then returns (changed, d)
    else write_label name v d d.labels >>= λ d'. returns (true, d')

unfoldable pub take_groups : List String → List String → Progress → Panics Progress
unfolding take_group
take_groups [] vs p = returns p
take_groups (n ∷ ns) [] p = returns p
take_groups (n ∷ ns) (v ∷ vs) p = take_group n v p >>= take_groups ns vs

unfoldable pub set_pairs : List (String × String) → PipelineDoc → Panics PipelineDoc
unfolding write_label
set_pairs [] d = returns d
set_pairs ((k, v) ∷ rest) d = write_label k v d d.labels >>= set_pairs rest

unfoldable pub rename_found : String → String → Progress → Option Labels → Option String → Progress
rename_found from to p (some m) (some v) =
    (true, record p.1 { labels = some (put_label to v (delete_label from m)) })
rename_found from to p _ _ = p

unfoldable pub rename_pairs : List (String × String) → Progress → Progress
unfolding rename_found
rename_pairs [] p = p
rename_pairs ((from, to) ∷ rest) p =
    rename_pairs rest (rename_found from to p p.1.labels (label_at p.1.labels from))

unfoldable pub remove_found : String → Progress → Option Labels → Option String → Progress
remove_found n p (some m) (some v) = (true, record p.1 { labels = some (delete_label n m) })
remove_found n p _ _ = p

unfoldable pub remove_names : List String → Progress → Progress
unfolding remove_found
remove_names [] p = p
remove_names (n ∷ rest) p = remove_names rest (remove_found n p p.1.labels (label_at p.1.labels n))

unfoldable pub changed_by : Progress → Panics Applied
changed_by (changed, d) = returns (applied changed d)

unfoldable pub extract_match :
    Regexps → PipelineStage → PipelineDoc → Option (List String) → Panics Applied
unfolding take_groups changed_by
extract_match rx st d none = returns (applied false d)
extract_match rx st d (some vs) =
    take_groups (rx.subexp_names st.pattern) vs (false, d) >>= changed_by

unfoldable pub extract : Regexps → PipelineStage → PipelineDoc → Option String → Panics Applied
unfolding extract_match
extract rx st d none = returns (applied false d)
extract rx st d (some v) =
    if v == ""
    then returns (applied false d)
    else if ltb max_field_len (String.len v)
    then returns skipped
    else extract_match rx st d (rx.find_submatch st.pattern v)

unfoldable pub gsub : Regexps → PipelineStage → PipelineDoc → Option String → Panics Applied
unfolding set
gsub rx st d none = returns (applied false d)
gsub rx st d (some v) =
    let out = rx.replace_all st.pattern v st.replace in
    if ltb max_field_len (String.len v)
    then returns skipped
    else if out == v
    then returns (applied false d)
    else set st.field out d >>= λ d'. returns (applied true d')

unfoldable pub truncate : PipelineStage → PipelineDoc → Option String → Panics Applied
unfolding set cut
truncate st d none = returns (applied false d)
truncate st d (some v) =
    if leb (String.len v) st.max
    then returns (applied false d)
    else set st.field (cut st.max v) d >>= λ d'. returns (applied true d')

-- `applyStage`.
unfoldable pub apply_stage : Regexps → PipelineStage → PipelineDoc → Panics Applied
unfolding extract set_pairs rename_pairs remove_names gsub truncate changed_by get
apply_stage rx st d =
    if st.kind == "drop"
    then returns (applied true d)
    else if st.kind == "extract"
    then extract rx st d (get st.from d)
    else if st.kind == "set"
    then set_pairs st.pairs d >>= (λ d'. returns (applied true d'))
    else if st.kind == "rename"
    then changed_by (rename_pairs st.pairs (false, d))
    else if st.kind == "remove"
    then changed_by (remove_names st.names (false, d))
    else if st.kind == "gsub"
    then gsub rx st d (get st.field d)
    else if st.kind == "truncate"
    then truncate st d (get st.field d)
    else returns skipped

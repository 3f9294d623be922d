-- ===== src/Pipeline/Kept.antt =====
-- What each stage of a pipeline keeps: an alert that has labels keeps having them, so that no stage
-- panics; an extraction adds labels and overwrites none; a cut text is a start of the text.
use Prim.Native.String
use nxs_anomaly.Base.{
  ◌≡◌, refl, String, true, false, not, ◌||◌, List, [], ◌∷◌, Option, none, some, leb, ltb, ◌==◌,
  if_cases,
}
use nxs_anomaly.Pipeline.Document.{
  Regexps, PipelineField, Labels, PipelineDoc, label_at, put_label, delete_label, get, Panics,
  returns, panics, ◌>>=◌, write_label, set, max_field_len, is_some,
}
use nxs_anomaly.Pipeline.Stages.{
  PipelineStage, Applied, applied, skipped, Progress, take_group, take_groups, set_pairs,
  rename_pairs, remove_names, changed_by, truncate, extract, extract_match, gsub, apply_stage,
  rename_found, remove_found,
}

abbrev pub HasLabels : PipelineDoc → Type 0
HasLabels d = (m : Labels) × (d.labels ≡ some m)

-- A call returns, and what it returns has the property.
abbrev pub Returns : {A : Type 0} → (A → Type 0) → Panics A → Type 0
Returns P (returns a) = P a
Returns P panics = ⊥

pub Returns-bind :
    {A B : Type 0} (P : A → Type 0) (Q : B → Type 0) (m : Panics A) (f : A → Panics B)
    → Returns P m
    → ((a : A) → P a → Returns Q (f a))
    → Returns Q (m >>= f)
Returns-bind P Q (returns a) f h k = k a h
Returns-bind P Q panics f h k = absurd h

abbrev pub AppliedKeeps : (PipelineDoc → Type 0) → Applied → Type 0
AppliedKeeps P (applied c d) = P d
AppliedKeeps P skipped = Unit {0}

abbrev ProgressKeeps : (PipelineDoc → Type 0) → Progress → Type 0
ProgressKeeps P p = P p.1

write_label-HasLabels :
    (k v : String) (d : PipelineDoc) → HasLabels d → Returns HasLabels (write_label k v d d.labels)
unfolding write_label
write_label-HasLabels k v d (m, e) = rw e (put_label k v m, refl)

set-HasLabels :
    (f : PipelineField) (v : String) (d : PipelineDoc) → HasLabels d → Returns HasLabels (set f v d)
unfolding set
set-HasLabels f v d h =
    if_cases (Returns HasLabels) (not (f.label == "")) (λ _. write_label-HasLabels f.label v d h)
      λ _.
        if_cases (Returns HasLabels) (f.name == "title") (λ _. h)
          λ _.
            if_cases (Returns HasLabels) (f.name == "message") (λ _. h)
              λ _. if_cases (Returns HasLabels) (f.name == "severity") (λ _. h) (λ _. h)

take_group-HasLabels :
    (n v : String) (p : Progress)
    → HasLabels p.1
    → Returns (ProgressKeeps HasLabels) (take_group n v p)
unfolding take_group
take_group-HasLabels n v (c, d) h =
    if_cases (Returns (ProgressKeeps HasLabels))
      (n == "" || v == "" || is_some (label_at d.labels n)) (λ _. h)
      λ _.
        Returns-bind HasLabels (ProgressKeeps HasLabels) (write_label n v d d.labels) _
          (write_label-HasLabels n v d h) (λ d' h'. h')

take_groups-HasLabels :
    (ns vs : List String) (p : Progress)
    → HasLabels p.1
    → Returns (ProgressKeeps HasLabels) (take_groups ns vs p)
unfolding take_groups
take_groups-HasLabels [] vs p h = h
take_groups-HasLabels (n ∷ ns) [] p h = h
take_groups-HasLabels (n ∷ ns) (v ∷ vs) p h =
    Returns-bind (ProgressKeeps HasLabels) (ProgressKeeps HasLabels) (take_group n v p) _
      (take_group-HasLabels n v p h) (take_groups-HasLabels ns vs)

set_pairs-HasLabels :
    (ps : List (String × String)) (d : PipelineDoc)
    → HasLabels d
    → Returns HasLabels (set_pairs ps d)
unfolding set_pairs
set_pairs-HasLabels [] d h = h
set_pairs-HasLabels ((k, v) ∷ ps) d h =
    Returns-bind HasLabels HasLabels (write_label k v d d.labels) _ (write_label-HasLabels k v d h)
      (set_pairs-HasLabels ps)

rename_found-HasLabels :
    (from to : String) (p : Progress) (l : Option Labels) (v : Option String)
    → HasLabels p.1
    → HasLabels (rename_found from to p l v).1
unfolding rename_found
rename_found-HasLabels from to p (some m) (some v) h = (put_label to v (delete_label from m), refl)
rename_found-HasLabels from to p (some m) none h = h
rename_found-HasLabels from to p none v h = h

rename_pairs-HasLabels :
    (ps : List (String × String)) (p : Progress) → HasLabels p.1 → HasLabels (rename_pairs ps p).1
unfolding rename_pairs
rename_pairs-HasLabels [] p h = h
rename_pairs-HasLabels ((from, to) ∷ ps) p h =
    rename_pairs-HasLabels ps _ (rename_found-HasLabels from to p p.1.labels _ h)

remove_found-HasLabels :
    (n : String) (p : Progress) (l : Option Labels) (v : Option String)
    → HasLabels p.1
    → HasLabels (remove_found n p l v).1
unfolding remove_found
remove_found-HasLabels n p (some m) (some v) h = (delete_label n m, refl)
remove_found-HasLabels n p (some m) none h = h
remove_found-HasLabels n p none v h = h

remove_names-HasLabels :
    (ns : List String) (p : Progress) → HasLabels p.1 → HasLabels (remove_names ns p).1
unfolding remove_names
remove_names-HasLabels [] p h = h
remove_names-HasLabels (n ∷ ns) p h =
    remove_names-HasLabels ns _ (remove_found-HasLabels n p p.1.labels _ h)

abbrev Kept : Panics Applied → Type 0
Kept = Returns (AppliedKeeps HasLabels)

set_applied-HasLabels :
    (f : PipelineField) (v : String) (d : PipelineDoc)
    → HasLabels d
    → Kept (set f v d >>= λ d'. returns (applied true d'))
set_applied-HasLabels f v d h =
    Returns-bind HasLabels (AppliedKeeps HasLabels) (set f v d) _ (set-HasLabels f v d h)
      (λ d' h'. h')

extract_match-HasLabels :
    (rx : Regexps) (st : PipelineStage) (d : PipelineDoc) (m : Option (List String))
    → HasLabels d
    → Kept (extract_match rx st d m)
unfolding extract_match changed_by
extract_match-HasLabels rx st d none h = h
extract_match-HasLabels rx st d (some vs) h =
    Returns-bind (ProgressKeeps HasLabels) (AppliedKeeps HasLabels)
      (take_groups (rx.subexp_names st.pattern) vs (false, d)) changed_by
      (take_groups-HasLabels (rx.subexp_names st.pattern) vs (false, d) h) (λ p hp. hp)

extract-HasLabels :
    (rx : Regexps) (st : PipelineStage) (d : PipelineDoc) (v : Option String)
    → HasLabels d
    → Kept (extract rx st d v)
unfolding extract
extract-HasLabels rx st d none h = h
extract-HasLabels rx st d (some v) h =
    if_cases Kept (v == "") (λ _. h)
      λ _.
        if_cases Kept (ltb max_field_len (String.len v)) (λ _. tt)
          λ _. extract_match-HasLabels rx st d (rx.find_submatch st.pattern v) h

gsub-HasLabels :
    (rx : Regexps) (st : PipelineStage) (d : PipelineDoc) (v : Option String)
    → HasLabels d
    → Kept (gsub rx st d v)
unfolding gsub
gsub-HasLabels rx st d none h = h
gsub-HasLabels rx st d (some v) h =
    if_cases Kept (ltb max_field_len (String.len v)) (λ _. tt)
      λ _.
        if_cases Kept (rx.replace_all st.pattern v st.replace == v) (λ _. h)
          λ _. set_applied-HasLabels st.field _ d h

truncate-HasLabels :
    (st : PipelineStage) (d : PipelineDoc) (v : Option String)
    → HasLabels d
    → Kept (truncate st d v)
unfolding truncate
truncate-HasLabels st d none h = h
truncate-HasLabels st d (some v) h =
    if_cases Kept (leb (String.len v) st.max) (λ _. h) λ _. set_applied-HasLabels st.field _ d h

pub apply_stage-HasLabels :
    (rx : Regexps) (st : PipelineStage) (d : PipelineDoc) → HasLabels d → Kept (apply_stage rx st d)
unfolding apply_stage changed_by
apply_stage-HasLabels rx st d h =
    if_cases Kept (st.kind == "drop") (λ _. h)
      λ _.
        if_cases Kept (st.kind == "extract") (λ _. extract-HasLabels rx st d (get st.from d) h)
          λ _.
            if_cases Kept (st.kind == "set") (λ _. set_pairs_applied)
              λ _.
                if_cases Kept (st.kind == "rename")
                  (λ _. rename_pairs-HasLabels st.pairs (false, d) h)
                  λ _.
                    if_cases Kept (st.kind == "remove")
                      (λ _. remove_names-HasLabels st.names (false, d) h)
                      λ _.
                        if_cases Kept (st.kind == "gsub")
                          (λ _. gsub-HasLabels rx st d (get st.field d) h)
                          λ _.
                            if_cases Kept (st.kind == "truncate")
                              (λ _. truncate-HasLabels st d (get st.field d) h) (λ _. tt)
  where
    set_pairs_applied : Kept (set_pairs st.pairs d >>= λ d'. returns (applied true d'))
    set_pairs_applied =
        Returns-bind HasLabels (AppliedKeeps HasLabels) (set_pairs st.pairs d) _
          (set_pairs-HasLabels st.pairs d h) (λ d' h'. h')

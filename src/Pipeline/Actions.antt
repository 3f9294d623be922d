-- ===== src/Pipeline/Actions.antt =====
-- The action of a stage that compiles has what it needs.
use nxs_anomaly.Base.{
  ◌≡◌, ◌≢◌, refl, ◌⊎◌, inl, inr, String, true, false, ◌||◌, List, [], ◌∷◌, Option, none, some, ltb,
  leb, eqb, ◌==◌, if_cases, arith, ==→eq, ==_symm, Bool-cases, leb_false→lt, contains,
}
use nxs_anomaly.Base.Decoded
use nxs_anomaly.Base.Decoded.{
  Json, Fields, find, present, array, object, fields, items, print_value, text_val, positive_val,
}
use nxs_anomaly.Pipeline.Document.{Regexps, PipelineCond}
use nxs_anomaly.Pipeline.Stages.{PipelineStage}
use nxs_anomaly.Pipeline.Parts.{Checked, ◌>>=◌, max_extracted_labels, field_of, pipeline_actions}
use nxs_anomaly.Pipeline.Compile.{
  object_of, pattern_of, count_named, groups_of, compile_extract, add_pair, read_pairs,
  compile_pairs, compile_remove, compile_gsub, positive_max, compile_truncate, compile_drop,
  compile_action,
}
use nxs_anomaly.Pipeline.Compile.{label_name}
use nxs_anomaly.Pipeline.Pairs.{first_pairs-ne}
use nxs_anomaly.Pipeline.WellFormed.{
  Accepts, Accepts-bind, Accepts-any, IsField, IsPattern, Fits, extracts, pairs_up, removes,
  rewrites, truncates, drops, compile_regex-IsPattern, field_of-IsField,
}

-- A compiled stage beside the one it was made from: same kind, same condition, and its action fits.
pub record Made (rx : Regexps) (from st : PipelineStage) : Type 0 where
  pub same_kind : st.kind ≡ from.kind
  pub same_cond : st.cond ≡ from.cond
  pub fits : Fits rx st

module _ (rx : Regexps) where
  pattern_of-IsPattern : (spec : Fields) → Accepts (IsPattern rx) (pattern_of rx spec)
  unfolding pattern_of
  pattern_of-IsPattern spec =
      if_cases (Accepts (IsPattern rx)) (text_val spec "pattern" == "") (λ _. tt)
        (λ _. compile_regex-IsPattern rx (text_val spec "pattern"))

  groups_of-Made :
      (from st : PipelineStage)
      → st.kind ≡ from.kind
      → st.cond ≡ from.cond
      → st.kind ≡ "extract"
      → IsField st.from
      → IsPattern rx st.pattern
      → Accepts (Made rx from) (groups_of rx st)
  unfolding groups_of
  groups_of-Made from st sk sc kind hf hp =
      elim (Bool-cases (eqb (count_named (rx.subexp_names st.pattern)) 0)) [
        | inl z ↦ rw z tt
        | inr nz ↦
            elim (Bool-cases
              (ltb max_extracted_labels (count_named (rx.subexp_names st.pattern)))) [
                | inl many ↦ rw (nz, many) tt
                | inr few ↦
                    rw (nz, few)
                      (record {
                        same_kind = sk;
                        same_cond = sc;
                        fits = extracts kind hf hp (ground arith) (ground arith);
                      })
              ]
      ]

  compile_extract-Made :
      (st : PipelineStage) (spec : Fields)
      → st.kind ≡ "extract"
      → Accepts (Made rx st) (compile_extract rx st spec)
  unfolding compile_extract
  compile_extract-Made st spec kind =
      Accepts-bind IsField (Made rx st) (field_of spec "from") _ (field_of-IsField rx spec "from")
        λ f hf.
          Accepts-bind (IsPattern rx) (Made rx st) (pattern_of rx spec) _
            (pattern_of-IsPattern spec)
            (λ re hp. groups_of-Made st (record st { from = f; pattern = re }) refl refl kind hf hp)

  compile_pairs-Made :
      (kind : String) (st : PipelineStage) (entries : List (String × Json))
      → ((st.kind ≡ "set") ⊎ (st.kind ≡ "rename"))
      → Accepts (Made rx st) (compile_pairs kind st entries)
  unfolding compile_pairs read_pairs
  compile_pairs-Made kind st [] which = tt
  compile_pairs-Made kind st ((k, v) ∷ rest) which =
      Accepts-bind (λ l. l ≢ []) (Made rx st)
        (add_pair kind (label_name k) (print_value v) [] >>= read_pairs kind rest) _
        (first_pairs-ne kind k v rest)
        (λ ps h. record { same_kind = refl; same_cond = refl; fits = pairs_up which h })

  compile_remove-Made :
      (st : PipelineStage) (o : Option Json)
      → st.kind ≡ "remove"
      → Accepts (Made rx st) (compile_remove st o)
  unfolding compile_remove
  compile_remove-Made st (some (array (Decoded.cons x xs))) kind = record {
    same_kind = refl;
    same_cond = refl;
    fits = removes kind (λ e. cc);
  }
  compile_remove-Made st (some (array Decoded.nil)) kind = tt
  compile_remove-Made st none kind = tt
  compile_remove-Made st (some Decoded.null) kind = tt
  compile_remove-Made st (some (Decoded.text s)) kind = tt
  compile_remove-Made st (some (Decoded.number n)) kind = tt
  compile_remove-Made st (some (Decoded.below n)) kind = tt
  compile_remove-Made st (some (Decoded.flag b)) kind = tt
  compile_remove-Made st (some (object m)) kind = tt

  compile_gsub-Made :
      (st : PipelineStage) (spec : Fields)
      → st.kind ≡ "gsub"
      → Accepts (Made rx st) (compile_gsub rx st spec)
  unfolding compile_gsub
  compile_gsub-Made st spec kind =
      Accepts-bind IsField (Made rx st) (field_of spec "field") _ (field_of-IsField rx spec "field")
        λ f hf.
          Accepts-bind (IsPattern rx) (Made rx st) (pattern_of rx spec) _
            (pattern_of-IsPattern spec)
            (λ re hp. record { same_kind = refl; same_cond = refl; fits = rewrites kind hf hp })

  positive_max-Made :
      (from st : PipelineStage)
      → st.kind ≡ from.kind
      → st.cond ≡ from.cond
      → st.kind ≡ "truncate"
      → IsField st.field
      → Accepts (Made rx from) (positive_max st)
  unfolding positive_max
  positive_max-Made from st sk sc kind hf =
      if_cases (Accepts (Made rx from)) (leb st.max 0) (λ _. tt)
        (λ over. record {
          same_kind = sk;
          same_cond = sc;
          fits = truncates kind hf (leb_false→lt st.max 0 over);
        })

  compile_truncate-Made :
      (st : PipelineStage) (spec : Fields)
      → st.kind ≡ "truncate"
      → Accepts (Made rx st) (compile_truncate st spec)
  unfolding compile_truncate
  compile_truncate-Made st spec kind =
      Accepts-bind IsField (Made rx st) (field_of spec "field") _ (field_of-IsField rx spec "field")
        (λ f hf.
          positive_max-Made st (record st { field = f; max = positive_val spec "max" }) refl refl
            kind hf)

  compile_drop-Made :
      (st : PipelineStage) (o : Option PipelineCond)
      → st.cond ≡ o
      → st.kind ≡ "drop"
      → Accepts (Made rx st) (compile_drop st o)
  unfolding compile_drop
  compile_drop-Made st none has kind = tt
  compile_drop-Made st (some c) has kind = record {
    same_kind = refl;
    same_cond = refl;
    fits = drops kind c has;
  }

  object_then-Made :
      (kind : String) (st : PipelineStage) (o : Option Json) (f : Fields → Checked PipelineStage)
      → ((spec : Fields) → Accepts (Made rx st) (f spec))
      → Accepts (Made rx st) (object_of kind o >>= f)
  object_then-Made kind st o f h =
      Accepts-bind (λ m. Unit {0}) (Made rx st) (object_of kind o) f
        (Accepts-any (object_of kind o)) (λ m _. h m)

  no_other_action :
      (k : String)
      → contains k pipeline_actions ≡ true
      → (k == "extract") ≡ false
      → (k == "set" || k == "rename") ≡ false
      → (k == "remove") ≡ false
      → (k == "gsub") ≡ false
      → (k == "truncate") ≡ false
      → (k == "drop") ≡ false
      → ⊥
  no_other_action k known a b c d e f = ground (
    arith,
    ==_symm "extract" k,
    ==_symm "set" k,
    ==_symm "rename" k,
    ==_symm "remove" k,
    ==_symm "gsub" k,
    ==_symm "truncate" k,
    ==_symm "drop" k,
  )

  pairs_kind : (k : String) → (k == "set" || k == "rename") ≡ true → (k ≡ "set") ⊎ (k ≡ "rename")
  pairs_kind k h = elim (Bool-cases (k == "set")) [
    | inl e ↦ inl (==→eq k "set" e)
    | inr n ↦ inr (==→eq k "rename" (rw n at h))
  ]

  pub compile_action-Made :
      (m : Fields) (st : PipelineStage)
      → contains st.kind pipeline_actions ≡ true
      → Accepts (Made rx st) (compile_action rx m st)
  unfolding compile_action
  compile_action-Made m st known =
      if_cases (Accepts (Made rx st)) (st.kind == "extract")
        (λ k.
          object_then-Made "extract" st (find "extract" m) (compile_extract rx st)
            (λ spec. compile_extract-Made st spec (==→eq st.kind "extract" k)))
        λ a.
          if_cases (Accepts (Made rx st)) (st.kind == "set" || st.kind == "rename")
            (λ k.
              object_then-Made st.kind st (find st.kind m) _
                (λ spec. compile_pairs-Made st.kind st (fields spec) (pairs_kind st.kind k)))
            λ b.
              if_cases (Accepts (Made rx st)) (st.kind == "remove")
                (λ k. compile_remove-Made st (find "remove" m) (==→eq st.kind "remove" k))
                λ c.
                  if_cases (Accepts (Made rx st)) (st.kind == "gsub")
                    (λ k.
                      object_then-Made "gsub" st (find "gsub" m) (compile_gsub rx st)
                        (λ spec. compile_gsub-Made st spec (==→eq st.kind "gsub" k)))
                    λ d.
                      if_cases (Accepts (Made rx st)) (st.kind == "truncate")
                        (λ k.
                          object_then-Made "truncate" st (find "truncate" m) (compile_truncate st)
                            (λ spec. compile_truncate-Made st spec (==→eq st.kind "truncate" k)))
                        λ e.
                          if_cases (Accepts (Made rx st)) (st.kind == "drop")
                            (λ k. compile_drop-Made st st.cond refl (==→eq st.kind "drop" k))
                            (λ f. absurd (no_other_action st.kind known a b c d e f))

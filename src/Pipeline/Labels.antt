-- ===== src/Pipeline/Labels.antt =====
-- What stages do to labels: an extraction adds labels and overwrites none; what a rename does depends on
-- the order of its pairs.
use Prim.Native.String
use Prim.Native.String.len
use nxs_anomaly.Base.{
  ◌≡◌, ◌≢◌, refl, sym, ap, ◌∙◌, inl, inr, String, Bool, true, false, ◌||◌, List, [], ◌∷◌, Option,
  none, some, ltb, ◌==◌, ==→eq, arith, Bool-cases, ==_self, Option-cases, ne→==_false, if_cases,
  false≢true,
}
use nxs_anomaly.Pipeline.Document.{
  Regexps, Labels, PipelineDoc, label_at, put_label, get, Panics, returns, panics, ◌>>=◌,
  write_label, max_field_len, is_some,
}
use nxs_anomaly.Pipeline.Stages.{
  PipelineStage, Applied, applied, skipped, Progress, take_group, take_groups, rename_pairs,
  changed_by, extract, extract_match, apply_stage, rename_found,
}
use nxs_anomaly.Pipeline.Texts.{none≢some}
use mathlib.Core.Path.{subst}

-- The second document has the labels of the first and maybe more, and the same texts.
pub record Extends (d e : PipelineDoc) : Type 0 where
  pub labels_kept : (k v : String) → label_at d.labels k ≡ some v → label_at e.labels k ≡ some v
  pub title_kept : e.title ≡ d.title
  pub message_kept : e.message ≡ d.message
  pub severity_kept : e.severity ≡ d.severity

-- What a call returns, if it does not panic, has the property.
abbrev IfReturns : {A : Type 0} → (A → Type 0) → Panics A → Type 0
IfReturns P (returns a) = P a
IfReturns P panics = Unit {0}

IfReturns-bind :
    {A B : Type 0} (P : A → Type 0) (Q : B → Type 0) (m : Panics A) (f : A → Panics B)
    → IfReturns P m
    → ((a : A) → P a → IfReturns Q (f a))
    → IfReturns Q (m >>= f)
IfReturns-bind P Q (returns a) f h k = k a h
IfReturns-bind P Q panics f h k = tt

abbrev ProgressExtends : PipelineDoc → Progress → Type 0
ProgressExtends d p = Extends d p.1

put_free :
    (n v k w : String) (l m : Labels)
    → is_some (m n) ≡ false
    → (l k ≡ some w → m k ≡ some w)
    → l k ≡ some w
    → put_label n v m k ≡ some w
unfolding is_some
put_free n v k w l m free kept was = elim (Bool-cases (n == k)) [
  | inl same ↦ absurd (taken same (m n) refl)
  | inr other ↦ rw other (kept was)
]
  where
    taken : (n == k) ≡ true → (o : Option String) → m n ≡ o → ⊥
    taken same none e = none≢some (sym e ∙ (ap m (==→eq n k same) ∙ kept was))
    taken same (some u) e = false≢true (sym free ∙ rw e refl)

last_false : (a b c : Bool) → (a || b || c) ≡ false → c ≡ false
last_false a b c h = ground arith

take_group-Extends :
    (n v : String) (d : PipelineDoc) (p : Progress)
    → Extends d p.1
    → IfReturns (ProgressExtends d) (take_group n v p)
unfolding take_group write_label
take_group-Extends n v d (c, e) h =
    elim (Bool-cases (n == "" || v == "" || is_some (label_at e.labels n))) [
      | inl skip ↦ rw skip h
      | inr free ↦ rw free (write free e.labels refl)
    ]
  where
    write :
        (n == "" || v == "" || is_some (label_at e.labels n)) ≡ false
        → (l : Option Labels) → e.labels ≡ l
        → IfReturns (ProgressExtends d) (write_label n v e l >>= λ e'. returns (true, e'))
    write free none nil = tt
    write free (some m) has = record {
      labels_kept = λ k w was.
          put_free n v k w (label_at d.labels) m
            (ap (λ l'. is_some (label_at l' n)) (sym has)
              ∙ last_false (n == "") (v == "") (is_some (label_at e.labels n)) free)
            (λ o. ap (λ l'. label_at l' k) (sym has) ∙ h.labels_kept k w o) was;
      title_kept = h.title_kept;
      message_kept = h.message_kept;
      severity_kept = h.severity_kept;
    }

take_groups-Extends :
    (ns vs : List String) (d : PipelineDoc) (p : Progress)
    → Extends d p.1
    → IfReturns (ProgressExtends d) (take_groups ns vs p)
unfolding take_groups
take_groups-Extends [] vs d p h = h
take_groups-Extends (n ∷ ns) [] d p h = h
take_groups-Extends (n ∷ ns) (v ∷ vs) d p h =
    IfReturns-bind (ProgressExtends d) (ProgressExtends d) (take_group n v p) (take_groups ns vs)
      (take_group-Extends n v d p h) (take_groups-Extends ns vs d)

abbrev AppliedExtends : PipelineDoc → Applied → Type 0
AppliedExtends d (applied c e) = Extends d e
AppliedExtends d skipped = Unit {0}

Extends-refl : (d : PipelineDoc) → Extends d d
Extends-refl d = record {
  labels_kept = λ k v h. h;
  title_kept = refl;
  message_kept = refl;
  severity_kept = refl;
}

extract_match-Extends :
    (rx : Regexps) (st : PipelineStage) (d : PipelineDoc) (m : Option (List String))
    → IfReturns (AppliedExtends d) (extract_match rx st d m)
unfolding extract_match changed_by
extract_match-Extends rx st d none = Extends-refl d
extract_match-Extends rx st d (some vs) =
    IfReturns-bind (ProgressExtends d) (AppliedExtends d)
      (take_groups (rx.subexp_names st.pattern) vs (false, d)) changed_by
      (take_groups-Extends (rx.subexp_names st.pattern) vs d (false, d) (Extends-refl d)) (λ p h. h)

extract-Extends :
    (rx : Regexps) (st : PipelineStage) (d : PipelineDoc) (v : Option String)
    → IfReturns (AppliedExtends d) (extract rx st d v)
unfolding extract
extract-Extends rx st d none = Extends-refl d
extract-Extends rx st d (some v) =
    if_cases (IfReturns (AppliedExtends d)) (v == "") (λ _. Extends-refl d)
      λ _.
        if_cases (IfReturns (AppliedExtends d)) (ltb max_field_len (String.len v)) (λ _. tt)
          λ _. extract_match-Extends rx st d (rx.find_submatch st.pattern v)

applies_extract :
    (rx : Regexps) (st : PipelineStage) (d : PipelineDoc)
    → st.kind ≡ "extract"
    → apply_stage rx st d ≡ extract rx st d (get st.from d)
unfolding apply_stage
applies_extract rx st d kind = rw kind refl

-- An `extract` stage never overwrites what the source stated: every label that the alert had keeps its
-- value, and the title, the message and the severity stay as they were.
pub extract_keeps :
    (rx : Regexps) (st : PipelineStage) (d e : PipelineDoc) (c : Bool)
    → st.kind ≡ "extract"
    → apply_stage rx st d ≡ returns (applied c e)
    → Extends d e
extract_keeps rx st d e c kind does =
    subst (IfReturns (AppliedExtends d)) (sym (applies_extract rx st d kind) ∙ does)
      (extract-Extends rx st d (get st.from d))

applies_rename :
    (rx : Regexps) (st : PipelineStage) (d : PipelineDoc)
    → st.kind ≡ "rename"
    → apply_stage rx st d ≡ changed_by (rename_pairs st.pairs (false, d))
unfolding apply_stage
applies_rename rx st d kind = rw kind refl

renames_order :
    (a b c v : String) (p : Progress) (m : Labels)
    → a ≢ b
    → a ≢ c
    → b ≢ c
    → p.1.labels ≡ some m
    → m a ≡ some v
    → (label_at (rename_pairs ((a, b) ∷ (b, c) ∷ []) p).1.labels b ≡ none)
      × (label_at (rename_pairs ((b, c) ∷ (a, b) ∷ []) p).1.labels b ≡ some v)
unfolding rename_pairs rename_found
renames_order a b c v p m ab ac bc given found = (
  rw (given, found, ==_self b, ne→==_false c b (λ e. bc (sym e)), ==_self b) refl,
  elim (Option-cases (m b)) [
    | inl e ↦ rw (given, e, found, ==_self b) refl
    | inr (w, e) ↦
        rw
          (
            given,
            e,
            ne→==_false c a (λ q. ac (sym q)),
            ne→==_false b a (λ q. ab (sym q)),
            found,
            ==_self b,
          )
          refl
  ],
)

abbrev pub labels_after : Panics Applied → Option Labels
labels_after (returns (applied c e)) = e.labels
labels_after _ = none

-- What a `rename` stage does depends on the order in which its pairs are taken, which the source leaves
-- to Go's iteration over a map: renaming a to b and b to c, of an alert that has a, leaves no label b in
-- one order, and the value of a under b in the other.
pub rename_order :
    (rx : Regexps) (st other : PipelineStage) (a b c v : String) (d : PipelineDoc) (m : Labels)
    → st.kind ≡ "rename"
    → st.pairs ≡ (a, b) ∷ (b, c) ∷ []
    → other.kind ≡ "rename"
    → other.pairs ≡ (b, c) ∷ (a, b) ∷ []
    → a ≢ b
    → a ≢ c
    → b ≢ c
    → d.labels ≡ some m
    → m a ≡ some v
    → (label_at (labels_after (apply_stage rx st d)) b ≡ none)
      × (label_at (labels_after (apply_stage rx other d)) b ≡ some v)
unfolding changed_by
rename_order rx st other a b c v d m kind pairs kind' pairs' ab ac bc given found =
    let (gone, there) = renames_order a b c v (false, d) m ab ac bc given found in
    (
      ap (λ r. label_at (labels_after r) b)
            (applies_rename rx st d kind ∙ ap (λ l. changed_by (rename_pairs l (false, d))) pairs)
          ∙ gone,
      ap (λ r. label_at (labels_after r) b)
            (applies_rename rx other d kind'
              ∙ ap (λ l. changed_by (rename_pairs l (false, d))) pairs')
          ∙ there,
    )

-- ===== src/Pipeline/Texts.antt =====
-- A truncation cuts at a whole character within its limit.
use Prim.Native.Char.{Char, len_utf8}
use Prim.Native.String
use Prim.Native.String.len
use text.Mathlib.TextLemmas.{nil-append, cons-append, nil≢cons, head-eq_of_cons-eq}
use nxs_anomaly.Base.{
  ℕ, ◌+◌, ◌-◌, ◌≤◌, ◌<◌, ◌≡◌, ◌≢◌, refl, sym, ap, ◌∙◌, inl, inr, String, true, false, Option, none,
  some, leb, ◌==◌, arith, Bool-cases, ==_self, leb→le, leb_false→lt,
}
use nxs_anomaly.Base.Text.{cut}
use nxs_anomaly.Pipeline.Document.{
  Regexps, PipelineField, Labels, PipelineDoc, label_at, put_label, get, returns, ◌>>=◌, set,
}
use nxs_anomaly.Pipeline.Stages.{PipelineStage, applied, truncate, apply_stage}

-- What is left of a text when it is cut: a start of it within the limit, and the next character would
-- not fit.
pub record IsCut (max : ℕ) (s w : String) : Type 0 where
  pub rest : String
  pub starts : String.◌++◌ w rest ≡ s
  pub within : String.len w ≤ max
  pub longest :
      (c : Char) (more : String) → rest ≡ String.◌∷◌ c more → max < String.len w + len_utf8 c

len-cons : (c : Char) (s : String) → String.len (String.◌∷◌ c s) ≡ len_utf8 c + String.len s
len-cons c s = λ i. len.cons c s i

cut-IsCut : (max : ℕ) (s : String) → IsCut max s (cut max s)
unfolding cut
cut-IsCut max String.[] = record {
  rest = "";
  starts = nil-append "";
  within = omega arith;
  longest = λ c more e. absurd (nil≢cons e);
}
cut-IsCut max (String.◌∷◌ c s) = elim (Bool-cases (leb (len_utf8 c) max)) [
  | inl fits ↦ rw fits (keep c s (leb→le (len_utf8 c) max fits) (cut-IsCut (max - len_utf8 c) s))
  | inr over ↦ rw over (record {
    rest = String.◌∷◌ c s;
    starts = nil-append (String.◌∷◌ c s);
    within = omega arith;
    longest = λ d more e.
        omega (arith, leb_false→lt (len_utf8 c) max over, ap len_utf8 (head-eq_of_cons-eq e));
  })
]
  where
    keep :
        (c : Char) (s : String)
        → len_utf8 c ≤ max
        → IsCut (max - len_utf8 c) s (cut (max - len_utf8 c) s)
        → IsCut max (String.◌∷◌ c s) (String.◌∷◌ c (cut (max - len_utf8 c) s))
    keep c s fits h = record {
      rest = h.rest;
      starts = cons-append c (cut (max - len_utf8 c) s) h.rest ∙ ap (λ t. String.◌∷◌ c t) h.starts;
      within = omega (arith, h.within, len-cons c (cut (max - len_utf8 c) s));
      longest =
          λ d more e. omega (arith, h.longest d more e, len-cons c (cut (max - len_utf8 c) s));
    }

pub none≢some : {A : Type 0} {a : A} → none ≢ some a
none≢some e = cc

get-set :
    (f : PipelineField) (d : PipelineDoc) (v w : String)
    → get f d ≡ some v
    → (e : PipelineDoc) × (set f w d ≡ returns e) × (get f e ≡ some w)
unfolding get set
get-set f d v w e = elim (Bool-cases (f.label == "")) [
  | inr named ↦ of_labels named d.labels refl (sym (rw named refl) ∙ e)
  | inl plain ↦ elim (Bool-cases (f.name == "title")) [
    | inl is_title ↦ (record d { title = w }, rw (plain, is_title) refl, rw (plain, is_title) refl)
    | inr t ↦ elim (Bool-cases (f.name == "message")) [
      | inl is_message ↦
          (record d { message = w }, rw (plain, t, is_message) refl, rw (plain, t, is_message) refl)
      | inr m ↦ elim (Bool-cases (f.name == "severity")) [
        | inl is_severity ↦ (
          record d { severity = w },
          rw (plain, t, m, is_severity) refl,
          rw (plain, t, m, is_severity) refl,
        )
        | inr s ↦ absurd (none≢some (sym (rw (plain, t, m, s) refl) ∙ e))
      ]
    ]
  ]
]
  where
    of_labels :
        (f.label == "") ≡ false
        → (l : Option Labels) → d.labels ≡ l
        → label_at d.labels f.label ≡ some v
        → (e : PipelineDoc) × (set f w d ≡ returns e) × (get f e ≡ some w)
    of_labels named none nil found =
        absurd (none≢some (sym (ap (λ l. label_at l f.label) nil) ∙ found))
    of_labels named (some m) nil found = (
      record d { labels = some (put_label f.label w m) },
      rw (named, nil) refl,
      rw (named, ==_self f.label) refl,
    )

applies_truncate :
    (rx : Regexps) (st : PipelineStage) (d : PipelineDoc)
    → st.kind ≡ "truncate"
    → apply_stage rx st d ≡ truncate st d (get st.field d)
unfolding apply_stage
applies_truncate rx st d kind = rw kind refl

-- A truncation that finds its field over the limit leaves the longest start of it that has at most so
-- many bytes and ends with a whole character.
pub truncate_lem :
    (rx : Regexps) (st : PipelineStage) (d : PipelineDoc) (v : String)
    → st.kind ≡ "truncate"
    → get st.field d ≡ some v
    → st.max < String.len v
    → (e : PipelineDoc) × (apply_stage rx st d ≡ returns (applied true e))
      × (get st.field e ≡ some (cut st.max v))
      × IsCut st.max v (cut st.max v)
unfolding truncate
truncate_lem rx st d v kind found over =
    let (e, wrote, reads) = get-set st.field d v (cut st.max v) found in
    (
      e,
      applies_truncate rx st d kind
          ∙ (ap (truncate st d) found
              ∙ (rw (over_false) refl ∙ ap (λ m. m >>= λ d'. returns (applied true d')) wrote)),
      reads,
      cut-IsCut st.max v,
    )
  where
    over_false : leb (String.len v) st.max ≡ false
    over_false = ground arith

-- ===== src/Pipeline/Cached.antt =====
-- What the cache of compiled pipelines answers, and that its fingerprint takes different definitions for
-- the same.
use package.text.Mathlib.TextLemmas.{append_assoc}
use mathlib.Core.Path.{subst}
use nxs_anomaly.Base.{
  ◌≡◌, refl, sym, ◌∙◌, inl, inr, String, [], ◌∷◌, Option, none, some, ◌==◌, if_cases, Bool-cases,
  ==→eq, ==_self,
}
use nxs_anomaly.Base.Text.{concat}
use nxs_anomaly.Base.Decoded.{Json, text, array, object, nil, cons, end, field}
use nxs_anomaly.Pipeline.Document.{Regexps}
use nxs_anomaly.Pipeline.WellFormed.{some_inj}
use nxs_anomaly.Pipeline.Compile.{Compiled, compile_alert_pipeline}
use nxs_anomaly.Pipeline.Payload.{
  fingerprint, CachedPipeline, Cache, store, compile_anew, cached_or, compiled_pipeline,
}

-- A cached pipeline was compiled from a definition that has its mark.
abbrev Came : Regexps → CachedPipeline → Type 0
Came rx c = (raw : Json) × (c.mark ≡ fingerprint raw) × (c.compiled ≡ compile_alert_pipeline rx raw)

abbrev pub IsCache : Regexps → Cache → Type 0
IsCache rx cache = (id : String) (c : CachedPipeline) → cache id ≡ some c → Came rx c

store-IsCache :
    (rx : Regexps) (id : String) (c : CachedPipeline) (cache : Cache)
    → Came rx c
    → IsCache rx cache
    → IsCache rx (store id c cache)
store-IsCache rx id c cache made h j d e = elim (Bool-cases (id == j)) [
  | inl same ↦ subst (Came rx) (some_inj (sym (rw same refl) ∙ e)) made
  | inr other ↦ h j d (sym (rw other refl) ∙ e)
]

abbrev Answers : Regexps → Json → Compiled × Cache → Type 0
Answers rx raw (c, cache) =
    IsCache rx cache
    × ((from : Json) × (fingerprint from ≡ fingerprint raw) × (c ≡ compile_alert_pipeline rx from))

anew :
    (rx : Regexps) (id : String) (raw : Json) (cache : Cache)
    → IsCache rx cache
    → Answers rx raw (compile_anew rx id raw cache)
unfolding compile_anew
anew rx id raw cache h = (
  store-IsCache rx id (record { mark = fingerprint raw; compiled = compile_alert_pipeline rx raw })
      cache (raw, refl, refl) h,
  (raw, refl, refl),
)

cached_or-Answers :
    (rx : Regexps) (id : String) (raw : Json) (cache : Cache) (o : Option CachedPipeline)
    → cache id ≡ o
    → IsCache rx cache
    → Answers rx raw (cached_or rx id raw cache o)
unfolding cached_or
cached_or-Answers rx id raw cache none e h = anew rx id raw cache h
cached_or-Answers rx id raw cache (some c) e h =
    if_cases (Answers rx raw) (c.mark == fingerprint raw)
      (λ same.
        let (from, marked, was) = h id c e in
        (h, (from, sym marked ∙ ==→eq c.mark (fingerprint raw) same, was)))
      (λ _. anew rx id raw cache h)

-- The two definitions: two labels are set, or one whose value has the other written into it.
abbrev pub two_labels : String → String → String → String → Json
two_labels k v k' v' =
    array (cons (object (field "set" (object (field k (text v) (field k' (text v') end))) end)) nil)

abbrev pub one_label : String → String → String → String → Json
one_label k v k' v' = array (
    cons
      (object
        (field "set" (object (field k (text (concat (v ∷ "," ∷ k' ∷ ":" ∷ v' ∷ []))) end)) end))
      nil)

fingerprint_collides :
    (k v k' v' : String) → fingerprint (one_label k v k' v') ≡ fingerprint (two_labels k v k' v')
unfolding fingerprint
fingerprint_collides k v k' v' = simp append_assoc

-- Where every entry of the cache was compiled from a definition with its mark, so is every entry after a
-- call, and the answer is what compiling a definition with the fingerprint of the one asked for gives.
pub compiled_pipeline_lem :
    (rx : Regexps) (id : String) (raw : Json) (cache : Cache)
    → IsCache rx cache
    → IsCache rx (compiled_pipeline rx id raw cache).1
      × ((from : Json) × (fingerprint from ≡ fingerprint raw)
          × ((compiled_pipeline rx id raw cache).0 ≡ compile_alert_pipeline rx from))
unfolding compiled_pipeline
compiled_pipeline_lem rx id raw cache h = cached_or-Answers rx id raw cache (cache id) refl h

-- An edit may be ignored: the fingerprint does not tell a label whose value is `v,k':v'` from two labels
-- k and k'. Of an integration that had no compiled pipeline, once the definition that sets two labels was
-- compiled, the edited one that sets a single label is answered with the old one.
pub edit_ignored :
    (rx : Regexps) (id k v k' v' : String) (cache : Cache)
    → cache id ≡ none
    → (compiled_pipeline rx id
        (one_label k v k' v')
        (compiled_pipeline rx id (two_labels k v k' v') cache).1).0
      ≡ compile_alert_pipeline rx (two_labels k v k' v')
unfolding compiled_pipeline cached_or compile_anew
edit_ignored rx id k v k' v' cache fresh =
    rw
      (
        fresh,
        ==_self id,
        fingerprint_collides k v k' v',
        ==_self (fingerprint (two_labels k v k' v')),
      )
      refl

-- ===== src/Routing/Keys.antt =====
-- The keys under which alerts are grouped, and a label that no route can name.
use nxs_anomaly.Base.{◌≡◌, refl, ap, ◌∙◌, ◌≢◌, String, List, [], ◌∷◌}
use nxs_anomaly.Base.Decoded.{Json, Fields, find, print_value, list_of}
use nxs_anomaly.Base.Text.{join}
use nxs_anomaly.Routing.{LabelList, lookup, parts_of, or_title, build_dedupe_key}

-- Both have the same value, or none, under each of the keys.
abbrev pub Agree : List Json → LabelList → LabelList → Type 0
Agree [] a b = Unit {0}
Agree (k ∷ rest) a b = (lookup (print_value k) a ≡ lookup (print_value k) b) × Agree rest a b

parts_of-Agree :
    (keys : List Json) (a b : LabelList) → Agree keys a b → parts_of keys a ≡ parts_of keys b
unfolding parts_of
parts_of-Agree [] a b h = refl
parts_of-Agree (k ∷ rest) a b h = rw (h.0, parts_of-Agree rest a b h.1) refl

or_title_parts :
    (s t : String) (parts : List String) → parts ≢ [] → or_title s parts ≡ or_title t parts
unfolding or_title
or_title_parts s t [] h = absurd (h refl)
or_title_parts s t (p ∷ ps) h = refl

-- Two alerts that agree on the labels that their integration groups by, and have one of them, have the
-- same key, whatever their titles and their other labels.
pub build_dedupe_key_lem :
    (integration : Fields) (a b : LabelList) (s t : String)
    → Agree (list_of (find "group_by" integration)) a b
    → parts_of (list_of (find "group_by" integration)) a ≢ []
    → build_dedupe_key integration a s ≡ build_dedupe_key integration b t
unfolding build_dedupe_key
build_dedupe_key_lem integration a b s t same some_part =
    let keys = list_of (find "group_by" integration) in
    ap (join "|") (
      or_title_parts s t (parts_of keys a) some_part
      ∙ ap (or_title t) (parts_of-Agree keys a b same))

-- ===== src/Routing.antt =====
-- internal/engine/routing.go: the route of an alert, the keys under which alerts are grouped, and the
-- chains that routes name.
pub mod Selection
pub mod Keys
use nxs_anomaly.Base.{
  String, Bool, true, false, not, ◌&&◌, ◌||◌, List, [], ◌∷◌, Option, none, some, map, ◌==◌,
  if◌then◌else◌, contains,
}
use nxs_anomaly.Base.Text.{concat, join, sort_texts}
use nxs_anomaly.Base.Decoded.{
  Json, null, text, array, object, Fields, items, fields, find, print_value, scalar_text, text_val,
  flag_val, list_of, objects,
}
use nxs_anomaly.Pipeline.Document.{Regexps}

-- The labels of an alert, a Go map, in the order of one run.
abbrev pub LabelList : Type 0
LabelList = List (String × String)

abbrev pub label_text : String × Json → String × String
label_text (k, v) = (k, scalar_text v)

-- `CoerceLabelMap`, with its error dropped: a nil map reads as an empty one.
unfoldable pub labels_of : Option Json → LabelList
labels_of (some (object m)) = map label_text (fields m)
labels_of _ = []

-- `labels[k]`, with its second result.
unfoldable pub lookup : String → LabelList → Option String
lookup key [] = none
lookup key ((k, v) ∷ rest) = if k == key then some v else lookup key rest

unfoldable pub or_empty : Option String → String
or_empty none = ""
or_empty (some v) = v

unfoldable pub has_labels : LabelList → List (String × Json) → Bool
unfolding or_empty
has_labels labels [] = true
has_labels labels ((k, v) ∷ rest) =
    or_empty (lookup k labels) == print_value v && has_labels labels rest

unfoldable pub any_label : Regexps → String → LabelList → Bool
any_label rx re [] = false
any_label rx re ((name, value) ∷ rest) =
    rx.match_string re value
    || rx.match_string re (concat (name ∷ "=" ∷ value ∷ []))
    || any_label rx re rest

-- `regexRouteMatches`.
unfoldable pub regex_route_matches : Regexps → String → String → LabelList → Bool
unfolding any_label
regex_route_matches rx re title labels =
    (not (title == "") && rx.match_string re title) || any_label rx re labels

fields_in : Option Json → List (String × Json)
fields_in (some (object m)) = fields m
fields_in _ = []

-- A value as a text, where it is one: what `switch route["match_type"]` compares.
exact_text : Option Json → String
exact_text (some (text s)) = s
exact_text _ = ""

-- The tests of one route that is not the default.
unfoldable pub route_matches : Regexps → String → LabelList → Fields → Bool
unfolding has_labels regex_route_matches fields_in exact_text
route_matches rx title labels route =
    if exact_text (find "match_type" route) == "labels"
    then has_labels labels (fields_in (find "labels" route))
    else if exact_text (find "match_type" route) == "regex"
    then (let pattern = text_val route "pattern" in
        not (pattern == "") && rx.compiles pattern && regex_route_matches rx pattern title labels)
    else false

abbrev pub is_default : Fields → Bool
is_default route = flag_val route "is_default" false

unfoldable pub or_default : Bool → Fields → Option Fields → Option Fields
or_default true route before = some route
or_default false route before = before

-- The loop over the routes, with the default route so far.
unfoldable pub choose : Regexps → String → LabelList → List Fields → Option Fields → Option Fields
unfolding or_default
choose rx title labels [] before = before
choose rx title labels (route ∷ rest) before =
    let later = choose rx title labels rest (or_default (is_default route) route before) in
    if not (is_default route) && route_matches rx title labels route then some route else later

-- The routes of an integration that are objects.
unfoldable pub routes_of : Fields → List Fields
routes_of integration = objects (list_of (find "routes" integration))

-- `selectRoute`; without a route it fails.
unfoldable pub select_route : Regexps → Fields → Fields → Option Fields
unfolding choose labels_of
select_route rx integration payload =
    choose rx (text_val payload "title") (labels_of (find "labels" payload)) (routes_of integration)
      none

part : String → Option String → List String → List String
part key none rest = rest
part key (some v) rest = concat (key ∷ "=" ∷ v ∷ []) ∷ rest

unfoldable pub parts_of : List Json → LabelList → List String
unfolding part
parts_of [] labels = []
parts_of (k ∷ rest) labels =
    part (print_value k) (lookup (print_value k) labels) (parts_of rest labels)

unfoldable pub or_title : String → List String → List String
or_title title [] = concat ("title=" ∷ title ∷ []) ∷ []
or_title title (p ∷ ps) = p ∷ ps

-- `buildDedupeKey`.
unfoldable pub build_dedupe_key : Fields → LabelList → String → String
unfolding parts_of or_title
build_dedupe_key integration labels title =
    join "|" (or_title title (parts_of (list_of (find "group_by" integration)) labels))

key_value : LabelList → String → String
key_value labels k = concat (k ∷ "=" ∷ or_empty (lookup k labels) ∷ [])

-- `alertmanagerGroupLabelsKey`.
unfoldable pub alertmanager_group_labels_key : LabelList → String
unfolding key_value sort_texts
alertmanager_group_labels_key [] = ""
alertmanager_group_labels_key (label ∷ rest) = concat (
    "alertmanager_group:"
    ∷ join "|" (map (key_value (label ∷ rest)) (sort_texts (map (λ l. l.0) (label ∷ rest))))
    ∷ [])

chain_ids : List Fields → List String → List String
chain_ids [] seen = []
chain_ids (route ∷ rest) seen =
    let id = text_val route "escalation_chain_id" in
    let skip = id == "" || contains id seen in
    let later = chain_ids rest (if skip then seen else id ∷ seen) in
    if skip then later else id ∷ later

-- `routeChainIDs`.
unfoldable pub route_chain_ids : Fields → List String
unfolding chain_ids routes_of
route_chain_ids payload = chain_ids (routes_of payload) []

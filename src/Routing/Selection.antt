-- ===== src/Routing/Selection.antt =====
-- Which route `selectRoute` picks.
use nxs_anomaly.Base.{
  ◌≡◌, refl, String, not, ◌&&◌, inl, inr, List, [], ◌∷◌, Option, none, some, if◌then◌else◌,
  Bool-cases,
}
use nxs_anomaly.Base.Decoded.{Fields, find, text_val}
use nxs_anomaly.Pipeline.Document.{Regexps}
use nxs_anomaly.Routing.{
  LabelList, labels_of, route_matches, is_default, or_default, choose, routes_of, select_route,
}

-- The first route that is no default and matches.
abbrev pub first_match : Regexps → String → LabelList → List Fields → Option Fields
first_match rx title labels [] = none
first_match rx title labels (route ∷ rest) =
    if not (is_default route) && route_matches rx title labels route
    then some route
    else first_match rx title labels rest

-- The last default route, or the one given.
abbrev pub last_default : List Fields → Option Fields → Option Fields
last_default [] before = before
last_default (route ∷ rest) before =
    last_default rest (if is_default route then some route else before)

abbrev pub or_else : Option Fields → Option Fields → Option Fields
or_else (some r) other = some r
or_else none other = other

choose_lem :
    (rx : Regexps) (title : String) (labels : LabelList) (routes : List Fields)
    (before : Option Fields)
    → choose rx title labels routes before
      ≡ or_else (first_match rx title labels routes) (last_default routes before)
unfolding choose or_default
choose_lem rx title labels [] before = refl
choose_lem rx title labels (route ∷ rest) before = elim (Bool-cases (is_default route)) [
  | inl d ↦ rw d (choose_lem rx title labels rest (some route))
  | inr nd ↦ elim (Bool-cases (route_matches rx title labels route)) [
    | inl m ↦ rw (nd, m) refl
    | inr nm ↦ rw (nd, nm) (choose_lem rx title labels rest before)
  ]
]

-- An alert goes to the first route that is not a default and matches it, wherever the default stands, and
-- where none does to the last route marked as default; only an integration with neither refuses it.
pub select_route_lem :
    (rx : Regexps) (integration payload : Fields)
    → select_route rx integration payload
      ≡ or_else
          (first_match rx
            (text_val payload "title")
            (labels_of (find "labels" payload))
            (routes_of integration))
          (last_default (routes_of integration) none)
unfolding select_route
select_route_lem rx integration payload =
    choose_lem rx (text_val payload "title") (labels_of (find "labels" payload))
      (routes_of integration) none

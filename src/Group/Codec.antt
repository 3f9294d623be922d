-- ===== src/Group/Codec.antt =====
-- internal/model/alertgroup.go: a stored row decoded into typed fields (`newAGData`) and rebuilt
-- (`toMap`).
pub mod RoundTrip
use nxs_anomaly.Base.{String, List, [], ◌∷◌, Option, none, some, ◌==◌, if◌then◌else◌, contains}
use nxs_anomaly.Base.Json.{
  Scalar, LogEntry, Value, null, str, num, list, obj, entries, Row, as_string, as_int,
}
use nxs_anomaly.Group.State.{Group}

abbrev pub promoted_keys : List String
promoted_keys =
    "id" ∷ "route_id" ∷ "dedupe_key" ∷ "status" ∷ "title" ∷ "severity" ∷ "created_at" ∷ "updated_at"
    ∷ "last_received_at" ∷ "alert_count" ∷ "current_step" ∷ "repeat_count" ∷ "labels" ∷ "alert_ids"
    ∷ "logs" ∷ []

-- The type assertions of `newAGData`, nil where the value has another type.
abbrev as_obj : Option Value → Option (List (String × Scalar))
as_obj (some (obj fields)) = some fields
as_obj _ = none

abbrev as_list : Option Value → Option (List String)
as_list (some (list xs)) = some xs
as_list _ = none

abbrev as_entries : Option Value → Option (List LogEntry)
as_entries (some (entries es)) = some es
as_entries _ = none

unfoldable pub new_ag_data : Row → Group
unfolding as_string as_int
new_ag_data m = record {
  id = as_string (m "id");
  route_id = as_string (m "route_id");
  dedupe_key = as_string (m "dedupe_key");
  status = as_string (m "status");
  title = as_string (m "title");
  severity = as_string (m "severity");
  created_at = as_string (m "created_at");
  updated_at = as_string (m "updated_at");
  last_received_at = as_string (m "last_received_at");
  alert_count = as_int (m "alert_count");
  current_step = as_int (m "current_step");
  repeat_count = as_int (m "repeat_count");
  labels = as_obj (m "labels");
  alert_ids = as_list (m "alert_ids");
  logs = as_entries (m "logs");
  extra = λ k. if contains k promoted_keys then none else m k;
}

-- A nil map or slice is stored as null.
abbrev of_obj : Option (List (String × Scalar)) → Value
of_obj none = null
of_obj (some fields) = obj fields

abbrev of_list : Option (List String) → Value
of_list none = null
of_list (some xs) = list xs

abbrev of_entries : Option (List LogEntry) → Value
of_entries none = null
of_entries (some es) = entries es

abbrev promoted_fields : Group → List (String × Value)
promoted_fields g =
    ("id", str g.id)
    ∷ ("route_id", str g.route_id)
    ∷ ("dedupe_key", str g.dedupe_key)
    ∷ ("status", str g.status)
    ∷ ("title", str g.title)
    ∷ ("severity", str g.severity)
    ∷ ("created_at", str g.created_at)
    ∷ ("updated_at", str g.updated_at)
    ∷ ("last_received_at", str g.last_received_at)
    ∷ ("alert_count", num g.alert_count)
    ∷ ("current_step", num g.current_step)
    ∷ ("repeat_count", num g.repeat_count)
    ∷ ("labels", of_obj g.labels)
    ∷ ("alert_ids", of_list g.alert_ids)
    ∷ ("logs", of_entries g.logs)
    ∷ []

abbrev find_field : String → List (String × Value) → Option Value
find_field k [] = none
find_field k ((j, v) ∷ rest) = if j == k then some v else find_field k rest

abbrev or_else : Option Value → Option Value → Option Value
or_else none other = other
or_else (some v) other = some v

-- The promoted fields first, then `Extra` on top.
unfoldable pub to_map : Group → Row
to_map g k = or_else (g.extra k) (find_field k (promoted_fields g))

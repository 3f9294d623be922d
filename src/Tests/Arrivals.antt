-- ===== src/Tests/Arrivals.antt =====
-- Alerts that arrive: their routes, their keys, and a maintenance window, on concrete data.
use nxs_anomaly.Base.{
  if◌then◌else◌, ◌&&◌, ◌==◌, ◌+◌, ◌-◌, ◌*◌, ◌<◌, ◌↔◌, ◌≡◌, refl, ◌≢◌, String, true, false, List, [],
  ◌∷◌, none, some, arith, ne_of_test,
}
use nxs_anomaly.Base.Layouts.{GoTime, parse_datetime}
use nxs_anomaly.Base.Time.{Instant, second}
use nxs_anomaly.Base.Decoded.{
  scalar_text, flag_val, text, number, positive_val, flag, array, object, nil, cons, Fields, end,
  field, find, text_val, print_value,
}
use nxs_anomaly.Base.Text.{trim_space}
use nxs_anomaly.Group.State.{status_silenced}
use nxs_anomaly.Steps.Walk.{advance_due_group}
use nxs_anomaly.Routing.{
  or_empty, alertmanager_group_labels_key, LabelList, labels_of, lookup, parts_of, routes_of,
  select_route, build_dedupe_key, route_matches,
}
use nxs_anomaly.Routing.Selection.{first_match, last_default, or_else, select_route_lem}
use nxs_anomaly.Routing.Keys.{build_dedupe_key_lem}
use nxs_anomaly.Maintenance.{active_maintenance, ends_of, silence_for_maintenance}
use nxs_anomaly.Maintenance.Active.{Offers, Longest, NoneCovers, active_maintenance_lem}
use nxs_anomaly.Maintenance.Silenced.{silence_for_maintenance_lem}
use nxs_anomaly.Base.Durations.{ℤ}
use nxs_anomaly.Heartbeat.{Source, LastAlert, Pass, is_silent, passes, process_source}
use nxs_anomaly.Heartbeat.Alternation.{Alternates, passes-Alternates, process_source_lem}
use nxs_anomaly.Tests.Data.{tick_time, fresh, quiet_directory, open_group}
use nxs_anomaly.Tests.Chains.{draw}
use nxs_anomaly.Tests.Pipelines.{literal}

abbrev by_team : Fields
by_team = field "id" (text "team") (
    field "labels" (object (field "team" (text "db") end)) (field "match_type" (text "labels") end))

abbrev the_default : Fields
the_default = field "id" (text "rest") (field "is_default" (flag true) end)

abbrev routed : Fields
routed =
    field "group_by" (array (cons (text "team") (cons (text "host") nil)))
      (field "routes" (array (cons (object the_default) (cons (object by_team) nil))) end)

abbrev of_db : Fields
of_db = field "labels" (object (field "team" (text "db") end)) (field "title" (text "disk") end)

picks_team : select_route literal routed of_db ≡ some by_team
unfolding select_route routes_of find flag_val route_matches lookup scalar_text
picks_team = refl

select_route_lem_example :
    select_route literal routed of_db
    ≡ or_else
        (first_match literal
          (text_val of_db "title")
          (labels_of (find "labels" of_db))
          (routes_of routed))
        (last_default (routes_of routed) none)
select_route_lem_example = select_route_lem literal routed of_db

abbrev here : LabelList
here = ("team", "db") ∷ ("zone", "a") ∷ []

abbrev there : LabelList
there = ("team", "db") ∷ ("zone", "b") ∷ []

abbrev team_part : List String
team_part = "team=db" ∷ []

has_team : team_part ≢ []
has_team e = cc

build_dedupe_key_lem_example :
    build_dedupe_key routed here "disk" ≡ build_dedupe_key routed there "disk 2"
unfolding parts_of lookup find print_value
build_dedupe_key_lem_example =
    build_dedupe_key_lem routed here there "disk" "disk 2" (refl, (refl, tt)) has_team

abbrev window : String → Fields
window until =
    field "starts_at" (text "+i")
      (field "ends_at" (text until) (field "integration_ids" (array (cons (text "int_1") nil)) end))

abbrev windows : List Fields
windows = window "+iii" ∷ window "+iiiii" ∷ []

longer_window : active_maintenance tick_time windows "int_1" (2 * second) ≡ some (window "+iiiii")
unfolding active_maintenance text_val trim_space
longer_window = refl

active_maintenance_lem_example :
    ((f : Fields)
      → some (window "+iiiii") ≡ some f
      → Offers tick_time "int_1" (2 * second) f windows
        × ((e : Instant) × (ends_of tick_time f ≡ some e)
            × Longest tick_time "int_1" (2 * second) e windows))
    × (some (window "+iiiii") ≡ none → NoneCovers tick_time "int_1" (2 * second) windows)
active_maintenance_lem_example =
    active_maintenance_lem tick_time "int_1" (2 * second) windows (some (window "+iiiii"))
      longer_window

silence_for_maintenance_lem_example :
    let done =
      silence_for_maintenance tick_time fresh fresh
        (some (window "+iiiii"))
        (2 * second)
        "+ii"
        open_group in
    (done.1 ≡ true)
    × (done.0.status ≡ status_silenced)
    × (advance_due_group tick_time quiet_directory draw (4 * second) "+iiii" fresh fresh done.0
        ≡ (done.0, false))
unfolding text_val find
silence_for_maintenance_lem_example =
    silence_for_maintenance_lem tick_time quiet_directory draw fresh fresh fresh fresh
      (window "+iiiii") (2 * second) (5 * second) (4 * second) "+ii" "+iiii" open_group
      (ne_of_test refl) refl (omega arith)

abbrev beat : Fields
beat = field "grace_seconds" (number 2) (field "interval_seconds" (number 60) end)

abbrev beating : Fields
beating = field "key" (text "k") (field "heartbeat" (object beat) end)

abbrev source : Source
source = record { integration = beating; silent_since = ""; updated_at = ""; raised = [] }

abbrev pass_at : Instant → Pass
pass_at t = record {
  now = t;
  windows = [];
  last = LastAlert.at (10 * second);
  ingested = true;
  marked = true;
}

abbrev blank : ℤ → String
blank n = ""

passes-Alternates_example :
    Alternates
      (is_silent (passes tick_time blank "int_1" (pass_at (80 * second) ∷ []) source))
      (passes tick_time blank "int_1" (pass_at (80 * second) ∷ []) source).raised
passes-Alternates_example =
    passes-Alternates tick_time blank "int_1" (pass_at (80 * second) ∷ []) source (refl, tt) refl

process_source_lem_example :
    (is_silent (process_source tick_time blank "int_1" (pass_at (80 * second)) source) ≡ true)
    ↔ (60 * second + 2 * second < 80 * second - 10 * second)
unfolding find text_val active_maintenance positive_val
process_source_lem_example =
    process_source_lem tick_time blank "int_1" (pass_at (80 * second)) beat (10 * second) source
      refl (omega arith) (omega arith) refl (ne_of_test refl) refl refl refl refl

group_key_sorted :
    alertmanager_group_labels_key (("zone", "a") ∷ ("team", "db") ∷ [])
    ≡ "alertmanager_group:team=db|zone=a"
unfolding alertmanager_group_labels_key lookup or_empty
group_key_sorted = refl

-- One text that the first layout reads.
abbrev one_reading : GoTime
one_reading = record {
  parse = λ layout s.
      if layout == "2006-01-02T15:04:05-07:00" && s == "2026-05-10T10:00:00+00:00"
      then some second
      else none;
  format = λ layout t. "";
}

reads_zulu : parse_datetime one_reading " 2026-05-10T10:00:00Z\n" ≡ some second
unfolding parse_datetime
reads_zulu = refl

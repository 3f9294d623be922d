-- ===== src/Maintenance.antt =====
-- internal/engine/maintenance.go: the maintenance window that covers an integration, the checks of a new
-- window, and the silencing of a group that opens during one.
pub mod Active
pub mod Silenced
use nxs_anomaly.Base.{
  ◌-◌, ◌/◌, String, Bool, true, false, not, ◌&&◌, ◌||◌, List, [], ◌∷◌, Option, none, some, ltb, leb,
  eqb, ◌==◌, if◌then◌else◌, contains, ℕ,
}
use nxs_anomaly.Base.Text.{sort_texts, concat, trim_space}
use nxs_anomaly.Base.Time.{Instant, TimeText, minute}
use nxs_anomaly.Base.Json.{text}
use nxs_anomaly.Base.Decoded
use nxs_anomaly.Base.Decoded.{Json, array, Fields, items, find, print_value, text_val, list_of}
use nxs_anomaly.Authz.{system_actor}
use nxs_anomaly.Group.State.{Result, ok, err, Group, Fresh, append_log}
use nxs_anomaly.Group.Transitions.{silence}

unfoldable pub named : List Json → List String
named [] = []
named (v ∷ rest) =
    let id = trim_space (print_value v) in
    let later = named rest in if id == "" then later else id ∷ later

-- `maintenanceIntegrations`.
unfoldable pub maintenance_integrations : Fields → List String
unfolding named
maintenance_integrations window = named (list_of (find "integration_ids" window))

unfoldable pub within : Instant → Option Instant → Option Instant → Bool
within now (some starts) (some ends) = leb starts now && ltb now ends
within now _ _ = false

-- The window is open and names the integration; a bound that cannot be read opens nothing.
unfoldable pub covers : TimeText → String → Instant → Fields → Bool
unfolding within maintenance_integrations
covers time id now w =
    within now (time.parse (text_val w "starts_at")) (time.parse (text_val w "ends_at"))
    && contains id (maintenance_integrations w)

abbrev pub ends_of : TimeText → Fields → Option Instant
ends_of time w = time.parse (text_val w "ends_at")

unfoldable pub later_end : Option Instant → Option Instant → Bool
later_end (some before) (some ends) = ltb before ends
later_end _ _ = false

unfoldable pub later_window : TimeText → Option Fields → Fields → Option Fields
unfolding later_end
later_window time none w = some w
later_window time (some found) w =
    if later_end (ends_of time found) (ends_of time w) then some w else some found

unfoldable pub find_active :
    TimeText → String → Instant → List Fields → Option Fields → Option Fields
unfolding covers later_window
find_active time id now [] found = found
find_active time id now (w ∷ rest) found =
    find_active time id now rest (if covers time id now w then later_window time found w else found)

-- `activeMaintenance`, of the windows in the order in which the map is taken.
unfoldable pub active_maintenance : TimeText → List Fields → String → Instant → Option Fields
unfolding find_active
active_maintenance time windows id now = find_active time id now windows none

pub data MaintenanceError : Type 0 where
  bad_starts_at bad_ends_at ends_before not_a_list no_integration : MaintenanceError

pub data Accepted (A : Type 0) : Type 0 where
  accepted : A → Accepted A
  refused : MaintenanceError → Accepted A

unfoldable pub both_bounds : Option Instant → Option Instant → Accepted (Instant × Instant)
both_bounds none _ = refused bad_starts_at
both_bounds (some starts) none = refused bad_ends_at
both_bounds (some starts) (some ends) =
    if ltb starts ends then accepted (starts, ends) else refused ends_before

-- `maintenanceBounds`.
unfoldable pub maintenance_bounds : TimeText → Fields → Accepted (Instant × Instant)
unfolding both_bounds
maintenance_bounds time payload =
    both_bounds (time.parse (text_val payload "starts_at"))
      (time.parse (text_val payload "ends_at"))

unfoldable pub not_seen : List Json → List String → List String
not_seen [] seen = []
not_seen (v ∷ rest) seen =
    let id = trim_space (print_value v) in
    let skip = id == "" || contains id seen in
    let later = not_seen rest (if skip then seen else id ∷ seen) in
    if skip then later else id ∷ later

unfoldable pub not_empty : List String → Accepted (List String)
unfolding sort_texts
not_empty [] = refused no_integration
not_empty (a ∷ rest) = accepted (sort_texts (a ∷ rest))

unfoldable pub integrations_arg : Option Json → Accepted (List String)
unfolding not_seen not_empty
integrations_arg (some (array xs)) = not_empty (not_seen (items xs) [])
integrations_arg _ = refused not_a_list

-- `maintenanceIntegrationsArg`.
unfoldable pub maintenance_integrations_arg : Fields → Accepted (List String)
unfolding integrations_arg
maintenance_integrations_arg payload = integrations_arg (find "integration_ids" payload)

at_least_one : ℕ → ℕ
at_least_one n = if ltb n 1 then 1 else n

after_silence : TimeText → Fresh → Fields → Instant → Group → Result Group → Group × Bool
after_silence time f w ends g (err e) = (g, false)
after_silence time f w ends g (ok silenced) = (
  append_log f "maintenance_silenced"
      (concat ("Silenced by maintenance window " ∷ text_val w "name" ∷ []))
      (("window_id", text (text_val w "id")) ∷ ("until", text (time.to_iso ends)) ∷ []) silenced,
  true,
)

silence_until :
    TimeText → Fresh → Fresh → Fields → Instant → String → Group → Option Instant → Group × Bool
unfolding at_least_one after_silence silence append_log
silence_until time f f' w now ts g none = (g, false)
silence_until time f f' w now ts g (some ends) = after_silence time f' w ends g (
    silence f ts (time.to_iso ends) (concat ("Maintenance window: " ∷ text_val w "name" ∷ []))
      (at_least_one ((ends - now) / minute)) system_actor g)

-- `silenceForMaintenance`, with its report of whether it silenced the group.
unfoldable pub silence_for_maintenance :
    TimeText → Fresh → Fresh → Option Fields → Instant → String → Group → Group × Bool
unfolding silence_until
silence_for_maintenance time f f' none now ts g = (g, false)
silence_for_maintenance time f f' (some w) now ts g =
    silence_until time f f' w now ts g (ends_of time w)

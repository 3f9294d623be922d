-- ===== src/Tests/Groups.antt =====
-- The life of an alert group, on concrete data.
use nxs_anomaly.Base.{
  ◌+◌, String, true, false, ◌≡◌, refl, ◌≢◌, ◌⊎◌, List, [], ◌∷◌, none, some, arith, contains, ◌==◌,
  ne_of_test, if_cases, ==→eq, sym, ap, ◌∙◌, false≢true,
}
use nxs_anomaly.Base.Json.{Value, null, str, Row, empty_row, put, str_val}
use nxs_anomaly.Group.State.{Fresh, new_alert_group, episode_id, escalation_pass}
use nxs_anomaly.Group.Lifecycle.{
  Call, acknowledges, resolves, unresolves, ends_silence, receives_alert, silences, perform, ◌⟶◌,
  perform-⟶,
}
use nxs_anomaly.Group.Sound.{IsSound, run, run-IsSound}
use nxs_anomaly.Group.Restart.{perform_opens, unresolve_keeps_repeats}
use nxs_anomaly.Group.Codec.{promoted_keys, new_ag_data, to_map}
use nxs_anomaly.Group.Codec.RoundTrip.{IsGroupRow, to_map-new_ag_data}
use nxs_anomaly.Tests.Data.{fresh, operator, params, resolved_group, open_group}

-- A night: silenced, acknowledged, resolved, opened again.
abbrev night : List (Fresh × Call)
night =
    (fresh, silences "+i" "+ii" "quiet" 1 operator)
    ∷ (fresh, ends_silence "+ii")
    ∷ (fresh, acknowledges "+iii" "on it" operator)
    ∷ (fresh, resolves "+iiii" "done" operator)
    ∷ (fresh, unresolves "+iiiii" operator)
    ∷ []

night_status : (run night (new_alert_group fresh params)).status ≡ "open"
unfolding run new_alert_group perform
night_status = refl

run-IsSound_example : IsSound (run night (new_alert_group fresh params))
run-IsSound_example = run-IsSound fresh params night

perform-⟶_example : "open" ⟶ (perform fresh (acknowledges "+ii" "on it" operator) open_group).status
perform-⟶_example = perform-⟶ fresh (acknowledges "+ii" "on it" operator) open_group

receives_alert_is_no_unresolve : (ts : String) (actor : _) → receives_alert ≢ unresolves ts actor
receives_alert_is_no_unresolve ts actor e = ground (arith, e)

perform_opens_example :
    let h = perform fresh (unresolves "+ii" operator) resolved_group in
    (h.current_step ≡ 0)
    × ((episode_id h ≢ episode_id resolved_group)
        ⊎ (escalation_pass h ≡ escalation_pass resolved_group + 1))
unfolding perform str_val
perform_opens_example =
    perform_opens fresh (unresolves "+ii" operator) resolved_group (ne_of_test refl)
      (ne_of_test refl) refl

unresolve_keeps_repeats_example :
    ((perform fresh (unresolves "+ii" operator) resolved_group).status ≡ "open")
    × ((perform fresh (unresolves "+ii" operator) resolved_group).repeat_count ≡ 3)
unresolve_keeps_repeats_example = unresolve_keeps_repeats fresh "+ii" operator resolved_group refl

abbrev stored_row : Row
stored_row = put "custom" (str "kept") (to_map resolved_group)

stored_row-IsGroupRow : IsGroupRow stored_row
unfolding to_map
stored_row-IsGroupRow = record {
  id = (_, refl);
  route_id = (_, refl);
  dedupe_key = (_, refl);
  status = (_, refl);
  title = (_, refl);
  severity = (_, refl);
  created_at = (_, refl);
  updated_at = (_, refl);
  last_received_at = (_, refl);
  alert_count = (_, refl);
  current_step = (_, refl);
  repeat_count = (_, refl);
  labels = (none, refl);
  alert_ids = (some ("alr_1" ∷ []), refl);
  logs = (some [], refl);
}

to_map-new_ag_data_example : to_map (new_ag_data stored_row) "custom" ≡ stored_row "custom"
to_map-new_ag_data_example = to_map-new_ag_data stored_row stored_row-IsGroupRow "custom"

put_unpromoted :
    (key k : String) (v : Value) (m : Row)
    → contains key promoted_keys ≡ false
    → contains k promoted_keys ≡ true
    → m k ≡ none
    → put key v m k ≡ none
put_unpromoted key k v m out h rest =
    if_cases (λ o. o ≡ none) (key == k)
      (λ hit.
        absurd (false≢true (sym out ∙ ap (λ j. contains j promoted_keys) (==→eq key k hit) ∙ h)))
      (λ _. rest)

resolved_group_extra :
    (k : String) → contains k promoted_keys ≡ true → resolved_group.extra k ≡ none
resolved_group_extra k h =
    let due = put_unpromoted "next_run_at" k null empty_row refl h refl in
    let closed =
      put_unpromoted "resolved_at" k (str "+i") (put "next_run_at" null empty_row) refl h due in
    put_unpromoted "episode_id" k (str "ep_1")
      (put "resolved_at" (str "+i") (put "next_run_at" null empty_row)) refl h closed

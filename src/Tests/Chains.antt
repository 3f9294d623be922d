-- ===== src/Tests/Chains.antt =====
-- A group on its escalation chain, on concrete data.
use nxs_anomaly.Base.{
  ◌*◌, ◌≤◌, ◌<◌, String, true, false, ◌≡◌, refl, ◌≢◌, ◌⊎◌, ◌↔◌, List, [], ◌∷◌, Option, none, some,
  arith, ne_of_test, ◌==◌, if◌then◌else◌,
}
use nxs_anomaly.Base.Time.{Instant, second}
use nxs_anomaly.Base.Json.{
  Row, null, str, num, bool, list, str_val, bool_val, str_slice, int_val, empty_row, put,
}
use nxs_anomaly.Group.State.{Group, next_run_at, put_extra}
use nxs_anomaly.Steps.{Directory}
use nxs_anomaly.Steps.Paging.{on_duty, candidate_ids, elect_duty_users}
use nxs_anomaly.Steps.Paging.Duty.{highest, of_rank, elect_highest}
use nxs_anomaly.Steps.Walk.{Draws, advance_group_locked, advance_due_group, max_int}
use nxs_anomaly.Steps.Walk.Course.{Limited, Ends, at}
use nxs_anomaly.Steps.Walk.Advance.{Fits, left_of, advance-Ends, advance_uses, advance_due_iff}
use nxs_anomaly.Group.Sound.{IsSound, new_alert_group-IsSound}
use nxs_anomaly.Group.State.{new_alert_group}
use nxs_anomaly.Steps.Walk.Safe.{advance_due_group-IsSound}
use nxs_anomaly.Tests.Data.{params, quiet_policies, tick_time, fresh, open_group}

abbrev user_on_duty : String → Row
user_on_duty id = put "id" (str id) (put "username" (str id) (put "on_duty" (bool true) empty_row))

abbrev pages_ann : Row
pages_ann = put "kind" (str "NOTIFY_USER") (put "user_ids" (list ("ann" ∷ [])) empty_row)

abbrev waits_five : Row
waits_five = put "kind" (str "WAIT") (put "delay_minutes" (num 5) empty_row)

abbrev repeats_twice : Row
repeats_twice = put "kind" (str "REPEAT") (put "max_repeat_count" (num 2) empty_row)

abbrev chain : List (Option Row)
chain = some pages_ann ∷ some waits_five ∷ some repeats_twice ∷ []

abbrev directory : Directory
directory = record {
  chains = λ id. if id == "chain_1" then some chain else none;
  users = λ id. if id == "ann" then some (user_on_duty "ann") else none;
  user_ids = "ann" ∷ "bob" ∷ [];
  teams = λ id. none;
  integrations = λ id. none;
  on_call = λ schedule t. [];
  policies = quiet_policies;
  notify_on_resolve = false;
}

abbrev pub draw : Draws
draw i k = fresh

abbrev new_group : Group
new_group =
    put_extra "escalation_chain_id" (str "chain_1")
      (record open_group { current_step = 0; repeat_count = 0 })

chain-Limited : Limited 2 chain
unfolding str_val int_val max_int
chain-Limited =
    (λ e. absurd (ne_of_test refl e), (λ e. absurd (ne_of_test refl e), (λ e. omega arith, tt)))

chain-Fits : Fits chain
unfolding int_val
chain-Fits = (omega arith, omega arith, (omega arith, omega arith, (omega arith, omega arith, tt)))

advanced_step :
    (advance_group_locked tick_time directory draw (2 * second) "+ii" new_group).current_step ≡ 2
unfolding advance_group_locked str_val str_slice
advanced_step = refl

advance-Ends_example :
    Ends tick_time
      (at tick_time directory draw (2 * second) "+ii")
      2
      3
      0
      0
      (advance_group_locked tick_time directory draw (2 * second) "+ii" new_group)
unfolding str_val
advance-Ends_example =
    advance-Ends tick_time directory draw (2 * second) "+ii" 2 chain new_group refl refl
      chain-Limited chain-Fits

advance_uses_example :
    ((advance_group_locked tick_time directory draw (2 * second) "+ii" new_group).extra
        "next_run_at"
      ≡ some null)
    ⊎ (left_of 2 3 (advance_group_locked tick_time directory draw (2 * second) "+ii" new_group)
        < left_of 2 3 new_group)
unfolding str_val
advance_uses_example =
    advance_uses tick_time directory draw (2 * second) "+ii" 2 chain new_group refl refl
      chain-Limited

advance_due_iff_example :
    ((advance_due_group tick_time directory draw (2 * second) "+ii" fresh fresh new_group).1 ≡ true)
    ↔ ((due : Instant) × (tick_time.parse (next_run_at new_group) ≡ some due) × (due ≤ 2 * second))
advance_due_iff_example =
    advance_due_iff tick_time directory draw (2 * second) "+ii" fresh fresh new_group refl

someone_on : on_duty directory (candidate_ids directory empty_row) ≢ []
unfolding on_duty candidate_ids bool_val
someone_on e = ground (arith, e)

elect_highest_example :
    elect_duty_users directory empty_row
    ≡ of_rank
        (highest (on_duty directory (candidate_ids directory empty_row)))
        (on_duty directory (candidate_ids directory empty_row))
elect_highest_example = elect_highest directory empty_row someone_on

-- A group as it is created, on the chain.
abbrev fresh_group : Group
fresh_group = new_alert_group fresh params

advance_due_group-IsSound_example :
    IsSound
      (advance_due_group tick_time directory draw (2 * second) "+ii" fresh fresh fresh_group).0
advance_due_group-IsSound_example =
    advance_due_group-IsSound tick_time directory draw (2 * second) "+ii" fresh fresh fresh_group
      (new_alert_group-IsSound fresh params)

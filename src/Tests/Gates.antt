-- ===== src/Tests/Gates.antt =====
-- The access rules, the circuit breaker and the ingest gate, on concrete data.
use nxs_anomaly.Base.{suc, ◌+◌, ◌*◌, ◌≤◌, ◌<◌, false, ◌≡◌, refl, ◌↔◌, List, [], ◌∷◌, none, length}
use nxs_anomaly.Base.Time.{Instant, second}
use nxs_anomaly.Breaker.{Breaker, allow}
use nxs_anomaly.Breaker.Trips.{fail_at, last_of, refuses_iff}
use nxs_anomaly.IngestGate.{Event, arrives, takes, run, start, enabled, effect}
use nxs_anomaly.IngestGate.Places.{Inv, run-Inv}

abbrev breaker : Breaker
breaker = record { threshold = 2; cooldown = 30 * second; states = λ key. none }

abbrev twice_failed : List Instant
twice_failed = 10 * second ∷ 20 * second ∷ []

refuses_iff_example :
    ((allow "sms" (25 * second) (fail_at "sms" twice_failed breaker)).1 ≡ false) ↔ (
      (2 ≤ suc (length (20 * second ∷ [])))
      × (25 * second < last_of (10 * second) (20 * second ∷ []) + 30 * second))
refuses_iff_example = refuses_iff "sms" (10 * second) (20 * second ∷ []) breaker (25 * second) refl

-- Three ingests of one integration, two of which get a place.
abbrev rush : List Event
rush = arrives ∷ arrives ∷ arrives ∷ takes 0 ∷ takes 0 ∷ takes 0 ∷ []

rush_holders : (run rush start).holding 0 ≡ 2
unfolding run start enabled effect
rush_holders = refl

run-Inv_example : Inv (run rush start)
run-Inv_example = run-Inv rush

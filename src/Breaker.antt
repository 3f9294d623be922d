-- ===== src/Breaker.antt =====
-- internal/engine/circuit_breaker.go: the circuit breaker over delivery channels. A nil breaker, which
-- lets everything through, is `none`. The clock is an argument; the mutex makes each call one step.
pub mod Trips
use nxs_anomaly.Base.{
  ℕ, ◌+◌, ◌*◌, String, Bool, true, false, Option, none, some, leb, ltb, eqb, ◌==◌, if◌then◌else◌,
}
use nxs_anomaly.Base.Time.{Instant, second}

pub record Entry : Type 0 where
  pub failures : ℕ
  pub open_until : Instant

pub record Breaker : Type 0 where
  pub threshold : ℕ
  pub cooldown : ℕ
  pub states : String → Option Entry

unfoldable pub new_circuit_breaker : ℕ → ℕ → Option Breaker
new_circuit_breaker threshold cooldown =
    if leb threshold 0
    then none
    else some (record {
      threshold = threshold;
      cooldown = if leb cooldown 0 then 30 * second else cooldown;
      states = λ key. none;
    })

-- `c.states[key] = e`, and `delete(c.states, key)` for no entry.
abbrev pub set_state : String → Option Entry → Breaker → Breaker
set_state key e c = record c { states = λ j. if key == j then e else c.states j }

allow_entry : Breaker → String → Instant → Option Entry → Breaker × Bool
allow_entry c key now none = (c, true)
allow_entry c key now (some e) =
    if eqb e.open_until 0
    then (c, true)
    else if ltb now e.open_until
    then (c, false)
    else (set_state key (some (record e { open_until = now + c.cooldown })) c, true)

-- `Allow`, with the breaker after it.
unfoldable pub allow : String → Instant → Breaker → Breaker × Bool
unfolding allow_entry
allow key now c = allow_entry c key now (c.states key)

unfoldable pub allow_any : String → Instant → Option Breaker → Option Breaker × Bool
unfolding allow
allow_any key now none = (none, true)
allow_any key now (some c) = (some (allow key now c).0, (allow key now c).1)

entry_or_new : Option Entry → Entry
entry_or_new none = record { failures = 0; open_until = 0 }
entry_or_new (some e) = e

failed_once : Breaker → Instant → Entry → Entry
failed_once c now e =
    if leb c.threshold (e.failures + 1)
    then record { failures = e.failures + 1; open_until = now + c.cooldown }
    else record e { failures = e.failures + 1 }

-- `Record`.
unfoldable pub record_outcome : String → Bool → Instant → Breaker → Breaker
unfolding entry_or_new failed_once
record_outcome key success now c =
    if success
    then set_state key none c
    else set_state key (some (failed_once c now (entry_or_new (c.states key)))) c

unfoldable pub record_any : String → Bool → Instant → Option Breaker → Option Breaker
unfolding record_outcome
record_any key success now none = none
record_any key success now (some c) = some (record_outcome key success now c)

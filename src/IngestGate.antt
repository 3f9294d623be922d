-- ===== src/IngestGate.antt =====
-- internal/engine/ingest_gate.go: the gate before the database, at one integration's key. Slots are
-- objects with an identity, as the source's pointers are, so that an ingest may in principle hold one
-- that the map no longer has. Each critical section and each channel operation is one step; how many
-- ingests are waiting for a slot, hold one of its places, or are about to leave it is counted.
pub mod Places
use nxs_anomaly.Base.{
  ℕ, zero, suc, ◌+◌, ◌-◌, ◌*◌, ◌≤◌, Bool, true, false, List, [], ◌∷◌, Option, none, some, leb, ltb,
  eqb, if◌then◌else◌, ◌&&◌,
}
use nxs_anomaly.Base.Time.{Instant, second}

abbrev pub max_waiting : ℕ
max_waiting = 128

abbrev pub holders : ℕ
holders = 2

-- `ingestSlot`: the tokens in the channel, and the users.
pub record Slot : Type 0 where
  pub tokens : ℕ
  pub users : ℕ

-- `slots[key]`, the slots by identity, and the identity of the next one made.
pub record Gate : Type 0 where
  pub current : Option ℕ
  pub slot : ℕ → Slot
  pub next : ℕ

abbrev pub update {ℓ} : {A : Type ℓ} → (ℕ → A) → ℕ → A → ℕ → A
update f i v j = if eqb i j then v else f j

unfoldable pub new_ingest_gate : Gate
new_ingest_gate = record {
  current = none;
  slot = λ s. record { tokens = holders; users = 0 };
  next = 0;
}

enter_slot : Gate → ℕ → Gate × Option ℕ
enter_slot g s = if leb (holders + max_waiting) (g.slot s).users then (g, none) else (
  record g {
    slot = update g.slot s (record { tokens = (g.slot s).tokens; users = (g.slot s).users + 1 });
  },
  some s,
)

make_slot : Gate → Gate
make_slot g = record {
  current = some g.next;
  slot = update g.slot g.next (record { tokens = holders; users = 0 });
  next = g.next + 1;
}

enter_at : Gate → Option ℕ → Gate × Option ℕ
unfolding enter_slot make_slot
enter_at g none = enter_slot (make_slot g) g.next
enter_at g (some s) = enter_slot g s

-- The critical section of `enter`: the slot that the ingest now uses, or none where it is told that
-- the integration is busy.
unfoldable pub enter_locked : Gate → Gate × Option ℕ
unfolding enter_at
enter_locked g = enter_at g g.current

-- `<-s.tokens`, where there is one.
unfoldable pub take_token : ℕ → Gate → Gate
take_token s g = record g {
  slot = update g.slot s (record { tokens = (g.slot s).tokens - 1; users = (g.slot s).users });
}

-- `s.tokens <- struct{}{}`, where there is room.
unfoldable pub put_token : ℕ → Gate → Gate
put_token s g = record g {
  slot = update g.slot s (record { tokens = (g.slot s).tokens + 1; users = (g.slot s).users });
}

-- `leave`: the last user deletes whatever slot the key has.
unfoldable pub leave : ℕ → Gate → Gate
leave s g = record g {
  slot = update g.slot s (record { tokens = (g.slot s).tokens; users = (g.slot s).users - 1 });
  current = if eqb ((g.slot s).users - 1) 0 then none else g.current;
}

-- `waitLimit`: what is left until the answer is due, less the reserve; nothing where the reserve is
-- more, since a timer with a negative duration fires at once.
unfoldable pub wait_limit : ℕ → Option Instant → Instant → ℕ → ℕ
wait_limit max_wait none now alerts = max_wait
wait_limit max_wait (some by) now alerts = by - now - 2 * second - alerts * 100_000_000

-- The gate, and how many ingests are where, by slot.
pub record World : Type 0 where
  pub gate : Gate
  pub waiting : ℕ → ℕ
  pub holding : ℕ → ℕ
  pub leaving : ℕ → ℕ

unfoldable pub start : World
unfolding new_ingest_gate
start = record { gate = new_ingest_gate; waiting = λ s. 0; holding = λ s. 0; leaving = λ s. 0 }

pub data Event : Type 0 where
  arrives : Event
  takes : ℕ → Event
  gives_up : ℕ → Event
  releases : ℕ → Event
  leaves : ℕ → Event

entered : World → Gate × Option ℕ → World
entered w (g, none) = w
entered w (g, some s) = record w { gate = g; waiting = update w.waiting s (w.waiting s + 1) }

-- An ingest can do a thing if it is where the source does it, and if the channel lets it: it takes
-- a token where there is one, and puts one back where there is room.
unfoldable pub enabled : Event → World → Bool
enabled arrives w = true
enabled (takes s) w = ltb 0 (w.waiting s) && ltb 0 (w.gate.slot s).tokens
enabled (gives_up s) w = ltb 0 (w.waiting s)
enabled (releases s) w = ltb 0 (w.holding s) && ltb (w.gate.slot s).tokens holders
enabled (leaves s) w = ltb 0 (w.leaving s)

unfoldable pub effect : Event → World → World
unfolding entered enter_locked take_token put_token leave
effect arrives w = entered w (enter_locked w.gate)
effect (takes s) w = record w {
  gate = take_token s w.gate;
  waiting = update w.waiting s (w.waiting s - 1);
  holding = update w.holding s (w.holding s + 1);
}
effect (gives_up s) w = record w {
  waiting = update w.waiting s (w.waiting s - 1);
  leaving = update w.leaving s (w.leaving s + 1);
}
effect (releases s) w = record w {
  gate = put_token s w.gate;
  holding = update w.holding s (w.holding s - 1);
  leaving = update w.leaving s (w.leaving s + 1);
}
effect (leaves s) w = record w {
  gate = leave s w.gate;
  leaving = update w.leaving s (w.leaving s - 1);
}

-- Whatever comes next, of what can.
unfoldable pub run : List Event → World → World
run [] w = w
run (e ∷ es) w = run es (if enabled e w then effect e w else w)

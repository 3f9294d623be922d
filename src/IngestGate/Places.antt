-- ===== src/IngestGate/Places.antt =====
-- How many ingests of one integration are at the database.
use nxs_anomaly.Base.{
  ℕ, ◌+◌, ◌≤◌, ◌<◌, Bool, true, false, ◌≡◌, refl, ◌≢◌, ◌↔◌, List, [], ◌∷◌, Option, none, some,
  arith, eqb, if_cases,
}
use nxs_anomaly.IngestGate.{
  World, Event, arrives, takes, gives_up, releases, leaves, holders, max_waiting, enabled, effect,
  run, start, enter_locked, enter_at, entered,
}

abbrev pub is_current : Option ℕ → ℕ → Bool
is_current none s = false
is_current (some c) s = eqb c s

-- What holds of each slot that was ever made, or will be.
pub record IsKept (w : World) (s : ℕ) : Type 0 where
  pub places : (w.gate.slot s).tokens + w.holding s ≡ holders
  pub counted : (w.gate.slot s).users ≡ w.waiting s + w.holding s + w.leaving s
  pub bounded : (w.gate.slot s).users ≤ holders + max_waiting
  pub stale_unused : is_current w.gate.current s ≡ false → (w.gate.slot s).users ≡ 0

abbrev pub Inv : World → Type 0
Inv w = (s : ℕ) → IsKept w s

start-Inv : Inv start
unfolding start
start-Inv s = ground arith

takes-Inv : (s : ℕ) (w : World) → enabled (takes s) w ≡ true → Inv w → Inv (effect (takes s) w)
unfolding enabled effect
takes-Inv s w e v j = ground (arith, v j, v s)

gives_up-Inv :
    (s : ℕ) (w : World) → enabled (gives_up s) w ≡ true → Inv w → Inv (effect (gives_up s) w)
unfolding enabled effect
gives_up-Inv s w e v j = ground (arith, v j, v s)

releases-Inv :
    (s : ℕ) (w : World) → enabled (releases s) w ≡ true → Inv w → Inv (effect (releases s) w)
unfolding enabled effect
releases-Inv s w e v j = ground (arith, v j, v s)

leaves-Inv : (s : ℕ) (w : World) → enabled (leaves s) w ≡ true → Inv w → Inv (effect (leaves s) w)
unfolding enabled effect
leaves-Inv s w e v j = ground (arith, v j, v s)

arrives-Inv_new :
    (w : World) → w.gate.current ≡ none → Inv w → Inv (entered w (enter_at w.gate none))
unfolding entered enter_at
arrives-Inv_new w e v j = ground (arith, v j, v w.gate.next)

arrives-Inv_old :
    (w : World) (s : ℕ)
    → w.gate.current ≡ some s
    → Inv w
    → Inv (entered w (enter_at w.gate (some s)))
unfolding entered enter_at
arrives-Inv_old w s e v j = ground (arith, v j, v s)

arrives-Inv :
    (w : World) (o : Option ℕ) → w.gate.current ≡ o → Inv w → Inv (entered w (enter_at w.gate o))
arrives-Inv w none e v = arrives-Inv_new w e v
arrives-Inv w (some s) e v = arrives-Inv_old w s e v

effect-Inv : (e : Event) (w : World) → enabled e w ≡ true → Inv w → Inv (effect e w)
unfolding effect
effect-Inv arrives w on v = arrives-Inv w w.gate.current refl v
effect-Inv (takes s) w on v = takes-Inv s w on v
effect-Inv (gives_up s) w on v = gives_up-Inv s w on v
effect-Inv (releases s) w on v = releases-Inv s w on v
effect-Inv (leaves s) w on v = leaves-Inv s w on v

run-Inv_from : (es : List Event) (w : World) → Inv w → Inv (run es w)
unfolding run
run-Inv_from [] w v = v
run-Inv_from (e ∷ es) w v =
    run-Inv_from es _ (if_cases Inv (enabled e w) (λ on. effect-Inv e w on v) (λ _. v))

-- In every interleaving: a slot's tokens and holders make two; its users are those who wait for it,
-- hold it or leave it, at most 130; and a slot that the map does not have is used by nobody, so that
-- the deletion by its last user never takes away a slot in use.
pub run-Inv : (es : List Event) → Inv (run es start)
run-Inv es = run-Inv_from es start start-Inv

at_most_two :
    (w : World) (s t : ℕ)
    → s ≢ t
    → (o : Option ℕ) → w.gate.current ≡ o
    → IsKept w s
    → IsKept w t
    → w.holding s + w.holding t ≤ holders
at_most_two w s t ne none e a b = ground arith
at_most_two w s t ne (some c) e a b = ground arith

-- Never are more than two ingests of one integration at the database, those that hold a place of the
-- slot the map has and those of any other slot together.
pub holding-le :
    (es : List Event) (s t : ℕ)
    → s ≢ t
    → (run es start).holding s + (run es start).holding t ≤ holders
holding-le es s t ne =
    at_most_two (run es start) s t ne (run es start).gate.current refl (run-Inv es s) (run-Inv es t)

-- In every interleaving, giving a place back never blocks: whoever holds one finds room in the
-- channel.
pub release_never_blocks :
    (es : List Event) (s : ℕ)
    → 0 < (run es start).holding s
    → enabled (releases s) (run es start) ≡ true
unfolding enabled
release_never_blocks es s h = ground (arith, run-Inv es s)

-- Where the integration has a slot, an ingest is told that it is busy exactly when at least 130
-- ingests use the slot.
pub busy_iff :
    (w : World) (s : ℕ)
    → w.gate.current ≡ some s
    → ((enter_locked w.gate).1 ≡ none) ↔ (holders + max_waiting ≤ (w.gate.slot s).users)
unfolding enter_locked
busy_iff w s e = rw (e, enter_at) (ground arith)

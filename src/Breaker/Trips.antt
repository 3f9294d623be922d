-- ===== src/Breaker/Trips.antt =====
-- When the breaker opens, closes, and lets a trial through.
use nxs_anomaly.Base.{
  ℕ, suc, ◌+◌, ◌≤◌, ◌<◌, String, Bool, true, false, ◌≡◌, refl, ◌∙◌, ap, ◌≢◌, ◌↔◌, List, [], ◌∷◌,
  Option, none, some, arith, leb, ltb, eqb, ◌==◌, if◌then◌else◌, length, ==_self, ne→==_false,
  if_cases,
}
use nxs_anomaly.Base.Time.{Instant}
use nxs_anomaly.Breaker.{
  Entry, Breaker, set_state, allow, record_outcome, entry_or_new, failed_once, allow_entry,
}

-- Failures of one destination, one after another, at the times of the list.
pub fail_at : String → List Instant → Breaker → Breaker
fail_at key [] c = c
fail_at key (t ∷ ts) c = fail_at key ts (record_outcome key false t c)

pub last_of : Instant → List Instant → Instant
last_of t [] = t
last_of t (u ∷ us) = last_of u us

-- The entry of a destination after `n` failures since it last worked, the last of them at `t`.
abbrev entry_after : Breaker → ℕ → Instant → Entry
entry_after c n t = record {
  failures = n;
  open_until = if leb c.threshold n then t + c.cooldown else 0;
}

states-set_state :
    (key : String) (e : Option Entry) (c : Breaker) → (set_state key e c).states key ≡ e
states-set_state key e c = rw (==_self key)

failed_once_lem :
    (c : Breaker) (n : ℕ) (t u : Instant)
    → failed_once c u (entry_after c n t) ≡ entry_after c (n + 1) u
unfolding failed_once
failed_once_lem c n t u = ground arith

failed_first_lem :
    (c : Breaker) (t : Instant) → failed_once c t (entry_or_new none) ≡ entry_after c 1 t
unfolding failed_once entry_or_new
failed_first_lem c t = ground arith

fail_at_from :
    (key : String) (ts : List Instant) (c : Breaker) (n : ℕ) (t : Instant)
    → c.states key ≡ some (entry_after c n t)
    → (fail_at key ts c).states key ≡ some (entry_after c (n + length ts) (last_of t ts))
unfolding fail_at last_of record_outcome entry_or_new
fail_at_from key [] c n t h = h ∙ ap (λ m. some (entry_after c m t)) (omega arith)
fail_at_from key (u ∷ us) c n t h =
    fail_at_from key us (record_outcome key false u c) (n + 1) u
      (rw (==_self key, h, entry_or_new) (ap some (failed_once_lem c n t u)))
    ∙ ap (λ m. some (entry_after c m (last_of u us))) (omega arith)

fail_at_lem :
    (key : String) (t : Instant) (ts : List Instant) (c : Breaker)
    → c.states key ≡ none
    → (fail_at key (t ∷ ts) c).states key ≡ some (entry_after c (suc (length ts)) (last_of t ts))
unfolding fail_at record_outcome
fail_at_lem key t ts c h =
    fail_at_from key ts (record_outcome key false t c) 1 t
      (rw (==_self key, h) (ap some (failed_first_lem c t)))
    ∙ ap (λ m. some (entry_after c m (last_of t ts))) (omega arith)

allow_entry_lem :
    (c : Breaker) (d : Breaker) (key : String) (now : Instant) (n : ℕ) (t : Instant)
    → ((allow_entry d key now (some (entry_after c n t))).1 ≡ false)
      ↔ ((c.threshold ≤ n) × (now < t + c.cooldown))
unfolding allow_entry
allow_entry_lem c d key now n t = ground arith

-- After a run of failures of a destination that had none on record, a delivery to it is refused
-- exactly when the run has reached the threshold and the cooldown since its last failure is not
-- over.
pub refuses_iff :
    (key : String) (t : Instant) (ts : List Instant) (c : Breaker) (now : Instant)
    → c.states key ≡ none
    → ((allow key now (fail_at key (t ∷ ts) c)).1 ≡ false)
      ↔ ((c.threshold ≤ suc (length ts)) × (now < last_of t ts + c.cooldown))
unfolding allow
refuses_iff key t ts c now h =
    rw (fail_at_lem key t ts c h)
      (allow_entry_lem c (fail_at key (t ∷ ts) c) key now (suc (length ts)) (last_of t ts))

allow_shut :
    (key : String) (c : Breaker) (e : Entry) (now : Instant)
    → c.states key ≡ some e
    → now < e.open_until
    → (allow key now c).1 ≡ false
unfolding allow
allow_shut key c e now h early =
    let set : (eqb e.open_until 0 ≡ false) = ground arith in
    let soon : (ltb now e.open_until ≡ true) = ground arith in rw (h, allow_entry, set, soon)

allow_trial :
    (key : String) (c : Breaker) (e : Entry) (now : Instant)
    → c.states key ≡ some e
    → 0 < e.open_until
    → e.open_until ≤ now
    → allow key now c ≡ (set_state key (some (record e { open_until = now + c.cooldown })) c, true)
unfolding allow
allow_trial key c e now h tripped over =
    let set : (eqb e.open_until 0 ≡ false) = ground arith in
    let late : (ltb now e.open_until ≡ false) = ground arith in rw (h, allow_entry, set, late)

-- Of an open breaker whose cooldown is over one delivery is let through, and the next one, where
-- no outcome was recorded since, is refused until another cooldown has passed.
pub one_trial :
    (key : String) (c : Breaker) (e : Entry) (now later : Instant)
    → c.states key ≡ some e
    → 0 < e.open_until
    → e.open_until ≤ now
    → later < now + c.cooldown
    → ((allow key now c).1 ≡ true) × ((allow key later (allow key now c).0).1 ≡ false)
one_trial key c e now later h tripped over early =
    let rearmed : Entry = record e { open_until = now + c.cooldown } in
    rw (allow_trial key c e now h tripped over) (
      refl,
      allow_shut key (set_state key (some rearmed) c) rearmed later
          (states-set_state key (some rearmed) c) early,
    )

allow_entry_others :
    (key other : String) (now : Instant) (c : Breaker) (o : Option Entry)
    → (key == other) ≡ false
    → (allow_entry c key now o).0.states other ≡ c.states other
unfolding allow_entry
allow_entry_others key other now c none miss = refl
allow_entry_others key other now c (some e) miss =
    if_cases (λ (r : Breaker × Bool). r.0.states other ≡ c.states other) (eqb e.open_until 0)
      (λ _. refl)
      λ _.
        if_cases (λ (r : Breaker × Bool). r.0.states other ≡ c.states other) (ltb now e.open_until)
          (λ _. refl) (λ _. rw miss)

record_outcome_others :
    (key other : String) (success : Bool) (now : Instant) (c : Breaker)
    → (key == other) ≡ false
    → (record_outcome key success now c).states other ≡ c.states other
unfolding record_outcome
record_outcome_others key other true now c miss = rw miss
record_outcome_others key other false now c miss = rw miss

-- Destinations do not share a breaker: what is recorded or allowed for one leaves every other as it
-- was.
pub other_destinations :
    (key other : String) (success : Bool) (now : Instant) (c : Breaker)
    → key ≢ other
    → ((record_outcome key success now c).states other ≡ c.states other)
      × ((allow key now c).0.states other ≡ c.states other)
unfolding allow
other_destinations key other success now c ne =
    let miss = ne→==_false key other ne in
    (
      record_outcome_others key other success now c miss,
      allow_entry_others key other now c (c.states key) miss,
    )

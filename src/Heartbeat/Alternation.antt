-- ===== src/Heartbeat/Alternation.antt =====
-- The alerts that a source raises of itself over the passes of the worker.
use nxs_anomaly.Base.{
  ℕ, ◌+◌, ◌-◌, ◌≡◌, refl, sym, ap, ◌∙◌, ◌≢◌, ◌↔◌, ◌<◌, String, Bool, true, false, not, List, [],
  ◌∷◌, Option, none, some, ltb, leb, eqb, ◌*◌, arith, ◌==◌, ne→==_false, if_cases, Bool-cases,
  if◌then◌else◌, inl, inr,
}
use mathlib.Core.Path.{subst}
use nxs_anomaly.Base.Time.{Instant, TimeText, second}
use nxs_anomaly.Base.Durations.{ℤ, max_int64, signed, wrap, signed_small, less, plus, sub}
use nxs_anomaly.Base.Decoded.{object, positive_val, Fields, text_val, find}
use nxs_anomaly.Heartbeat.{
  Alert, Source, LastAlert, unreadable, never, at, Pass, same, is_silent, mark_heartbeat_state,
  silence_alert, raise, reconcile_heartbeat, over, after_lookup, unless_covered, if_enabled,
  heartbeat_settings, settings_in, process_source, passes,
}
use nxs_anomaly.Maintenance.{active_maintenance}

abbrev pub status_for : Bool → String
status_for true = "firing"
status_for false = "resolved"

-- Firing and resolved take turns, the oldest is firing, and the newest is firing just when the source is
-- silent.
abbrev pub Alternates : Bool → List Alert → Type 0
Alternates silent [] = silent ≡ false
Alternates silent (a ∷ older) = (a.status ≡ status_for silent) × Alternates (not silent) older

abbrev pub AllMarked : List Pass → Type 0
AllMarked [] = Unit {0}
AllMarked (p ∷ rest) = (p.marked ≡ true) × AllMarked rest

module _ (time : TimeText) (show : ℤ → String) (id : String) where
  abbrev IsTurn : Source → Type 0
  IsTurn s = Alternates (is_silent s) s.raised

  none≢some : {A : Type 0} {a : A} → none ≢ some a
  none≢some e = cc

  -- A time is never written as the empty text, which reads as no time.
  time_not_empty : (t : Instant) → (time.to_iso t == "") ≡ false
  time_not_empty t =
      ne→==_false (time.to_iso t) ""
        (λ e. none≢some (sym time.parse_empty ∙ ap time.parse (sym e) ∙ time.parse-to_iso t))

  not-same : (a b : Bool) → same a b ≡ false → b ≡ not a
  not-same true true e = cc
  not-same true false e = refl
  not-same false true e = refl
  not-same false false e = cc

  marks_silent :
      (silent : Bool) (now : Instant) (s : Source)
      → is_silent (mark_heartbeat_state time silent now s) ≡ silent
  unfolding mark_heartbeat_state
  marks_silent true now s = rw (time_not_empty now) refl
  marks_silent false now s = refl

  status_of :
      (overdue : Bool) (s : Source) (last now : Instant)
      → (silence_alert time show id overdue s last now).status ≡ status_for overdue
  unfolding silence_alert
  status_of true s last now = refl
  status_of false s last now = refl

  raise-IsTurn :
      (p : Pass) (overdue : Bool) (last : Instant) (s : Source)
      → p.marked ≡ true
      → is_silent s ≡ not overdue
      → IsTurn s
      → IsTurn (raise time show id p overdue last s)
  unfolding raise
  raise-IsTurn p true last s marked other turn =
      rw (marked, time_not_empty p.now) (refl, subst (λ b. Alternates b s.raised) other turn)
  raise-IsTurn p false last s marked other turn =
      rw marked (refl, subst (λ b. Alternates b s.raised) other turn)

  reconcile-IsTurn :
      (p : Pass) (overdue : Bool) (last : Instant) (s : Source)
      → p.marked ≡ true
      → IsTurn s
      → IsTurn (reconcile_heartbeat time show id p overdue last s)
  unfolding reconcile_heartbeat
  reconcile-IsTurn p overdue last s marked turn =
      if_cases IsTurn (same overdue (is_silent s)) (λ _. turn)
        (λ differs.
          if_cases IsTurn (text_val s.integration "key" == "") (λ _. turn)
            (λ _.
              if_cases IsTurn p.ingested
                (λ _.
                  raise-IsTurn p overdue last s marked (not-same overdue (is_silent s) differs)
                    turn)
                (λ _. turn)))

  lookup-IsTurn :
      (p : Pass) (limits : ℤ × ℤ) (l : LastAlert) (s : Source)
      → p.marked ≡ true
      → IsTurn s
      → IsTurn (after_lookup time show id p limits l s)
  unfolding after_lookup
  lookup-IsTurn p limits unreadable s marked turn = turn
  lookup-IsTurn p limits never s marked turn = turn
  lookup-IsTurn p limits (at last) s marked turn =
      reconcile-IsTurn p (over time show id limits last p.now) last s marked turn

  uncovered-IsTurn :
      (p : Pass) (limits : ℤ × ℤ) (o : Option Fields) (s : Source)
      → p.marked ≡ true
      → IsTurn s
      → IsTurn (unless_covered time show id p limits o s)
  unfolding unless_covered
  uncovered-IsTurn p limits (some window) s marked turn = turn
  uncovered-IsTurn p limits none s marked turn = lookup-IsTurn p limits p.last s marked turn

  enabled-IsTurn :
      (p : Pass) (o : Option (ℤ × ℤ)) (s : Source)
      → p.marked ≡ true
      → IsTurn s
      → IsTurn (if_enabled time show id p o s)
  unfolding if_enabled
  enabled-IsTurn p none s marked turn = turn
  enabled-IsTurn p (some limits) s marked turn =
      if_cases IsTurn (not (text_val s.integration "deleted_at" == "")) (λ _. turn)
        (λ _. uncovered-IsTurn p limits (active_maintenance time p.windows id p.now) s marked turn)

  -- However long a source is silent, it raises one alert, and one more when it is back: over any passes of
  -- the worker whose marks are stored, whatever the windows, the answers of the store and the alerts that
  -- ingest does not take, the alerts of a source stay in turn, and the newest is firing just when the
  -- source is marked as silent.
  pub passes-Alternates :
      (l : List Pass) (s : Source)
      → AllMarked l
      → Alternates (is_silent s) s.raised
      → Alternates (is_silent (passes time show id l s)) (passes time show id l s).raised
  unfolding passes process_source
  passes-Alternates [] s marked turn = turn
  passes-Alternates (p ∷ rest) s (marked, all) turn =
      passes-Alternates rest (process_source time show id p s) all
        (enabled-IsTurn p (heartbeat_settings s.integration) s marked turn)

  same_iff : (a b : Bool) → same a b ≡ true → b ≡ a
  same_iff true true e = refl
  same_iff true false e = cc
  same_iff false true e = cc
  same_iff false false e = refl

  raise_sets :
      (p : Pass) (overdue : Bool) (last : Instant) (s : Source)
      → p.marked ≡ true
      → is_silent (raise time show id p overdue last s) ≡ overdue
  unfolding raise mark_heartbeat_state
  raise_sets p true last s marked = rw (marked, time_not_empty p.now) refl
  raise_sets p false last s marked = rw marked refl

  -- Within the range of a `time.Duration`, the comparison is that of the seconds.
  over_late :
      (i g : ℕ) (last now : Instant)
      → i + g < max_int64
      → over time show id (signed i, signed g) last now ≡ ltb (i + g) (now - last)
  unfolding over less plus sub wrap
  over_late i g last now short =
      rw
        (
          signed_small i (omega arith),
          signed_small g (omega arith),
          signed_small (i + g) (omega arith),
        )
        (elim (Bool-cases (leb last now)) [
          | inl after ↦ rw after (ground arith)
          | inr before ↦ rw before (ground arith)
        ])

  sets_late :
      (p : Pass) (late : Bool) (last : Instant) (s : Source)
      → p.marked ≡ true
      → is_silent (if same late (is_silent s) then s else raise time show id p late last s) ≡ late
  sets_late p late last s marked =
      if_cases (λ (k : Source). is_silent k ≡ late) (same late (is_silent s))
        (λ e. same_iff late (is_silent s) e) (λ _. raise_sets p late last s marked)

  -- A pass over a source that has a heartbeat, a key and an alert, is not deleted and under no window marks
  -- it as silent just when its last alert is older than the seconds of the interval and the grace
  -- together, if these are less than a `time.Duration` can be, about 292 years, ingest takes the alert and
  -- the mark is stored.
  pub process_source_lem :
      (p : Pass) (m : Fields) (last : Instant) (s : Source)
      → find "heartbeat" s.integration ≡ some (object m)
      → 0 < positive_val m "interval_seconds"
      → positive_val m "interval_seconds" * second + positive_val m "grace_seconds" * second
        < max_int64
      → text_val s.integration "deleted_at" ≡ ""
      → text_val s.integration "key" ≢ ""
      → active_maintenance time p.windows id p.now ≡ none
      → p.last ≡ at last
      → p.ingested ≡ true
      → p.marked ≡ true
      → (is_silent (process_source time show id p s) ≡ true) ↔ (
          positive_val m "interval_seconds" * second + positive_val m "grace_seconds" * second
          < p.now - last)
  unfolding process_source heartbeat_settings settings_in if_enabled unless_covered after_lookup
      reconcile_heartbeat
  process_source_lem p m last s has beats short live keyed free seen taken marked =
      rw
        (
          has,
          not_zero,
          live,
          free,
          seen,
          taken,
          ne→==_false (text_val s.integration "key") "" keyed,
          over_late (positive_val m "interval_seconds" * second)
              (positive_val m "grace_seconds" * second) last p.now short,
        )
        (over_iff _ (sets_late p late last s marked))
    where
      not_zero : eqb (positive_val m "interval_seconds") 0 ≡ false
      not_zero = ground (arith, beats)

      late : Bool
      late =
          ltb (positive_val m "interval_seconds" * second + positive_val m "grace_seconds" * second)
            (p.now - last)

      over_iff :
          (b : Bool)
          → b ≡ late
          → (b ≡ true) ↔ (
              positive_val m "interval_seconds" * second + positive_val m "grace_seconds" * second
              < p.now - last)
      over_iff b e = (λ t. ground (arith, sym e ∙ t), λ h. ground (arith, e, h))

-- ===== src/Steps/Walk/Advance.antt =====
-- What one advance of a group does, and that a chain comes to an end.
use mathlib.Core.Option.{none-ne-some, some_inj}
use nxs_anomaly.Base.{
  ℕ, zero, suc, ◌+◌, ◌-◌, ◌*◌, ◌≤◌, ◌<◌, String, Bool, true, false, not, ◌≡◌, ◌≢◌, refl, sym, ◌∙◌,
  ap, ◌⊎◌, ◌↔◌, inl, inr, List, [], ◌∷◌, Option, none, some, arith, leb, ◌==◌, if_cases, eq→==,
  ==→eq, false≢true, length, length-drop, drop, Bool-cases, leb→le, leb_false→lt,
}
use nxs_anomaly.Base.Json.{Row, null, str_val, int_val}
use nxs_anomaly.Base.Time.{Instant, TimeText, minute}
use nxs_anomaly.Base.Durations.{max_int64, add-signed}
use nxs_anomaly.Group.State.{Group, Fresh, status_open, status_silenced, next_run_at}
use nxs_anomaly.Group.Transitions.{silence_expired}
use nxs_anomaly.Steps.{Directory}
use nxs_anomaly.Steps.Walk.{
  Draws, walk, on_chain, advance_group_locked, advance_due_group, resume, is_due,
}
use nxs_anomaly.Steps.Walk.Course.{
  Limited, EndsAfter, Ends, waits, repeats_again, completes, resolves, at, walk-Ends, finish-Ends,
}

Limited-drop :
    (limit n : ℕ) (steps : List (Option Row)) → Limited limit steps → Limited limit (drop n steps)
Limited-drop limit zero steps l = l
Limited-drop limit (suc n) [] l = tt
Limited-drop limit (suc n) (none ∷ steps) l = Limited-drop limit n steps l
Limited-drop limit (suc n) (some step ∷ steps) (l, ls) = Limited-drop limit n steps ls

EndsAfter-drop :
    (lo from : Instant) (n : ℕ) (steps : List (Option Row))
    → EndsAfter lo from steps
    → EndsAfter lo from (drop n steps)
EndsAfter-drop lo from zero steps e = e
EndsAfter-drop lo from (suc n) [] e = tt
EndsAfter-drop lo from (suc n) (none ∷ steps) e = EndsAfter-drop lo from n steps e
EndsAfter-drop lo from (suc n) (some step ∷ steps) (_, _, es) = EndsAfter-drop lo from n steps es

-- Every chain ends its delays after time 0.
EndsAfter-zero : (from : Instant) (steps : List (Option Row)) → EndsAfter 0 from steps
EndsAfter-zero from [] = tt
EndsAfter-zero from (none ∷ steps) = EndsAfter-zero from steps
EndsAfter-zero from (some step ∷ steps) = (omega arith, omega arith, EndsAfter-zero from steps)

-- No delay of a chain is longer than a `time.Duration` can be, about 292 years.
abbrev pub Fits : List (Option Row) → Type 0
Fits [] = Unit {0}
Fits (none ∷ steps) = Fits steps
Fits (some step ∷ steps) =
    (int_val step "delay_minutes" * minute ≤ max_int64)
    × (int_val step "cooldown_minutes" * minute ≤ max_int64)
    × Fits steps

Fits-EndsAfter :
    (from : Instant) (steps : List (Option Row)) → Fits steps → EndsAfter from from steps
Fits-EndsAfter from [] f = tt
Fits-EndsAfter from (none ∷ steps) f = Fits-EndsAfter from steps f
Fits-EndsAfter from (some step ∷ steps) (waited, cooled, fits) = (
  omega (arith, add-signed from (int_val step "delay_minutes" * minute) waited),
  omega (arith, add-signed from (int_val step "cooldown_minutes" * minute) cooled),
  Fits-EndsAfter from steps fits,
)

drop_all : (n : ℕ) (steps : List (Option Row)) → length steps ≤ n → drop n steps ≡ []
drop_all zero [] h = refl
drop_all zero (step ∷ steps) h = absurd (omega arith)
drop_all (suc n) [] h = refl
drop_all (suc n) (step ∷ steps) h = drop_all n steps (omega arith)

module _ (time : TimeText) (d : Directory) (draw : Draws) (now : Instant) (ts : String) where
  chain-Ends :
      (lo : Instant) (limit : ℕ) (steps : List (Option Row)) (g : Group)
      → g.status ≡ status_open
      → Limited limit steps
      → EndsAfter lo (at time d draw now ts) steps
      → Ends time lo limit
          (length steps)
          g.repeat_count
          g.current_step
          (walk time d draw now ts g.current_step (drop g.current_step steps) g)
  unfolding walk
  chain-Ends lo limit steps g o l e = elim (Bool-cases (leb (length steps) g.current_step)) [
    | inl past ↦ rw (drop_all g.current_step steps (leb→le _ _ past)) (
        finish-Ends time d draw now ts lo limit (length steps) g.repeat_count g.current_step
          g.current_step g o)
    | inr before ↦
        walk-Ends time d draw now ts lo limit (length steps) g.repeat_count g.current_step
          (drop g.current_step steps) g.current_step g o refl (omega arith)
          (omega (arith, length-drop g.current_step steps, leb_false→lt _ _ before))
          (Limited-drop limit g.current_step steps l)
          (EndsAfter-drop lo (at time d draw now ts) g.current_step steps e)
  ]

  -- An advance, whose delays end at `lo` or later, leaves a group scheduled no earlier.
  advance_from-Ends :
      (lo : Instant) (limit : ℕ) (steps : List (Option Row)) (g : Group)
      → g.status ≡ status_open
      → d.chains (str_val g.extra "escalation_chain_id") ≡ some steps
      → Limited limit steps
      → EndsAfter lo (at time d draw now ts) steps
      → Ends time lo limit
          (length steps)
          g.repeat_count
          g.current_step
          (advance_group_locked time d draw now ts g)
  unfolding advance_group_locked on_chain
  advance_from-Ends lo limit steps g o c l e =
      if_cases (Ends time lo limit (length steps) g.repeat_count g.current_step)
        (g.status == status_open) (λ _. rw c (chain-Ends lo limit steps g o l e))
        (λ miss. absurd (false≢true (sym miss ∙ eq→== g.status status_open o)))

  -- An advance of an open group on a chain it has, none of whose delays is longer than a
  -- `time.Duration` can be, leaves it open and scheduled no earlier than the time of the walk, either
  -- at a later step of the chain with the same repeats or with one repeat more within the limit; or
  -- open with nothing scheduled; or resolved with nothing scheduled. The limit is any that no REPEAT
  -- step exceeds.
  pub advance-Ends :
      (limit : ℕ) (steps : List (Option Row)) (g : Group)
      → g.status ≡ status_open
      → d.chains (str_val g.extra "escalation_chain_id") ≡ some steps
      → Limited limit steps
      → Fits steps
      → Ends time
          (at time d draw now ts)
          limit
          (length steps)
          g.repeat_count
          g.current_step
          (advance_group_locked time d draw now ts g)
  advance-Ends limit steps g o c l fits =
      advance_from-Ends (at time d draw now ts) limit steps g o c l
        (Fits-EndsAfter (at time d draw now ts) steps fits)

-- How much of a chain is left to a group: the repeats, each of a whole chain, and the steps.
abbrev pub left_of : (limit steps : ℕ) → Group → ℕ
left_of limit steps g = (limit - g.repeat_count) * (steps + 1) + (steps - g.current_step)

repeat_uses :
    (limit steps r c c' : ℕ)
    → r + 1 ≤ limit
    → (limit - (r + 1)) * (steps + 1) + (steps - c') < (limit - r) * (steps + 1) + (steps - c)
repeat_uses limit steps r c c' h = grind arith

Ends-uses :
    (time : TimeText) (from : Instant) (limit steps : ℕ) (g h : Group)
    → Ends time from limit steps g.repeat_count g.current_step h
    → (h.extra "next_run_at" ≡ some null) ⊎ (left_of limit steps h < left_of limit steps g)
Ends-uses time from limit steps g h (waits s r c n) = inr (rw r (omega (arith, c, n)))
Ends-uses time from limit steps g h (repeats_again s r l) =
    inr (rw r (repeat_uses limit steps g.repeat_count g.current_step h.current_step (rw r at l)))
Ends-uses time from limit steps g h (completes o e) = inl e
Ends-uses time from limit steps g h (resolves o e) = inl e

-- An escalation comes to an end: each advance of an open group on a chain it has either leaves
-- nothing scheduled, or uses up part of a measure of the repeats and steps that are left, under
-- any limit that no REPEAT step exceeds.
pub advance_uses :
    (time : TimeText) (d : Directory) (draw : Draws) (now : Instant) (ts : String) (limit : ℕ)
    (steps : List (Option Row)) (g : Group)
    → g.status ≡ status_open
    → d.chains (str_val g.extra "escalation_chain_id") ≡ some steps
    → Limited limit steps
    → ((advance_group_locked time d draw now ts g).extra "next_run_at" ≡ some null)
      ⊎ (left_of limit (length steps) (advance_group_locked time d draw now ts g)
          < left_of limit (length steps) g)
advance_uses time d draw now ts limit steps g o c l = Ends-uses time 0 limit (length steps) g _ (
    advance_from-Ends time d draw now ts 0 limit steps g o c l
      (EndsAfter-zero (at time d draw now ts) steps))

not-true : {b : Bool} → not b ≡ true → b ≡ true → ⊥
not-true {b} h k = false≢true (ap not (sym k) ∙ h)

pub not-false : {b : Bool} → not b ≡ false → b ≡ true
not-false {b} h = ground (arith, h)

open_never_silenced :
    (time : TimeText) (now : Instant) (g : Group)
    → g.status ≡ status_open
    → silence_expired time now g ≢ true
unfolding silence_expired
open_never_silenced time now g o =
    if_cases (λ b. b ≢ true) (g.status == status_silenced)
      (λ hit. absurd (false≢true (rw o at hit))) (λ _. false≢true)

module _ (time : TimeText) (d : Directory) (draw : Draws) (now : Instant) (ts : String) where
  is_due_iff :
      (o : Option Instant)
      → (is_due time d draw now ts o ≡ true) ↔ ((due : Instant) × (o ≡ some due) × (due ≤ now))
  unfolding is_due
  is_due_iff none = (λ h. absurd (false≢true h), λ (due, e, h). absurd (none-ne-some due e))
  is_due_iff (some t) =
      (λ h. (t, refl, leb→le t now h), λ (due, e, h). rw (some_inj.0 e) (ground (arith, h)))

  resume_iff :
      (f : Fresh) (g : Group)
      → g.status ≡ status_open
      → ((resume time d draw now ts f g).1 ≡ true)
        ↔ ((due : Instant) × (time.parse (next_run_at g) ≡ some due) × (due ≤ now))
  unfolding resume
  resume_iff f g o =
      let due_at = is_due_iff (time.parse (next_run_at g)) in
      if_cases
        (λ (r : Group × Bool).
          (r.1 ≡ true) ↔ ((due : Instant) × (time.parse (next_run_at g) ≡ some due) × (due ≤ now)))
        (not (g.status == status_open))
        (λ shut. absurd (not-true shut (eq→== g.status status_open o)))
        λ _.
          if_cases
            (λ (r : Group × Bool).
              (r.1 ≡ true)
              ↔ ((due : Instant) × (time.parse (next_run_at g) ≡ some due) × (due ≤ now)))
            (next_run_at g == "")
            (λ unset. (
              λ h. absurd (false≢true h),
              λ (due, e, h). absurd (
                  none-ne-some due (
                    sym time.parse_empty
                    ∙ ap time.parse (sym (==→eq (next_run_at g) "" unset))
                    ∙ e)),
            ))
            λ _.
              if_cases
                (λ (r : Group × Bool).
                  (r.1 ≡ true)
                  ↔ ((due : Instant) × (time.parse (next_run_at g) ≡ some due) × (due ≤ now)))
                (not (is_due time d draw now ts (time.parse (next_run_at g))))
                (λ early. (λ h. absurd (false≢true h), λ e. absurd (not-true early (due_at.1 e))))
                (λ late. (λ _. due_at.0 (not-false late), λ _. refl))

  -- The worker advances an open group in its turn exactly when the group has a time to run at, which
  -- can be read and is not after now.
  pub advance_due_iff :
      (f f' : Fresh) (g : Group)
      → g.status ≡ status_open
      → ((advance_due_group time d draw now ts f f' g).1 ≡ true)
        ↔ ((due : Instant) × (time.parse (next_run_at g) ≡ some due) × (due ≤ now))
  unfolding advance_due_group silence_expired
  advance_due_iff f f' g o =
      if_cases
        (λ (h : Group).
          ((resume time d draw now ts f' h).1 ≡ true)
          ↔ ((due : Instant) × (time.parse (next_run_at g) ≡ some due) × (due ≤ now)))
        (silence_expired time now g) (λ over. absurd (open_never_silenced time now g o over))
        (λ _. resume_iff f' g o)

  -- The worker leaves alone a group that is not open and not at the end of a silence.
  pub advance_due_only :
      (f f' : Fresh) (g : Group)
      → g.status ≢ status_open
      → silence_expired time now g ≡ false
      → advance_due_group time d draw now ts f f' g ≡ (g, false)
  unfolding advance_due_group resume
  advance_due_only f f' g shut quiet =
      if_cases (λ (h : Group). resume time d draw now ts f' h ≡ (g, false))
        (silence_expired time now g) (λ over. absurd (false≢true (sym quiet ∙ over)))
        (λ _.
          if_cases (λ (r : Group × Bool). r ≡ (g, false)) (not (g.status == status_open))
            (λ _. refl) (λ live. absurd (shut (==→eq g.status status_open (not-false live)))))

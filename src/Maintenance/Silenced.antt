-- ===== src/Maintenance/Silenced.antt =====
-- What `silenceForMaintenance` does to a group, and how the escalation worker treats it until the window
-- ends.
use nxs_anomaly.Base.{
  ◌≡◌, refl, sym, ◌∙◌, ◌≢◌, ◌<◌, String, Bool, true, false, some, leb, arith, ◌==◌, ne→==_false,
  Bool-cases, ne_of_test, inl, inr,
}
use nxs_anomaly.Base.Time.{Instant, TimeText, truncate_second}
use nxs_anomaly.Base.Json.{str_val}
use nxs_anomaly.Base.Decoded.{Fields}
use nxs_anomaly.Group.State.{
  Group, Fresh, status_open, status_resolved, status_silenced, append_log, append_log_by,
}
use nxs_anomaly.Group.Transitions.{silence, silence_expired}
use nxs_anomaly.Steps.{Directory}
use nxs_anomaly.Steps.Walk.{Draws, advance_due_group}
use nxs_anomaly.Steps.Walk.Advance.{advance_due_only}
use nxs_anomaly.Maintenance.{ends_of, silence_for_maintenance}

-- The group was silenced until the end of the window.
record IsSilenced (time : TimeText) (ends : Instant) (done : Group × Bool) : Type 0 where
  reported : done.1 ≡ true
  status_set : done.0.status ≡ status_silenced
  until_end : str_val done.0.extra "silenced_until" ≡ time.to_iso ends

silences :
    (time : TimeText) (f f' : Fresh) (w : Fields) (now ends : Instant) (ts : String) (g : Group)
    → g.status ≢ status_resolved
    → ends_of time w ≡ some ends
    → IsSilenced time ends (silence_for_maintenance time f f' (some w) now ts g)
unfolding silence_for_maintenance silence append_log append_log_by str_val
silences time f f' w now ends ts g going at_end =
    rw (at_end, ne→==_false g.status status_resolved going)
      (record { reported = refl; status_set = refl; until_end = refl })

not_over :
    (time : TimeText) (t ends : Instant) (g : Group)
    → str_val g.extra "silenced_until" ≡ time.to_iso ends
    → t < truncate_second ends
    → silence_expired time t g ≡ false
unfolding silence_expired
not_over time t ends g until before = elim (Bool-cases (g.status == status_silenced)) [
  | inl quiet ↦ rw (quiet, until, time.parse-to_iso ends, later) refl
  | inr other ↦ rw other refl
]
  where
    later : leb (truncate_second ends) t ≡ false
    later = ground (arith, before)

-- A group that opens while its integration is under a window is silenced, and at no instant before the
-- window ends, to the second, does the escalation worker touch it: it pages nobody and changes nothing.
pub silence_for_maintenance_lem :
    (time : TimeText) (d : Directory) (draw : Draws) (f f' h h' : Fresh) (w : Fields)
    (now ends t : Instant) (ts at : String) (g : Group)
    → g.status ≢ status_resolved
    → ends_of time w ≡ some ends
    → t < truncate_second ends
    → ((silence_for_maintenance time f f' (some w) now ts g).1 ≡ true)
      × ((silence_for_maintenance time f f' (some w) now ts g).0.status ≡ status_silenced)
      × (advance_due_group time d draw t at h h'
            (silence_for_maintenance time f f' (some w) now ts g).0
          ≡ ((silence_for_maintenance time f f' (some w) now ts g).0, false))
silence_for_maintenance_lem time d draw f f' h h' w now ends t ts at g going at_end before =
    let done = silence_for_maintenance time f f' (some w) now ts g in
    let silenced = silences time f f' w now ends ts g going at_end in
    (
      silenced.reported,
      silenced.status_set,
      advance_due_only time d draw t at h h' done.0
          (λ e. silenced_not_open (sym silenced.status_set ∙ e))
          (not_over time t ends done.0 silenced.until_end before),
    )
  where
    silenced_not_open : status_silenced ≢ status_open
    silenced_not_open = ne_of_test refl

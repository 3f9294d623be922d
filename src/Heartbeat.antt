-- ===== src/Heartbeat.antt =====
-- internal/engine/heartbeat.go: the dead-man switch of a source, one pass of the worker over one integration
-- at a time.
pub mod Alternation
use nxs_anomaly.Base.{
  ℕ, ◌+◌, ◌-◌, ◌*◌, ◌/◌, String, Bool, true, false, not, ◌&&◌, List, [], ◌∷◌, Option, none, some,
  ltb, eqb, ◌==◌, if◌then◌else◌,
}
use nxs_anomaly.Base.Text.{concat, str_default}
use nxs_anomaly.Base.Time.{Instant, TimeText, second}
use nxs_anomaly.Base.Durations.{ℤ, pos, signed, plus, sub, less}
use nxs_anomaly.Base.Decoded.{Json, object, Fields, find, text_val, positive_val}
use nxs_anomaly.Maintenance.{active_maintenance}

-- `heartbeatMinInterval`, in seconds.
abbrev pub min_interval : ℕ
min_interval = 60

raise_interval : ℕ → ℕ
raise_interval n = if ltb 0 n && ltb n min_interval then min_interval else n

default_grace : ℕ → ℕ → ℕ
default_grace interval grace = if ltb 0 interval && eqb grace 0 then interval / 3 else grace

-- `sanitizeHeartbeat`: the seconds of the interval and of the grace.
unfoldable pub sanitize_heartbeat : Option Json → ℕ × ℕ
unfolding raise_interval default_grace
sanitize_heartbeat (some (object m)) =
    let interval = raise_interval (positive_val m "interval_seconds") in
    (interval, default_grace interval (positive_val m "grace_seconds"))
sanitize_heartbeat _ = (0, 0)

-- `heartbeatSettings`, over what `sanitizeHeartbeat` stored, which is not negative.
unfoldable pub settings_in : Option Json → Option (ℤ × ℤ)
unfolding signed
settings_in (some (object m)) =
    if eqb (positive_val m "interval_seconds") 0
    then none
    else some (
      signed (positive_val m "interval_seconds" * second),
      signed (positive_val m "grace_seconds" * second),
    )
settings_in _ = none

unfoldable pub heartbeat_settings : Fields → Option (ℤ × ℤ)
unfolding settings_in
heartbeat_settings integration = settings_in (find "heartbeat" integration)

-- The alert of a silent source, and that of its return.
pub record Alert : Type 0 where
  pub title : String
  pub status : String
  pub message : String
  pub integration : String
  pub integration_id : String
  pub last_alert_at : String
  pub silent_for : String

-- An integration, with the two fields of it that a pass changes taken apart (a text that is absent is
-- empty), and the alerts that it raised of itself, the newest first.
pub record Source : Type 0 where
  pub integration : Fields
  pub silent_since : String
  pub updated_at : String
  pub raised : List Alert

-- What `LastAlertReceivedAt` answers.
pub data LastAlert : Type 0 where
  unreadable : LastAlert
  never : LastAlert
  at : Instant → LastAlert

-- What a pass meets: the time, the windows, the answer of the store, whether `IngestAlert` takes the alert
-- and whether the mark is stored.
pub record Pass : Type 0 where
  pub now : Instant
  pub windows : List Fields
  pub last : LastAlert
  pub ingested : Bool
  pub marked : Bool

abbrev pub same : Bool → Bool → Bool
same true b = b
same false b = not b

abbrev pub is_silent : Source → Bool
is_silent s = not (s.silent_since == "")

-- `markHeartbeatState`.
unfoldable pub mark_heartbeat_state : TimeText → Bool → Instant → Source → Source
mark_heartbeat_state time silent now s = record s {
  silent_since = if silent then time.to_iso now else "";
  updated_at = time.to_iso now;
}

module _ (time : TimeText) (show : ℤ → String) (id : String) where
  interval_text : Option (ℤ × ℤ) → String
  unfolding plus
  interval_text none = show (pos 0)
  interval_text (some (interval, grace)) = show (plus interval grace)

  abbrev pub source_name : Source → String
  source_name s = str_default (text_val s.integration "name") id

  pub firing_alert : Source → Instant → Instant → Alert
  unfolding interval_text sub
  firing_alert s last now = record {
    title = concat ("Source silent: " ∷ source_name s ∷ []);
    status = "firing";
    message = concat (
        "No alert received from "
        ∷ source_name s
        ∷ " for "
        ∷ show (sub now last)
        ∷ "; it was expected to report at least every "
        ∷ interval_text (heartbeat_settings s.integration)
        ∷ "."
        ∷ []);
    integration = source_name s;
    integration_id = id;
    last_alert_at = time.to_iso last;
    silent_for = show (sub now last);
  }

  unfoldable pub silence_alert : Bool → Source → Instant → Instant → Alert
  unfolding firing_alert
  silence_alert true s last now = firing_alert s last now
  silence_alert false s last now = record (firing_alert s last now) {
    status = "resolved";
    message = concat (source_name s ∷ " is reporting again." ∷ []);
  }

  -- `IngestAlert` took the alert; then the mark is stored, or not.
  unfoldable pub raise : Pass → Bool → Instant → Source → Source
  unfolding silence_alert mark_heartbeat_state
  raise p overdue last s =
      let sent = record s { raised = silence_alert overdue s last p.now ∷ s.raised } in
      if p.marked then mark_heartbeat_state time overdue p.now sent else sent

  -- `reconcileHeartbeat`.
  unfoldable pub reconcile_heartbeat : Pass → Bool → Instant → Source → Source
  unfolding raise
  reconcile_heartbeat p overdue last s =
      if same overdue (is_silent s)
      then s
      else if text_val s.integration "key" == ""
      then s
      else if p.ingested
      then raise p overdue last s
      else s

  unfoldable pub over : ℤ × ℤ → Instant → Instant → Bool
  unfolding less plus sub
  over (interval, grace) last now = less (plus interval grace) (sub now last)

  unfoldable pub after_lookup : Pass → ℤ × ℤ → LastAlert → Source → Source
  unfolding reconcile_heartbeat over
  after_lookup p limits unreadable s = s
  after_lookup p limits never s = s
  after_lookup p limits (at last) s = reconcile_heartbeat p (over limits last p.now) last s

  unfoldable pub unless_covered : Pass → ℤ × ℤ → Option Fields → Source → Source
  unfolding after_lookup
  unless_covered p limits (some window) s = s
  unless_covered p limits none s = after_lookup p limits p.last s

  unfoldable pub if_enabled : Pass → Option (ℤ × ℤ) → Source → Source
  unfolding unless_covered
  if_enabled p none s = s
  if_enabled p (some limits) s =
      if not (text_val s.integration "deleted_at" == "")
      then s
      else unless_covered p limits (active_maintenance time p.windows id p.now) s

  -- One round of the loop of `ProcessSourceHeartbeats`.
  unfoldable pub process_source : Pass → Source → Source
  unfolding if_enabled
  process_source p s = if_enabled p (heartbeat_settings s.integration) s

  -- The passes of a worker, one after the other.
  unfoldable pub passes : List Pass → Source → Source
  unfolding process_source
  passes [] s = s
  passes (p ∷ rest) s = passes rest (process_source p s)

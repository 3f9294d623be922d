-- ===== src/Group/Transitions.antt =====
-- internal/model/alertgroup.go: the transitions of an alert group's status, with their guards.
use nxs_anomaly.Group.State.{
  acknowledge_resolved, unresolve_not_resolved, unacknowledge_not_acked, silence_resolved, Result,
  ok, err, Group, Fresh, status_open, status_acknowledged, status_resolved, status_silenced,
  is_resolved, is_acknowledged, start_episode, restart_escalation, append_log_by, append_log,
  actor_ref,
}
use nxs_anomaly.Base.{
  ℕ, String, Bool, true, false, [], ◌∷◌, Option, none, some, leb, ◌==◌, if◌then◌else◌,
}
use nxs_anomaly.Base.Text.{concat}
use nxs_anomaly.Base.Time.{Instant, TimeText}
use nxs_anomaly.Base.Json.{number, null, str, put, str_val}
use nxs_anomaly.Authz.{Actor, describe}

unfoldable pub acknowledge : Fresh → String → String → Actor → Group → Result Group
unfolding actor_ref append_log_by
acknowledge f ts message actor g =
    if is_resolved g
    then err acknowledge_resolved
    else ok (
        append_log_by f actor "acknowledged" message [] (record g {
          status = status_acknowledged;
          extra =
              put "next_run_at" null
                (put "acknowledged_by" (actor_ref actor) (put "acknowledged_at" (str ts) g.extra));
          updated_at = ts;
        }))

unfoldable pub resolve : Fresh → String → String → Actor → Group → Group
unfolding actor_ref append_log_by
resolve f ts reason actor g = append_log_by f actor "resolved" reason [] (record g {
  status = status_resolved;
  extra =
      put "next_run_at" null
        (put "resolved_by" (actor_ref actor) (put "resolved_at" (str ts) g.extra));
  updated_at = ts;
})

unfoldable pub unresolve : Fresh → String → Actor → Group → Result Group
unfolding start_episode append_log_by
unresolve f ts actor g =
    if is_resolved g
    then ok (
        append_log_by f actor "unresolved" "Alert group reopened by operator" [] (
          start_episode f (record g {
            status = status_open;
            extra = put "next_run_at" (str ts) (
                put "acknowledged_by" null (
                  put "acknowledged_at" null
                    (put "resolved_by" null (put "resolved_at" null g.extra))));
            current_step = 0;
            updated_at = ts;
          })))
    else err unresolve_not_resolved

unfoldable pub unacknowledge : Fresh → String → Actor → Group → Result Group
unfolding restart_escalation append_log_by
unacknowledge f ts actor g =
    if is_acknowledged g
    then (let opened = restart_escalation ts (record g {
      status = status_open;
      extra = put "acknowledged_by" null (put "acknowledged_at" null g.extra);
    }) in
        ok (
          append_log_by f actor "unacknowledged"
            (concat ("Alert group unacknowledged by " ∷ describe actor ∷ [])) []
            (record opened { updated_at = ts })))
    else err unacknowledge_not_acked

silence_over : Option Instant → Instant → Bool
silence_over none now = false
silence_over (some until) now = leb until now

unfoldable pub silence_expired : TimeText → Instant → Group → Bool
unfolding silence_over
silence_expired time now g =
    if g.status == status_silenced
    then silence_over (time.parse (str_val g.extra "silenced_until")) now
    else false

unfoldable pub end_silence : Fresh → String → Group → Group
unfolding restart_escalation append_log
end_silence f ts g =
    let opened = restart_escalation ts (record g { status = status_open }) in
    append_log f "silence_expired" "Silence expired; escalation restarted" []
      (record opened { updated_at = ts })

-- `ReopenOnNewAlert`, with its report of whether the group was reopened.
unfoldable pub reopen_on_new_alert : Fresh → Group → Group × Bool
unfolding start_episode append_log
reopen_on_new_alert f g =
    if is_acknowledged g
    then (
      append_log f "group_reopened" "New alert reopened an acknowledged group" [] (
          start_episode f (record g {
            status = status_open;
            extra = put "acknowledged_at" null g.extra;
            current_step = 0;
            repeat_count = 0;
          })),
      true,
    )
    else (g, false)

unfoldable pub silence : Fresh → String → String → String → ℕ → Actor → Group → Result Group
unfolding actor_ref append_log_by
silence f ts silenced_until message duration_minutes actor g =
    if is_resolved g
    then err silence_resolved
    else ok (
        append_log_by f actor "silenced" message
          (("duration_minutes", number duration_minutes) ∷ [])
          (record g {
            status = status_silenced;
            extra = put "next_run_at" (if silenced_until == "" then null else str silenced_until) (
                put "silenced_until" (str silenced_until)
                  (put "silenced_by" (actor_ref actor) (put "silenced_at" (str ts) g.extra)));
            updated_at = ts;
          }))

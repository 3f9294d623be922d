-- ===== src/Lib.antt =====
-- nxs-anomaly: alert groups and their escalation state, the delivery of notifications, and the
-- gates in front of both; the pipeline that alerts pass, and the schedules of who is on call.
--
-- The program takes alerts, folds them into alert groups, walks a chain of escalation steps for each
-- open group, and delivers notifications through providers. This development models the parts that
-- hold the state of that: a group and its status machine, a notification and its retry budget, the
-- claims by which several workers share the notifications, what operators may do to groups and what
-- is recorded of it, and the two gates that protect the database and the providers.
--
-- Files and code:
--   Base          internal/utils/utils.go: rows of decoded JSON and their readers (Base/Json), decoded
--                 JSON of any shape (Base/Decoded, its numbers whole), time texts (Base/Time,
--                 an interface, which ToISO and ParseDatetime fill in Base/Layouts), `fmt`, `strings`
--                 and cuts at a byte (Base/Text), durations (Base/Durations); tests and lists.
--   Authz         internal/authz/authz.go: roles, actions, actors (Role, Can, MayAccessTeam).
--   Group         internal/model/alertgroup.go: State is agData with its constructor, episode, pass
--                 and log; Transitions are Acknowledge, Resolve, Unresolve, Unacknowledge,
--                 EndSilence, ReopenOnNewAlert and Silence; Codec is newAGData and toMap. RoundTrip, Lifecycle,
--                 Sound, Restart, Logs and Notified hold the theorems on them.
--   Notification  internal/model/notification.go: the row, its transitions, the retry decision.
--   Delivery      internal/engine/delivery.go (saveDeliveryResults, saveRetryResults, applyOutcome)
--                 and internal/store/store_lookups.go (ClaimDeliverableNotifications,
--                 ClaimRetryableNotifications, ReclaimStaleClaims): Claims holds the definitions,
--                 Protocol and Budget every interleaving of them.
--   Breaker       internal/engine/circuit_breaker.go: Allow and Record.
--   IngestGate    internal/engine/ingest_gate.go: enter and leave, as interleaved steps.
--   Scope         internal/engine/scope.go: authorizeItem, authorizeGroupAction,
--                 partitionAuthorizedGroups.
--   Escalation    internal/engine/escalation.go and audit.go: AcknowledgeGroup, ResolveGroup,
--                 UnresolveGroup, UnacknowledgeGroup, SilenceGroup; Bulk has BulkAcknowledgeGroups,
--                 BulkSilenceGroups and BulkResolveGroups.
--   Steps         internal/engine/steps.go: Walk is advanceGroupLocked, with the turn of the worker
--                 (advanceEscalationShard of worker.go); Paging is electDutyUsers, emergencyUserIDs
--                 and the group's half of notifyUsersPolicy and notifyGroupResolved
--                 (notifications.go).
--   Pipeline      internal/engine/pipeline.go: Document is pipelineDoc and pipelineCond, Stages is
--                 applyStage, Run is AlertPipeline.Apply, Parts and Compile are CompileAlertPipeline
--                 with compileStage and compileCond, Payload is applyAlertPipeline with
--                 compiledPipeline and its fingerprint. The other files hold theorems.
--   Routing       internal/engine/routing.go: selectRoute, regexRouteMatches, buildDedupeKey,
--                 alertmanagerGroupLabelsKey and routeChainIDs; Selection and Keys hold the theorems.
--   Maintenance   internal/engine/maintenance.go: activeMaintenance, maintenanceBounds,
--                 maintenanceIntegrationsArg and silenceForMaintenance; Active and Silenced hold the
--                 theorems.
--   Heartbeat     internal/engine/heartbeat.go: sanitizeHeartbeat, heartbeatSettings, a round of
--                 ProcessSourceHeartbeats, reconcileHeartbeat and markHeartbeatState; Alternation
--                 holds the theorems.
--   Schedule      internal/engine/schedule.go, and shiftActive of engine.go: Rotation is parseRotation
--                 and parseRestriction, Handoffs is handoffAt, periodIndex, participantAt and
--                 restrictionAllows, Resolve is resolveScheduleAt, Boundaries is scheduleBoundaries,
--                 Timeline is scheduleTimeline, applyRoster, scheduleGaps and scheduleOverlaps.
--                 Calendar is what they ask of Go; Steady shows what an answer depends on between two
--                 boundaries. The other files hold theorems.
--   Tests         runs on concrete data.
-- Maintenance silences a group by a transition of Group, and the turn of the worker in Steps lets it
-- rest. An operator action of Escalation asks Scope, then makes a transition of Group; Delivery saves the
-- outcome of an attempt by a transition of Notification.
--
-- How code is read: a method that writes through a shared pointer returns the new record. What a
-- call draws from the clock or from random ids is an argument (Fresh, Request). A locked critical
-- section, a SQL statement and a saving transaction are one step each; an interleaving is a list of
-- steps. A mutator that fails commits nothing, so a failing answer has no state. Counts are natural
-- numbers: the source keeps them at 0 or more. Times are nanoseconds since Go's zero time. A
-- `time.Duration` is an int64 of nanoseconds (Base/Durations): a product with a count that is read from
-- a row wraps around, and a difference of two times saturates. Theorems that need a duration in range
-- say so. Durations of the operator's configuration (the delays of retries, the limits of the gates),
-- the wait that a provider asks for, which is capped, and the edges of a daily window are natural
-- numbers, and in range. A quotient by an average period that wrapped around to 0, at which Go panics, is not looked at.
-- A loop follows a list, also the walk along a chain, which follows the steps that are left; the loops
-- of a schedule have the bounds that the source gives them, 8 corrections of an estimated period in each
-- direction and 50,000 boundary points. Texts are valid UTF-8. A map that the source ranges over is a
-- list, in the order of that run; writing to a nil map is an outcome (Panics).
--
-- Taken as arguments: regular expressions (Regexps, without any law), time zones and the calendar
-- (Calendar, with the law that a step of n days arrives within a day of 24 n hours later), Go's
-- `time.Parse` and `Time.Format` (GoTime, and TimeText for ToISO and ParseDatetime over them, with the
-- law that a time written and read back is itself to the second, which holds before the year 10000),
-- what a provider answers (Outcome), what a heartbeat pass meets (Pass), what the store answers to the
-- read of a group outside a transaction (Reads, a failure of it included), who is on call for the
-- steps (Directory.on_call), and what a personal policy logs on the group
-- (PolicyRuns, with the laws that it only logs, and within the cap).
--
-- Not modelled: the notifications that paging queues, the storing of alerts, notification
-- policies and batches; the storing of maintenance windows and the rate limiter; the status of the alerts
-- of a group; a failure to read the users and integrations for the notice of a resolution. The HTTP
-- server, the SQL store beyond the claim statements, the delivery adapters and the frontend are input and output around this core. The community edition sends no analytics events
-- (internal/engine/analytics_community.go), so they are absent.
pub mod Base
pub mod Authz
pub mod Group
pub mod Notification
pub mod Delivery
pub mod Breaker
pub mod IngestGate
pub mod Scope
pub mod Escalation
pub mod Steps
pub mod Pipeline
pub mod Maintenance
pub mod Heartbeat
pub mod Routing
pub mod Schedule
pub mod Tests

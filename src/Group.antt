-- ===== src/Group.antt =====
-- internal/model/alertgroup.go: the alert group.
pub mod State
pub mod Transitions
pub mod Codec
pub mod Logs
pub mod Lifecycle
pub mod Sound
pub mod Restart
pub mod Notified

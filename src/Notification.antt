-- ===== src/Notification.antt =====
-- internal/model/notification.go: a notification.
pub mod State
pub mod Retry

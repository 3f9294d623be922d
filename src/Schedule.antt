-- ===== src/Schedule.antt =====
-- internal/engine/schedule.go: who is on call in a schedule, by its overrides, its rotation or its legacy
-- shifts, and the timeline of a schedule with its gaps.
pub mod Calendar
pub mod Rotation
pub mod Handoffs
pub mod Periods
pub mod Resolve
pub mod Boundaries
pub mod Timeline
pub mod Steady
pub mod Points
pub mod Tiles
pub mod Answers
pub mod Roster
pub mod Covers
pub mod Turns
pub mod Windows

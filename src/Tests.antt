-- ===== src/Tests.antt =====
-- Runs of the definitions on concrete data, and the theorems applied there.
mod Data
mod Groups
mod Deliveries
mod Gates
mod Operators
mod Chains
mod Pipelines
mod Schedules
mod Arrivals

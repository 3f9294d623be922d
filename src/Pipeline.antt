-- ===== src/Pipeline.antt =====
-- internal/engine/pipeline.go: the pipeline of an integration, which rewrites an alert after its route
-- is chosen and before it is grouped.
pub mod Document
pub mod Stages
pub mod Run
pub mod Kept
pub mod Safe
pub mod Goes
pub mod Drops
pub mod Texts
pub mod Labels
pub mod Parts
pub mod Compile
pub mod Payload
pub mod WellFormed
pub mod Pairs
pub mod Actions
pub mod Accepted
pub mod Cached
pub mod Writes

-- ===== src/Review.antt =====
-- backend/src/codesensei/review: the windows of the git history, and the review of a diff.
pub mod Windows
pub mod Errors
pub mod Schema
pub mod GitLog
pub mod Temporal
pub mod CloneCache
pub mod Attach
pub mod Hunks
pub mod Parser
pub mod Prompt
pub mod DiffFetch
pub mod Job
pub mod Pricing
pub mod RunParts
pub mod Pipeline

-- ===== src/Pipelines.antt =====
-- packages/marx_engels/pipelines
pub mod Routing
pub mod Exact
pub mod Claim
pub mod Thematic
pub mod Timeline

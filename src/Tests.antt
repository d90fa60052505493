-- ===== src/Tests.antt =====
-- Concrete runs of the theorems, at inputs where their hypotheses hold.
pub mod Samples
mod Evidence
mod Retrieval
mod Claim
mod Thematic
mod Timeline
mod Pages
mod Runs
mod Registry
mod Pipelines
mod Routing
pub mod Themes
pub mod Decades
pub mod Merging

-- ===== src/Ingestion.antt =====
-- packages/marx_engels/ingestion: from the volumes to chunks, extraction runs and identifiers.
pub mod Failures
pub mod Mapping
pub mod Splitting
pub mod Runs
pub mod Registry
pub mod Merging

-- ===== src/Evidence.antt =====
-- packages/marx_engels/evidence
pub mod Matching
pub mod Gate
pub mod Service

-- ===== src/Pipelines/Claim.antt =====
-- packages/marx_engels/pipelines/claim.py
pub mod Classification
pub mod Rerank
pub mod Display
pub mod Fusion
pub mod Recall
pub mod Pipeline
pub mod Execute

-- ===== src/Retrieval.antt =====
-- packages/marx_engels/retrieval_core
pub mod Records
pub mod Units
pub mod Floats
pub mod Rrf

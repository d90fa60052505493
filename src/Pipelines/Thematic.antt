-- ===== src/Pipelines/Thematic.antt =====
-- packages/marx_engels/pipelines, the thematic mode
pub mod Types
pub mod Grouping
pub mod Presentation
pub mod Judgments
pub mod Ports
pub mod Recall
pub mod Relevance
pub mod Steps
pub mod Execute

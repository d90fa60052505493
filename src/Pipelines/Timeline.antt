-- ===== src/Pipelines/Timeline.antt =====
-- packages/marx_engels/pipelines, the timeline mode
pub mod Years
pub mod Grouping
pub mod Recall
pub mod Ports
pub mod Execute

-- ===== src/SourcePipeline.antt =====
-- The source pipeline (apps/source_pipeline/src/source_pipeline): pages become card candidates,
-- candidates are reviewed and repaired by queue jobs, and passed cards are handed on.
pub mod Model
pub mod Webhook
pub mod Runtime
mod Tests

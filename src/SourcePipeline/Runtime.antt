-- ===== src/SourcePipeline/Runtime.antt =====
-- pipeline_runtime/service.py: one tick of the pipeline. A row is read where the source reads the
-- session's object, so an assignment made meanwhile is seen.
pub mod Jobs
pub mod Candidates
pub mod Tick
pub mod Evolution
pub mod Handoffs

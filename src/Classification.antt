-- ===== src/Classification.antt =====
-- modules/taxonomy_classification of apps/api/src: cards are classified into child scopes by jobs.
mod Tests
pub mod Model
pub mod Chunks
pub mod Scopes
pub mod Submission
pub mod Refinement
pub mod Webhook
pub mod Taxonomy
pub mod Results
pub mod Continuations
pub mod Runtime
pub mod Tick

-- ===== src/KnowledgeGraph.antt =====
-- modules/knowledge_graph of apps/api: the card store, its proposals and its edges.
pub mod Model
pub mod Repo
pub mod Proposals
pub mod Materialize
pub mod EdgeRebuild
pub mod Retrieval
pub mod Frames
mod Tests

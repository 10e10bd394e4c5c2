-- ===== src/Lib.antt =====
-- A verification of the backend of the knowledge platform: the parts that decide what is written,
-- how often, and by whom.
--
-- The parts and their files
--
-- Exec models methods that change a state and may raise: what was written before a raise stays
-- written. Exec/Steps proves once how a relation between the state before and after passes through
-- sequences, branches, loops and handlers; Exec/Returns reads a chain that returned, Exec/Costs
-- counts the steps of a kind against the value that a method returns. Prelude holds
-- the shared names, Boolean tests, lists and the stable sort that stands for `sorted` and ORDER BY.
--
-- SourcePipeline is apps/source_pipeline: pages become card candidates, which are reviewed, repaired
-- and handed to the ingestion service.
--   * Model: the rows of db/models.py and the message contracts; a State holds the tables that the
--     session sees, the committed tables, all calls that left the process, newest first, and the
--     time of the last reconcile. Services gives the answers of the job queue and of the ingestion
--     service as a function of the calls so far, so a proof for all Services is one for all
--     behaviour of theirs. A handoff is noted as accepted where its answer came back; one that was accepted
--     and lost on the way back is noted as not accepted. The card column holds the dump of a CardDraft, which
--     is validated where it is written, so its validation is not repeated.
--   * Webhook: pipeline_webhook/contracts.py (validation of payloads) and repository.py
--     (record_event, list_pending_events, mark_processed, mark_failed).
--   * Runtime: pipeline_runtime/service.py. Jobs has submissions and handoffs, Candidates the
--     candidates and their reviews and repairs, Tick the tick with its webhook events and its
--     low frequency reconcile. Candidates/Closure and Tick/Closure carry any relation that the
--     writes respect through the whole tick; Handoffs, Evolution and Tick/Commit are its uses.
--
-- KnowledgeGraph is modules/knowledge_graph of apps/api/src: cards, their versions, edges and
-- proposals.
--   * Model: the rows of model.py, the records of dto.py, and `transact`, which is the
--     `try … commit … except: rollback; raise` of each method of KnowledgeGraphService.
--   * Repo and Repo/Edges: the methods of KnowledgeRepo in repo.py, one function for each.
--   * Proposals and Materialize: the methods of KnowledgeGraphService in service.py; a helper such
--     as `payload_on_base` or `connect` is the rest of a method behind a test, or a loop of it.
--     `connect` counts down the edges that may still be made, where the source counts up.
--   * Retrieval: get_connected_titles with its query; EdgeRebuild: edge_rebuild.py.
--   * Proposals/Lifecycle is the abstract view: a relation with one rule for each step in the life
--     of a proposal. Proposals/Refines and Submits show that the methods take such steps only, and
--     Requests follows any sequence of requests.
--   The taxonomy is behind the protocol KnowledgeGraphTaxonomyProjectionPort, here the record
--   TaxonomyPort over a state of its own in the same session.
--
-- Quota is apps/mcp/src/knowledge_mcp/quota/store.py: the reservation script and the summary,
-- whose GET and TTL of a window run at moments of their own.
-- SearchTool is apps/mcp/src/knowledge_mcp/search_tool.py: a search reserves quota, asks the search
-- service, and records usage and analytics.
--
-- Classification is modules/taxonomy_classification of apps/api/src, with the taxonomy's tables: cards
-- are moved from a scope of the tree to one of its children by jobs that a language model answers.
--   * Model: the rows of taxonomy_classification/model.py and taxonomy/model.py, the session, and
--     Services, the answers of the job queue by all calls so far.
--   * Scopes: scope_resolution.py; Chunks, Submission and Refinement: submission.py. A helper such as
--     `submit_scopes` or `link_entries` is a loop of a method, and `submit_new_jobs` its rest.
--     `link_job` checks the unique index of job_id at the write, the code at the flush after the loop.
--   * Webhook: webhook.py; Taxonomy: the methods of taxonomy/repo.py on assignments and projections.
--   * Results, Continuations and Runtime: runtime.py, the processing of a result with the move of its
--     card, the requests for the next job, and the events, reconcile and refreshes of a tick.
--   * Tick: the tick, and the turns of entrypoints/taxonomy_classification_runtime.py, each with a new
--     session and a new service. Results/Moves has the relations that the writes respect, Tick/Closure
--     carries them through the tick.
--   The breadcrumb's `while` has as much fuel as there are nodes: a path to the root in a tree passes
--   each node once. The slices of `_chunks` have as much as there are items, and none is empty.
--
-- Search is modules/search of apps/api/src with shared/cache/json_cache.py: SearchService over a Redis
-- that may forget a key or fail at any operation. Search/Soundness says what the caches may hold.
--
-- Layout is modules/taxonomy/layout.py of apps/api/src, with the records of taxonomy/dto.py: the force
-- simulation that places the cards of a scope, the canonical edges and the slices, over the record Floats.
-- The nodes of the simulation are rewritten in their order, as the code mutates them. `each_pair`
-- goes through the nodes by their list, as the `for` does. The ticks count down. The checks of
-- parameters raise the name of the first bad field in place of the full text. Requests has the rows of
-- taxonomy/repo.py that ask for a layout, from a request over its claim to its end. Where a node of an edge is
-- missing, `link_nodes` does nothing and the code raises KeyError; canonical edges have both nodes.
--
-- How the code is read
--
-- A primary key is given in order of insertion and rows stand in that order, so the first row that
-- passes is the row of `limit(1)`. Methods run one after the other: locks and interleavings inside
-- a method are not modelled, a sequence of requests is. Times are numbers of clock ticks, passed as
-- arguments. A rollback gives back the primary keys too, which PostgreSQL does not; no statement
-- depends on it. Floats are a type parameter with the operations that the code uses. What comes
-- from Python, PostgreSQL, pgvector and the embedding service (strip, text search, inner products,
-- embeddings) is in the record Platform of KnowledgeGraph/Model or in Services, with no assumption on
-- it. Other loops are recursion on lists. Redis runs the script as one step; a key is gone when its
-- expiry has come.
--
-- Not modelled
--
-- Columns that no modelled code reads, the JSON text of events and prompts, the range check of edge
-- strengths (they are clipped before), and failures of the Redis connection and of single inserts.
-- The HTTP layers, configuration, migrations, the web client and the generated contracts hold no
-- rules of their own. The views of the taxonomy, its stored layouts, its import and ingestion are
-- left out: they stand beside these parts and call them.
mod Prelude
pub mod Exec
pub mod SourcePipeline
pub mod KnowledgeGraph
pub mod Quota
pub mod SearchTool
pub mod Classification
pub mod Search
pub mod Layout

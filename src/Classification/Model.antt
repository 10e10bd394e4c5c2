-- ===== src/Classification/Model.antt =====
-- The rows of modules/taxonomy/model.py and modules/taxonomy_classification/model.py that the
-- classification of cards works on, its session, and what it asks of the job queue.
-- A time is a number of clock ticks. Rows stand in the order of their primary keys. Columns that no
-- modelled code reads are left out.
use hll.Prelude.{ℕ, String, Bool, ◌&&◌, Option, List, is_none, str_eq, ◌==◌}
use hll.Exec.{Result, Exec, modify}
use hll.SourcePipeline.Model.{get_row, update_row}
use hll.KnowledgeGraph.Model.{TaxonomyScopeIdentity}

pub data Error : Type 0 where
  -- a ValueError with a shortened message, a RuntimeError, a constraint of a table, and a failure of the job queue's client
  value_error : String → Error
  runtime_error : String → Error
  integrity_error key_error : Error
  -- a `while` that does not end
  endless : Error
  client_error : String → Error

pub record TaxonomyNode : Type 0 where
  pub id : ℕ
  pub parent_id : Option ℕ
  pub name : String
  pub depth : ℕ

-- a row of nodes
pub record Card : Type 0 where
  pub id : ℕ
  pub title : String
  pub content : String

pub record NodeTaxonomyAssignment : Type 0 where
  pub node_id : ℕ
  pub taxonomy_node_id : ℕ
  pub assigned_at : ℕ

pub record TaxonomyClassificationJob : Type 0 where
  pub id : ℕ
  pub scope_node_id : ℕ
  pub node_id : ℕ
  pub job_id : Option ℕ
  pub terminal_state : Option String
  pub processed_at : Option ℕ
  -- the `target_name` of `target_payload`
  pub target_name : Option String
  pub last_error : Option Error
  pub updated_at : ℕ

pub record TaxonomyClassificationWebhookEvent : Type 0 where
  pub id : ℕ
  pub event_id : String
  pub event_type : String
  pub job_id : ℕ
  pub terminal_state : Option String
  pub processed_at : Option ℕ
  pub last_error : Option Error
  pub created_at : ℕ
  pub updated_at : ℕ

pub record TaxonomyClassificationWebhookWakeup : Type 0 where
  pub id : ℕ
  pub event_id : String

pub record ContinuationRequest : Type 0 where
  pub id : ℕ
  pub scope_node_id : ℕ
  pub node_id : ℕ
  pub source_job_id : ℕ
  pub next_job_id : Option ℕ
  pub last_error : Option Error
  pub updated_at : ℕ

pub record ProjectionRefreshRequest : Type 0 where
  pub scope : TaxonomyScopeIdentity
  pub last_error : Option Error
  pub updated_at : ℕ

pub record TaxonomyScopeProjectionEdge : Type 0 where
  pub scope : TaxonomyScopeIdentity
  pub edge_id : ℕ

pub record Tables : Type 0 where
  pub taxonomy_nodes : List TaxonomyNode
  pub cards : List Card
  -- the rows of adjacency: a node and an edge of it
  pub adjacency : List (ℕ × ℕ)
  pub assignments : List NodeTaxonomyAssignment
  pub jobs : List TaxonomyClassificationJob
  pub events : List TaxonomyClassificationWebhookEvent
  pub wakeups : List TaxonomyClassificationWebhookWakeup
  pub continuations : List ContinuationRequest
  pub refreshes : List ProjectionRefreshRequest
  pub projection_edges : List TaxonomyScopeProjectionEdge
  pub next_job_row_id : ℕ
  pub next_event_id : ℕ
  pub next_wakeup_id : ℕ
  pub next_continuation_id : ℕ

-- `scope_path` is the breadcrumb whose joined text is sent.
pub record JobPayload : Type 0 where
  pub scope_path : List String
  pub title : String
  pub content : String
  pub children : List String

-- The instruction and the output schema are the same for every job and left out.
pub record CreateJobItem : Type 0 where
  pub queue_name : String
  -- `taxonomy-classification-job:<id>`
  pub idempotency_key : ℕ
  pub payload : JobPayload
  pub scope_node_id : ℕ
  pub node_id : ℕ

pub record CreatedJob : Type 0 where
  pub index : ℕ
  pub job_id : ℕ
  pub created : Bool

pub record ResultReadItem : Type 0 where
  pub index : ℕ
  pub job_id : ℕ
  pub status : String
  pub state : Option String
  -- the raw `result_payload` of a ready item with all its fields
  pub result_payload : Option String

pub data Call : Type 0 where
  create_jobs : List CreateJobItem → Call
  get_results : List ℕ → Call

-- The job queue answers by all calls so far. `item_bytes` is the length of the JSON text of an item.
pub record Services : Type 0 where
  pub create : List Call → List CreateJobItem → Result Error (List CreatedJob)
  pub results : List Call → List ℕ → Result Error (List ResultReadItem)
  pub item_bytes : CreateJobItem → ℕ
  -- the `target_name` of a valid payload
  pub parse_result : String → Option String
  pub strip : String → String
  pub casefold : String → String
  -- `lower` of Python, and of the database
  pub lower : String → String
  pub db_lower : String → String
  -- the order of the database's texts, and of Python's
  pub name_le : String → String → Bool
  pub text_le : String → String → Bool

pub record State : Type 0 where
  pub tables : Tables
  pub open tables use *
  -- what the last commit made durable
  pub committed : Tables
  pub calls : List Call
  pub last_reconcile_at : Option ℕ

abbrev pub Action : Type 0 → Type 0
Action A = Exec Error State A

unfoldable pub commit : Action Unit
commit = modify (λ s. record s { committed = s.tables })

-- Neither processed nor terminal.
abbrev pub is_open : TaxonomyClassificationJob → Bool
is_open j = is_none j.processed_at && is_none j.terminal_state

unfoldable pub write_job : ℕ → (TaxonomyClassificationJob → TaxonomyClassificationJob) → Action Unit
unfolding update_row
write_job id f =
    modify
      (λ s. record s { tables = record s.tables { jobs = update_row (λ j. j.id) id f s.jobs } })

abbrev pub job_at : ℕ → State → Option TaxonomyClassificationJob
job_at id s = get_row (λ j. j.id) id s.jobs

abbrev pub same_scope : TaxonomyScopeIdentity → TaxonomyScopeIdentity → Bool
same_scope a b = str_eq a.scope_kind b.scope_kind && a.taxonomy_node_id == b.taxonomy_node_id

-- ===== src/SourcePipeline/Model.antt =====
-- The rows of db/models.py, the message contracts, the session that a tick works on, and what the
-- pipeline asks of the job queue and of the ingestion service.
-- `Payload` is raw JSON. A time is a number of clock ticks. Columns that no modelled code reads
-- (`created_at` of units and candidates) are left out. A primary key is given in order of
-- insertion, and rows stand in that order.
pub mod Rows
use hll.Prelude.{ℕ, String, Bool, Option, List, [], ◌∷◌, ◌==◌, if◌then◌else◌, find}
use hll.Exec.{Result, Exec}

-- page_to_card/contracts.py and card_review/contracts.py
pub record SourceUnit : Type 0 where
  pub source_kind : String
  pub source_ref : String
  pub title : String
  pub content : String
  -- the JSON text of the dictionary
  pub metadata : String

pub record CardDraft : Type 0 where
  pub title : String
  pub content : String

pub record ReviewResult : Type 0 where
  pub passed : Bool
  pub reason : Option String

-- `str(exc)` is the exception itself.
pub data Exception : Type 0 where
  validation_error : Exception
  unsupported_event_type : String → Exception
  missing_terminal_state missing_job_id created_jobs_mismatch : Exception
  not_ready_despite_accepted : ℕ → Exception
  event_missing : String → Exception
  conflict_without_row : Exception
  row_missing : Exception
  client_error : String → Exception
  constructor_error : String → Exception

module _ (Payload : Type 0) where
  pub record WorkflowUnit : Type 0 where
    pub id : ℕ
    pub workflow_run_id : ℕ
    pub source_kind : String
    pub source_ref : String
    pub payload : Payload
    pub page_to_card_job_id : Option ℕ
    pub page_to_card_terminal_state : Option String

pub data OriginStep : Type 0 where
  page_to_card card_repair : OriginStep

pub record CardCandidate : Type 0 where
  pub id : ℕ
  pub workflow_unit_id : ℕ
  pub parent_candidate_id : Option ℕ
  pub card_payload : CardDraft
  pub origin_step : OriginStep
  pub origin_job_id : ℕ
  pub origin_ordinal : ℕ
  pub review_job_id : Option ℕ
  pub review_terminal_state : Option String
  pub repair_job_id : Option ℕ
  pub repair_terminal_state : Option String
  pub ingestion_handoff_done : Bool

pub record JobQueueWebhookEvent : Type 0 where
  pub id : ℕ
  pub event_id : String
  pub event_type : String
  pub job_id : ℕ
  pub queue_name : String
  pub submission_id : Option ℕ
  pub terminal_state : Option String
  pub occurred_at : ℕ
  pub processed_at : Option ℕ
  pub last_error : Option Exception
  pub created_at : ℕ
  pub updated_at : ℕ

pub record JobQueueWebhookWakeup : Type 0 where
  pub id : ℕ
  pub event_id : String

-- The tables that the session sees, and the next primary keys.
module _ (Payload : Type 0) where
  pub record Tables : Type 0 where
    pub units : List (WorkflowUnit Payload)
    pub candidates : List CardCandidate
    pub events : List JobQueueWebhookEvent
    pub wakeups : List JobQueueWebhookWakeup
    pub next_candidate_id : ℕ
    pub next_event_id : ℕ
    pub next_wakeup_id : ℕ

-- `source-pipeline:<step>:<table>:<id>`
pub data IdempotencyKey : Type 0 where
  page_to_card_key card_review_key card_repair_key : ℕ → IdempotencyKey

pub data JobPayload : Type 0 where
  source_unit : SourceUnit → JobPayload
  card : CardDraft → JobPayload
  repair_input : CardDraft → ReviewResult → JobPayload

pub record JobMetadata : Type 0 where
  pub workflow_unit_id : ℕ
  pub candidate_id : Option ℕ

pub record CreateJobItem : Type 0 where
  pub queue_name : String
  pub idempotency_key : IdempotencyKey
  pub priority : String
  pub payload : JobPayload
  pub metadata : JobMetadata

pub record CreatedJob : Type 0 where
  pub index : ℕ
  pub job_id : ℕ

-- A call that left the process, with what came back where the pipeline's books depend on it.
pub data Call : Type 0 where
  create_jobs : List CreateJobItem → Call
  get_result : ℕ → Call
  handoff : (candidate_id : ℕ) → CardDraft → (accepted : Bool) → Call

pub data Reply (Payload : Type 0) : Type 0 where
  accepted : Payload → Reply Payload
  not_ready : (state : Option String) → Reply Payload
  failed : Exception → Reply Payload

-- The job queue and the ingestion service answer by all calls so far: any behaviour of theirs is
-- such a function. `parse_…` are the validations by pydantic, up to the model's own validators.
pub record Services (Payload : Type 0) : Type 0 where
  pub create : List Call → List CreateJobItem → Result Exception (List CreatedJob)
  pub result : List Call → ℕ → Reply Payload
  pub hand_off : List Call → ℕ → CardDraft → Result Exception Unit
  pub parse_source_unit : Payload → Option SourceUnit
  pub parse_cards : Payload → Option (List CardDraft)
  pub parse_review : Payload → Option ReviewResult
  -- `not reason.strip()`
  pub blank : String → Bool

pub record State (Payload : Type 0) : Type 0 where
  pub tables : Tables Payload
  pub open tables use *
  -- what the last commit made durable
  pub committed : Tables Payload
  pub calls : List Call
  pub last_reconcile_at : Option ℕ

abbrev pub Action : Type 0 → Type 0 → Type 0
Action Payload A = Exec Exception (State Payload) A

-- Access to a row by its primary key.
module _ {A : Type 0} (key : A → ℕ) where
  abbrev pub get_row : ℕ → List A → Option A
  get_row k rows = find (λ r. key r == k) rows

  unfoldable pub update_row : ℕ → (A → A) → List A → List A
  update_row k f [] = []
  update_row k f (r ∷ rows) =
      let rest = update_row k f rows in if key r == k then f r ∷ rest else r ∷ rest

abbrev pub candidate_at : {Payload : Type 0} → ℕ → State Payload → Option CardCandidate
candidate_at id s = get_row (λ c. c.id) id s.candidates

abbrev pub unit_at : {Payload : Type 0} → ℕ → State Payload → Option (WorkflowUnit Payload)
unit_at id s = get_row (λ u. u.id) id s.units

-- ===== src/KnowledgeGraph/Model.antt =====
-- The rows of modules/knowledge_graph/model.py, the records of dto.py, and the session that the
-- methods of KnowledgeGraphService work on.
-- `Real` is Python's float, `Taxonomy` the state behind KnowledgeGraphTaxonomyProjectionPort, which
-- shares the session. A time is a number of clock ticks. Columns that no modelled code reads
-- (`search_vector`, the timestamps of all tables but card_proposals, the primary keys of versions
-- and audits) are left out. A rollback gives back the primary keys too.
use hll.Prelude.{ℕ, String, Bool, true, false, Option, none, List, str_eq}
use hll.Exec.{Result, Exec, modify, raise, pure, ◌>>=◌, ◌>>◌, try_except}

pub data Error : Type 0 where
  card_version_not_found no_change proposal_not_found invalid_state : Error
  permission : String → Error
  missing_reason missing_target missing_create_text missing_edit_text unsupported_type : Error
  missing_payload : String → Error
  missing_embedding_client missing_target_node missing_proposal equal_endpoints : Error
  -- a constraint of a table, a record that pydantic refuses, and a failure of a client
  integrity_error validation_error top_k_too_small limit_too_small : Error
  client_error : String → Error

pub data LifecycleState : Type 0 where
  active archived : LifecycleState

pub data ProposalType : Type 0 where
  create edit delete : ProposalType
  -- any other text
  other : String → ProposalType

pub data ProposalStatus : Type 0 where
  pending_review accepted_applied rejected withdrawn : ProposalStatus

abbrev pub is_active : LifecycleState → Bool
is_active active = true
is_active archived = false

abbrev pub is_pending : ProposalStatus → Bool
is_pending pending_review = true
is_pending _ = false

abbrev pub is_accepted : ProposalStatus → Bool
is_accepted accepted_applied = true
is_accepted _ = false

module _ (Real : Type 0) where
  pub record Node : Type 0 where
    pub id : ℕ
    pub title : String
    pub content : String
    pub current_version : ℕ
    pub embedding : List Real
    pub lifecycle_state : LifecycleState

  pub record Edge : Type 0 where
    pub id : ℕ
    pub node_a_id : ℕ
    pub node_b_id : ℕ
    pub strength : Real

  pub record SimilarNodeCandidate : Type 0 where
    pub node_id : ℕ
    pub similarity : Real

  pub record PlannedEdge : Type 0 where
    pub source_node_id : ℕ
    pub related_node_id : ℕ
    pub strength : Real

pub record Adjacency : Type 0 where
  pub node_id : ℕ
  pub edge_id : ℕ

-- a row, and the snapshot of it
pub record CardVersion : Type 0 where
  pub node_id : ℕ
  pub version : ℕ
  pub title : String
  pub content : String

pub record WorkspaceRole : Type 0 where
  pub user_id : String
  pub role : String
  pub revoked_at : Option ℕ

-- The JSON object, by the keys that the service writes and reads.
pub record ProposalPayload : Type 0 where
  pub proposed_title : Option String
  pub proposed_content : Option String
  pub target_node_id : Option ℕ
  pub base_version : Option ℕ
  pub suggested_title : Option String
  pub suggested_content : Option String
  pub target_title : Option String
  pub target_content : Option String

abbrev pub no_payload : ProposalPayload
no_payload = record {
  proposed_title = none;
  proposed_content = none;
  target_node_id = none;
  base_version = none;
  suggested_title = none;
  suggested_content = none;
  target_title = none;
  target_content = none;
}

-- a row, and the record that callers get
pub record CardProposal : Type 0 where
  pub id : ℕ
  pub proposal_type : ProposalType
  pub status : ProposalStatus
  pub submitted_by_user_id : String
  pub reason : String
  pub reviewed_by_user_id : Option String
  pub review_note : Option String
  pub payload : ProposalPayload
  pub created_at : ℕ
  pub updated_at : ℕ
  pub reviewed_at : Option ℕ

pub record CardSuggestedEditRecord : Type 0 where
  pub id : ℕ
  pub node_id : ℕ
  pub base_version : ℕ
  pub suggested_title : String
  pub suggested_content : String
  pub suggested_by_user_id : String
  pub created_at : ℕ

-- `affected_node_ids`, `created_versions` and `archive_outcome` of an applied proposal
pub record Applied : Type 0 where
  pub affected_node_ids : List ℕ
  pub created_versions : List (ℕ × ℕ)
  pub archived_node_id : Option ℕ

pub record ProposalApplyAudit : Type 0 where
  pub proposal_id : ℕ
  pub reviewer_user_id : String
  pub proposal_type : ProposalType
  pub applied : Applied
  pub review_note : Option String

-- What the code takes from Python, from PostgreSQL with pgvector, and from the embedding service.
pub record Platform (Real : Type 0) : Type 0 where
  -- `str.strip`, and `f"{title}\n\n{content}"`
  pub strip : String → String
  pub joined : String → String → String
  pub lt : Real → Real → Bool
  pub add : Real → Real → Real
  pub div : Real → Real → Real
  pub neg : Real → Real
  pub real_zero : Real
  pub real_one : Real
  pub real_two : Real
  -- `Node.embedding.max_inner_product(…)`, which pgvector negates
  pub neg_inner_product : List Real → List Real → Real
  -- `to_tsvector("simple", content) @@ phraseto_tsquery("simple", title)`
  pub mentions : (content title : String) → Bool
  pub embed_text : Option (String → Result Error (List Real))

pub record TaxonomyScopeIdentity : Type 0 where
  pub scope_kind : String
  pub taxonomy_node_id : ℕ

-- KnowledgeGraphTaxonomyProjectionPort of service.py; the dictionary of scope identities is its
-- list of items.
pub record TaxonomyPort (Taxonomy : Type 0) : Type 0 where
  pub assign_node_to_root : ℕ → Exec Error Taxonomy ℕ
  pub list_scope_identities_for_node_ids :
      List ℕ → Exec Error Taxonomy (List (ℕ × TaxonomyScopeIdentity))
  pub add_projected_edge_ids_for_scope : TaxonomyScopeIdentity → List ℕ → Exec Error Taxonomy Unit

module _ (Real Taxonomy : Type 0) where
  pub record Tables : Type 0 where
    pub nodes : List (Node Real)
    pub card_versions : List CardVersion
    pub roles : List WorkspaceRole
    pub proposals : List CardProposal
    pub audits : List ProposalApplyAudit
    pub edges : List (Edge Real)
    pub adjacency : List Adjacency
    pub next_node_id : ℕ
    pub next_proposal_id : ℕ
    pub next_edge_id : ℕ
    pub taxonomy : Taxonomy

pub record State (Real Taxonomy : Type 0) : Type 0 where
  pub tables : Tables Real Taxonomy
  pub open tables use *
  -- what the last commit made durable
  pub committed : Tables Real Taxonomy

abbrev pub Action : Type 0 → Type 0 → Type 0 → Type 0
Action Real Taxonomy A = Exec Error (State Real Taxonomy) A

module _ {Real Taxonomy : Type 0} where
  unfoldable pub commit : Action Real Taxonomy Unit
  commit = modify (λ s. record s { committed = s.tables })

  unfoldable pub rollback : Action Real Taxonomy Unit
  rollback = modify (λ s. record s { tables = s.committed })

  -- `try: …; await commit(); return …` / `except Exception: await rollback(); raise`
  unfoldable pub transact : {A : Type 0} → Action Real Taxonomy A → Action Real Taxonomy A
  unfolding ◌>>=◌ try_except commit rollback
  transact body = try_except (body >>= λ a. commit >> pure a) (λ e. rollback >> raise e)

  -- A call of the port, on its part of the session.
  unfoldable pub in_taxonomy : {A : Type 0} → Exec Error Taxonomy A → Action Real Taxonomy A
  in_taxonomy call s =
      let (r, t) = call s.taxonomy in (r, record s { tables = record s.tables { taxonomy = t } })

-- `not value.strip()`
abbrev pub blank : {Real : Type 0} → Platform Real → String → Bool
blank platform value = str_eq (platform.strip value) ""

-- ===== src/KnowledgeGraph/Proposals.antt =====
-- The proposals of modules/knowledge_graph/service.py: submitted, listed, rejected, withdrawn, and
-- accepted, which applies them.
pub mod Atomic
pub mod Requests
pub mod Submits
pub mod Decisions
pub mod Refines
pub mod Uncommitted
pub mod Lifecycle
use hll.Prelude.{
  ℕ, zero, ◌+◌, String, Bool, true, false, not, ◌&&◌, ◌||◌, Option, none, some, List, [], ◌∷◌,
  str_eq, if◌then◌else◌, ltb,
}
use hll.Exec.{Result, ok, err, pure, raise, lift, gets, ◌>>=◌, ◌>>◌}
use hll.KnowledgeGraph.Model.{
  Error, card_version_not_found, no_change, proposal_not_found, invalid_state, permission,
  missing_reason, missing_target, missing_create_text, missing_edit_text, unsupported_type,
  missing_payload, missing_embedding_client, missing_target_node, missing_proposal, equal_endpoints,
  integrity_error, validation_error, top_k_too_small, limit_too_small, client_error, LifecycleState,
  active, archived, ProposalType, create, edit, delete, other, ProposalStatus, pending_review,
  accepted_applied, rejected, withdrawn, is_active, is_pending, is_accepted, Node, Edge,
  SimilarNodeCandidate, PlannedEdge, Adjacency, CardVersion, WorkspaceRole, ProposalPayload,
  no_payload, CardProposal, CardSuggestedEditRecord, Applied, ProposalApplyAudit, Platform, Tables,
  State, Action, commit, rollback, transact, blank, TaxonomyPort, in_taxonomy,
}
use hll.KnowledgeGraph.Repo.{
  fetch_card_version, create_card_suggested_edit, create_card_proposal, fetch_card_proposal,
  list_card_proposals_for_user, list_pending_card_proposals, has_active_workspace_review_role,
  create_node, create_next_card_version, archive_node, mark_card_proposal_accepted,
  mark_card_proposal_rejected, mark_card_proposal_withdrawn, create_proposal_apply_audit,
}

-- `_payload_text` and `_payload_int` on the value of a key
module _ {Real : Type 0} (platform : Platform Real) where
  abbrev pub payload_text : String → Option String → Result Error String
  payload_text key none = err (missing_payload key)
  payload_text key (some value) =
      if blank platform value then err (missing_payload key) else ok value

  abbrev pub normalize_reason : Option String → Result Error String
  normalize_reason none = err missing_reason
  normalize_reason (some reason) =
      if blank platform reason then err missing_reason else ok (platform.strip reason)

abbrev pub payload_int : String → Option ℕ → Result Error ℕ
payload_int key none = err (missing_payload key)
payload_int key (some value) = if ltb value 1 then err (missing_payload key) else ok value

-- The optional arguments of `submit_card_proposal`.
pub record Proposed : Type 0 where
  pub proposed_title : Option String
  pub proposed_content : Option String
  pub target_node_id : Option ℕ
  pub base_version : Option ℕ
  pub suggested_title : Option String
  pub suggested_content : Option String

abbrev pub unchanged : String → String → CardVersion → Bool
unchanged title content base = str_eq title base.title && str_eq content base.content

abbrev pub create_payload : Option String → Option String → Result Error ProposalPayload
create_payload (some title) (some content) =
    ok (record no_payload { proposed_title = some title; proposed_content = some content })
create_payload _ _ = err missing_create_text

abbrev pub edit_payload :
    ℕ → ℕ → CardVersion → Option String → Option String → Result Error ProposalPayload
edit_payload id version base (some title) (some content) =
    if unchanged title content base
    then err no_change
    else ok (record no_payload {
      target_node_id = some id;
      base_version = some version;
      suggested_title = some title;
      suggested_content = some content;
    })
edit_payload id version base _ _ = err missing_edit_text

abbrev pub payload_on_base :
    ProposalType → Proposed → ℕ → ℕ → Option CardVersion → Result Error ProposalPayload
payload_on_base type p id version none = err card_version_not_found
payload_on_base edit p id version (some base) =
    edit_payload id version base p.suggested_title p.suggested_content
payload_on_base delete p id version (some base) = ok (record no_payload {
  target_node_id = some id;
  base_version = some version;
  target_title = some base.title;
  target_content = some base.content;
})
payload_on_base _ p id version (some base) = err unsupported_type

abbrev pub record_or_missing :
    {Real Taxonomy : Type 0} → Option CardProposal → Action Real Taxonomy CardProposal
record_or_missing none = raise proposal_not_found
record_or_missing (some p) = if is_pending p.status then pure p else raise invalid_state

unfoldable pub assign_if_port :
    {Real Taxonomy : Type 0} → Option (TaxonomyPort Taxonomy) → ℕ → Action Real Taxonomy Unit
unfolding in_taxonomy ◌>>=◌
assign_if_port none node_id = pure tt
assign_if_port (some port) node_id = in_taxonomy (port.assign_node_to_root node_id) >> pure tt

module _ {Real Taxonomy : Type 0} (platform : Platform Real)
    (taxonomy_port : Option (TaxonomyPort Taxonomy)) where
  unfoldable pub payload_for_target :
      ProposalType → Proposed → Option ℕ → Option ℕ → Action Real Taxonomy ProposalPayload
  unfolding fetch_card_version ◌>>=◌
  payload_for_target type p (some id) (some version) =
      fetch_card_version platform id version >>= λ base.
      lift (payload_on_base type p id version base)
  payload_for_target type p _ _ = raise missing_target

  unfoldable pub build_proposal_payload :
      ProposalType → Proposed → String → Action Real Taxonomy ProposalPayload
  unfolding payload_for_target ◌>>=◌
  build_proposal_payload create p reason = lift (normalize_reason platform (some reason)) >>= λ _.
      lift (create_payload p.proposed_title p.proposed_content)
  build_proposal_payload type p reason = lift (normalize_reason platform (some reason)) >>= λ _.
      payload_for_target type p p.target_node_id p.base_version

  unfoldable pub submit_card_proposal :
      ProposalType → String → Proposed → String → ℕ → Action Real Taxonomy CardProposal
  unfolding transact build_proposal_payload create_card_proposal ◌>>=◌
  submit_card_proposal type user_id p reason now = transact (
      lift (normalize_reason platform (some reason)) >>= λ normalized_reason.
      build_proposal_payload type p normalized_reason >>= λ payload.
      create_card_proposal platform type user_id normalized_reason payload now)

  abbrev pub check_base : String → String → Option CardVersion → Result Error Unit
  check_base title content none = err card_version_not_found
  check_base title content (some base) =
      if unchanged title content base then err no_change else ok tt

  unfoldable pub submit_card_suggested_edit :
      ℕ → ℕ → String → String → String → String → ℕ → Action Real Taxonomy CardSuggestedEditRecord
  unfolding transact fetch_card_version create_card_suggested_edit ◌>>=◌
  submit_card_suggested_edit node_id base_version title content user_id reason now = transact (
      lift (normalize_reason platform (some reason)) >>= λ normalized_reason.
      fetch_card_version platform node_id base_version >>= λ base.
      lift (check_base title content base) >>= λ _.
      create_card_suggested_edit platform node_id base_version title content user_id
        normalized_reason now)

  unfoldable pub list_pending_card_proposals_for_review :
      String → Action Real Taxonomy (List CardProposal)
  unfolding has_active_workspace_review_role list_pending_card_proposals
  list_pending_card_proposals_for_review reviewer s =
      if has_active_workspace_review_role reviewer s
      then list_pending_card_proposals platform s
      else raise (permission "Reviewer role is required.") s

  unfoldable pub fetch_pending_proposal : ℕ → Action Real Taxonomy CardProposal
  unfolding fetch_card_proposal ◌>>=◌
  fetch_pending_proposal id = fetch_card_proposal platform id >>= record_or_missing

  -- `if not await has_active_workspace_review_role(…): raise …`
  unfoldable pub require_review_role : String → Action Real Taxonomy Unit
  unfolding has_active_workspace_review_role
  require_review_role user_id s =
      if has_active_workspace_review_role user_id s
      then pure tt s
      else raise (permission "Reviewer role is required.") s

  unfoldable pub reject_card_proposal :
      ℕ → String → Option String → ℕ → Action Real Taxonomy CardProposal
  unfolding transact fetch_pending_proposal require_review_role mark_card_proposal_rejected ◌>>=◌
  reject_card_proposal id reviewer note now = transact (
      fetch_pending_proposal id >>= λ proposal.
      (require_review_role reviewer
        >> mark_card_proposal_rejected platform proposal.id reviewer note now))

  abbrev pub require_submitter : String → CardProposal → Result Error Unit
  require_submitter user_id p =
      if str_eq p.submitted_by_user_id user_id
      then ok tt
      else err (permission "Only the submitter can withdraw this proposal.")

  unfoldable pub withdraw_card_proposal : ℕ → String → ℕ → Action Real Taxonomy CardProposal
  unfolding transact fetch_pending_proposal mark_card_proposal_withdrawn ◌>>=◌
  withdraw_card_proposal id user_id now = transact (
      fetch_pending_proposal id >>= λ proposal.
      (lift (require_submitter user_id proposal)
        >> mark_card_proposal_withdrawn platform proposal.id now))

  abbrev pub embed_card : String → String → Result Error (List Real)
  embed_card title content = elim platform.embed_text [
    | none ↦ err missing_embedding_client
    | some embed ↦ embed (platform.joined title content)
  ]

  unfoldable pub apply_create_proposal : ProposalPayload → Action Real Taxonomy Applied
  unfolding create_node assign_if_port ◌>>=◌
  apply_create_proposal payload =
      lift (payload_text platform "proposed_title" payload.proposed_title) >>= λ title.
      lift (payload_text platform "proposed_content" payload.proposed_content) >>= λ content.
      lift (embed_card title content) >>= λ embedding.
      create_node title content embedding >>= λ node_id.
      (assign_if_port taxonomy_port node_id
        >> pure (record {
          affected_node_ids = node_id ∷ [];
          created_versions = (node_id, 1) ∷ [];
          archived_node_id = none;
        }))

  unfoldable pub apply_edit_proposal : ProposalPayload → Action Real Taxonomy Applied
  unfolding create_next_card_version ◌>>=◌
  apply_edit_proposal payload =
      lift (payload_int "target_node_id" payload.target_node_id) >>= λ node_id.
      lift (payload_text platform "suggested_title" payload.suggested_title) >>= λ title.
      lift (payload_text platform "suggested_content" payload.suggested_content) >>= λ content.
      lift (embed_card title content) >>= λ embedding.
      create_next_card_version node_id title content embedding >>= λ version. pure (record {
        affected_node_ids = node_id ∷ [];
        created_versions = (node_id, version) ∷ [];
        archived_node_id = none;
      })

  unfoldable pub apply_delete_proposal : ProposalPayload → Action Real Taxonomy Applied
  unfolding archive_node ◌>>=◌
  apply_delete_proposal payload =
      lift (payload_int "target_node_id" payload.target_node_id) >>= λ node_id.
      (archive_node node_id
        >> pure (record {
          affected_node_ids = node_id ∷ [];
          created_versions = [];
          archived_node_id = some node_id;
        }))

  unfoldable pub apply_proposal : ProposalType → ProposalPayload → Action Real Taxonomy Applied
  unfolding apply_create_proposal apply_edit_proposal apply_delete_proposal
  apply_proposal create payload = apply_create_proposal payload
  apply_proposal edit payload = apply_edit_proposal payload
  apply_proposal delete payload = apply_delete_proposal payload
  apply_proposal (other type) payload = raise unsupported_type

  -- What follows the checks of `accept_card_proposal`.
  unfoldable pub apply_and_record :
      String → Option String → ℕ → CardProposal → Action Real Taxonomy CardProposal
  unfolding apply_proposal mark_card_proposal_accepted create_proposal_apply_audit ◌>>=◌
  apply_and_record reviewer note now proposal =
      apply_proposal proposal.proposal_type proposal.payload >>= λ applied.
      mark_card_proposal_accepted platform proposal.id reviewer note now >>= λ accepted.
      (create_proposal_apply_audit proposal.id reviewer proposal.proposal_type applied note
        >> pure accepted)

  unfoldable pub accept_card_proposal :
      ℕ → String → Option String → ℕ → Action Real Taxonomy CardProposal
  unfolding transact fetch_pending_proposal require_review_role apply_and_record ◌>>=◌
  accept_card_proposal id reviewer note now = transact (
      require_review_role reviewer
      >> (fetch_pending_proposal id >>= apply_and_record reviewer note now))

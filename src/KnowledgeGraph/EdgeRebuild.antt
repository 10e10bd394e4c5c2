-- ===== src/KnowledgeGraph/EdgeRebuild.antt =====
-- modules/knowledge_graph/edge_rebuild.py: the edges of all nodes, planned anew from the nodes that
-- come before each node.
pub mod Plan
use hll.Prelude.{
  ℕ, zero, suc, Bool, true, false, not, ◌||◌, List, [], ◌∷◌, ◌++◌, map, if◌then◌else◌, filter, ltb,
  leb, sort, take, length,
}
use hll.Exec.{Result, ok, err, pure, lift, gets, ◌>>=◌, ◌>>◌}
use hll.KnowledgeGraph.Model.{
  Error, card_version_not_found, no_change, proposal_not_found, invalid_state, permission,
  missing_reason, missing_target, missing_create_text, missing_edit_text, unsupported_type,
  missing_payload, missing_embedding_client, missing_target_node, missing_proposal, equal_endpoints,
  integrity_error, validation_error, top_k_too_small, limit_too_small, client_error, LifecycleState,
  active, archived, ProposalType, create, edit, delete, other, ProposalStatus, pending_review,
  accepted_applied, rejected, withdrawn, is_active, is_pending, is_accepted, Node, Edge,
  SimilarNodeCandidate, PlannedEdge, Adjacency, CardVersion, WorkspaceRole, ProposalPayload,
  no_payload, CardProposal, CardSuggestedEditRecord, Applied, ProposalApplyAudit, Platform, Tables,
  State, Action, commit, rollback, transact, blank, TaxonomyScopeIdentity, TaxonomyPort,
  in_taxonomy,
}
use hll.KnowledgeGraph.Repo.Edges.{
  create_edge_with_adjacency, clear_edges_with_adjacency, search_historical_similarity_candidates,
}

pub record EdgeRebuildResult : Type 0 where
  pub node_count : ℕ
  pub planned_edge_count : ℕ
  pub inserted_edge_count : ℕ
  pub applied : Bool

module _ {Real : Type 0} (platform : Platform Real) where
  abbrev pub validate_rebuild_policy : ℕ → Real → Result Error Unit
  validate_rebuild_policy top_k min_strength =
      if ltb top_k 1
      then err top_k_too_small
      else (if platform.lt min_strength platform.real_zero
            || platform.lt platform.real_one min_strength
          then err validation_error
          else ok tt)

  -- `candidate.similarity >= edge_semantic_min_strength`
  abbrev pub reaches : Real → SimilarNodeCandidate Real → Bool
  reaches min_strength c = not (platform.lt c.similarity min_strength)

abbrev pub planned_from : {Real : Type 0} → ℕ → SimilarNodeCandidate Real → PlannedEdge Real
planned_from source c = record {
  source_node_id = source;
  related_node_id = c.node_id;
  strength = c.similarity;
}

-- `select(Node.id).order_by(Node.id.asc())`
unfoldable pub fetch_node_ids_in_rebuild_order :
    {Real Taxonomy : Type 0} → State Real Taxonomy → List ℕ
unfolding sort
fetch_node_ids_in_rebuild_order s = sort leb (map (λ n. n.id) s.nodes)

module _ {Real Taxonomy : Type 0} (platform : Platform Real) (top_k : ℕ) (min_strength : Real) where
  unfoldable pub plan_for_node : State Real Taxonomy → ℕ → List (PlannedEdge Real)
  unfolding search_historical_similarity_candidates
  plan_for_node s source =
      let candidates = search_historical_similarity_candidates platform source s in
      map (planned_from source) (take top_k (filter (reaches platform min_strength) candidates))

  unfoldable pub plan_for_nodes : State Real Taxonomy → List ℕ → List (PlannedEdge Real)
  unfolding plan_for_node
  plan_for_nodes s [] = []
  plan_for_nodes s (source ∷ sources) = plan_for_node s source ++ plan_for_nodes s sources

  unfoldable pub plan_knowledge_graph_edges : Action Real Taxonomy (ℕ × List (PlannedEdge Real))
  unfolding fetch_node_ids_in_rebuild_order plan_for_nodes ◌>>=◌
  plan_knowledge_graph_edges =
      lift (validate_rebuild_policy platform top_k min_strength)
      >> gets (λ s.
        let node_ids = fetch_node_ids_in_rebuild_order s in
        (length node_ids, plan_for_nodes s node_ids))

  -- The loop of `create_edge_with_adjacency`, which counts.
  unfoldable pub insert_edges : List (PlannedEdge Real) → ℕ → Action Real Taxonomy ℕ
  unfolding create_edge_with_adjacency ◌>>=◌
  insert_edges [] inserted = pure inserted
  insert_edges (edge ∷ edges) inserted =
      create_edge_with_adjacency edge.source_node_id edge.related_node_id edge.strength
      >> insert_edges edges (suc inserted)

  unfoldable pub apply_plan :
      Bool → ℕ × List (PlannedEdge Real) → Action Real Taxonomy EdgeRebuildResult
  unfolding clear_edges_with_adjacency insert_edges ◌>>=◌
  apply_plan false (node_count, planned) = pure (record {
    node_count = node_count;
    planned_edge_count = length planned;
    inserted_edge_count = 0;
    applied = false;
  })
  apply_plan true (node_count, planned) =
      clear_edges_with_adjacency
      >> (insert_edges planned 0 >>= λ inserted. pure (record {
        node_count = node_count;
        planned_edge_count = length planned;
        inserted_edge_count = inserted;
        applied = true;
      }))

  unfoldable pub rebuild_knowledge_graph_edges : Bool → Action Real Taxonomy EdgeRebuildResult
  unfolding plan_knowledge_graph_edges clear_edges_with_adjacency insert_edges ◌>>=◌
  rebuild_knowledge_graph_edges apply = plan_knowledge_graph_edges >>= apply_plan apply

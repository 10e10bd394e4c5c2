-- ===== src/KnowledgeGraph/Retrieval.antt =====
-- The titles connected to the cards found: `get_connected_titles` of
-- modules/knowledge_graph/service.py over `fetch_connected_title_candidates` of repo.py.
pub mod Titles
use hll.Prelude.{
  ℕ, zero, suc, String, Bool, true, false, not, ◌&&◌, ◌||◌, Option, none, some, List, [], ◌∷◌, ◌++◌,
  map, ◌==◌, str_eq, if◌then◌else◌, filter, any, ltb, leb, sort,
}
use hll.SourcePipeline.Model.{get_row}
use hll.KnowledgeGraph.Model.{
  Error, card_version_not_found, no_change, proposal_not_found, invalid_state, permission,
  missing_reason, missing_target, missing_create_text, missing_edit_text, unsupported_type,
  missing_payload, missing_embedding_client, missing_target_node, missing_proposal, equal_endpoints,
  integrity_error, validation_error, top_k_too_small, limit_too_small, client_error, LifecycleState,
  active, archived, ProposalType, create, edit, delete, other, ProposalStatus, pending_review,
  accepted_applied, rejected, withdrawn, is_active, is_pending, is_accepted, Node, Edge,
  SimilarNodeCandidate, PlannedEdge, Adjacency, CardVersion, WorkspaceRole, ProposalPayload,
  no_payload, CardProposal, CardSuggestedEditRecord, Applied, ProposalApplyAudit, Platform, Tables,
  State, Action, commit, rollback, transact, blank, TaxonomyScopeIdentity, TaxonomyPort,
  in_taxonomy,
}
use hll.KnowledgeGraph.Repo.Edges.{is_in}

pub record ConnectedTitleCandidate : Type 0 where
  pub node_id : ℕ
  pub title : String

module _ {Real : Type 0} where
  abbrev pub other_end : ℕ → Edge Real → ℕ
  other_end node_id e = if e.node_a_id == node_id then e.node_b_id else e.node_a_id

  -- The rows of the join: the node of an adjacency row and the neighbour at the edge's other end,
  -- if that is an active node.
  abbrev pub candidate_if_active : ℕ → Option (Node Real) → List (ℕ × ConnectedTitleCandidate)
  candidate_if_active node_id none = []
  candidate_if_active node_id (some n) =
      if is_active n.lifecycle_state
      then (node_id, record { node_id = n.id; title = n.title }) ∷ []
      else []

module _ {Real Taxonomy : Type 0} where
  abbrev pub join_edge :
      State Real Taxonomy → ℕ → Option (Edge Real) → List (ℕ × ConnectedTitleCandidate)
  join_edge s node_id none = []
  join_edge s node_id (some e) =
      candidate_if_active node_id (get_row (λ n. n.id) (other_end node_id e) s.nodes)

  unfoldable pub join_adjacency :
      State Real Taxonomy → List Adjacency → List (ℕ × ConnectedTitleCandidate)
  join_adjacency s [] = []
  join_adjacency s (row ∷ rows) =
      join_edge s row.node_id (get_row (λ e. e.id) row.edge_id s.edges) ++ join_adjacency s rows

module _ (text_le : String → String → Bool) where
  abbrev pub candidate_le : ℕ × ConnectedTitleCandidate → ℕ × ConnectedTitleCandidate → Bool
  candidate_le (a, c) (b, d) =
      ltb a b
      || a == b && (ltb c.node_id d.node_id || c.node_id == d.node_id && text_le c.title d.title)

module _ {Real Taxonomy : Type 0} (text_le : String → String → Bool) where
  unfoldable pub fetch_connected_title_candidates :
      List ℕ → State Real Taxonomy → List ConnectedTitleCandidate
  unfolding join_adjacency sort
  fetch_connected_title_candidates matched s =
      map (λ row. row.1)
        (sort (candidate_le text_le) (
          filter (λ row. is_in matched row.0 && not (is_in matched row.1.node_id))
            (join_adjacency s s.adjacency)))

abbrev pub has_title : List String → String → Bool
has_title titles title = any (λ t. str_eq t title) titles

-- The loop: it ends when `room` titles are found.
unfoldable pub collect_titles :
    ℕ → List ConnectedTitleCandidate → List ℕ → List String → List String
collect_titles zero candidates seen_node_ids seen_titles = []
collect_titles (suc room) [] seen_node_ids seen_titles = []
collect_titles (suc room) (c ∷ candidates) seen_node_ids seen_titles =
    let skipped = collect_titles (suc room) candidates seen_node_ids seen_titles in
    let taken =
      collect_titles room candidates (c.node_id ∷ seen_node_ids) (c.title ∷ seen_titles) in
    if is_in seen_node_ids c.node_id || has_title seen_titles c.title
    then skipped
    else c.title ∷ taken

unfoldable pub get_connected_titles :
    {Real Taxonomy : Type 0}
    → (String → String → Bool)
    → List ℕ
    → List String
    → ℕ
    → State Real Taxonomy
    → List String
unfolding fetch_connected_title_candidates collect_titles
get_connected_titles text_le [] excluded limit s = []
get_connected_titles text_le (id ∷ ids) excluded limit s =
    collect_titles limit (fetch_connected_title_candidates text_le (id ∷ ids) s) [] excluded

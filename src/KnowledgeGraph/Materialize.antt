-- ===== src/KnowledgeGraph/Materialize.antt =====
-- `materialize_card_from_ingestion` of modules/knowledge_graph/service.py: a card with its edges.
pub mod Bounds
use hll.Prelude.{
  ℕ, zero, suc, String, Bool, true, not, ◌&&◌, ◌||◌, Option, none, some, List, [], ◌∷◌, ◌++◌, map,
  ◌==◌, str_eq, if◌then◌else◌, any, leb, sort,
}
use hll.Exec.{pure, gets, ◌>>=◌, ◌>>◌, for_each}
use hll.KnowledgeGraph.Model.{
  SimilarNodeCandidate, Platform, Action, transact, TaxonomyScopeIdentity, TaxonomyPort,
  in_taxonomy,
}
use hll.KnowledgeGraph.Repo.{create_node}
use hll.KnowledgeGraph.Repo.Edges.{
  create_edge_with_adjacency, search_similarity_candidates, search_title_mention_candidates, is_in,
}
use hll.KnowledgeGraph.Proposals.{assign_if_port}

pub record EdgePolicy (Real : Type 0) : Type 0 where
  pub edge_title_mention_top_k : ℕ
  pub edge_semantic_top_k : ℕ
  pub edge_semantic_min_strength : Real
  pub edge_semantic_candidate_limit : ℕ

abbrev pub same_scope : TaxonomyScopeIdentity → TaxonomyScopeIdentity → Bool
same_scope a b = str_eq a.scope_kind b.scope_kind && a.taxonomy_node_id == b.taxonomy_node_id

-- `set(…)`
unfoldable pub distinct_scopes : List TaxonomyScopeIdentity → List TaxonomyScopeIdentity
distinct_scopes [] = []
distinct_scopes (x ∷ xs) =
    let rest = distinct_scopes xs in if any (same_scope x) rest then rest else x ∷ rest

module _ {Real Taxonomy : Type 0} (platform : Platform Real) (text_le : String → String → Bool)
    (taxonomy_port : Option (TaxonomyPort Taxonomy)) (policy : EdgePolicy Real) where
  abbrev pub scope_le : TaxonomyScopeIdentity → TaxonomyScopeIdentity → Bool
  scope_le a b =
      if str_eq a.scope_kind b.scope_kind
      then leb a.taxonomy_node_id b.taxonomy_node_id
      else text_le a.scope_kind b.scope_kind

  unfoldable pub project_edge : ℕ → ℕ → ℕ → TaxonomyPort Taxonomy → Action Real Taxonomy Unit
  unfolding in_taxonomy for_each sort distinct_scopes ◌>>=◌
  project_edge source related edge_id port =
      in_taxonomy (port.list_scope_identities_for_node_ids (source ∷ related ∷ []))
      >>= λ identities.
          for_each (sort scope_le (distinct_scopes (map (λ item. item.1) identities)))
            (λ scope. in_taxonomy (port.add_projected_edge_ids_for_scope scope (edge_id ∷ [])))

  unfoldable pub project_if_port :
      Option (TaxonomyPort Taxonomy) → ℕ → ℕ → ℕ → Action Real Taxonomy Unit
  unfolding project_edge
  project_if_port none source related edge_id = pure tt
  project_if_port (some port) source related edge_id = project_edge source related edge_id port

  unfoldable pub create_edge_with_projection : ℕ → ℕ → Real → Action Real Taxonomy Unit
  unfolding create_edge_with_adjacency project_if_port ◌>>=◌
  create_edge_with_projection source related strength =
      create_edge_with_adjacency source related strength
      >>= project_if_port taxonomy_port source related

  abbrev pub strong_enough : SimilarNodeCandidate Real → Bool
  strong_enough c = not (platform.lt c.similarity policy.edge_semantic_min_strength)

  -- A loop over candidates: it skips the selected and the refused, and ends when `room` edges are
  -- made. The result is the list of selected nodes.
  unfoldable pub connect :
      ℕ
      → (SimilarNodeCandidate Real → Bool)
      → ℕ
      → List (SimilarNodeCandidate Real)
      → List ℕ
      → Action Real Taxonomy (List ℕ)
  unfolding create_edge_with_projection ◌>>=◌
  connect node_id eligible zero candidates selected = pure selected
  connect node_id eligible (suc room) [] selected = pure selected
  connect node_id eligible (suc room) (c ∷ candidates) selected =
      let skipped : Action Real Taxonomy (List ℕ) =
        connect node_id eligible (suc room) candidates selected in
      let made : Action Real Taxonomy (List ℕ) =
        connect node_id eligible room candidates (selected ++ c.node_id ∷ []) in
      if is_in selected c.node_id || not (eligible c)
      then skipped
      else create_edge_with_projection node_id c.node_id c.similarity >> made

  unfoldable pub connect_mentioned : ℕ → String → List Real → Action Real Taxonomy (List ℕ)
  unfolding search_title_mention_candidates connect ◌>>=◌
  connect_mentioned node_id content embedding =
      gets (
        search_title_mention_candidates platform content embedding (node_id ∷ [])
          policy.edge_title_mention_top_k)
      >>= λ candidates. connect node_id (λ _. true) policy.edge_title_mention_top_k candidates []

  unfoldable pub connect_similar : ℕ → List Real → List ℕ → Action Real Taxonomy (List ℕ)
  unfolding search_similarity_candidates connect ◌>>=◌
  connect_similar node_id embedding selected =
      gets (
        search_similarity_candidates platform embedding (node_id ∷ selected)
          policy.edge_semantic_candidate_limit)
      >>= λ candidates. connect node_id strong_enough policy.edge_semantic_top_k candidates selected

  unfoldable pub materialize_card_from_ingestion :
      String → String → List Real → Action Real Taxonomy ℕ
  unfolding transact create_node connect_mentioned connect_similar ◌>>=◌
  materialize_card_from_ingestion title content embedding = transact (
      create_node title content embedding >>= λ node_id.
      assign_if_port taxonomy_port node_id
      >> (connect_mentioned node_id content embedding >>= λ selected.
          (connect_similar node_id embedding selected >> pure node_id)))

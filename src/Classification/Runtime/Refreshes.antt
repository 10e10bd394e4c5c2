-- ===== src/Classification/Runtime/Refreshes.antt =====
-- What a refresh makes of the projection of a scope.
use hll.Prelude.{
  ℕ, ◌≡◌, refl, ap, ◌∙◌, Bool, false, not, ◌&&◌, List, [], ◌∷◌, arith, ◌==◌, leb, any, any-filter,
  any-map, any-sort, filter,
}
use hll.Exec.{Result, ok, ◌>>=◌}
use hll.KnowledgeGraph.Model.{TaxonomyScopeIdentity}
use hll.Classification.Model.{
  Error, NodeTaxonomyAssignment, TaxonomyScopeProjectionEdge, Services, State, same_scope,
}
use hll.Classification.Taxonomy.{
  sorted_set, list_assigned_node_ids_for_scope, fetch_adjacent_edge_ids_for_node_ids,
  clear_projected_edge_ids_for_scope, add_projected_edge_ids_for_scope,
}
use hll.Classification.Taxonomy.Projection.{
  projected, holds, holds-sorted_set, projected-add_projected_edges, projected-cleared,
  others-add_projected_edges, others-cleared,
}
use hll.Classification.Runtime.{refresh_scope_projection}

-- A card of the scope has the edge.
abbrev pub in_scope : TaxonomyScopeIdentity → State → ℕ → Bool
in_scope scope s node_id =
    any
      (λ (a : NodeTaxonomyAssignment).
        a.taxonomy_node_id == scope.taxonomy_node_id && a.node_id == node_id)
      s.assignments

abbrev pub touches_scope : TaxonomyScopeIdentity → State → ℕ → Bool
touches_scope scope s edge_id =
    any (λ (a : ℕ × ℕ). in_scope scope s a.0 && a.1 == edge_id) s.adjacency

any-same :
    {A : Type 0} (p q : A → Bool) → ((x : A) → p x ≡ q x) → (xs : List A) → any p xs ≡ any q xs
any-same p q h [] = refl
any-same p q h (x ∷ xs) = rw (h x, any-same p q h xs) refl

module _ (scope : TaxonomyScopeIdentity) (s : State) where
  holds-assigned :
      (id : ℕ) → holds id (list_assigned_node_ids_for_scope scope s) ≡ in_scope scope s id
  unfolding list_assigned_node_ids_for_scope
  holds-assigned id =
      any-sort leb (λ k. k == id) _
      ∙ (any-map (λ k. k == id) (λ (a : NodeTaxonomyAssignment). a.node_id) _
          ∙ any-filter (λ (a : NodeTaxonomyAssignment). a.node_id == id)
              (λ a. a.taxonomy_node_id == scope.taxonomy_node_id) s.assignments)

  holds-fetched :
      (id : ℕ)
      → holds id (fetch_adjacent_edge_ids_for_node_ids (list_assigned_node_ids_for_scope scope s) s)
        ≡ touches_scope scope s id
  unfolding fetch_adjacent_edge_ids_for_node_ids
  holds-fetched id =
      let nodes = list_assigned_node_ids_for_scope scope s in
      holds-sorted_set id _
      ∙ (any-map (λ k. k == id) (λ (a : ℕ × ℕ). a.1) _
          ∙ (any-filter (λ (a : ℕ × ℕ). a.1 == id) (λ a. any (λ k. k == a.0) nodes) s.adjacency
              ∙ any-same _ _ (λ (a : ℕ × ℕ). ap (λ b. b && a.1 == id) (holds-assigned a.0))
                  s.adjacency))

-- After a refresh, the projection of the scope holds the edges of its cards and no other, and those of
-- other scopes hold what they held.
pub record Refreshed (scope : TaxonomyScopeIdentity) (s : State) (r : Result Error Unit × State)
    : Type 0 where
  pub returned : r.0 ≡ ok tt
  pub edges : (id : ℕ) → projected scope id r.1.projection_edges ≡ touches_scope scope s id
  pub others :
      (other : TaxonomyScopeIdentity)
      → same_scope scope other ≡ false
      → (id : ℕ) → projected other id r.1.projection_edges ≡ projected other id s.projection_edges

-- A refresh of a scope returns. Its projection then holds an edge exactly when a card of the scope has
-- the edge, and the projections of the other scopes hold what they held.
pub refresh_scope_projection-Refreshed :
    (svc : Services) (now : ℕ) (scope : TaxonomyScopeIdentity) (s : State)
    → Refreshed scope s (refresh_scope_projection svc now scope s)
unfolding refresh_scope_projection clear_projected_edge_ids_for_scope
    add_projected_edge_ids_for_scope ◌>>=◌
refresh_scope_projection-Refreshed svc now scope s =
    let fetched =
      fetch_adjacent_edge_ids_for_node_ids (list_assigned_node_ids_for_scope scope s) s in
    let kept =
      filter (λ (e : TaxonomyScopeProjectionEdge). not (same_scope e.scope scope))
        s.projection_edges in
    record {
      returned = refl;
      edges = λ id.
          projected-add_projected_edges scope id (sorted_set fetched) kept
          ∙ rw
              (
                holds-sorted_set id fetched,
                holds-fetched scope s id,
                projected-cleared scope id s.projection_edges,
              )
              (ground arith);
      others = λ other apart id.
          others-add_projected_edges scope other apart id (sorted_set fetched) kept
          ∙ others-cleared scope other apart id s.projection_edges;
    }

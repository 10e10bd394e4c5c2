-- ===== src/KnowledgeGraph/Repo/Edges.antt =====
-- The edges of modules/knowledge_graph/repo.py: candidates by similarity, and edge writes.
use hll.Prelude.{
  ℕ, suc, ◌+◌, String, Bool, not, ◌&&◌, ◌||◌, Option, none, some, List, [], ◌∷◌, ◌++◌, map, ◌==◌,
  if◌then◌else◌, filter, any, ltb, leb, sort, take,
}
use hll.Exec.{Result, ok, err, pure, lift, modify, ◌>>=◌, ◌>>◌}
use hll.SourcePipeline.Model.{get_row}
use hll.KnowledgeGraph.Model.{
  Error, equal_endpoints, integrity_error, Node, Edge, SimilarNodeCandidate, PlannedEdge, Adjacency,
  Platform, State, Action,
}

unfoldable pub canonical_edge_pair : ℕ → ℕ → Result Error (ℕ × ℕ)
canonical_edge_pair a b =
    if a == b then err equal_endpoints else (if ltb a b then ok (a, b) else ok (b, a))

module _ {Real : Type 0} (platform : Platform Real) where
  open platform use {lt, add, div, neg, real_zero, real_one, real_two, neg_inner_product}

  -- `max(0.0, min(1.0, (dot_product + 1.0) / 2.0))`
  abbrev pub dot_product_to_similarity : Real → Real
  dot_product_to_similarity d =
      let half = div (add d real_one) real_two in
      let capped = (if lt half real_one then half else real_one) in
      if lt real_zero capped then capped else real_zero

  abbrev pub nearer : List Real → Node Real → Node Real → Bool
  nearer query a b =
      let da = neg_inner_product a.embedding query in
      let db = neg_inner_product b.embedding query in lt da db || not (lt db da) && leb a.id b.id

  -- `order_by(neg_inner_product.asc(), Node.id.asc())`
  unfoldable pub candidates_by_similarity :
      List Real → List (Node Real) → List (SimilarNodeCandidate Real)
  unfolding sort
  candidates_by_similarity query nodes =
      map
        (λ n. record {
          node_id = n.id;
          similarity = dot_product_to_similarity (neg (neg_inner_product n.embedding query));
        })
        (sort (nearer query) nodes)

abbrev pub is_in : List ℕ → ℕ → Bool
is_in ids id = any (λ other_id. other_id == id) ids

unfoldable pub historical_of :
    {Real : Type 0}
    → Platform Real
    → ℕ
    → Option (Node Real)
    → List (Node Real)
    → List (SimilarNodeCandidate Real)
unfolding sort
historical_of platform id none nodes = []
historical_of platform id (some n) nodes =
    candidates_by_similarity platform n.embedding (filter (λ m. ltb m.id id) nodes)

abbrev pub joins : {Real : Type 0} → ℕ → ℕ → Edge Real → Bool
joins a b e = e.node_a_id == a && e.node_b_id == b

module _ {Real Taxonomy : Type 0} (platform : Platform Real) where
  -- `limit <= 0` gives no candidates, as `take 0` does.
  unfoldable pub search_similarity_candidates :
      List Real → List ℕ → ℕ → State Real Taxonomy → List (SimilarNodeCandidate Real)
  unfolding sort
  search_similarity_candidates query excluded limit s =
      take limit
        (candidates_by_similarity platform query (filter (λ n. not (is_in excluded n.id)) s.nodes))

  unfoldable pub search_title_mention_candidates :
      String → List Real → List ℕ → ℕ → State Real Taxonomy → List (SimilarNodeCandidate Real)
  unfolding sort
  search_title_mention_candidates content query excluded limit s = take limit (
      candidates_by_similarity platform query
        (filter (λ n. platform.mentions content n.title && not (is_in excluded n.id)) s.nodes))

  unfoldable pub search_historical_similarity_candidates :
      ℕ → State Real Taxonomy → List (SimilarNodeCandidate Real)
  unfolding sort
  search_historical_similarity_candidates id s =
      historical_of platform id (get_row (λ n. n.id) id s.nodes) s.nodes

module _ {Real Taxonomy : Type 0} where
  unfoldable pub add_edge : ℕ × ℕ → Real → Action Real Taxonomy ℕ
  add_edge pair strength s =
      if any (joins pair.0 pair.1) s.edges || not (ltb pair.0 pair.1)
      then (err integrity_error, s)
      else (
        ok s.next_edge_id,
        record s {
          tables = record s.tables {
            edges =
                s.edges
                ++ record {
                  id = s.next_edge_id;
                  node_a_id = pair.0;
                  node_b_id = pair.1;
                  strength = strength;
                }
                  ∷ [];
            next_edge_id = s.next_edge_id + 1;
          };
        },
      )

  unfoldable pub add_adjacency : List Adjacency → Action Real Taxonomy Unit
  add_adjacency rows =
      modify (λ s. record s { tables = record s.tables { adjacency = s.adjacency ++ rows } })

  unfoldable pub create_edge_with_adjacency : ℕ → ℕ → Real → Action Real Taxonomy ℕ
  unfolding canonical_edge_pair add_edge add_adjacency ◌>>=◌
  create_edge_with_adjacency source_node_id related_node_id strength =
      lift (canonical_edge_pair source_node_id related_node_id) >>= λ pair.
      add_edge pair strength >>= λ edge_id.
      (add_adjacency (
          record { node_id = source_node_id; edge_id = edge_id }
          ∷ record { node_id = related_node_id; edge_id = edge_id }
          ∷ [])
        >> pure edge_id)

  unfoldable pub clear_edges_with_adjacency : Action Real Taxonomy Unit
  clear_edges_with_adjacency =
      modify (λ s. record s { tables = record s.tables { adjacency = []; edges = [] } })

  -- `insert(Edge).returning(…)`: the rows in the order of the plan, with their adjacency rows.
  unfoldable pub insert_planned : List (PlannedEdge Real) → Action Real Taxonomy ℕ
  unfolding add_edge add_adjacency ◌>>=◌
  insert_planned [] = pure 0
  insert_planned (edge ∷ edges) =
      add_edge (edge.related_node_id, edge.source_node_id) edge.strength >>= λ edge_id.
      (add_adjacency (
          record { node_id = edge.related_node_id; edge_id = edge_id }
          ∷ record { node_id = edge.source_node_id; edge_id = edge_id }
          ∷ [])
        >> (insert_planned edges >>= λ n. pure (suc n)))

  unfoldable pub replace_edges_with_adjacency : List (PlannedEdge Real) → Action Real Taxonomy ℕ
  unfolding clear_edges_with_adjacency insert_planned ◌>>=◌
  replace_edges_with_adjacency planned_edges =
      clear_edges_with_adjacency >> insert_planned planned_edges

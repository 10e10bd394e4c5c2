-- ===== src/Layout/Build.antt =====
-- build_card_scope_layout and slice_card_scope_layout of modules/taxonomy/layout.py, with the canonical edges.
use hll.Prelude.{
  ℕ, min, max, Bool, not, ◌&&◌, ◌||◌, List, [], ◌∷◌, map, if◌then◌else◌, filter, any, ltb, leb,
  ◌==◌, sort, enumerate,
}
use hll.Layout.Model.{
  Floats, TaxonomyCardScopeLayoutParams, SimulationNode, LayoutNode, LayoutEdge, WorldBounds,
  CardScopeLayout, LayoutSlice, taxonomy_card_scope_layout_version, zero_float,
}
use hll.Layout.Forces.{build_simulation_node, run_force_simulation}

module _ {Float : Type 0} where
  -- `_canonical_edges`: the first edge of a pair stays.
  abbrev pub ordered_edge : LayoutEdge Float → LayoutEdge Float
  ordered_edge e = record e {
    source_node_id = min e.source_node_id e.target_node_id;
    target_node_id = max e.source_node_id e.target_node_id;
  }

  abbrev pub same_pair : LayoutEdge Float → LayoutEdge Float → Bool
  same_pair a b = a.source_node_id == b.source_node_id && a.target_node_id == b.target_node_id

  abbrev pub within_ids : List ℕ → LayoutEdge Float → Bool
  within_ids ids e =
      any (λ id. id == e.source_node_id) ids && any (λ id. id == e.target_node_id) ids

  unfoldable pub first_of_pairs :
      List ℕ → List (LayoutEdge Float) → List (LayoutEdge Float) → List (LayoutEdge Float)
  first_of_pairs ids seen [] = []
  first_of_pairs ids seen (e ∷ edges) =
      let skipped = first_of_pairs ids seen edges in
      let kept = ordered_edge e ∷ first_of_pairs ids (ordered_edge e ∷ seen) edges in
      if not (within_ids ids e) || any (same_pair (ordered_edge e)) seen then skipped else kept

  abbrev pub pair_le : LayoutEdge Float → LayoutEdge Float → Bool
  pair_le a b =
      ltb a.source_node_id b.source_node_id
      || a.source_node_id == b.source_node_id && leb a.target_node_id b.target_node_id

  unfoldable pub canonical_edges : List (LayoutEdge Float) → List ℕ → List (LayoutEdge Float)
  unfolding first_of_pairs sort
  canonical_edges edges ids = sort pair_le (first_of_pairs ids [] edges)

module _ (fs : Floats) where
  open fs use {Float, lt, le, round6}

  -- `min(…)` and `max(…)` of a list that is not empty
  abbrev pub least : Float → List Float → Float
  least best [] = best
  least best (v ∷ vs) = least (if lt v best then v else best) vs

  abbrev pub greatest : Float → List Float → Float
  greatest best [] = best
  greatest best (v ∷ vs) = greatest (if lt best v then v else best) vs

  unfoldable pub world_bounds_of : List (LayoutNode Float) → WorldBounds Float
  world_bounds_of [] = record {
    min_x = (zero_float fs);
    min_y = (zero_float fs);
    max_x = (zero_float fs);
    max_y = (zero_float fs);
  }
  world_bounds_of (n ∷ nodes) = record {
    min_x = least n.x (map (λ m. m.x) nodes);
    min_y = least n.y (map (λ m. m.y) nodes);
    max_x = greatest n.x (map (λ m. m.x) nodes);
    max_y = greatest n.y (map (λ m. m.y) nodes);
  }

  abbrev pub positioned : SimulationNode Float → LayoutNode Float
  positioned n = record { id = n.id; scope = n.scope; x = round6 n.x; y = round6 n.y }

  abbrev pub node_id_le : LayoutNode Float → LayoutNode Float → Bool
  node_id_le a b = leb a.id b.id

  abbrev pub start_nodes :
      TaxonomyCardScopeLayoutParams Float → List (LayoutNode Float) → List (SimulationNode Float)
  start_nodes p sorted_nodes = map (build_simulation_node fs p) (enumerate sorted_nodes)

  unfoldable pub build_card_scope_layout :
      List (LayoutNode Float)
      → List (LayoutEdge Float)
      → ℕ
      → TaxonomyCardScopeLayoutParams Float
      → CardScopeLayout Float
  unfolding sort canonical_edges run_force_simulation world_bounds_of
  build_card_scope_layout nodes edges generated_at p =
      let start = start_nodes p (sort node_id_le nodes) in
      let canonical = canonical_edges edges (map (λ n. n.id) start) in
      let placed = map positioned (run_force_simulation fs p canonical start) in
      record {
        layout_version = taxonomy_card_scope_layout_version;
        generated_at = generated_at;
        world_bounds = world_bounds_of placed;
        nodes = placed;
        edges = canonical;
      }

  abbrev pub in_bounds : WorldBounds Float → LayoutNode Float → Bool
  in_bounds b n = le b.min_x n.x && le n.x b.max_x && (le b.min_y n.y && le n.y b.max_y)

  unfoldable pub slice_card_scope_layout :
      CardScopeLayout Float → WorldBounds Float → LayoutSlice Float
  slice_card_scope_layout layout bounds =
      let nodes = filter (in_bounds bounds) layout.nodes in
      record {
        layout_version = layout.layout_version;
        requested_bounds = bounds;
        nodes = nodes;
        edges = filter (within_ids (map (λ n. n.id) nodes)) layout.edges;
      }

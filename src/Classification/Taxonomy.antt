-- ===== src/Classification/Taxonomy.antt =====
-- modules/taxonomy/repo.py, the methods on assignments and projections, and the edges of the nodes of
-- a scope (modules/knowledge_graph/repo.py).
pub mod Projection
use hll.Prelude.{
  ℕ, ◌+◌, String, Bool, true, false, not, ◌&&◌, ◌||◌, Option, none, some, List, [], ◌∷◌, ◌++◌, map,
  str_eq, ltb, leb, ◌==◌, if◌then◌else◌, is_none, is_some, find, filter, any, take, sort, length,
}
use hll.Exec.{Result, ok, err, pure, raise, gets, modify, ◌>>=◌, ◌>>◌}
use hll.SourcePipeline.Model.{get_row, update_row}
use hll.KnowledgeGraph.Model.{TaxonomyScopeIdentity}
use hll.Classification.Model.{
  Error, runtime_error, TaxonomyNode, Card, NodeTaxonomyAssignment, TaxonomyScopeProjectionEdge,
  State, Action, same_scope,
}

abbrev pub unclassified_node_name : String
unclassified_node_name = "Unclassified"

abbrev pub taxonomy_node_scope_kind : String
taxonomy_node_scope_kind = "taxonomy_node"

abbrev pub count_taxonomy_assignments : State → ℕ
count_taxonomy_assignments s = length s.assignments

abbrev pub is_assigned : List NodeTaxonomyAssignment → Card → Bool
is_assigned rows c = any (λ (a : NodeTaxonomyAssignment). a.node_id == c.id) rows

abbrev pub count_nodes_missing_taxonomy_assignment : State → ℕ
count_nodes_missing_taxonomy_assignment s =
    length (filter (λ c. not (is_assigned s.assignments c)) s.cards)

-- Each card without an assignment gets one.
unfoldable pub assign_unassigned_nodes_to_taxonomy_node : ℕ → ℕ → Action Unit
assign_unassigned_nodes_to_taxonomy_node taxonomy_node_id now = modify (λ s. record s {
  tables = record s.tables {
    assignments =
        s.assignments
        ++ map
            (λ c. record { node_id = c.id; taxonomy_node_id = taxonomy_node_id; assigned_at = now })
            (filter (λ c. not (is_assigned s.assignments c)) s.cards);
  };
})

abbrev pub node_at : ℕ → List TaxonomyNode → Option TaxonomyNode
node_at id nodes = get_row (λ n. n.id) id nodes

-- The assignment of a card.
abbrev pub assignment_row : ℕ → State → Option NodeTaxonomyAssignment
assignment_row node_id s = get_row (λ a. a.node_id) node_id s.assignments

-- `get_assignment_for_node`: the join with the taxonomy node
abbrev pub get_assignment_for_node : ℕ → State → Option NodeTaxonomyAssignment
get_assignment_for_node node_id s = elim (assignment_row node_id s) [
  | none ↦ none
  | some a ↦ elim (node_at a.taxonomy_node_id s.taxonomy_nodes) [ none ↦ none | some n ↦ some a ]
]

-- `order_by(….asc())` of numbers, and with `distinct` or `set`
abbrev pub insert_distinct : ℕ → List ℕ → List ℕ
insert_distinct x [] = x ∷ []
insert_distinct x (y ∷ ys) =
    let rest = insert_distinct x ys in
    if x == y then y ∷ ys else (if ltb x y then x ∷ y ∷ ys else y ∷ rest)

unfoldable pub sorted_set : List ℕ → List ℕ
sorted_set [] = []
sorted_set (x ∷ xs) = insert_distinct x (sorted_set xs)

unfoldable pub list_assigned_node_ids_for_scope : TaxonomyScopeIdentity → State → List ℕ
unfolding sort
list_assigned_node_ids_for_scope scope s = sort leb (
    map (λ a. a.node_id)
      (filter (λ (a : NodeTaxonomyAssignment). a.taxonomy_node_id == scope.taxonomy_node_id)
        s.assignments))

unfoldable pub list_projected_edge_ids_for_scope : TaxonomyScopeIdentity → State → List ℕ
unfolding sort
list_projected_edge_ids_for_scope scope s = sort leb (
    map (λ e. e.edge_id)
      (filter (λ (e : TaxonomyScopeProjectionEdge). same_scope e.scope scope) s.projection_edges))

-- `insert … on_conflict_do_nothing`, an edge at a time; the batches only split the statement.
abbrev pub add_projected_edge :
    TaxonomyScopeIdentity → ℕ → List TaxonomyScopeProjectionEdge → List TaxonomyScopeProjectionEdge
add_projected_edge scope edge_id rows =
    if any (λ (e : TaxonomyScopeProjectionEdge). same_scope e.scope scope && e.edge_id == edge_id)
      rows
    then rows
    else rows ++ record { scope = scope; edge_id = edge_id } ∷ []

unfoldable pub add_projected_edges :
    TaxonomyScopeIdentity
    → List ℕ
    → List TaxonomyScopeProjectionEdge
    → List TaxonomyScopeProjectionEdge
add_projected_edges scope [] rows = rows
add_projected_edges scope (id ∷ ids) rows =
    add_projected_edges scope ids (add_projected_edge scope id rows)

unfoldable pub add_projected_edge_ids_for_scope : TaxonomyScopeIdentity → List ℕ → Action Unit
unfolding add_projected_edges sorted_set
add_projected_edge_ids_for_scope scope edge_ids = modify (λ s. record s {
  tables = record s.tables {
    projection_edges = add_projected_edges scope (sorted_set edge_ids) s.projection_edges;
  };
})

unfoldable pub clear_projected_edge_ids_for_scope : TaxonomyScopeIdentity → Action Unit
clear_projected_edge_ids_for_scope scope = modify (λ s. record s {
  tables = record s.tables {
    projection_edges =
        filter (λ (e : TaxonomyScopeProjectionEdge). not (same_scope e.scope scope))
          s.projection_edges;
  };
})

unfoldable pub fetch_adjacent_edge_ids_for_node_ids : List ℕ → State → List ℕ
unfolding sorted_set
fetch_adjacent_edge_ids_for_node_ids node_ids s =
    sorted_set (
      map (λ (a : ℕ × ℕ). a.1) (filter (λ (a : ℕ × ℕ). any (λ id. id == a.0) node_ids) s.adjacency))

-- A node of the tree that is neither the root nor has children.
abbrev pub has_children : ℕ → List TaxonomyNode → Bool
has_children id nodes =
    any (λ (n : TaxonomyNode). elim n.parent_id [ none ↦ false | some p ↦ p == id ]) nodes

abbrev pub is_leaf_scope : ℕ → List TaxonomyNode → Bool
is_leaf_scope id nodes = elim (node_at id nodes) [
  | none ↦ false
  | some n ↦ is_some n.parent_id && not (has_children id nodes)
]

abbrev pub leaf_scope : ℕ → TaxonomyScopeIdentity
leaf_scope id = record { scope_kind = taxonomy_node_scope_kind; taxonomy_node_id = id }

-- The values of `list_scope_identities_for_node_ids(node_ids=[node_id])`
unfoldable pub scope_identities_of : ℕ → State → List TaxonomyScopeIdentity
scope_identities_of node_id s = elim (assignment_row node_id s) [
  | none ↦ []
  | some a ↦
      (if is_leaf_scope a.taxonomy_node_id s.taxonomy_nodes
        then leaf_scope a.taxonomy_node_id ∷ []
        else [])
]

unfoldable pub assign : ℕ → ℕ → ℕ → State → State
unfolding update_row
assign node_id taxonomy_node_id now s = elim (assignment_row node_id s) [
  | none ↦ record s {
    tables = record s.tables {
      assignments =
          s.assignments
          ++ record { node_id = node_id; taxonomy_node_id = taxonomy_node_id; assigned_at = now }
            ∷ [];
    };
  }
  | some a ↦ record s {
    tables = record s.tables {
      assignments =
          update_row (λ r. r.node_id) node_id
            (λ r. record r { taxonomy_node_id = taxonomy_node_id; assigned_at = now })
            s.assignments;
    };
  }
]

-- `now` is the time of the call.
unfoldable pub set_current_assignment : ℕ → ℕ → ℕ → Action NodeTaxonomyAssignment
unfolding assign
set_current_assignment node_id taxonomy_node_id now s =
    let t = assign node_id taxonomy_node_id now s in
    elim (get_assignment_for_node node_id t) [
      | none ↦ (err (runtime_error "assignment not readable"), t)
      | some a ↦ (ok a, t)
    ]

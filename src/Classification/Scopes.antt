-- ===== src/Classification/Scopes.antt =====
-- modules/taxonomy_classification/scope_resolution.py: scopes by name, by path, and by node.
-- The breadcrumb's `while` is recursion on fuel, of which there is one for each node.
pub mod Breadcrumb
use hll.Prelude.{
  ℕ, zero, suc, String, Bool, true, false, not, ◌&&◌, ◌||◌, Option, none, some, List, [], ◌∷◌, ◌++◌,
  map, if◌then◌else◌, filter, find, ltb, leb, ◌==◌, str_eq, sort, length, ◌≡◌,
}
use hll.Exec.{Result, ok, err}
use hll.SourcePipeline.Model.{get_row}
use hll.Classification.Model.{Error, value_error, key_error, endless, TaxonomyNode, Services}

pub record ResolvedScope : Type 0 where
  pub scope_node : TaxonomyNode
  pub regular_children : List TaxonomyNode
  pub breadcrumb : List String

-- SubmissionSelection, after its validation; a path is not empty.
pub data Selection : Type 0 where
  scope_name : String → Selection
  scope_path : String → List String → Selection
  all_direct_assignments : Selection

abbrev pub node_by_id : ℕ → List TaxonomyNode → Option TaxonomyNode
node_by_id id nodes = get_row (λ n. n.id) id nodes

-- The loop of `_breadcrumb` from a parent, with the names found so far.
unfoldable pub climb : ℕ → List TaxonomyNode → Option ℕ → List String → Result Error (List String)
climb fuel nodes none names = ok names
climb zero nodes (some parent_id) names = err endless
climb (suc fuel) nodes (some parent_id) names = elim (node_by_id parent_id nodes) [
  | none ↦ err key_error
  | some parent ↦ climb fuel nodes parent.parent_id (parent.name ∷ names)
]

unfoldable pub breadcrumb : List TaxonomyNode → TaxonomyNode → Result Error (List String)
unfolding climb
breadcrumb nodes node = climb (length nodes) nodes node.parent_id (node.name ∷ [])

abbrev pub is_child_of : Option ℕ → TaxonomyNode → Bool
is_child_of none n = elim n.parent_id [ none ↦ true | some p ↦ false ]
is_child_of (some id) n = elim n.parent_id [ none ↦ false | some p ↦ p == id ]

module _ (svc : Services) where
  -- `order_by(depth, name, id)`
  abbrev pub node_le : TaxonomyNode → TaxonomyNode → Bool
  node_le a b =
      ltb a.depth b.depth
      || a.depth == b.depth
        && (not (svc.name_le b.name a.name) || svc.name_le a.name b.name && leb a.id b.id)

  unfoldable pub ordered_nodes : List TaxonomyNode → List TaxonomyNode
  unfolding sort
  ordered_nodes nodes = sort node_le nodes

  -- `names < names` or equal, as Python compares tuples of texts
  abbrev pub names_lt : List String → List String → Bool
  names_lt [] [] = false
  names_lt [] (b ∷ bs) = true
  names_lt (a ∷ more) [] = false
  names_lt (a ∷ more) (b ∷ bs) =
      let rest = names_lt more bs in if str_eq a b then rest else svc.text_le a b

  abbrev pub scope_le : ResolvedScope → ResolvedScope → Bool
  scope_le a b =
      names_lt a.breadcrumb b.breadcrumb
      || not (names_lt b.breadcrumb a.breadcrumb) && leb a.scope_node.id b.scope_node.id

  module _ (nodes : List TaxonomyNode) where
    abbrev pub children_of : Option ℕ → List TaxonomyNode
    children_of parent_id = filter (is_child_of parent_id) nodes

    abbrev pub children_by_name : Option ℕ → String → List TaxonomyNode
    children_by_name parent_id name =
        filter (λ n. str_eq (svc.casefold n.name) (svc.casefold name)) (children_of parent_id)

    unfoldable pub build_resolved_scope : TaxonomyNode → Result Error ResolvedScope
    unfolding breadcrumb
    build_resolved_scope node = elim (breadcrumb nodes node) [
      | err e ↦ err e
      | ok names ↦ ok (record {
        scope_node = node;
        regular_children =
            filter (λ n. not (str_eq n.name "Unclassified")) (children_of (some node.id));
        breadcrumb = names;
      })
    ]

    -- The only candidate.
    abbrev pub only_one : List TaxonomyNode → Result Error TaxonomyNode
    only_one [] = err (value_error "missing")
    only_one (n ∷ []) = ok n
    only_one (n ∷ m ∷ more) = err (value_error "ambiguous")

    abbrev pub build_if : Result Error TaxonomyNode → Result Error ResolvedScope
    build_if (err e) = err e
    build_if (ok node) = build_resolved_scope node

    unfoldable pub resolve_scope_name : String → Result Error ResolvedScope
    unfolding build_resolved_scope
    resolve_scope_name name =
        build_if (only_one (filter (λ n. str_eq (svc.casefold n.name) (svc.casefold name)) nodes))

    unfoldable pub descend : Result Error TaxonomyNode → List String → Result Error TaxonomyNode
    descend (err e) segments = err e
    descend (ok current) [] = ok current
    descend (ok current) (segment ∷ segments) =
        descend (only_one (children_by_name (some current.id) segment)) segments

    unfoldable pub resolve_scope_path : String → List String → Result Error ResolvedScope
    unfolding descend build_resolved_scope
    resolve_scope_path first segments =
        build_if (descend (only_one (children_by_name none first)) segments)

    unfoldable pub build_scopes : List TaxonomyNode → Result Error (List ResolvedScope)
    unfolding build_resolved_scope
    build_scopes [] = ok []
    build_scopes (n ∷ ns) =
        let rest = build_scopes ns in
        elim (build_resolved_scope n) [
          | err e ↦ err e
          | ok scope ↦ elim rest [ err e ↦ err e | ok scopes ↦ ok (scope ∷ scopes) ]
        ]

    abbrev pub sorted_scopes : Result Error (List ResolvedScope) → Result Error (List ResolvedScope)
    sorted_scopes (err e) = err e
    sorted_scopes (ok scopes) = ok (sort scope_le scopes)

    unfoldable pub resolve_all_direct_assignments : Result Error (List ResolvedScope)
    unfolding build_scopes sort
    resolve_all_direct_assignments = sorted_scopes (build_scopes nodes)

    unfoldable pub resolve_scope_node_id : ℕ → Result Error ResolvedScope
    unfolding build_resolved_scope
    resolve_scope_node_id id = elim (node_by_id id nodes) [
      | none ↦ err (value_error "no node with this id")
      | some node ↦ build_resolved_scope node
    ]

  abbrev pub alone : Result Error ResolvedScope → Result Error (List ResolvedScope)
  alone (err e) = err e
  alone (ok scope) = ok (scope ∷ [])

  unfoldable pub resolve_scopes : List TaxonomyNode → Selection → Result Error (List ResolvedScope)
  unfolding ordered_nodes resolve_scope_name resolve_scope_path resolve_all_direct_assignments
  resolve_scopes rows (scope_name name) = alone (resolve_scope_name (ordered_nodes rows) name)
  resolve_scopes rows (scope_path first segments) =
      alone (resolve_scope_path (ordered_nodes rows) first segments)
  resolve_scopes rows all_direct_assignments = resolve_all_direct_assignments (ordered_nodes rows)

  unfoldable pub resolve_scope_by_node_id : List TaxonomyNode → ℕ → Result Error ResolvedScope
  unfolding ordered_nodes resolve_scope_node_id
  resolve_scope_by_node_id rows id = resolve_scope_node_id (ordered_nodes rows) id

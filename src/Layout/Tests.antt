-- ===== src/Layout/Tests.antt =====
-- Layouts with natural numbers for floats.
use hll.Prelude.{ℕ, ◌+◌, ◌-◌, ◌*◌, true, List, [], ◌∷◌, ltb, leb, ◌==◌}
use hll.Layout.Model.{
  Floats, inner, outer, TaxonomyCardScopeLayoutParams, LayoutNode, LayoutEdge, WorldBounds,
}
use hll.Layout.Build.{build_card_scope_layout, slice_card_scope_layout}
use hll.KnowledgeGraph.Model.{TaxonomyScopeIdentity}
use hll.Layout.Requests.Lawful.{
  IsQueue, Operation, request, claim, complete, fail, operate_all, operate_all-IsQueue,
}
use hll.Layout.Slices.{
  IsLayout, IsSlice, build_card_scope_layout-IsLayout, slice_card_scope_layout-IsSlice,
}

-- Sines and cosines are an angle, and each literal is 1.
abbrev naturals : Floats
naturals = record {
  Float = ℕ;
  add = λ a b. a + b;
  sub = λ a b. a - b;
  mul = λ a b. a * b;
  div = λ a _. a;
  lt = ltb;
  le = leb;
  eq = λ a b. a == b;
  sqrt = λ a. a;
  cos = λ a. a;
  sin = λ a. a;
  round6 = λ a. a;
  root300 = λ a. a;
  is_finite = λ _. true;
  of_nat = λ n. n;
  literal = λ _. 1;
}

abbrev params : TaxonomyCardScopeLayoutParams ℕ
params = record {
  seed_base_radius = 1;
  seed_radius_step = 1;
  simulation_ticks = 2;
  alpha_min = 0;
  velocity_retention = 1;
  link_base_distance = 1;
  link_distance_strength_factor = 1;
  link_base_strength = 1;
  link_strength_factor = 1;
  charge_strength = 1;
  collision_radius = 1;
  collision_strength = 1;
  center_gravity_strength = 1;
  radial_boundary_radius = 1;
  radial_boundary_strength = 1;
}

abbrev three_nodes : List (LayoutNode ℕ)
three_nodes =
    (record { id = 7; scope = outer; x = 0; y = 0 })
    ∷ (record { id = 2; scope = inner; x = 0; y = 0 })
    ∷ (record { id = 5; scope = inner; x = 0; y = 0 })
    ∷ []

-- Two of one pair, and one to a node that is not there
abbrev some_edges : List (LayoutEdge ℕ)
some_edges =
    (record { source_node_id = 7; target_node_id = 2; strength = 3 })
    ∷ (record { source_node_id = 2; target_node_id = 7; strength = 4 })
    ∷ (record { source_node_id = 2; target_node_id = 9; strength = 1 })
    ∷ (record { source_node_id = 2; target_node_id = 5; strength = 1 })
    ∷ []

abbrev wide : WorldBounds ℕ
wide = record { min_x = 0; min_y = 0; max_x = 100; max_y = 100 }

build_card_scope_layout-IsLayout_example :
    IsLayout naturals three_nodes some_edges
      (build_card_scope_layout naturals three_nodes some_edges 1 params)
build_card_scope_layout-IsLayout_example =
    build_card_scope_layout-IsLayout naturals params three_nodes some_edges 1

slice_card_scope_layout-IsSlice_example :
    IsSlice naturals some_edges
      (build_card_scope_layout naturals three_nodes some_edges 1 params)
      wide
      (slice_card_scope_layout naturals
        (build_card_scope_layout naturals three_nodes some_edges 1 params)
        wide)
slice_card_scope_layout-IsSlice_example =
    slice_card_scope_layout-IsSlice naturals params three_nodes some_edges 1 wide

abbrev root_scope : TaxonomyScopeIdentity
root_scope = record { scope_kind = "taxonomy_node"; taxonomy_node_id = 1 }

abbrev operations : List Operation
operations =
    request root_scope "v2" "first" 1
    ∷ claim 2
    ∷ fail root_scope "v2" "no cards" 3
    ∷ request root_scope "v2" "second" 4
    ∷ claim 5
    ∷ complete root_scope "v2" 6
    ∷ []

operate_all-IsQueue_example : IsQueue (operate_all (λ text. text) 1800 operations [])
operate_all-IsQueue_example =
    operate_all-IsQueue (λ text. text) 1800 operations [] (record { lawful = tt; apart = tt })

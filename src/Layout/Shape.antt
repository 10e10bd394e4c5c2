-- ===== src/Layout/Shape.antt =====
-- The simulation moves nodes and keeps which they are.
use hll.Prelude.{
  ℕ, zero, suc, ◌≡◌, refl, ap, ◌∙◌, Option, none, some, List, [], ◌∷◌, map, arith, Bool-cases, inl,
  inr, ◌==◌, sort, enumerate_from,
}
use hll.Layout.Model.{
  Floats, Scope, TaxonomyCardScopeLayoutParams, SimulationNode, LayoutNode, LayoutEdge, one_float,
}
use hll.Layout.Nodes.{has_id, update_node, with_rest, each_pair}
use hll.Layout.Forces.{
  build_simulation_node, link_nodes, apply_link_force, charge_pair, apply_charge_force,
  collide_pair, apply_collision_force, center_node, apply_center_force, bound_node,
  apply_radial_boundary_force, move_node, simulation_tick, simulation_ticks_from,
  run_force_simulation,
}
use hll.Layout.Build.{positioned, node_id_le, build_card_scope_layout}

-- A force on a pair of nodes
abbrev pub Force : (Float : Type 0) → Type 0
Force Float =
    SimulationNode Float → SimulationNode Float → SimulationNode Float × SimulationNode Float

module _ {Float : Type 0} where
  -- Which nodes they are, in their order.
  abbrev pub named : List (SimulationNode Float) → List (ℕ × Scope)
  named nodes = map (λ (n : SimulationNode Float). (n.id, n.scope)) nodes

  record SameNode (m n : SimulationNode Float) : Type 0 where
    pub id : n.id ≡ m.id
    pub scope : n.scope ≡ m.scope

  cons_named :
      (m n : SimulationNode Float) (ms ns : List (SimulationNode Float))
      → SameNode m n
      → named ns ≡ named ms
      → named (n ∷ ns) ≡ named (m ∷ ms)
  cons_named m n ms ns h k = cc (h.id, h.scope, k)

  named-update_node :
      (id : ℕ) (f : SimulationNode Float → SimulationNode Float)
      (nodes : List (SimulationNode Float))
      → ((n : SimulationNode Float) → SameNode n (f n))
      → named (update_node id f nodes) ≡ named nodes
  unfolding update_node
  named-update_node id f [] keeps = refl
  named-update_node id f (n ∷ nodes) keeps = elim (Bool-cases (has_id id nodes)) [
    | inl e ↦ rw e (
        cons_named n n nodes _ (record { id = refl; scope = refl })
          (named-update_node id f nodes keeps))
    | inr e ↦ rw e (elim (Bool-cases (n.id == id)) [
      | inl k ↦ rw k (cons_named n (f n) nodes nodes (keeps n) refl)
      | inr k ↦ rw k refl
    ])
  ]

  named-map :
      (f : SimulationNode Float → SimulationNode Float) (nodes : List (SimulationNode Float))
      → ((n : SimulationNode Float) → SameNode n (f n))
      → named (map f nodes) ≡ named nodes
  named-map f [] keeps = refl
  named-map f (n ∷ nodes) keeps =
      cons_named n (f n) nodes (map f nodes) (keeps n) (named-map f nodes keeps)

  record KeepsBoth (force : Force Float) : Type 0 where
    pub source : (m n : SimulationNode Float) → SameNode m (force m n).0
    pub target : (m n : SimulationNode Float) → SameNode n (force m n).1

  SameNode-trans : (l m n : SimulationNode Float) → SameNode l m → SameNode m n → SameNode l n
  SameNode-trans l m n h k = record { id = cc (h.id, k.id); scope = cc (h.scope, k.scope) }

  with_rest-SameNode :
      (force : Force Float) (source : SimulationNode Float) (targets : List (SimulationNode Float))
      → KeepsBoth force
      → SameNode source (with_rest force source targets).0
  unfolding with_rest
  with_rest-SameNode force source [] keeps = record { id = refl; scope = refl }
  with_rest-SameNode force source (t ∷ targets) keeps =
      SameNode-trans source (force source t).0 _ (keeps.source source t)
        (with_rest-SameNode force (force source t).0 targets keeps)

  named-with_rest :
      (force : Force Float) (source : SimulationNode Float) (targets : List (SimulationNode Float))
      → KeepsBoth force
      → named (with_rest force source targets).1 ≡ named targets
  unfolding with_rest
  named-with_rest force source [] keeps = refl
  named-with_rest force source (t ∷ targets) keeps =
      cons_named t (force source t).1 targets _ (keeps.target source t)
        (named-with_rest force (force source t).0 targets keeps)

  named-each_pair :
      (left : List (SimulationNode Float)) (force : Force Float)
      (nodes : List (SimulationNode Float))
      → KeepsBoth force
      → named (each_pair left force nodes) ≡ named nodes
  unfolding each_pair
  named-each_pair [] force nodes keeps = refl
  named-each_pair (n ∷ left) force [] keeps = refl
  named-each_pair (n ∷ left) force (source ∷ targets) keeps =
      cons_named source (with_rest force source targets).0 targets _
        (with_rest-SameNode force source targets keeps)
        (named-each_pair left force (with_rest force source targets).1 keeps
          ∙ named-with_rest force source targets keeps)

module _ (fs : Floats) (p : TaxonomyCardScopeLayoutParams fs.Float) (alpha : fs.Float) where
  named-link_nodes :
      (edge : LayoutEdge fs.Float) (s t : Option (SimulationNode fs.Float))
      (nodes : List (SimulationNode fs.Float))
      → named (link_nodes fs p alpha edge s t nodes) ≡ named nodes
  unfolding link_nodes
  named-link_nodes edge (some s) (some t) nodes =
      named-update_node edge.target_node_id _ (update_node edge.source_node_id _ nodes)
        (λ _. record { id = refl; scope = refl })
      ∙ named-update_node edge.source_node_id _ nodes (λ _. record { id = refl; scope = refl })
  named-link_nodes edge (some s) none nodes = refl
  named-link_nodes edge none t nodes = refl

  named-apply_link_force :
      (edges : List (LayoutEdge fs.Float)) (nodes : List (SimulationNode fs.Float))
      → named (apply_link_force fs p alpha edges nodes) ≡ named nodes
  unfolding apply_link_force
  named-apply_link_force [] nodes = refl
  named-apply_link_force (edge ∷ edges) nodes =
      named-apply_link_force edges _ ∙ named-link_nodes edge _ _ nodes

  charge_pair-KeepsBoth : KeepsBoth (charge_pair fs p alpha)
  charge_pair-KeepsBoth = record {
    source = λ _ _. record { id = refl; scope = refl };
    target = λ _ _. record { id = refl; scope = refl };
  }

  collide_pair-KeepsBoth : KeepsBoth (collide_pair fs p alpha)
  collide_pair-KeepsBoth = record {
    source = λ _ _. record { id = ground arith; scope = ground arith };
    target = λ _ _. record { id = ground arith; scope = ground arith };
  }

  named-apply_charge_force :
      (nodes : List (SimulationNode fs.Float))
      → named (apply_charge_force fs p alpha nodes) ≡ named nodes
  unfolding apply_charge_force
  named-apply_charge_force nodes =
      named-each_pair nodes (charge_pair fs p alpha) nodes charge_pair-KeepsBoth

  named-apply_collision_force :
      (nodes : List (SimulationNode fs.Float))
      → named (apply_collision_force fs p alpha nodes) ≡ named nodes
  unfolding apply_collision_force
  named-apply_collision_force nodes =
      named-each_pair nodes (collide_pair fs p alpha) nodes collide_pair-KeepsBoth

  named-apply_center_force :
      (nodes : List (SimulationNode fs.Float))
      → named (apply_center_force fs p alpha nodes) ≡ named nodes
  unfolding apply_center_force
  named-apply_center_force nodes =
      ground
        (arith, named-map (center_node fs p alpha) nodes (λ _. record { id = refl; scope = refl }))

  named-apply_radial_boundary_force :
      (nodes : List (SimulationNode fs.Float))
      → named (apply_radial_boundary_force fs p alpha nodes) ≡ named nodes
  unfolding apply_radial_boundary_force
  named-apply_radial_boundary_force nodes = ground (
    arith,
    named-map (bound_node fs p alpha) nodes
        (λ _. record { id = ground arith; scope = ground arith }),
  )

  named-simulation_tick :
      (edges : List (LayoutEdge fs.Float)) (nodes : List (SimulationNode fs.Float))
      → named (simulation_tick fs p alpha edges nodes) ≡ named nodes
  unfolding simulation_tick
  named-simulation_tick edges nodes =
      named-map (move_node fs p alpha) _ (λ _. record { id = refl; scope = refl })
      ∙ named-apply_radial_boundary_force _
      ∙ named-apply_center_force _
      ∙ named-apply_collision_force _
      ∙ named-apply_charge_force _
      ∙ named-apply_link_force edges nodes

module _ (fs : Floats) where
  abbrev pub layout_named : List (LayoutNode fs.Float) → List (ℕ × Scope)
  layout_named nodes = map (λ (n : LayoutNode fs.Float). (n.id, n.scope)) nodes

  pub layout_named-positioned :
      (nodes : List (SimulationNode fs.Float))
      → layout_named (map (positioned fs) nodes) ≡ named nodes
  layout_named-positioned [] = refl
  layout_named-positioned (n ∷ nodes) =
      ap (λ more. (n.id, n.scope) ∷ more) (layout_named-positioned nodes)

module _ (fs : Floats) (p : TaxonomyCardScopeLayoutParams fs.Float) where
  named-simulation_ticks_from :
      (n : ℕ) (alpha : fs.Float) (edges : List (LayoutEdge fs.Float))
      (nodes : List (SimulationNode fs.Float))
      → named (simulation_ticks_from fs p n alpha edges nodes) ≡ named nodes
  unfolding simulation_ticks_from
  named-simulation_ticks_from zero alpha edges nodes = refl
  named-simulation_ticks_from (suc n) alpha edges nodes =
      named-simulation_ticks_from n _ edges _ ∙ named-simulation_tick fs p _ edges nodes

  pub named-run_force_simulation :
      (edges : List (LayoutEdge fs.Float)) (nodes : List (SimulationNode fs.Float))
      → named (run_force_simulation fs p edges nodes) ≡ named nodes
  unfolding run_force_simulation
  named-run_force_simulation edges nodes =
      ground (arith, named-simulation_ticks_from p.simulation_ticks (one_float fs) edges nodes)

  named-start :
      (from : ℕ) (nodes : List (LayoutNode fs.Float))
      → named (map (build_simulation_node fs p) (enumerate_from from nodes)) ≡ layout_named fs nodes
  named-start from [] = refl
  named-start from (n ∷ nodes) = ap (λ more. (n.id, n.scope) ∷ more) (named-start (suc from) nodes)

  pub build_card_scope_layout-nodes :
      (nodes : List (LayoutNode fs.Float)) (edges : List (LayoutEdge fs.Float)) (generated_at : ℕ)
      → layout_named fs (build_card_scope_layout fs nodes edges generated_at p).nodes
        ≡ layout_named fs (sort (node_id_le fs) nodes)
  unfolding build_card_scope_layout
  build_card_scope_layout-nodes nodes edges generated_at =
      layout_named-positioned fs _
      ∙ named-run_force_simulation _ _
      ∙ named-start 0 (sort (node_id_le fs) nodes)

-- ===== src/Layout/Forces.antt =====
-- The force simulation of modules/taxonomy/layout.py.
use hll.Prelude.{
  ℕ, zero, suc, ◌+◌, ◌*◌, ◌||◌, Option, none, some, List, [], ◌∷◌, map, if◌then◌else◌, leb, length,
}
use hll.Layout.Model.{
  Floats, TaxonomyCardScopeLayoutParams, SimulationNode, LayoutNode, LayoutEdge, zero_float,
  one_float,
}
use hll.Layout.Nodes.{node_of, update_node, each_pair}

module _ (fs : Floats) where
  open fs use {Float, add, sub, mul, div, lt, le, eq, sqrt, cos, sin, root300, of_nat, literal}

  abbrev pub golden_angle_radians : Float
  golden_angle_radians = literal "2.399963229728653"

  -- `_position_on_spiral` and `_build_simulation_node`
  abbrev pub spiral_angle : ℕ → Float
  spiral_angle index = mul (of_nat index) golden_angle_radians

  abbrev pub spiral_radius : TaxonomyCardScopeLayoutParams Float → ℕ → Float
  spiral_radius p index =
      add p.seed_base_radius (mul (sqrt (of_nat (index + 1))) p.seed_radius_step)

  abbrev pub build_simulation_node :
      TaxonomyCardScopeLayoutParams Float → ℕ × LayoutNode Float → SimulationNode Float
  build_simulation_node p (index, node) = record {
    id = node.id;
    scope = node.scope;
    x = mul (cos (spiral_angle index)) (spiral_radius p index);
    y = mul (sin (spiral_angle index)) (spiral_radius p index);
    vx = (zero_float fs);
    vy = (zero_float fs);
  }

  -- A difference of two nodes with its length, or its square.
  pub record Gap : Type 0 where
    pub dx : Float
    pub dy : Float
    pub distance : Float

  abbrev pub deterministic_unit_vector : ℕ → ℕ → Gap
  deterministic_unit_vector source_node_id target_node_id =
      let angle = mul (of_nat (source_node_id * 31 + target_node_id * 17)) golden_angle_radians in
      record { dx = cos angle; dy = sin angle; distance = (one_float fs) }

  abbrev pub or_unit : SimulationNode Float → SimulationNode Float → Gap → Gap
  or_unit source target gap =
      if eq gap.distance (zero_float fs) then deterministic_unit_vector source.id target.id else gap

  -- With the velocities, as the link and the collision force take it.
  abbrev pub moving_gap : SimulationNode Float → SimulationNode Float → Gap
  moving_gap source target =
      let dx = sub (add target.x target.vx) (add source.x source.vx) in
      let dy = sub (add target.y target.vy) (add source.y source.vy) in
      or_unit source target
        (record { dx = dx; dy = dy; distance = sqrt (add (mul dx dx) (mul dy dy)) })

  abbrev pub squared_gap : SimulationNode Float → SimulationNode Float → Gap
  squared_gap source target =
      let dx = sub target.x source.x in
      let dy = sub target.y source.y in
      or_unit source target (record { dx = dx; dy = dy; distance = add (mul dx dx) (mul dy dy) })

  abbrev pub push : Float → Float → SimulationNode Float → SimulationNode Float
  push ox oy n = record n { vx = add n.vx ox; vy = add n.vy oy }

  abbrev pub pull : Float → Float → SimulationNode Float → SimulationNode Float
  pull ox oy n = record n { vx = sub n.vx ox; vy = sub n.vy oy }

  module _ (p : TaxonomyCardScopeLayoutParams Float) (alpha : Float) where
    abbrev pub link_factor : LayoutEdge Float → Gap → Float
    link_factor edge gap =
        let target_distance =
          sub p.link_base_distance (mul edge.strength p.link_distance_strength_factor) in
        let link_strength = add p.link_base_strength (mul edge.strength p.link_strength_factor) in
        mul (mul (div (sub gap.distance target_distance) gap.distance) alpha) link_strength

    unfoldable pub link_nodes :
        LayoutEdge Float
        → Option (SimulationNode Float)
        → Option (SimulationNode Float)
        → List (SimulationNode Float)
        → List (SimulationNode Float)
    unfolding update_node
    link_nodes edge (some source) (some target) nodes =
        let gap = moving_gap source target in
        let force = link_factor edge gap in
        let ox = mul (mul gap.dx force) (literal "0.5") in
        let oy = mul (mul gap.dy force) (literal "0.5") in
        update_node edge.target_node_id (pull ox oy)
          (update_node edge.source_node_id (push ox oy) nodes)
    link_nodes edge (some source) none nodes = nodes
    link_nodes edge none target nodes = nodes

    -- The edges are canonical, so their nodes are there.
    unfoldable pub apply_link_force :
        List (LayoutEdge Float) → List (SimulationNode Float) → List (SimulationNode Float)
    unfolding node_of link_nodes
    apply_link_force [] nodes = nodes
    apply_link_force (edge ∷ edges) nodes = apply_link_force edges (
        link_nodes edge (node_of edge.source_node_id nodes) (node_of edge.target_node_id nodes)
          nodes)

    abbrev pub charge_pair :
        SimulationNode Float → SimulationNode Float → SimulationNode Float × SimulationNode Float
    charge_pair source target =
        let gap = squared_gap source target in
        let squared = if lt gap.distance (one_float fs) then (one_float fs) else gap.distance in
        let force = div (mul p.charge_strength alpha) squared in
        let ox = mul gap.dx force in
        let oy = mul gap.dy force in (push ox oy source, pull ox oy target)

    unfoldable pub apply_charge_force : List (SimulationNode Float) → List (SimulationNode Float)
    unfolding each_pair
    apply_charge_force nodes = each_pair nodes charge_pair nodes

    abbrev pub collide_pair :
        SimulationNode Float → SimulationNode Float → SimulationNode Float × SimulationNode Float
    collide_pair source target =
        let minimum_distance = mul p.collision_radius (literal "2") in
        let gap = moving_gap source target in
        let force =
          mul (mul (div (sub minimum_distance gap.distance) gap.distance) p.collision_strength)
            alpha in
        let ox = mul (mul gap.dx force) (literal "0.5") in
        let oy = mul (mul gap.dy force) (literal "0.5") in
        if le minimum_distance gap.distance
        then (source, target)
        else (pull ox oy source, push ox oy target)

    unfoldable pub apply_collision_force : List (SimulationNode Float) → List (SimulationNode Float)
    unfolding each_pair
    apply_collision_force nodes = each_pair nodes collide_pair nodes

    abbrev pub center_node : SimulationNode Float → SimulationNode Float
    center_node n =
        push (mul (mul (sub (zero_float fs) n.x) p.center_gravity_strength) alpha)
          (mul (mul (sub (zero_float fs) n.y) p.center_gravity_strength) alpha) n

    unfoldable pub apply_center_force : List (SimulationNode Float) → List (SimulationNode Float)
    apply_center_force nodes =
        if eq p.center_gravity_strength (zero_float fs) then nodes else map center_node nodes

    abbrev pub bound_node : SimulationNode Float → SimulationNode Float
    bound_node n =
        let dx = sub n.x (zero_float fs) in
        let dy = sub n.y (zero_float fs) in
        let distance = sqrt (add (mul dx dx) (mul dy dy)) in
        let force =
          mul
            (mul (div (sub distance p.radial_boundary_radius) distance) p.radial_boundary_strength)
            alpha in
        if le distance p.radial_boundary_radius || eq distance (zero_float fs)
        then n
        else pull (mul dx force) (mul dy force) n

    unfoldable pub apply_radial_boundary_force :
        List (SimulationNode Float) → List (SimulationNode Float)
    apply_radial_boundary_force nodes =
        if eq p.radial_boundary_radius (zero_float fs)
          || eq p.radial_boundary_strength (zero_float fs)
        then nodes
        else map bound_node nodes

    abbrev pub move_node : SimulationNode Float → SimulationNode Float
    move_node n =
        let vx = mul n.vx p.velocity_retention in
        let vy = mul n.vy p.velocity_retention in
        record n { vx = vx; vy = vy; x = add n.x vx; y = add n.y vy }

    -- The body of the loop over the ticks
    unfoldable pub simulation_tick :
        List (LayoutEdge Float) → List (SimulationNode Float) → List (SimulationNode Float)
    unfolding apply_link_force apply_charge_force apply_collision_force apply_center_force
        apply_radial_boundary_force
    simulation_tick edges nodes = map move_node (
        apply_radial_boundary_force (
          apply_center_force
            (apply_collision_force (apply_charge_force (apply_link_force edges nodes)))))

  module _ (p : TaxonomyCardScopeLayoutParams Float) where
    abbrev pub alpha_decay : Float
    alpha_decay = sub (one_float fs) (root300 p.alpha_min)

    abbrev pub next_alpha : Float → Float
    next_alpha alpha = add alpha (mul (sub (zero_float fs) alpha) alpha_decay)

    unfoldable pub simulation_ticks_from :
        ℕ
        → Float
        → List (LayoutEdge Float)
        → List (SimulationNode Float)
        → List (SimulationNode Float)
    unfolding simulation_tick
    simulation_ticks_from zero alpha edges nodes = nodes
    simulation_ticks_from (suc n) alpha edges nodes =
        simulation_ticks_from n (next_alpha alpha) edges
          (simulation_tick p (next_alpha alpha) edges nodes)

    unfoldable pub run_force_simulation :
        List (LayoutEdge Float) → List (SimulationNode Float) → List (SimulationNode Float)
    unfolding simulation_ticks_from
    run_force_simulation edges nodes =
        if leb (length nodes) 1
        then nodes
        else simulation_ticks_from p.simulation_ticks (one_float fs) edges nodes

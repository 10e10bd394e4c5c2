-- ===== src/Layout/Nodes.antt =====
-- The nodes that the simulation of modules/taxonomy/layout.py mutates: by their ids, and in pairs.
use hll.Prelude.{ℕ, Bool, Option, none, some, List, [], ◌∷◌, if◌then◌else◌, any, ◌==◌}
use hll.Layout.Model.{SimulationNode}

-- The last node with the id, as in a dictionary made of the nodes.
module _ {Float : Type 0} where
  abbrev pub has_id : ℕ → List (SimulationNode Float) → Bool
  has_id id nodes = any (λ (n : SimulationNode Float). n.id == id) nodes

  unfoldable pub node_of : ℕ → List (SimulationNode Float) → Option (SimulationNode Float)
  node_of id [] = none
  node_of id (n ∷ nodes) =
      let rest = node_of id nodes in
      if has_id id nodes then rest else (if n.id == id then some n else none)

  unfoldable pub update_node :
      ℕ
      → (SimulationNode Float → SimulationNode Float)
      → List (SimulationNode Float)
      → List (SimulationNode Float)
  update_node id f [] = []
  update_node id f (n ∷ nodes) =
      let rest = update_node id f nodes in
      if has_id id nodes then n ∷ rest else (if n.id == id then f n ∷ nodes else n ∷ nodes)

  -- `for source in nodes: for target in nodes after it`: a force on each pair
  unfoldable pub with_rest :
      (SimulationNode Float → SimulationNode Float → SimulationNode Float × SimulationNode Float)
      → SimulationNode Float
      → List (SimulationNode Float)
      → SimulationNode Float × List (SimulationNode Float)
  with_rest force source [] = (source, [])
  with_rest force source (target ∷ targets) =
      let (s, t) = force source target in
      let (last, rest) = with_rest force s targets in (last, t ∷ rest)

  -- The outer loop over `enumerate(nodes)`: the first list is what it has left to go through, the second
  -- has these nodes as they are by then.
  unfoldable pub each_pair :
      List (SimulationNode Float)
      → (SimulationNode Float → SimulationNode Float → SimulationNode Float × SimulationNode Float)
      → List (SimulationNode Float)
      → List (SimulationNode Float)
  unfolding with_rest
  each_pair [] force nodes = nodes
  each_pair (_ ∷ left) force [] = []
  each_pair (_ ∷ left) force (source ∷ targets) =
      let (s, rest) = with_rest force source targets in s ∷ each_pair left force rest

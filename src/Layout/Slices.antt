-- ===== src/Layout/Slices.antt =====
-- A layout that build_card_scope_layout of modules/taxonomy/layout.py makes, and its slices.
use hll.Prelude.{
  ℕ, ◌≡◌, refl, sym, ap, ◌∙◌, Bool, true, false, List, [], ◌∷◌, map, arith, Bool-cases, inl, inr,
  if◌then◌else◌, filter, any, ◌==◌, sort, All, All-filter, All-filter_of_All, All-map,
}
use hll.Layout.Model.{
  Floats, Scope, SimulationNode, TaxonomyCardScopeLayoutParams, LayoutNode, LayoutEdge, WorldBounds,
  CardScopeLayout, LayoutSlice,
}
use hll.Layout.Forces.{run_force_simulation}
use hll.Layout.Build.{
  positioned, start_nodes, canonical_edges, ordered_edge, same_pair, within_ids, node_id_le,
  build_card_scope_layout, in_bounds, slice_card_scope_layout,
}
use hll.Layout.Shape.{
  named, layout_named, layout_named-positioned, named-run_force_simulation,
  build_card_scope_layout-nodes,
}
use hll.Layout.Edges.{first_edge, Canonical, canonical_edges-Canonical, within_ids-ordered_edge}

-- Nodes that are among others
abbrev pub Among : List ℕ → List ℕ → Type 0
Among few ids = (id : ℕ) → any (λ i. i == id) few ≡ true → any (λ i. i == id) ids ≡ true

All-both {ℓ κ μ} :
    {A : Type ℓ} (P : A → Type κ) (Q : A → Type μ) (xs : List A)
    → All P xs
    → All Q xs
    → All (λ x. P x × Q x) xs
All-both P Q [] h k = tt
All-both P Q (x ∷ xs) h k = ((h.0, k.0), All-both P Q xs h.1 k.1)

module _ {Float : Type 0} where
  within_ids-same_pair :
      (ids : List ℕ) (a b : LayoutEdge Float)
      → same_pair a b ≡ true
      → within_ids ids b ≡ within_ids ids a
  within_ids-same_pair ids a b h =
      let sources : b.source_node_id ≡ a.source_node_id = ground (arith, h) in
      let targets : b.target_node_id ≡ a.target_node_id = ground (arith, h) in
      rw (sources, targets) refl

  filter-within_ids :
      (ids : List ℕ) (q : LayoutEdge Float) (edges : List (LayoutEdge Float))
      → filter (same_pair q) (filter (within_ids ids) edges)
        ≡ (if within_ids ids q then filter (same_pair q) edges else [])
  filter-within_ids ids q [] = ground arith
  filter-within_ids ids q (e ∷ edges) = elim (Bool-cases (same_pair q e)) [
    | inl h ↦
        let agree = within_ids-same_pair ids q e h in
        ground (arith, h, agree, filter-within_ids ids q edges)
    | inr h ↦ ground (arith, h, filter-within_ids ids q edges)
  ]

  within_ids-Among :
      (few ids : List ℕ) (e : LayoutEdge Float)
      → Among few ids
      → within_ids few e ≡ true
      → within_ids ids e ≡ true
  within_ids-Among few ids e sub h = ground (arith, h, sub e.source_node_id, sub e.target_node_id)

  first_edge-Among :
      (few ids : List ℕ) (q : LayoutEdge Float) (edges : List (LayoutEdge Float))
      → Among few ids
      → first_edge few q edges ≡ (if within_ids few q then first_edge ids q edges else [])
  first_edge-Among few ids q [] sub = ground arith
  first_edge-Among few ids q (e ∷ edges) sub =
      let rest = first_edge-Among few ids q edges sub in
      elim (Bool-cases (same_pair q (ordered_edge e))) [
        | inr other ↦ ground (arith, other, rest)
        | inl same ↦
            let agree : within_ids few e ≡ within_ids few q =
              sym (within_ids-ordered_edge few e)
              ∙ within_ids-same_pair few q (ordered_edge e) same in
            elim (Bool-cases (within_ids few q)) [
              | inl w ↦
                  let inside : within_ids few e ≡ true = agree ∙ w in
                  rw (inside, within_ids-Among few ids e sub inside, same, w) refl
              | inr w ↦
                  let outside : within_ids few e ≡ false = agree ∙ w in
                  let nothing : first_edge few q edges ≡ [] = rest ∙ rw w refl in
                  rw (outside, w) nothing
            ]
      ]

  Canonical-Among :
      (few ids : List ℕ) (edges result : List (LayoutEdge Float))
      → Among few ids
      → Canonical ids edges result
      → Canonical few edges (filter (within_ids few) result)
  Canonical-Among few ids edges result sub c = record {
    ends =
        All-both _ _ _ (All-map (λ _ h. h.0) _ (All-filter_of_All _ (within_ids few) result c.ends))
          (All-filter (within_ids few) result);
    first = λ q.
        filter-within_ids few q result
        ∙ ap (λ found. if within_ids few q then found else []) (c.first q)
        ∙ sym (first_edge-Among few ids q edges sub);
  }

  abbrev pub ids_of : List (LayoutNode Float) → List ℕ
  ids_of nodes = map (λ (n : LayoutNode Float). n.id) nodes

  firsts_of_nodes :
      (ns : List (LayoutNode Float))
      → ids_of ns
        ≡ map (λ (k : ℕ × Scope). k.0) (map (λ (n : LayoutNode Float). (n.id, n.scope)) ns)
  firsts_of_nodes [] = refl
  firsts_of_nodes (n ∷ ns) = ap (λ ids. n.id ∷ ids) (firsts_of_nodes ns)

  firsts_of_simulated :
      (ms : List (SimulationNode Float))
      → map (λ (n : SimulationNode Float). n.id) ms ≡ map (λ (k : ℕ × Scope). k.0) (named ms)
  firsts_of_simulated [] = refl
  firsts_of_simulated (n ∷ ms) = ap (λ ids. n.id ∷ ids) (firsts_of_simulated ms)

  named-ids :
      (ms : List (SimulationNode Float)) (ns : List (LayoutNode Float))
      → map (λ (n : LayoutNode Float). (n.id, n.scope)) ns ≡ named ms
      → ids_of ns ≡ map (λ (n : SimulationNode Float). n.id) ms
  named-ids ms ns h =
      firsts_of_nodes ns ∙ ap (map (λ (k : ℕ × Scope). k.0)) h ∙ sym (firsts_of_simulated ms)

  ids_of-filter-Among :
      (p : LayoutNode Float → Bool) (nodes : List (LayoutNode Float))
      → Among (ids_of (filter p nodes)) (ids_of nodes)
  ids_of-filter-Among p [] id h = h
  ids_of-filter-Among p (n ∷ nodes) id h = ground (arith, h, ids_of-filter-Among p nodes id)

module _ (fs : Floats) where
  -- The layout of nodes and edges: its nodes by their ids, its edges canonical
  pub record IsLayout (given : List (LayoutNode fs.Float)) (links : List (LayoutEdge fs.Float))
      (layout : CardScopeLayout fs.Float) : Type 0 where
    pub nodes : layout_named fs layout.nodes ≡ layout_named fs (sort (node_id_le fs) given)
    pub edges : Canonical (ids_of layout.nodes) links layout.edges

  -- A slice of a layout of edges: its nodes are those in the bounds, its edges canonical
  pub record IsSlice (links : List (LayoutEdge fs.Float)) (layout : CardScopeLayout fs.Float)
      (bounds : WorldBounds fs.Float) (slice : LayoutSlice fs.Float) : Type 0 where
    pub nodes : slice.nodes ≡ filter (in_bounds fs bounds) layout.nodes
    pub edges : Canonical (ids_of slice.nodes) links slice.edges

module _ (fs : Floats) (p : TaxonomyCardScopeLayoutParams fs.Float) where
  -- A layout has the given nodes, by their ids, with their scopes. For each pair of its nodes it has the
  -- first of the given edges between them, if there is one, from the lower to the higher, and no other edges.
  pub build_card_scope_layout-IsLayout :
      (nodes : List (LayoutNode fs.Float)) (edges : List (LayoutEdge fs.Float)) (generated_at : ℕ)
      → IsLayout fs nodes edges (build_card_scope_layout fs nodes edges generated_at p)
  unfolding build_card_scope_layout
  build_card_scope_layout-IsLayout nodes edges generated_at =
      let start = start_nodes fs p (sort (node_id_le fs) nodes) in
      let ids = map (λ (n : SimulationNode fs.Float). n.id) start in
      let canonical = canonical_edges edges ids in
      let placed = run_force_simulation fs p canonical start in
      let kept : ids_of (map (positioned fs) placed) ≡ ids =
        named-ids start (map (positioned fs) placed)
          (layout_named-positioned fs placed ∙ named-run_force_simulation fs p canonical start) in
      record {
        nodes = build_card_scope_layout-nodes fs p nodes edges generated_at;
        edges = rw kept (canonical_edges-Canonical edges ids);
      }

  -- A slice of a layout made of nodes and edges has the nodes of the layout in the bounds. For each pair of
  -- these it has the first of the given edges between them, if there is one, and no other edges.
  pub slice_card_scope_layout-IsSlice :
      (nodes : List (LayoutNode fs.Float)) (edges : List (LayoutEdge fs.Float)) (generated_at : ℕ)
      (bounds : WorldBounds fs.Float)
      → let layout = build_card_scope_layout fs nodes edges generated_at p in
        IsSlice fs edges layout bounds (slice_card_scope_layout fs layout bounds)
  unfolding slice_card_scope_layout
  slice_card_scope_layout-IsSlice nodes edges generated_at bounds =
      let layout = build_card_scope_layout fs nodes edges generated_at p in
      let laid = build_card_scope_layout-IsLayout nodes edges generated_at in
      record {
        nodes = refl;
        edges =
            Canonical-Among _ _ edges layout.edges
              (ids_of-filter-Among (in_bounds fs bounds) layout.nodes) laid.edges;
      }

-- ===== src/KnowledgeGraph/Materialize/Bounds.antt =====
-- How many edges a new card brings, and what its materialization leaves alone.
use hll.Prelude.{
  ℕ, zero, suc, ◌+◌, ◌≤◌, String, ◌≡◌, ◌∙◌, refl, Bool, true, false, not, ◌||◌, Option, none, some,
  List, [], ◌∷◌, ◌++◌, arith, length, subst, length-append, if◌then◌else◌,
}
use hll.Exec.{Result, ok, err, Exec, pure, lift, continue, ◌>>=◌, ◌>>◌}
use hll.Exec.Steps.{IsPreorder, Steps, Steps-pure, Steps-bind, Steps-if, steps_rules}
use hll.KnowledgeGraph.Model.{
  Error, SimilarNodeCandidate, Adjacency, Platform, Tables, State, Action, TaxonomyPort,
  in_taxonomy,
}
use hll.KnowledgeGraph.Repo.{create_node, add_node, add_version}
use hll.KnowledgeGraph.Repo.Edges.{
  create_edge_with_adjacency, canonical_edge_pair, add_edge, add_adjacency, is_in,
}
use hll.KnowledgeGraph.Proposals.{assign_if_port}
use hll.KnowledgeGraph.Proposals.Atomic.{Clean, transact_tables}
use hll.KnowledgeGraph.Materialize.{
  EdgePolicy, project_edge, project_if_port, create_edge_with_projection, connect,
  connect_mentioned, connect_similar, materialize_card_from_ingestion, strong_enough,
}
use hll.KnowledgeGraph.Frames.{
  CardsOnly, CardsOnly-order, create_node-CardsOnly, assign_if_port-CardsOnly,
  in_taxonomy-CardsOnly, add_edge-CardsOnly, add_adjacency-CardsOnly,
}

one_more : (n : ℕ) → 1 + n ≡ suc n
one_more n = omega arith

module _ {Real Taxonomy : Type 0} where
  -- A method that makes at most `n` edges, whether it returns or raises.
  record EdgesUpTo {A : Type 0} (n : ℕ) (m : Action Real Taxonomy A) : Type 0 where
    pub bound : (s : State Real Taxonomy) → length (m s).1.edges ≤ length s.edges + n

  none_made :
      {A : Type 0} (m : Action Real Taxonomy A)
      → ((s : State Real Taxonomy) → (m s).1.edges ≡ s.edges)
      → EdgesUpTo 0 m
  none_made m same = record { bound = λ s. rw (same s) (omega arith) }

  then_made :
      {A B : Type 0} (a b : ℕ) (m : Action Real Taxonomy A) (f : A → Action Real Taxonomy B)
      → EdgesUpTo a m
      → ((x : A) → EdgesUpTo b (f x))
      → EdgesUpTo (a + b) (m >>= f)
  unfolding ◌>>=◌
  then_made {A} {B} a b m f h k = record { bound = λ s. go s (m s) (h.bound s) }
    where
      go :
          (s : State Real Taxonomy) (r : Result Error A × State Real Taxonomy)
          → length r.1.edges ≤ length s.edges + a
          → length (continue r.0 f r.1).1.edges ≤ length s.edges + (a + b)
      go s (ok x, t) le = omega (arith, le, (k x).bound t)
      go s (err e, t) le = omega (arith, le)

  add_edge-EdgesUpTo : (pair : ℕ × ℕ) (strength : Real) → EdgesUpTo 1 (add_edge pair strength)
  unfolding add_edge
  add_edge-EdgesUpTo pair strength = record {
    bound = λ s. ground (
      arith,
      length-append s.edges (
          record {
            id = s.next_edge_id;
            node_a_id = pair.0;
            node_b_id = pair.1;
            strength = strength;
          }
          ∷ []),
    );
  }

  abbrev SameEdges : State Real Taxonomy → State Real Taxonomy → Type 0
  SameEdges s t = t.edges ≡ s.edges

  SameEdges-order : IsPreorder SameEdges
  SameEdges-order = record { reflexive = λ s. refl; transitive = λ s t u h k. k ∙ h }

  silent : {A : Type 0} {m : Action Real Taxonomy A} → Steps SameEdges m → EdgesUpTo 0 m
  silent {A} {m} h = none_made m (λ s. h.at s)

  in_taxonomy-SameEdges :
      {A : Type 0} (call : Exec Error Taxonomy A) → Steps SameEdges (in_taxonomy call)
  unfolding in_taxonomy
  in_taxonomy-SameEdges call = record { at = λ s. refl }

  add_adjacency-SameEdges : (rows : List Adjacency) → Steps SameEdges (add_adjacency rows)
  unfolding add_adjacency
  add_adjacency-SameEdges rows = record { at = λ s. refl }

  create_node-SameEdges :
      (title content : String) (embedding : List Real)
      → Steps SameEdges (create_node title content embedding)
  unfolding create_node add_node add_version ◌>>=◌
  create_node-SameEdges title content embedding = record { at = λ s. ground arith }

  assign_if_port-SameEdges :
      (port : Option (TaxonomyPort Taxonomy)) (id : ℕ) → Steps SameEdges (assign_if_port port id)
  unfolding assign_if_port
  assign_if_port-SameEdges none id = Steps-pure SameEdges-order tt
  assign_if_port-SameEdges (some p) id =
      search (steps_rules, in_taxonomy-SameEdges, SameEdges-order) depth 6

  abbrev with_adjacency : ℕ → ℕ → ℕ → Action Real Taxonomy ℕ
  with_adjacency source related edge_id =
      add_adjacency (
        record { node_id = source; edge_id = edge_id }
        ∷ record { node_id = related; edge_id = edge_id }
        ∷ [])
      >> pure edge_id

  with_adjacency-SameEdges :
      (source related edge_id : ℕ) → Steps SameEdges (with_adjacency source related edge_id)
  with_adjacency-SameEdges source related edge_id =
      search (steps_rules, add_adjacency-SameEdges, SameEdges-order) depth 6

  lift-SameEdges : {A : Type 0} (r : Result Error A) → Steps SameEdges (lift r)
  lift-SameEdges r = search (steps_rules, SameEdges-order) depth 4

  create_edge-EdgesUpTo :
      (source related : ℕ) (strength : Real)
      → EdgesUpTo 1 (create_edge_with_adjacency source related strength)
  unfolding create_edge_with_adjacency
  create_edge-EdgesUpTo source related strength =
      then_made 0 1 (lift (canonical_edge_pair source related))
        (λ pair. add_edge pair strength >>= with_adjacency source related)
        (silent (lift-SameEdges _))
        (λ pair.
          then_made 1 0 (add_edge pair strength) (with_adjacency source related)
            (add_edge-EdgesUpTo pair strength)
            (λ id. silent (with_adjacency-SameEdges source related id)))

  create_edge-CardsOnly :
      (source related : ℕ) (strength : Real)
      → Steps (CardsOnly {Taxonomy = Taxonomy}) (create_edge_with_adjacency source related strength)
  unfolding create_edge_with_adjacency
  create_edge-CardsOnly source related strength =
      search (steps_rules, add_edge-CardsOnly, add_adjacency-CardsOnly, CardsOnly-order) depth 10

  module _ (platform : Platform Real) (text_le : String → String → Bool)
      (port : Option (TaxonomyPort Taxonomy)) (policy : EdgePolicy Real) where
    project-SameEdges :
        (source related edge_id : ℕ) (p : TaxonomyPort Taxonomy)
        → Steps SameEdges (project_edge platform text_le port policy source related edge_id p)
    unfolding project_edge
    project-SameEdges source related edge_id p =
        search (steps_rules, in_taxonomy-SameEdges, SameEdges-order) depth 8

    project-CardsOnly :
        (source related edge_id : ℕ) (p : TaxonomyPort Taxonomy)
        → Steps CardsOnly (project_edge platform text_le port policy source related edge_id p)
    unfolding project_edge
    project-CardsOnly source related edge_id p =
        search (steps_rules, in_taxonomy-CardsOnly, CardsOnly-order) depth 8

    if_port-SameEdges :
        (o : Option (TaxonomyPort Taxonomy)) (source related edge_id : ℕ)
        → Steps SameEdges (project_if_port platform text_le port policy o source related edge_id)
    unfolding project_if_port
    if_port-SameEdges none source related edge_id = Steps-pure SameEdges-order tt
    if_port-SameEdges (some p) source related edge_id = project-SameEdges source related edge_id p

    if_port-CardsOnly :
        (o : Option (TaxonomyPort Taxonomy)) (source related edge_id : ℕ)
        → Steps CardsOnly (project_if_port platform text_le port policy o source related edge_id)
    unfolding project_if_port
    if_port-CardsOnly none source related edge_id = Steps-pure CardsOnly-order tt
    if_port-CardsOnly (some p) source related edge_id = project-CardsOnly source related edge_id p

    projected-EdgesUpTo :
        (source related : ℕ) (strength : Real)
        → EdgesUpTo 1
            (create_edge_with_projection platform text_le port policy source related strength)
    unfolding create_edge_with_projection
    projected-EdgesUpTo source related strength =
        then_made 1 0 (create_edge_with_adjacency source related strength)
          (project_if_port platform text_le port policy port source related)
          (create_edge-EdgesUpTo source related strength)
          (λ id. silent (if_port-SameEdges port source related id))

    projected-CardsOnly :
        (source related : ℕ) (strength : Real)
        → Steps CardsOnly
            (create_edge_with_projection platform text_le port policy source related strength)
    unfolding create_edge_with_projection
    projected-CardsOnly source related strength =
        search (steps_rules, create_edge-CardsOnly, if_port-CardsOnly, CardsOnly-order) depth 6

    EdgesUpTo-if :
        {A : Type 0} (n : ℕ) (b : Bool) (m k : Action Real Taxonomy A)
        → EdgesUpTo n m
        → EdgesUpTo n k
        → EdgesUpTo n (if b then m else k)
    EdgesUpTo-if n true m k h j = h
    EdgesUpTo-if n false m k h j = j

    weaker : {A : Type 0} (n : ℕ) {m : Action Real Taxonomy A} → EdgesUpTo 0 m → EdgesUpTo n m
    weaker n h = record { bound = λ s. omega (arith, h.bound s) }

    connect-EdgesUpTo :
        (id : ℕ) (eligible : SimilarNodeCandidate Real → Bool) (room : ℕ)
        (cs : List (SimilarNodeCandidate Real)) (selected : List ℕ)
        → EdgesUpTo room (connect platform text_le port policy id eligible room cs selected)
    unfolding connect
    connect-EdgesUpTo id eligible zero cs selected = silent (Steps-pure SameEdges-order selected)
    connect-EdgesUpTo id eligible (suc room) [] selected =
        weaker (suc room) (silent (Steps-pure SameEdges-order selected))
    connect-EdgesUpTo id eligible (suc room) (c ∷ cs) selected =
        EdgesUpTo-if (suc room) (is_in selected c.node_id || not (eligible c)) _ _
          (connect-EdgesUpTo id eligible (suc room) cs selected)
          (subst
            (λ n. EdgesUpTo n (
              create_edge_with_projection platform text_le port policy id c.node_id c.similarity
              >> connect platform text_le port policy id eligible room cs
                  (selected ++ c.node_id ∷ [])))
            (one_more room)
            (then_made 1 room
              (create_edge_with_projection platform text_le port policy id c.node_id c.similarity)
              (λ _.
                connect platform text_le port policy id eligible room cs
                  (selected ++ c.node_id ∷ []))
              (projected-EdgesUpTo id c.node_id c.similarity)
              (λ _. connect-EdgesUpTo id eligible room cs (selected ++ c.node_id ∷ []))))

    connect-CardsOnly :
        (id : ℕ) (eligible : SimilarNodeCandidate Real → Bool) (room : ℕ)
        (cs : List (SimilarNodeCandidate Real)) (selected : List ℕ)
        → Steps CardsOnly (connect platform text_le port policy id eligible room cs selected)
    unfolding connect
    connect-CardsOnly id eligible zero cs selected = Steps-pure CardsOnly-order selected
    connect-CardsOnly id eligible (suc room) [] selected = Steps-pure CardsOnly-order selected
    connect-CardsOnly id eligible (suc room) (c ∷ cs) selected =
        Steps-if CardsOnly-order _ _ _ (connect-CardsOnly id eligible (suc room) cs selected) (
          Steps-bind CardsOnly-order _ _ (projected-CardsOnly id c.node_id c.similarity)
            (λ _. connect-CardsOnly id eligible room cs (selected ++ c.node_id ∷ [])))

    mentioned-EdgesUpTo :
        (id : ℕ) (content : String) (embedding : List Real)
        → EdgesUpTo policy.edge_title_mention_top_k
            (connect_mentioned platform text_le port policy id content embedding)
    unfolding connect_mentioned
    mentioned-EdgesUpTo id content embedding = record {
      bound = λ s. (connect-EdgesUpTo id (λ _. true) policy.edge_title_mention_top_k _ []).bound s;
    }

    similar-EdgesUpTo :
        (id : ℕ) (embedding : List Real) (selected : List ℕ)
        → EdgesUpTo policy.edge_semantic_top_k
            (connect_similar platform text_le port policy id embedding selected)
    unfolding connect_similar
    similar-EdgesUpTo id embedding selected = record {
      bound = λ s.
          (connect-EdgesUpTo id (strong_enough platform text_le port policy)
              policy.edge_semantic_top_k _ selected).bound
            s;
    }

    mentioned-CardsOnly :
        (id : ℕ) (content : String) (embedding : List Real)
        → Steps CardsOnly (connect_mentioned platform text_le port policy id content embedding)
    unfolding connect_mentioned
    mentioned-CardsOnly id content embedding =
        search (steps_rules, connect-CardsOnly, CardsOnly-order) depth 5

    similar-CardsOnly :
        (id : ℕ) (embedding : List Real) (selected : List ℕ)
        → Steps CardsOnly (connect_similar platform text_le port policy id embedding selected)
    unfolding connect_similar
    similar-CardsOnly id embedding selected =
        search (steps_rules, connect-CardsOnly, CardsOnly-order) depth 5

    -- What a materialization may change: at most `n` edges are new, and proposals and audits stay.
    pub record Bounded (n : ℕ) (s t : Tables Real Taxonomy) : Type 0 where
      pub few : length t.edges ≤ length s.edges + n
      pub proposals : t.proposals ≡ s.proposals
      pub audits : t.audits ≡ s.audits

    module _ (title content : String) (embedding : List Real) where
      abbrev then_similar : ℕ → List ℕ → Action Real Taxonomy ℕ
      then_similar id selected =
          connect_similar platform text_le port policy id embedding selected >> pure id

      abbrev then_edges : ℕ → Action Real Taxonomy ℕ
      then_edges id =
          assign_if_port port id
          >> (connect_mentioned platform text_le port policy id content embedding
              >>= then_similar id)

      abbrev materializing : Action Real Taxonomy ℕ
      materializing = create_node title content embedding >>= then_edges

      abbrev edge_room : ℕ
      edge_room = policy.edge_title_mention_top_k + (policy.edge_semantic_top_k + 0)

      materializing-EdgesUpTo : EdgesUpTo (0 + (0 + edge_room)) materializing
      materializing-EdgesUpTo =
          then_made 0 (0 + edge_room) (create_node title content embedding) then_edges
            (silent (create_node-SameEdges title content embedding))
            (λ id.
              then_made 0 edge_room (assign_if_port port id) _
                (silent (assign_if_port-SameEdges port id))
                (λ _.
                  then_made policy.edge_title_mention_top_k (policy.edge_semantic_top_k + 0)
                    (connect_mentioned platform text_le port policy id content embedding)
                    (then_similar id) (mentioned-EdgesUpTo id content embedding)
                    (λ selected.
                      then_made policy.edge_semantic_top_k 0
                        (connect_similar platform text_le port policy id embedding selected)
                        (λ _. pure id) (similar-EdgesUpTo id embedding selected)
                        (λ _. silent (Steps-pure SameEdges-order id)))))

      then_similar-CardsOnly :
          (id : ℕ) (selected : List ℕ) → Steps CardsOnly (then_similar id selected)
      then_similar-CardsOnly id selected =
          search (steps_rules, similar-CardsOnly, CardsOnly-order) depth 5

      then_edges-CardsOnly : (id : ℕ) → Steps CardsOnly (then_edges id)
      then_edges-CardsOnly id =
          search
            (
              steps_rules, assign_if_port-CardsOnly, mentioned-CardsOnly, then_similar-CardsOnly,
              CardsOnly-order,
            )
            depth 6

      materializing-CardsOnly : Steps CardsOnly materializing
      materializing-CardsOnly =
          search (steps_rules, create_node-CardsOnly, then_edges-CardsOnly, CardsOnly-order) depth 5

      -- From a clean state, materializing a card, whether it returns or raises, brings at most
      -- `edge_title_mention_top_k + edge_semantic_top_k` new edges and leaves the proposals and
      -- their audits as they are.
      pub materialize-Bounded :
          (s : State Real Taxonomy)
          → Clean s
          → Bounded
              (policy.edge_title_mention_top_k + policy.edge_semantic_top_k)
              s.tables
              (materialize_card_from_ingestion platform text_le port policy title content embedding
                s).1.tables
      unfolding materialize_card_from_ingestion
      materialize-Bounded s clean =
          transact_tables (Bounded (policy.edge_title_mention_top_k + policy.edge_semantic_top_k))
            materializing s clean ((materializing-CardsOnly.at s).committed)
            (record { few = omega arith; proposals = refl; audits = refl })
            (λ a t h. record {
              few = omega (
                arith,
                subst (λ r. length r.1.edges ≤ length s.edges + (0 + (0 + edge_room))) h
                    (materializing-EdgesUpTo.bound s),
              );
              proposals =
                  subst (λ r. r.1.proposals ≡ s.proposals) h
                    ((materializing-CardsOnly.at s).proposals);
              audits = subst (λ r. r.1.audits ≡ s.audits) h ((materializing-CardsOnly.at s).audits);
            })

-- ===== src/KnowledgeGraph/EdgeRebuild/Plan.antt =====
-- What a plan of edges holds.
use hll.Prelude.{
  ℕ, ◌+◌, ◌*◌, ◌++◌, ◌==◌, if◌then◌else◌, ◌≤◌, ◌<◌, ◌≡◌, refl, ap, ◌∙◌, Bool, true, false, not,
  Option, none, some, List, [], ◌∷◌, arith, length, map, take, filter, length-take, All, All-map,
  All-append, All-take, All-filter, All-filter_of_All, All-sort, ltb, ltb→lt,
}
use hll.SourcePipeline.Model.{get_row}
use hll.KnowledgeGraph.Model.{Node, SimilarNodeCandidate, PlannedEdge, Platform, State}
use hll.KnowledgeGraph.Repo.Edges.{
  candidates_by_similarity, historical_of, search_historical_similarity_candidates, nearer,
}
use hll.KnowledgeGraph.EdgeRebuild.{reaches, planned_from, plan_for_node, plan_for_nodes}

length-map : {A B : Type 0} (f : A → B) (xs : List A) → length (map f xs) ≡ length xs
length-map f [] = refl
length-map f (x ∷ xs) = omega (arith, length-map f xs)

All-of-map :
    {A B : Type 0} (P : B → Type 0) (f : A → B) (xs : List A)
    → All (λ x. P (f x)) xs
    → All P (map f xs)
All-of-map P f [] h = tt
All-of-map P f (x ∷ xs) h = (h.0, All-of-map P f xs h.1)

All-both :
    {A : Type 0} {P Q R : A → Type 0} (f : (x : A) → P x → Q x → R x) (xs : List A)
    → All P xs
    → All Q xs
    → All R xs
All-both f [] h k = tt
All-both f (x ∷ xs) h k = (f x h.0 k.0, All-both f xs h.1 k.1)

unnegated : (b : Bool) → not b ≡ true → b ≡ false
unnegated b h = ground arith

module _ {Real : Type 0} (platform : Platform Real) where
  historical_before :
      (id : ℕ) (n : Option (Node Real)) (nodes : List (Node Real))
      → All (λ (c : SimilarNodeCandidate Real). c.node_id < id) (historical_of platform id n nodes)
  unfolding historical_of candidates_by_similarity
  historical_before id none nodes = tt
  historical_before id (some n) nodes = All-of-map _ _ _ (
      All-sort (nearer platform n.embedding) (λ (m : Node Real). m.id < id) _
        (All-map (λ m h. ltb→lt m.id id h) _ (All-filter (λ (m : Node Real). ltb m.id id) nodes)))

  -- An edge of a plan goes to a node before its source and is as strong as asked for.
  pub record Planned (min_strength : Real) (e : PlannedEdge Real) : Type 0 where
    pub earlier : e.related_node_id < e.source_node_id
    pub strong : platform.lt e.strength min_strength ≡ false

count_cons :
    (id source : ℕ) (sources : List ℕ)
    → length (filter (λ n. n == id) (source ∷ sources))
      ≡ length (filter (λ n. n == id) (source ∷ [])) + length (filter (λ n. n == id) sources)
count_cons id source sources = ground arith

times_add : (a b k : ℕ) → (a + b) * k ≡ a * k + b * k
times_add a b k = omega arith

times_count :
    (id source : ℕ) (sources : List ℕ) (k : ℕ)
    → length (filter (λ n. n == id) (source ∷ sources)) * k
      ≡ length (filter (λ n. n == id) (source ∷ [])) * k
        + length (filter (λ n. n == id) sources) * k
times_count id source sources k =
    ap (λ n. n * k) (count_cons id source sources)
    ∙ times_add (length (filter (λ n. n == id) (source ∷ [])))
        (length (filter (λ n. n == id) sources)) k

module _ {Real : Type 0} where
  -- The edges of a plan that start at a node
  abbrev pub edges_of : ℕ → List (PlannedEdge Real) → List (PlannedEdge Real)
  edges_of id edges = filter (λ (e : PlannedEdge Real). e.source_node_id == id) edges

  edges_of_all :
      (id source : ℕ) (edges : List (PlannedEdge Real))
      → All (λ (e : PlannedEdge Real). e.source_node_id ≡ source) edges
      → length (edges_of id edges) ≡ (if source == id then length edges else 0)
  edges_of_all id source [] h = ground arith
  edges_of_all id source (e ∷ edges) h = ground (arith, h.0, edges_of_all id source edges h.1)

  edges_of-append :
      (id : ℕ) (xs ys : List (PlannedEdge Real))
      → length (edges_of id (xs ++ ys)) ≡ length (edges_of id xs) + length (edges_of id ys)
  edges_of-append id [] ys = omega arith
  edges_of-append id (x ∷ xs) ys = ground (arith, edges_of-append id xs ys)

module _ {Real Taxonomy : Type 0} (platform : Platform Real) (top_k : ℕ) (min_strength : Real) where
  plan_for_node-Planned :
      (s : State Real Taxonomy) (source : ℕ)
      → All
          (λ (e : PlannedEdge Real). Planned platform min_strength e × (e.source_node_id ≡ source))
          (plan_for_node platform top_k min_strength s source)
  unfolding plan_for_node search_historical_similarity_candidates
  plan_for_node-Planned s source =
      let candidates = search_historical_similarity_candidates platform source s in
      let kept = filter (reaches platform min_strength) candidates in
      All-of-map _ (planned_from source) (take top_k kept) (
        All-take _ top_k kept (
          All-both
            (λ (c : SimilarNodeCandidate Real) h k. (
              record { earlier = h; strong = unnegated (platform.lt c.similarity min_strength) k },
              refl,
            ))
            kept
            (All-filter_of_All _ (reaches platform min_strength) candidates
              (historical_before platform source (get_row (λ n. n.id) source s.nodes) s.nodes))
            (All-filter (reaches platform min_strength) candidates)))

  length-plan_for_node :
      (s : State Real Taxonomy) (source : ℕ)
      → length (plan_for_node platform top_k min_strength s source) ≤ top_k
  unfolding plan_for_node
  length-plan_for_node s source =
      let kept =
        filter (reaches platform min_strength)
          (search_historical_similarity_candidates platform source s) in
      omega (arith, length-map (planned_from source) (take top_k kept), length-take top_k kept)

  few_of_node :
      (s : State Real Taxonomy) (source id : ℕ)
      → length (edges_of id (plan_for_node platform top_k min_strength s source))
        ≤ length (filter (λ n. n == id) (source ∷ [])) * top_k
  few_of_node s source id =
      let edges = plan_for_node platform top_k min_strength s source in
      ground (
        arith,
        edges_of_all id source edges (All-map (λ e h. h.1) edges (plan_for_node-Planned s source)),
        length-plan_for_node s source,
      )

  -- For each node, the plan holds at most `top_k` edges that start at it for each time that it is in the list,
  -- so none where it is not in the list. Each edge leads to an earlier node, with a strength that is not
  -- below the minimum.
  pub plan_for_nodes_sound :
      (s : State Real Taxonomy) (sources : List ℕ)
      → ((id : ℕ)
          → length (edges_of id (plan_for_nodes platform top_k min_strength s sources))
            ≤ length (filter (λ n. n == id) sources) * top_k)
        × All (Planned platform min_strength) (plan_for_nodes platform top_k min_strength s sources)
  unfolding plan_for_nodes
  plan_for_nodes_sound s [] = ((λ id. omega arith), tt)
  plan_for_nodes_sound s (source ∷ sources) =
      let (few, sound) = plan_for_nodes_sound s sources in
      let head = plan_for_node platform top_k min_strength s source in
      let tail = plan_for_nodes platform top_k min_strength s sources in
      (
        (λ id. omega (
          arith,
          few id,
          few_of_node s source id,
          edges_of-append id head tail,
          times_count id source sources top_k,
        )),
        All-append (Planned platform min_strength) head tail
            (All-map (λ e h. h.0) head (plan_for_node-Planned s source)) sound,
      )

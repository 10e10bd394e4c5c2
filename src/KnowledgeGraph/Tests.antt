-- ===== src/KnowledgeGraph/Tests.antt =====
-- A small card store: two cards that are joined, an archived one, a reviewer, and one proposal.
use hll.Prelude.{
  filter, ◌==◌, ◌*◌, ℕ, ◌+◌, ◌≤◌, String, ◌≡◌, refl, true, Option, none, some, List, [], ◌∷◌, arith,
  ltb, length, All,
}
use hll.Exec.{ok, pure}
use hll.SourcePipeline.Model.{get_row}
use hll.KnowledgeGraph.Model.{
  LifecycleState, active, archived, edit, pending_review, Node, no_payload, CardProposal, Platform,
  Tables, State, TaxonomyPort,
}
use hll.KnowledgeGraph.Proposals.Atomic.{Settled, Clean}
use hll.KnowledgeGraph.Proposals.Lifecycle.{ProposalStep, Audited, Kept, id_of}
use hll.KnowledgeGraph.Proposals.Requests.{
  accept, reject, Request, answer, serve, answer-Settled, answer_refines, serve-Audited, serve-Kept,
}
use hll.KnowledgeGraph.Materialize.{EdgePolicy, materialize_card_from_ingestion}
use hll.KnowledgeGraph.Materialize.Bounds.{Bounded, materialize-Bounded}
use hll.KnowledgeGraph.Retrieval.{get_connected_titles}
use hll.KnowledgeGraph.Retrieval.Titles.{Fresh, get_connected_titles_sound}
use hll.KnowledgeGraph.EdgeRebuild.{plan_for_nodes}
use hll.KnowledgeGraph.EdgeRebuild.Plan.{Planned, edges_of, plan_for_nodes_sound}

-- A strength is a number of hundredths.
abbrev platform : Platform ℕ
platform = record {
  strip = λ s. s;
  joined = λ title content. title;
  lt = ltb;
  add = λ a b. a + b;
  div = λ a b. b;
  neg = λ a. a;
  real_zero = 0;
  real_one = 100;
  real_two = 200;
  neg_inner_product = λ a b. length a;
  mentions = λ content title. true;
  embed_text = some (λ text. ok (1 ∷ []));
}

abbrev port : Option (TaxonomyPort ℕ)
port = some (record {
  assign_node_to_root = λ node_id taxonomy. (ok 1, taxonomy + 1);
  list_scope_identities_for_node_ids = λ node_ids. pure [];
  add_projected_edge_ids_for_scope = λ scope edge_ids. pure tt;
})

abbrev node : ℕ → String → LifecycleState → Node ℕ
node id title state = record {
  id = id;
  title = title;
  content = "c";
  current_version = 1;
  embedding = 1 ∷ [];
  lifecycle_state = state;
}

abbrev proposal : CardProposal
proposal = record {
  id = 1;
  proposal_type = edit;
  status = pending_review;
  submitted_by_user_id = "ann";
  reason = "typo";
  reviewed_by_user_id = none;
  review_note = none;
  payload = record no_payload {
    target_node_id = some 1;
    base_version = some 1;
    suggested_title = some "Ring";
    suggested_content = some "d";
  };
  created_at = 0;
  updated_at = 0;
  reviewed_at = none;
}

abbrev tables : Tables ℕ ℕ
tables = record {
  nodes = node 1 "Rng" active ∷ node 2 "Field" active ∷ node 3 "Old" archived ∷ [];
  card_versions = record { node_id = 1; version = 1; title = "Rng"; content = "c" } ∷ [];
  roles = record { user_id = "bob"; role = "reviewer"; revoked_at = none } ∷ [];
  proposals = proposal ∷ [];
  audits = [];
  edges = record { id = 1; node_a_id = 1; node_b_id = 2; strength = 90 } ∷ [];
  adjacency = record { node_id = 1; edge_id = 1 } ∷ record { node_id = 2; edge_id = 1 } ∷ [];
  next_node_id = 4;
  next_proposal_id = 2;
  next_edge_id = 2;
  taxonomy = 0;
}

abbrev store : State ℕ ℕ
store = record { tables = tables; committed = tables }

abbrev acceptance : Request
acceptance = accept 1 "bob" none 5

abbrev requests : List Request
requests = acceptance ∷ reject 1 "bob" none 6 ∷ []

store-Audited : Audited tables
store-Audited = record {
  counted = λ id p h. ground arith;
  fresh = λ id h. ground arith;
  unused = λ id h. refl;
}

answer-Settled_example : Settled store (answer platform port acceptance store)
answer-Settled_example = answer-Settled platform port acceptance store refl

answer_refines_example : ProposalStep store.tables (answer platform port acceptance store).1.tables
answer_refines_example = answer_refines platform port acceptance store refl

serve-Audited_example :
    Clean (serve platform port requests store) × Audited (serve platform port requests store).tables
serve-Audited_example = serve-Audited platform port requests store refl store-Audited

serve-Kept_example :
    (q : CardProposal) × (get_row id_of 1 (serve platform port requests store).proposals ≡ some q)
    × Kept proposal q
serve-Kept_example = serve-Kept platform port requests store 1 proposal refl refl

get_connected_titles_sound_example :
    (length (get_connected_titles (λ _ _. true) (1 ∷ []) ("Rng" ∷ []) 2 store) ≤ 2)
    × Fresh ("Rng" ∷ []) (get_connected_titles (λ _ _. true) (1 ∷ []) ("Rng" ∷ []) 2 store)
get_connected_titles_sound_example =
    get_connected_titles_sound (λ _ _. true) (1 ∷ []) ("Rng" ∷ []) 2 store

plan_for_nodes_sound_example :
    ((id : ℕ)
      → length (edges_of id (plan_for_nodes platform 2 50 store (1 ∷ 2 ∷ [])))
        ≤ length (filter (λ n. n == id) (1 ∷ 2 ∷ [])) * 2)
    × All (Planned platform 50) (plan_for_nodes platform 2 50 store (1 ∷ 2 ∷ []))
plan_for_nodes_sound_example = plan_for_nodes_sound platform 2 50 store (1 ∷ 2 ∷ [])

abbrev policy : EdgePolicy ℕ
policy = record {
  edge_title_mention_top_k = 1;
  edge_semantic_top_k = 1;
  edge_semantic_min_strength = 50;
  edge_semantic_candidate_limit = 5;
}

materialize-Bounded_example :
    Bounded platform
      (λ _ _. true)
      port
      policy
      2
      store.tables
      (materialize_card_from_ingestion platform
        (λ _ _. true)
        port
        policy
        "Group"
        "c"
        (1 ∷ [])
        store).1.tables
materialize-Bounded_example =
    materialize-Bounded platform (λ _ _. true) port policy "Group" "c" (1 ∷ []) store refl

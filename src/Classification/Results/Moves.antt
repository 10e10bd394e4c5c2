-- ===== src/Classification/Results/Moves.antt =====
-- What a relation on states needs so that the processing of a result stays in it: most writes leave
-- the tree, the assignments, the time of the reconcile and the events' ids as they are, and a card moves to a child.
use hll.Prelude.{
  ℕ, String, ◌≡◌, refl, subst, Bool, true, false, ◌&&◌, Option, none, some, List, [], ◌∷◌, ◌++◌,
  arith, Bool-cases, Option-cases, inl, inr, ◌⊎◌, ◌==◌, is_some, any, find, if◌then◌else◌,
}
use hll.Exec.{Result, ok, err, pure, gets, ◌>>=◌, ◌>>◌}
use hll.Exec.Steps.{IsPreorder, Steps, bind_at, Steps-pure, Steps-raise, steps_rules}
use hll.SourcePipeline.Model.{update_row}
use hll.KnowledgeGraph.Model.{TaxonomyScopeIdentity}
use hll.Classification.Model.{
  Error, value_error, runtime_error, integrity_error, key_error, endless, client_error,
  TaxonomyNode, NodeTaxonomyAssignment, TaxonomyClassificationJob, ContinuationRequest, Services,
  State, Action, write_job,
}
use hll.Classification.Webhook.{event_named}
use hll.Classification.Taxonomy.{
  assignment_row, get_assignment_for_node, assign, scope_identities_of, set_current_assignment,
}
use hll.Classification.Results.{
  mark_job_terminal, mark_job_processed_error, record_continuation_request,
  record_projection_refresh_requests, is_child_named, child_named, resolve_target_taxonomy_node_id,
  move_assignment, keep_assignment, move_assignment_if_needed, valid_target, apply_result,
  store_result, process_accepted_result,
}

-- A child in the tree.
abbrev pub is_child : ℕ → ℕ → TaxonomyNode → Bool
is_child parent_id id n = elim n.parent_id [ none ↦ false | some p ↦ p == parent_id ] && n.id == id

abbrev pub has_child : ℕ → ℕ → List TaxonomyNode → Bool
has_child parent_id id nodes = any (is_child parent_id id) nodes

pub record SameCards (s t : State) : Type 0 where
  pub tree : t.taxonomy_nodes ≡ s.taxonomy_nodes
  pub assigned : t.assignments ≡ s.assignments
  pub last : t.last_reconcile_at ≡ s.last_reconcile_at
  pub named :
      (event_id : String)
      → is_some (event_named event_id s) ≡ true
      → is_some (event_named event_id t) ≡ true

-- The card is in the scope, and the scope has the child.
pub record CanMove (s : State) (node_id target : ℕ) : Type 0 where
  pub assignment : NodeTaxonomyAssignment
  pub found : assignment_row node_id s ≡ some assignment
  pub child : has_child assignment.taxonomy_node_id target s.taxonomy_nodes ≡ true

pub record Closed (R : State → State → Type 0) : Type 0 where
  pub order : IsPreorder R
  pub same : (s t : State) → SameCards s t → R s t
  pub move :
      (node_id target now : ℕ) (s : State)
      → CanMove s node_id target
      → R s (set_current_assignment node_id target now s).1

pub set_current_assignment_state :
    (node_id target now : ℕ) (s : State)
    → (set_current_assignment node_id target now s).1 ≡ assign node_id target now s
unfolding set_current_assignment
set_current_assignment_state node_id target now s =
    elim (Option-cases (get_assignment_for_node node_id (assign node_id target now s))) [
      | inl e ↦ rw (set_current_assignment, e) refl
      | inr e ↦ rw (set_current_assignment, e.1) refl
    ]

abbrev pub moved_row : ℕ → ℕ → NodeTaxonomyAssignment → NodeTaxonomyAssignment
moved_row target now r = record r { taxonomy_node_id = target; assigned_at = now }

pub assign_found :
    (node_id target now : ℕ) (s : State) (a : NodeTaxonomyAssignment)
    → assignment_row node_id s ≡ some a
    → assign node_id target now s ≡ record s {
      tables = record s.tables {
        assignments = update_row (λ r. r.node_id) node_id (moved_row target now) s.assignments;
      };
    }
unfolding assign
assign_found node_id target now s a e = rw (assign, e) refl

pub data Target (nodes : List TaxonomyNode) (scope target : ℕ) : Type 0 where
  itself : scope ≡ target → Target nodes scope target
  child : has_child scope target nodes ≡ true → Target nodes scope target

child_listed :
    (svc : Services) (parent_id : ℕ) (name : String) (nodes : List TaxonomyNode) (n : TaxonomyNode)
    → find (is_child_named svc parent_id name) nodes ≡ some n
    → has_child parent_id n.id nodes ≡ true
child_listed svc parent_id name [] n h = cc
child_listed svc parent_id name (m ∷ nodes) n h =
    ground (arith, child_listed svc parent_id name nodes n)

-- A target is the scope itself or one of its children.
pub resolve-Target :
    (svc : Services) (scope : ℕ) (name : String) (nodes : List TaxonomyNode) (id : ℕ)
    → resolve_target_taxonomy_node_id svc scope name nodes ≡ ok id
    → Target nodes scope id
unfolding resolve_target_taxonomy_node_id
resolve-Target svc scope name nodes id h = go _ h
  where
    target : String
    target = svc.strip name

    child_case :
        (found : Option TaxonomyNode)
        → find (is_child_named svc scope target) nodes ≡ found
        → (elim found [ none ↦ err (value_error "unknown child target") | some n ↦ ok n.id ])
          ≡ ok id
        → Target nodes scope id
    child_case none e k = cc
    child_case (some n) e k = child (
        subst (λ i. has_child scope i nodes ≡ true) (ground arith)
          (child_listed svc scope target nodes n e))

    go :
        (b : Bool)
        → (if b then ok scope else child_named svc scope target nodes) ≡ ok id
        → Target nodes scope id
    go true k = itself (ground arith)
    go false k = child_case (find (is_child_named svc scope target) nodes) refl k

can_move :
    (node_id source target : ℕ) (s : State) (a : NodeTaxonomyAssignment)
    → assignment_row node_id s ≡ some a
    → a.taxonomy_node_id == source ≡ true
    → a.taxonomy_node_id == target ≡ false
    → Target s.taxonomy_nodes source target
    → CanMove s node_id target
can_move node_id source target s a e here goes (itself same) = record {
  assignment = a;
  found = e;
  child = ground (arith, same);
}
can_move node_id source target s a e here goes (child h) = record {
  assignment = a;
  found = e;
  child = subst (λ k. has_child k target s.taxonomy_nodes ≡ true) (ground (arith, here)) h;
}

Result-cases :
    {A : Type 0} (r : Result Error A) → ((a : A) × (r ≡ ok a)) ⊎ ((e : Error) × (r ≡ err e))
Result-cases (ok a) = inl (a, refl)
Result-cases (err e) = inr (e, refl)

module _ {R : State → State → Type 0} (closed : Closed R) where
  open closed use {order, same}

  pub same_step : {A : Type 0} (m : Action A) → ((s : State) → SameCards s (m s).1) → Steps R m
  same_step m h = record { at = λ s. same s (m s).1 (h s) }

  pub write_job_step :
      (id : ℕ) (f : TaxonomyClassificationJob → TaxonomyClassificationJob)
      → Steps R (write_job id f)
  unfolding write_job
  write_job_step id f =
      same_step (write_job id f)
        (λ s. record { tree = refl; assigned = refl; last = refl; named = λ id h. h })

  pub mark_job_terminal_step :
      (id : ℕ) (state : String) (now : ℕ) → Steps R (mark_job_terminal id state now)
  unfolding mark_job_terminal
  mark_job_terminal_step id state now = write_job_step id _

  pub mark_job_processed_error_step :
      (id : ℕ) (e : Error) (now : ℕ) → Steps R (mark_job_processed_error id e now)
  unfolding mark_job_processed_error
  mark_job_processed_error_step id e now = write_job_step id _

  continuation_same :
      (scope node_id source now : ℕ) (s : State)
      → SameCards s (record_continuation_request scope node_id source now s).1
  unfolding record_continuation_request
  continuation_same scope node_id source now s =
      elim (Option-cases (
        find (λ (r : ContinuationRequest). r.scope_node_id == scope && r.node_id == node_id)
          s.continuations)) [
            | inl e ↦
                rw (record_continuation_request, e)
                  (record { tree = refl; assigned = refl; last = refl; named = λ id h. h })
            | inr e ↦
                rw (record_continuation_request, e.1)
                  (record { tree = refl; assigned = refl; last = refl; named = λ id h. h })
          ]

  record_continuation_request_step :
      (scope node_id source now : ℕ)
      → Steps R (record_continuation_request scope node_id source now)
  record_continuation_request_step scope node_id source now =
      same_step (record_continuation_request scope node_id source now)
        (continuation_same scope node_id source now)

  module _ (svc : Services) where
    record_refreshes_step :
        (scopes : List TaxonomyScopeIdentity) (now : ℕ)
        → Steps R (record_projection_refresh_requests svc scopes now)
    unfolding record_projection_refresh_requests
    record_refreshes_step scopes now =
        same_step (record_projection_refresh_requests svc scopes now)
          (λ s. record { tree = refl; assigned = refl; last = refl; named = λ id h. h })

    keep_assignment_step : (node_id now : ℕ) → Steps R (keep_assignment svc node_id now)
    unfolding keep_assignment
    keep_assignment_step node_id now = search (steps_rules, record_refreshes_step, order) depth 6

    moved : ℕ → ℕ → ℕ → ℕ → List TaxonomyScopeIdentity → Action Unit
    moved node_id source_job_id target now previous =
        gets (scope_identities_of node_id) >>= λ current.
        (record_projection_refresh_requests svc (previous ++ current) now
          >> record_continuation_request target node_id source_job_id now)

    moved_step :
        (node_id source_job_id target now : ℕ) (previous : List TaxonomyScopeIdentity)
        → Steps R (moved node_id source_job_id target now previous)
    unfolding moved
    moved_step node_id source_job_id target now previous =
        search (steps_rules, record_refreshes_step, record_continuation_request_step, order) depth 8

    move_at :
        (node_id source_job_id target now : ℕ) (s : State)
        → CanMove s node_id target
        → R s (move_assignment svc node_id source_job_id target now s).1
    unfolding move_assignment moved ◌>>=◌
    move_at node_id source_job_id target now s can =
        bind_at order (set_current_assignment node_id target now)
          (λ _. moved node_id source_job_id target now (scope_identities_of node_id s)) s
          (closed.move node_id target now s can)
          (λ _. moved_step node_id source_job_id target now (scope_identities_of node_id s))

    move_if_needed_at :
        (node_id source_job_id source target now : ℕ) (s : State)
        → Target s.taxonomy_nodes source target
        → R s (move_assignment_if_needed svc node_id source_job_id source target now s).1
    unfolding move_assignment_if_needed
    move_if_needed_at node_id source_job_id source target now s t =
        elim (Option-cases (assignment_row node_id s)) [
          | inl e ↦ rw (move_assignment_if_needed, e) (order.reflexive s)
          | inr (a, e) ↦
              rw (move_assignment_if_needed, e)
                (elim (Bool-cases (a.taxonomy_node_id == source)) [
                  | inr away ↦ rw away (order.reflexive s)
                  | inl here ↦ rw here (elim (Bool-cases (a.taxonomy_node_id == target)) [
                    | inl stays ↦ rw stays ((keep_assignment_step node_id now).at s)
                    | inr goes ↦ rw goes (
                        move_at node_id source_job_id target now s
                          (can_move node_id source target s a e here goes t))
                  ])
                ])
        ]

    apply_result_at :
        (job : TaxonomyClassificationJob) (payload : String) (now : ℕ) (s : State)
        → R s (apply_result svc job payload now s).1
    unfolding apply_result ◌>>=◌
    apply_result_at job payload now s =
        elim (Result-cases (valid_target svc (svc.parse_result payload))) [
          | inr (x, e) ↦ rw e (order.reflexive s)
          | inl (name, e) ↦
              rw e
                (elim (Result-cases
                  (resolve_target_taxonomy_node_id svc job.scope_node_id name s.taxonomy_nodes)) [
                    | inr (x, k) ↦ rw k (order.reflexive s)
                    | inl (id, k) ↦ rw k (
                        bind_at order
                          (move_assignment_if_needed svc job.node_id job.id job.scope_node_id id
                            now)
                          (λ _. pure name) s
                          (move_if_needed_at job.node_id job.id job.scope_node_id id now s
                            (resolve-Target svc job.scope_node_id name s.taxonomy_nodes id k))
                          (λ _. Steps-pure order name))
                  ])
        ]

    store_result_step :
        (job : TaxonomyClassificationJob) (now : ℕ) (r : Result Error String)
        → Steps R (store_result svc job now r)
    store_result_step job now (ok name) = write_job_step job.id _
    store_result_step job now (err (value_error m)) =
        mark_job_processed_error_step job.id (value_error m) now
    store_result_step job now (err (runtime_error m)) = Steps-raise order (runtime_error m)
    store_result_step job now (err integrity_error) = Steps-raise order integrity_error
    store_result_step job now (err key_error) = Steps-raise order key_error
    store_result_step job now (err endless) = Steps-raise order endless
    store_result_step job now (err (client_error m)) = Steps-raise order (client_error m)

    pub process_accepted_result_step :
        (job : TaxonomyClassificationJob) (payload : String) (now : ℕ)
        → Steps R (process_accepted_result svc job payload now)
    unfolding process_accepted_result
    process_accepted_result_step job payload now = record {
      at = λ s. elim (Option-cases job.processed_at) [
        | inr (at, e) ↦ rw e (order.reflexive s)
        | inl e ↦ rw e (
            order.transitive s (apply_result svc job payload now s).1 _
              (apply_result_at job payload now s)
              ((store_result_step job now (apply_result svc job payload now s).0).at
                (apply_result svc job payload now s).1))
      ];
    }

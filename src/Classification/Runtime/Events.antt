-- ===== src/Classification/Runtime/Events.antt =====
-- The events and the refreshes of a tick stay in a closed relation on states.
use hll.Prelude.{
  ℕ, ◌+◌, String, ◌≡◌, refl, ap, true, false, Option, none, some, List, [], ◌∷◌, Option-cases, inl,
  inr, str_eq, is_some, if◌then◌else◌,
}
use mathlib.Core.Option
use hll.Exec.{modify}
use hll.Exec.Steps.{Steps, Steps-pure, Steps-bind, Steps-try_except, steps_rules}
use hll.SourcePipeline.Model.Rows.{find-update_row}
use hll.KnowledgeGraph.Model.{TaxonomyScopeIdentity}
use hll.Classification.Model.{
  Error, TaxonomyClassificationJob, TaxonomyClassificationWebhookEvent, ProjectionRefreshRequest,
  ResultReadItem, Services, State,
}
use hll.Classification.Webhook.{event_named, write_event, drop_wakeup, mark_processed, mark_failed}
use hll.Classification.Taxonomy.{
  clear_projected_edge_ids_for_scope, add_projected_edge_ids_for_scope,
}
use hll.Classification.Results.{read_results, read_batches, result_items_by_job_id}
use hll.Classification.Results.Moves.{
  SameCards, Closed, same_step, write_job_step, mark_job_terminal_step,
  process_accepted_result_step,
}
use hll.Classification.Runtime.{
  Read, read, unread, process_accepted_event, process_webhook_event, process_or_fail, read_accepted,
  fail_events, process_events, process_pending_webhook_events, reconcile_item, mark_terminal_state,
  reconcile_by_id, reconcile_job, note_failure, write_refresh, delete_refresh,
  refresh_scope_projection, serve_refresh, serve_refreshes, drain_projection_refresh_requests,
}

-- The id of an event stays.
abbrev pub SameId :
    (TaxonomyClassificationWebhookEvent → TaxonomyClassificationWebhookEvent) → Type 0
SameId f = (e : TaxonomyClassificationWebhookEvent) → (f e).event_id ≡ e.event_id

is_some-map :
    {A B : Type 0} (f : A → B) (o : Option A) → is_some o ≡ true → is_some (Option.map f o) ≡ true
is_some-map f none h = cc
is_some-map f (some a) h = refl

write_event_same :
    (event_id : String)
    (f : TaxonomyClassificationWebhookEvent → TaxonomyClassificationWebhookEvent) (s : State)
    → SameId f
    → SameCards s (write_event event_id f s).1
unfolding write_event
write_event_same event_id f s keeps = elim (Option-cases (event_named event_id s)) [
  | inl e ↦
      rw (write_event, e) (record { tree = refl; assigned = refl; last = refl; named = λ id h. h })
  | inr (a, e) ↦
      rw (write_event, e)
        (record {
          tree = refl;
          assigned = refl;
          last = refl;
          named = λ id h.
              rw
                (find-update_row (λ (r : TaxonomyClassificationWebhookEvent). str_eq r.event_id id)
                  (λ r. r.id) a.id f s.events (λ r. ap (λ x. str_eq x id) (keeps r)))
                (is_some-map _ (event_named id s) h);
        })
]

module _ {R : State → State → Type 0} (closed : Closed R) where
  open closed use {order, same}

  write_event_step :
      (event_id : String)
      (f : TaxonomyClassificationWebhookEvent → TaxonomyClassificationWebhookEvent)
      → SameId f
      → Steps R (write_event event_id f)
  write_event_step event_id f keeps =
      same_step closed (write_event event_id f) (λ s. write_event_same event_id f s keeps)

  -- a modification that does not touch the cards
  pub modify_step :
      (f : State → State) → ((s : State) → SameCards s (f s)) → Steps R (modify {E = Error} f)
  modify_step f h = same_step closed (modify f) h

  pub mark_processed_step : (event_id : String) (now : ℕ) → Steps R (mark_processed event_id now)
  unfolding mark_processed
  mark_processed_step event_id now =
      Steps-bind order (write_event event_id _) _ (write_event_step event_id _ (λ e. refl)) (λ _.
        modify_step (drop_wakeup event_id)
          (λ s. record { tree = refl; assigned = refl; last = refl; named = λ id h. h }))

  pub mark_failed_step :
      (event_id : String) (e : Error) (now : ℕ) → Steps R (mark_failed event_id e now)
  unfolding mark_failed
  mark_failed_step event_id e now = write_event_step event_id _ (λ e. refl)

  clear_step : (scope : TaxonomyScopeIdentity) → Steps R (clear_projected_edge_ids_for_scope scope)
  unfolding clear_projected_edge_ids_for_scope
  clear_step scope =
      modify_step _ (λ s. record { tree = refl; assigned = refl; last = refl; named = λ id h. h })

  add_step :
      (scope : TaxonomyScopeIdentity) (ids : List ℕ)
      → Steps R (add_projected_edge_ids_for_scope scope ids)
  unfolding add_projected_edge_ids_for_scope
  add_step scope ids =
      modify_step _ (λ s. record { tree = refl; assigned = refl; last = refl; named = λ id h. h })

  module _ (svc : Services) where
    read_results_step : (ids : List ℕ) → Steps R (read_results svc ids)
    unfolding read_results
    read_results_step ids =
        same_step closed (read_results svc ids)
          (λ s. record { tree = refl; assigned = refl; last = refl; named = λ id h. h })

    read_batches_step :
        (batches : List (List ℕ)) (found : List ResultReadItem)
        → Steps R (read_batches svc batches found)
    unfolding read_batches
    read_batches_step [] found = Steps-pure order found
    read_batches_step (batch ∷ batches) found =
        search (steps_rules, read_results_step, read_batches_step batches, order) depth 8

    pub result_items_step : (ids : List ℕ) → Steps R (result_items_by_job_id svc ids)
    unfolding result_items_by_job_id
    result_items_step ids = read_batches_step _ []

    module _ (now : ℕ) where
      process_accepted_event_step :
          (event : TaxonomyClassificationWebhookEvent) (items : List ResultReadItem)
          (job : TaxonomyClassificationJob)
          → Steps R (process_accepted_event svc now event items job)
      unfolding process_accepted_event
      process_accepted_event_step event items job =
          search (steps_rules, process_accepted_result_step closed svc, order) depth 8

      pub process_webhook_event_step :
          (event : TaxonomyClassificationWebhookEvent) (items : List ResultReadItem)
          → Steps R (process_webhook_event svc now event items)
      unfolding process_webhook_event
      process_webhook_event_step event items =
          search (steps_rules, process_accepted_event_step, mark_job_terminal_step closed, order)
            depth 12

      pub process_or_fail_step :
          (items : List ResultReadItem) (event : TaxonomyClassificationWebhookEvent)
          → Steps R (process_or_fail svc now items event)
      unfolding process_or_fail
      process_or_fail_step items event =
          search
            (
              steps_rules, Steps-try_except, process_webhook_event_step, mark_processed_step,
              mark_failed_step, order,
            )
            depth 8

      pub read_accepted_step :
          (events : List TaxonomyClassificationWebhookEvent)
          → Steps R (read_accepted svc now events)
      unfolding read_accepted
      read_accepted_step events =
          search (steps_rules, Steps-try_except, result_items_step, order) depth 8

      pub fail_events_step :
          (e : Error) (events : List TaxonomyClassificationWebhookEvent)
          → Steps R (fail_events svc now e events)
      unfolding fail_events
      fail_events_step e events = search (steps_rules, mark_failed_step, order) depth 6

      process_events_step :
          (events : List TaxonomyClassificationWebhookEvent) (r : Read)
          → Steps R (process_events svc now events r)
      unfolding process_events
      process_events_step events (read items) =
          search (steps_rules, process_or_fail_step, order) depth 6
      process_events_step events (unread e) =
          search (steps_rules, process_or_fail_step, fail_events_step, order) depth 8

      pub process_pending_webhook_events_step :
          (n : ℕ) → Steps R (process_pending_webhook_events svc now n)
      unfolding process_pending_webhook_events
      process_pending_webhook_events_step n =
          search (steps_rules, read_accepted_step, process_events_step, order) depth 8

      mark_terminal_state_step :
          (job : TaxonomyClassificationJob) (state : Option String)
          → Steps R (mark_terminal_state svc now job state)
      mark_terminal_state_step job none = Steps-pure order tt
      mark_terminal_state_step job (some state) = mark_job_terminal_step closed job.id state now

      reconcile_item_step :
          (job : TaxonomyClassificationJob) (item : ResultReadItem)
          → Steps R (reconcile_item svc now job item)
      unfolding reconcile_item
      reconcile_item_step job item =
          search
            (
              steps_rules,
              process_accepted_result_step closed svc,
              mark_terminal_state_step,
              write_job_step closed,
              order,
            )
            depth 10

      reconcile_by_id_step :
          (items : List ResultReadItem) (job : TaxonomyClassificationJob) (id : Option ℕ)
          → Steps R (reconcile_by_id svc now items job id)
      unfolding reconcile_by_id
      reconcile_by_id_step items job none = Steps-pure order tt
      reconcile_by_id_step items job (some id) =
          search (steps_rules, reconcile_item_step, order) depth 6

      pub reconcile_job_step :
          (items : List ResultReadItem) (job : TaxonomyClassificationJob)
          → Steps R (reconcile_job svc now items job)
      unfolding reconcile_job
      reconcile_job_step items job = reconcile_by_id_step items job job.job_id

      refresh_scope_projection_step :
          (scope : TaxonomyScopeIdentity) → Steps R (refresh_scope_projection svc now scope)
      unfolding refresh_scope_projection
      refresh_scope_projection_step scope =
          search (steps_rules, clear_step, add_step, order) depth 8

      serve_refresh_step :
          (request : ProjectionRefreshRequest) → Steps R (serve_refresh svc now request)
      unfolding serve_refresh
      serve_refresh_step request =
          Steps-try_except order _ _
            (Steps-bind order _ _ (refresh_scope_projection_step request.scope) (λ _.
              Steps-bind order (modify (delete_refresh svc now request.scope)) _
                (modify_step (delete_refresh svc now request.scope)
                  (λ s. record { tree = refl; assigned = refl; last = refl; named = λ id h. h }))
                (λ _. Steps-pure order true)))
            (λ e.
              Steps-bind order
                (modify (write_refresh svc now request.scope (note_failure svc now e))) _
                (modify_step (write_refresh svc now request.scope (note_failure svc now e))
                  (λ s. record { tree = refl; assigned = refl; last = refl; named = λ id h. h }))
                (λ _. Steps-pure order false))

      serve_refreshes_step :
          (requests : List ProjectionRefreshRequest) (count : ℕ)
          → Steps R (serve_refreshes svc now requests count)
      unfolding serve_refreshes
      serve_refreshes_step [] count = Steps-pure order count
      serve_refreshes_step (request ∷ requests) count =
          Steps-bind order (serve_refresh svc now request) _ (serve_refresh_step request)
            (λ served. serve_refreshes_step requests (if served then count + 1 else count))

      pub drain_refreshes_step : (n : ℕ) → Steps R (drain_projection_refresh_requests svc now n)
      unfolding drain_projection_refresh_requests
      drain_refreshes_step n = search (steps_rules, serve_refreshes_step, order) depth 6

-- ===== src/Classification/Runtime.antt =====
-- modules/taxonomy_classification/runtime.py: the parts of a tick.
pub mod Events
pub mod Batch
pub mod Refreshes
use hll.Prelude.{
  ℕ, ◌+◌, ◌-◌, String, Bool, true, false, not, ◌&&◌, ◌||◌, Option, none, some, List, [], ◌∷◌, ◌++◌,
  map, str_eq, ltb, leb, ◌==◌, if◌then◌else◌, is_none, is_some, find, filter, any, take, sort,
  length,
}
use hll.Exec.{Result, ok, err, pure, raise, lift, gets, modify, ◌>>=◌, ◌>>◌, for_each, try_except}
use hll.KnowledgeGraph.Model.{TaxonomyScopeIdentity}
use hll.Classification.Model.{
  Error, value_error, runtime_error, TaxonomyClassificationJob, TaxonomyClassificationWebhookEvent,
  ProjectionRefreshRequest, ResultReadItem, Services, State, Action, is_open, write_job, same_scope,
}
use hll.Classification.Chunks.{max_job_queue_batch_size}
use hll.Classification.Webhook.{
  list_pending_events, mark_processed, mark_failed, result_accepted, job_terminal_non_accepted,
}
use hll.Classification.Taxonomy.{
  list_assigned_node_ids_for_scope, fetch_adjacent_edge_ids_for_node_ids,
  clear_projected_edge_ids_for_scope, add_projected_edge_ids_for_scope,
}
use hll.Classification.Results.{
  is_terminal_non_accepted, required_item, accepted_result_from_item, require_ready_result_item,
  mark_job_terminal, update_refresh, scope_key_le, result_items_by_job_id, process_accepted_result,
}

-- The constructor's arguments; an interval is a number of the clock's ticks.
pub record Settings : Type 0 where
  pub queue_name : Option String
  pub poll_batch_size : ℕ
  pub reconcile_interval : ℕ
  pub reconcile_batch_size : ℕ
  pub continuation_request_batch_size : ℕ
  pub continuation_flush_interval : ℕ
  pub projection_refresh_batch_size : ℕ

abbrev pub names_no_queue : Option String → Bool
names_no_queue none = false
names_no_queue (some name) = str_eq name ""

-- The checks of `__init__`
unfoldable pub new_runtime : Settings → Result Error Settings
new_runtime c =
    if ltb c.poll_batch_size 1
    then err (value_error "poll_batch_size")
    else (if ltb c.reconcile_batch_size 1
        then err (value_error "reconcile_batch_size")
        else (if ltb c.continuation_request_batch_size 1
              || ltb max_job_queue_batch_size c.continuation_request_batch_size
            then err (value_error "continuation_request_batch_size")
            else (if ltb c.projection_refresh_batch_size 1
                then err (value_error "projection_refresh_batch_size")
                else (if c.reconcile_interval == 0
                    then err (value_error "reconcile_interval_seconds")
                    else (if c.continuation_flush_interval == 0
                        then err (value_error "continuation_flush_interval_seconds")
                        else (if names_no_queue c.queue_name
                            then err (value_error "queue_name")
                            else ok c))))))

abbrev pub job_of : Option TaxonomyClassificationJob → Result Error TaxonomyClassificationJob
job_of none = err (value_error "job does not exist")
job_of (some j) = ok j

abbrev pub has_job_id : ℕ → TaxonomyClassificationJob → Bool
has_job_id job_id j = elim j.job_id [ none ↦ false | some id ↦ id == job_id ]

unfoldable pub job_for_update : ℕ → State → Result Error TaxonomyClassificationJob
job_for_update job_id s = job_of (find (has_job_id job_id) s.jobs)

unfoldable pub require_terminal_state : Option String → Result Error String
require_terminal_state none = err (runtime_error "terminal state")
require_terminal_state (some state) =
    if str_eq state "" then err (runtime_error "terminal state") else ok state

abbrev pub is_accepted : TaxonomyClassificationWebhookEvent → Bool
is_accepted e = str_eq e.event_type result_accepted

-- The accepted results that could be read, or the error that fails the accepted events.
pub data Read : Type 0 where
  read : List ResultReadItem → Read
  unread : Error → Read

module _ (svc : Services) (now : ℕ) where
  unfoldable pub process_accepted_event :
      TaxonomyClassificationWebhookEvent
      → List ResultReadItem
      → TaxonomyClassificationJob
      → Action Unit
  unfolding require_ready_result_item accepted_result_from_item process_accepted_result ◌>>=◌
  process_accepted_event event items job =
      lift (require_ready_result_item event.job_id items) >>= λ item.
      lift (accepted_result_from_item item) >>= λ payload.
      process_accepted_result svc job payload now

  unfoldable pub process_webhook_event :
      TaxonomyClassificationWebhookEvent → List ResultReadItem → Action Unit
  unfolding job_for_update process_accepted_event require_terminal_state mark_job_terminal ◌>>=◌
  process_webhook_event event items = gets (job_for_update event.job_id) >>= λ found.
      lift found >>= λ job.
      (if is_accepted event
        then process_accepted_event event items job
        else (if str_eq event.event_type job_terminal_non_accepted
            then (lift (require_terminal_state event.terminal_state) >>= λ state.
                mark_job_terminal job.id state now)
            else raise (value_error "unsupported event type")))

  unfoldable pub process_or_fail :
      List ResultReadItem → TaxonomyClassificationWebhookEvent → Action Unit
  unfolding process_webhook_event mark_processed mark_failed try_except ◌>>=◌
  process_or_fail items event =
      try_except (process_webhook_event event items >> mark_processed event.event_id now)
        (λ e. mark_failed event.event_id e now)

  abbrev pub accepted_job_ids : List TaxonomyClassificationWebhookEvent → List ℕ
  accepted_job_ids events = map (λ e. e.job_id) (filter is_accepted events)

  unfoldable pub read_accepted : List TaxonomyClassificationWebhookEvent → Action Read
  unfolding result_items_by_job_id try_except ◌>>=◌
  read_accepted events =
      if any is_accepted events
      then try_except
          (result_items_by_job_id svc (accepted_job_ids events) >>= λ items. pure (read items))
          (λ e. pure (unread e))
      else pure (read [])

  unfoldable pub fail_events : Error → List TaxonomyClassificationWebhookEvent → Action Unit
  unfolding mark_failed for_each
  fail_events e events = for_each events (λ event. mark_failed event.event_id e now)

  -- An event whose id has failed is passed over.
  abbrev pub has_failed :
      List TaxonomyClassificationWebhookEvent → TaxonomyClassificationWebhookEvent → Bool
  has_failed failed event =
      any (λ (f : TaxonomyClassificationWebhookEvent). str_eq f.event_id event.event_id) failed

  unfoldable pub process_events : List TaxonomyClassificationWebhookEvent → Read → Action Unit
  unfolding process_or_fail fail_events for_each ◌>>=◌
  process_events events (read items) = for_each events (process_or_fail items)
  process_events events (unread e) =
      let failed = filter is_accepted events in
      fail_events e failed
      >> for_each (filter (λ event. not (has_failed failed event)) events) (process_or_fail [])

  unfoldable pub process_pending_webhook_events : ℕ → Action ℕ
  unfolding list_pending_events read_accepted process_events ◌>>=◌
  process_pending_webhook_events poll_batch_size =
      gets (list_pending_events poll_batch_size) >>= λ events.
      read_accepted events >>= λ results. (process_events events results >> pure (length events))

  abbrev pub to_reconcile : TaxonomyClassificationJob → Bool
  to_reconcile j = is_open j && is_some j.job_id

  abbrev pub remote_ids : List TaxonomyClassificationJob → List ℕ
  remote_ids [] = []
  remote_ids (j ∷ jobs) = elim j.job_id [ none ↦ remote_ids jobs | some id ↦ id ∷ remote_ids jobs ]

  abbrev pub mark_not_found : TaxonomyClassificationJob → Action Unit
  mark_not_found job =
      write_job job.id
        (λ j. record j { last_error = some (runtime_error "not found"); updated_at = now })

  abbrev pub mark_terminal_state : TaxonomyClassificationJob → Option String → Action Unit
  mark_terminal_state job none = pure tt
  mark_terminal_state job (some state) = mark_job_terminal job.id state now

  unfoldable pub reconcile_item : TaxonomyClassificationJob → ResultReadItem → Action Unit
  unfolding accepted_result_from_item process_accepted_result mark_job_terminal write_job ◌>>=◌
  reconcile_item job item =
      if str_eq item.status "ready"
      then (lift (accepted_result_from_item item) >>= λ payload.
          process_accepted_result svc job payload now)
      else (if str_eq item.status "not_ready"
          then (if is_terminal_non_accepted item.state
              then mark_terminal_state job item.state
              else pure tt)
          else (if str_eq item.status "not_found"
              then mark_not_found job
              else raise (value_error "unsupported status")))

  unfoldable pub reconcile_by_id :
      List ResultReadItem → TaxonomyClassificationJob → Option ℕ → Action Unit
  unfolding reconcile_item ◌>>=◌
  reconcile_by_id items job none = pure tt
  reconcile_by_id items job (some id) =
      lift (required_item id items) >>= λ item. reconcile_item job item

  unfoldable pub reconcile_job : List ResultReadItem → TaxonomyClassificationJob → Action Unit
  unfolding reconcile_by_id
  reconcile_job items job = reconcile_by_id items job job.job_id

  abbrev pub set_last_reconcile : Action Unit
  set_last_reconcile = modify (λ s. record s { last_reconcile_at = some now })

  unfoldable pub reconcile_jobs : ℕ → Action Bool
  unfolding result_items_by_job_id reconcile_job for_each ◌>>=◌
  reconcile_jobs batch_size =
      set_last_reconcile
      >> (gets (λ s. take batch_size (filter to_reconcile s.jobs)) >>= λ jobs.
          result_items_by_job_id svc (remote_ids jobs) >>= λ items.
          (for_each jobs (reconcile_job items) >> pure (ltb 0 (length jobs))))

  unfoldable pub reconcile_after : ℕ → ℕ → Option ℕ → Action Bool
  unfolding reconcile_jobs ◌>>=◌
  reconcile_after interval batch_size none = set_last_reconcile >> pure false
  reconcile_after interval batch_size (some at) =
      if ltb (now - at) interval then pure false else reconcile_jobs batch_size

  unfoldable pub run_low_frequency_reconcile : ℕ → ℕ → Action Bool
  unfolding reconcile_after ◌>>=◌
  run_low_frequency_reconcile interval batch_size =
      gets (λ s. s.last_reconcile_at) >>= λ last. reconcile_after interval batch_size last

  unfoldable pub refresh_scope_projection : TaxonomyScopeIdentity → Action Unit
  unfolding list_assigned_node_ids_for_scope fetch_adjacent_edge_ids_for_node_ids
      clear_projected_edge_ids_for_scope add_projected_edge_ids_for_scope ◌>>=◌
  refresh_scope_projection scope = gets (list_assigned_node_ids_for_scope scope) >>= λ inner.
      gets (fetch_adjacent_edge_ids_for_node_ids inner) >>= λ edges.
      (clear_projected_edge_ids_for_scope scope >> add_projected_edge_ids_for_scope scope edges)

  abbrev pub write_refresh :
      TaxonomyScopeIdentity → (ProjectionRefreshRequest → ProjectionRefreshRequest) → State → State
  write_refresh scope f s = record s {
    tables = record s.tables { refreshes = update_refresh scope f s.refreshes };
  }

  abbrev pub note_failure : Error → ProjectionRefreshRequest → ProjectionRefreshRequest
  note_failure e r = record r { last_error = some e; updated_at = now }

  abbrev pub delete_refresh : TaxonomyScopeIdentity → State → State
  delete_refresh scope s = record s {
    tables = record s.tables {
      refreshes =
          filter (λ (r : ProjectionRefreshRequest). not (same_scope r.scope scope)) s.refreshes;
    };
  }

  -- One turn of the loop: whether the request was served.
  unfoldable pub serve_refresh : ProjectionRefreshRequest → Action Bool
  unfolding refresh_scope_projection update_refresh try_except ◌>>=◌
  serve_refresh request =
      try_except
        (refresh_scope_projection request.scope
          >> (modify (delete_refresh request.scope) >> pure true))
        (λ e. modify (write_refresh request.scope (note_failure e)) >> pure false)

  unfoldable pub serve_refreshes : List ProjectionRefreshRequest → ℕ → Action ℕ
  unfolding serve_refresh ◌>>=◌
  serve_refreshes [] count = pure count
  serve_refreshes (request ∷ requests) count = serve_refresh request >>= λ served.
      serve_refreshes requests (if served then count + 1 else count)

  -- `order_by(updated_at, scope_kind, taxonomy_node_id)`
  abbrev pub refresh_le : ProjectionRefreshRequest → ProjectionRefreshRequest → Bool
  refresh_le a b =
      ltb a.updated_at b.updated_at
      || a.updated_at == b.updated_at && scope_key_le svc a.scope b.scope

  unfoldable pub drain_projection_refresh_requests : ℕ → Action ℕ
  unfolding sort serve_refreshes ◌>>=◌
  drain_projection_refresh_requests batch_size =
      gets (λ s. take batch_size (sort refresh_le s.refreshes)) >>= λ requests.
      serve_refreshes requests 0

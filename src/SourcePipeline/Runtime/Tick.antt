-- ===== src/SourcePipeline/Runtime/Tick.antt =====
-- Webhook events, the low-frequency reconcile, and the tick that orders them.
pub mod Closure
pub mod Commit
pub mod Events
use hll.Prelude.{
  ℕ, ◌+◌, String, Bool, false, not, ◌&&◌, Option, none, some, List, map, str_eq, ◌==◌, ltb, leb,
  if◌then◌else◌, is_none, is_some, find, filter, take, sort, length,
}
use hll.Exec.{Result, ok, err, pure, raise, gets, modify, ◌>>=◌, ◌>>◌, for_each, try_except}
use hll.SourcePipeline.Model.{
  Exception, unsupported_event_type, missing_terminal_state, not_ready_despite_accepted,
  constructor_error, WorkflowUnit, CardCandidate, JobQueueWebhookEvent, Reply, accepted, not_ready,
  failed, Services, State, Action, unit_at,
}
use hll.SourcePipeline.Webhook.{list_pending_events, mark_processed, mark_failed}
use hll.SourcePipeline.Runtime.Jobs.{
  terminal_non_accepted_state, read_unit, write_unit, write_candidate, require_job_id, ask_result,
  submit_page_to_card,
}
use hll.SourcePipeline.Runtime.Candidates.{
  opt_is, ensure_initial_candidates, ensure_child_candidates, submit_missing_review_jobs,
  process_review_result, advance_candidates,
}

-- The parameters of `PipelineRuntimeService.__init__`; the interval is in clock ticks.
pub record Settings : Type 0 where
  pub poll_batch_size : ℕ
  pub reconcile_interval : ℕ
  pub reconcile_batch_size : ℕ

unfoldable pub make_settings : ℕ → ℕ → ℕ → Result Exception Settings
make_settings poll_batch_size reconcile_interval reconcile_batch_size =
    if ltb poll_batch_size 1
    then err (constructor_error "poll_batch_size must be at least 1")
    else if ltb reconcile_batch_size 1
    then err (constructor_error "reconcile_batch_size must be at least 1")
    else if leb reconcile_interval 0
    then err (constructor_error "reconcile_interval_seconds must be greater than 0")
    else ok (record {
      poll_batch_size = poll_batch_size;
      reconcile_interval = reconcile_interval;
      reconcile_batch_size = reconcile_batch_size;
    })

module _ {Payload : Type 0} where
  unfoldable pub unit_for_page_job : ℕ → State Payload → Option (WorkflowUnit Payload)
  unit_for_page_job job_id s = find (λ u. opt_is u.page_to_card_job_id job_id) s.units

  unfoldable pub candidate_for_review_job : ℕ → State Payload → Option CardCandidate
  candidate_for_review_job job_id s = find (λ c. opt_is c.review_job_id job_id) s.candidates

  unfoldable pub candidate_for_repair_job : ℕ → State Payload → Option CardCandidate
  candidate_for_repair_job job_id s = find (λ c. opt_is c.repair_job_id job_id) s.candidates

  -- `_process_terminal_non_accepted_job`, from its last lookup to its first
  terminal_repair : String → Option CardCandidate → Action Payload Unit
  terminal_repair state none = pure tt
  terminal_repair state (some c) =
      write_candidate c.id (λ r. record r { repair_terminal_state = some state })

  terminal_review : ℕ → String → Option CardCandidate → Action Payload Unit
  unfolding terminal_repair ◌>>=◌
  terminal_review job_id state none = do
    found ← gets (candidate_for_repair_job job_id)
    terminal_repair state found
  terminal_review job_id state (some c) =
      write_candidate c.id (λ r. record r { review_terminal_state = some state })

  terminal_unit : ℕ → String → Option (WorkflowUnit Payload) → Action Payload Unit
  unfolding terminal_review ◌>>=◌
  terminal_unit job_id state none = do
    found ← gets (candidate_for_review_job job_id)
    terminal_review job_id state found
  terminal_unit job_id state (some u) =
      write_unit u.id (λ r. record r { page_to_card_terminal_state = some state })

  unfoldable pub process_terminal_non_accepted_job : ℕ → String → Action Payload Unit
  unfolding terminal_unit ◌>>=◌
  process_terminal_non_accepted_job job_id terminal_state = do
    found ← gets (unit_for_page_job job_id)
    terminal_unit job_id terminal_state found

  require_terminal_state : Option String → Action Payload String
  require_terminal_state none = raise missing_terminal_state
  require_terminal_state (some state) = pure state

  pending_units : ℕ → State Payload → List (WorkflowUnit Payload)
  pending_units limit s = take limit (
      sort (λ (a b : WorkflowUnit Payload). leb a.id b.id)
        (filter (λ u. is_none u.page_to_card_job_id && is_none u.page_to_card_terminal_state)
          s.units))

  open_units : ℕ → State Payload → List (WorkflowUnit Payload)
  open_units limit s = take limit (
      sort (λ (a b : WorkflowUnit Payload). leb a.id b.id)
        (filter (λ u. is_some u.page_to_card_job_id && is_none u.page_to_card_terminal_state)
          s.units))

  commit : Action Payload Unit
  commit = modify (λ s. record s { committed = s.tables })

  module _ (svc : Services Payload) where
    accepted_or_raise : ℕ → Reply Payload → Action Payload Payload
    accepted_or_raise job_id (accepted payload) = pure payload
    accepted_or_raise job_id (not_ready state) = raise (not_ready_despite_accepted job_id)
    accepted_or_raise job_id (failed e) = raise e

    accepted_result : ℕ → Action Payload Payload
    unfolding accepted_or_raise ◌>>=◌
    accepted_result job_id = do reply ← ask_result svc job_id; accepted_or_raise job_id reply

    reviews_if_unit : ℕ → Option (WorkflowUnit Payload) → Action Payload Unit
    reviews_if_unit unit_id none = pure tt
    reviews_if_unit unit_id (some u) = submit_missing_review_jobs svc unit_id

    accepted_repair : ℕ → Option CardCandidate → Action Payload Unit
    unfolding accepted_result reviews_if_unit ◌>>=◌
    accepted_repair job_id none = pure tt
    accepted_repair job_id (some c) = do
      repair_result ← accepted_result job_id
      ensure_child_candidates svc c.id repair_result
      unit ← gets (unit_at c.workflow_unit_id)
      reviews_if_unit c.workflow_unit_id unit

    accepted_review : ℕ → Option CardCandidate → Action Payload Unit
    unfolding accepted_repair ◌>>=◌
    accepted_review job_id none = do
      found ← gets (candidate_for_repair_job job_id)
      accepted_repair job_id found
    accepted_review job_id (some c) = do
      review_result ← accepted_result job_id
      process_review_result svc c.id review_result

    accepted_page : ℕ → Option (WorkflowUnit Payload) → Action Payload Unit
    unfolding accepted_review ◌>>=◌
    accepted_page job_id none = do
      found ← gets (candidate_for_review_job job_id)
      accepted_review job_id found
    accepted_page job_id (some u) = do
      page_result ← accepted_result job_id
      ensure_initial_candidates svc u.id page_result
      submit_missing_review_jobs svc u.id

    unfoldable pub process_accepted_job_result : ℕ → Action Payload Unit
    unfolding accepted_page ◌>>=◌
    process_accepted_job_result job_id = do
      found ← gets (unit_for_page_job job_id)
      accepted_page job_id found

    unfoldable pub process_webhook_event : JobQueueWebhookEvent → Action Payload Unit
    unfolding require_terminal_state ◌>>=◌
    process_webhook_event event =
        if str_eq event.event_type "result.accepted"
        then process_accepted_job_result event.job_id
        else if str_eq event.event_type "job.terminal_non_accepted"
        then (do
          state ← require_terminal_state event.terminal_state
          process_terminal_non_accepted_job event.job_id state)
        else raise (unsupported_event_type event.event_type)

    unfoldable pub handle_event : ℕ → JobQueueWebhookEvent → Action Payload Unit
    unfolding try_except ◌>>=◌
    handle_event now event =
        try_except (do process_webhook_event event; mark_processed event.event_id now)
          (λ exc. mark_failed event.event_id exc now)

    -- The `except ResultNotReadyError` of the reconcile, and what follows an accepted page.
    on_page_reply : ℕ → Reply Payload → Action Payload Unit
    unfolding ◌>>=◌
    on_page_reply unit_id (accepted payload) = do
      ensure_initial_candidates svc unit_id payload
      advance_candidates svc unit_id
    on_page_reply unit_id (not_ready state) =
        if terminal_non_accepted_state state
        then write_unit unit_id (λ u. record u { page_to_card_terminal_state = state })
        else pure tt
    on_page_reply unit_id (failed e) = raise e

    reconcile_unit : ℕ → Action Payload Unit
    unfolding on_page_reply ◌>>=◌
    reconcile_unit unit_id = do
      unit ← read_unit unit_id
      job_id ← require_job_id unit.page_to_card_job_id
      reply ← ask_result svc job_id
      on_page_reply unit_id reply

    module _ (settings : Settings) where
      unfoldable pub submit_missing_page_to_card_jobs : Action Payload ℕ
      unfolding pending_units ◌>>=◌
      submit_missing_page_to_card_jobs = do
        units ← gets (pending_units settings.poll_batch_size)
        for_each (map (λ u. u.id) units) (submit_page_to_card svc)
        pure (length units)

      unfoldable pub process_pending_webhook_events : ℕ → Action Payload ℕ
      unfolding handle_event ◌>>=◌
      process_pending_webhook_events now = do
        events ← gets (list_pending_events settings.poll_batch_size)
        for_each events (handle_event now)
        pure (length events)

      reconcile_units : ℕ → Action Payload Bool
      unfolding open_units reconcile_unit ◌>>=◌
      reconcile_units now = do
        modify (λ s. record s { last_reconcile_at = some now })
        units ← gets (open_units settings.reconcile_batch_size)
        for_each (map (λ u. u.id) units) reconcile_unit
        pure (not (length units == 0))

      -- The first call only starts the clock.
      reconcile_since : ℕ → Option ℕ → Action Payload Bool
      unfolding reconcile_units ◌>>=◌
      reconcile_since now none = do
        modify (λ s. record s { last_reconcile_at = some now })
        pure false
      reconcile_since now (some last) =
          if ltb now (last + settings.reconcile_interval) then pure false else reconcile_units now

      unfoldable pub run_low_frequency_reconcile : ℕ → Action Payload Bool
      unfolding reconcile_since ◌>>=◌
      run_low_frequency_reconcile now = do
        last ← gets (λ s. s.last_reconcile_at)
        reconcile_since now last

      unfoldable pub tick : ℕ → Action Payload Unit
      unfolding commit ◌>>=◌
      tick now = do
        submitted_count ← submit_missing_page_to_card_jobs
        if ltb 0 submitted_count then commit else do
          processed_count ← process_pending_webhook_events now
          if ltb 0 processed_count then commit else do
            reconciled ← run_low_frequency_reconcile now
            if reconciled then commit else pure tt

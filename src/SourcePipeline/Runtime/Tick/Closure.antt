-- ===== src/SourcePipeline/Runtime/Tick/Closure.antt =====
-- What the primitive operations respect, a whole tick respects.
use hll.Prelude.{ℕ, String, Option, none, some}
use hll.Exec.{modify}
use hll.Exec.Steps.{Steps, Steps-try_except, steps_rules}
use hll.SourcePipeline.Model.{
  Exception, WorkflowUnit, CardCandidate, JobQueueWebhookEvent, Reply, accepted, not_ready, failed,
  Services, State,
}
use hll.SourcePipeline.Runtime.Jobs.{submit_page_to_card}
use hll.SourcePipeline.Runtime.Jobs.Closed.{Closed, read_rules}
use hll.SourcePipeline.Runtime.Candidates.Closure.{
  ensure_initial_step, ensure_child_step, submit_missing_review_step, process_review_step,
  advance_step,
}
use hll.SourcePipeline.Runtime.Tick.{
  Settings, terminal_repair, terminal_review, terminal_unit, process_terminal_non_accepted_job,
  require_terminal_state, commit, accepted_or_raise, accepted_result, reviews_if_unit,
  accepted_repair, accepted_review, accepted_page, process_accepted_job_result,
  process_webhook_event, handle_event, on_page_reply, reconcile_unit,
  submit_missing_page_to_card_jobs, process_pending_webhook_events, reconcile_units,
  reconcile_since, run_low_frequency_reconcile, tick,
}

module _ {Payload : Type 0} {svc : Services Payload} {R : State Payload → State Payload → Type 0}
    (closed : Closed svc R) where
  open closed use {
    order, write_unit_step, create_step, ask_step, review_terminal_step, repair_terminal_step,
    mark_processed_step, mark_failed_step, commit_step, clock_step,
  }

  submit_page_step : (id : ℕ) → Steps R (submit_page_to_card svc id)
  unfolding submit_page_to_card
  submit_page_step id = search (read_rules, order, create_step, write_unit_step) depth 9

  terminal_repair_step :
      (state : String) (o : Option CardCandidate)
      → Steps R (terminal_repair {Payload = Payload} state o)
  unfolding terminal_repair
  terminal_repair_step state none = search (steps_rules, order)
  terminal_repair_step state (some c) = repair_terminal_step c.id (some state)

  terminal_review_step :
      (job_id : ℕ) (state : String) (o : Option CardCandidate)
      → Steps R (terminal_review {Payload = Payload} job_id state o)
  unfolding terminal_review
  terminal_review_step job_id state none = search (steps_rules, order, terminal_repair_step)
  terminal_review_step job_id state (some c) = review_terminal_step c.id (some state)

  terminal_unit_step :
      (job_id : ℕ) (state : String) (o : Option (WorkflowUnit Payload))
      → Steps R (terminal_unit job_id state o)
  unfolding terminal_unit
  terminal_unit_step job_id state none = search (steps_rules, order, terminal_review_step)
  terminal_unit_step job_id state (some u) = write_unit_step u.id _

  process_terminal_step :
      (job_id : ℕ) (state : String)
      → Steps R (process_terminal_non_accepted_job {Payload = Payload} job_id state)
  unfolding process_terminal_non_accepted_job
  process_terminal_step job_id state = search (steps_rules, order, terminal_unit_step)

  require_terminal_step :
      (o : Option String) → Steps R (require_terminal_state {Payload = Payload} o)
  unfolding require_terminal_state
  require_terminal_step none = search (steps_rules, order)
  require_terminal_step (some state) = search (steps_rules, order)

  accepted_or_raise_step :
      (job_id : ℕ) (reply : Reply Payload) → Steps R (accepted_or_raise svc job_id reply)
  unfolding accepted_or_raise
  accepted_or_raise_step job_id (accepted payload) = search (steps_rules, order)
  accepted_or_raise_step job_id (not_ready state) = search (steps_rules, order)
  accepted_or_raise_step job_id (failed e) = search (steps_rules, order)

  accepted_result_step : (job_id : ℕ) → Steps R (accepted_result svc job_id)
  unfolding accepted_result
  accepted_result_step job_id = search (steps_rules, order, ask_step, accepted_or_raise_step)

  reviews_if_unit_step :
      (unit_id : ℕ) (o : Option (WorkflowUnit Payload)) → Steps R (reviews_if_unit svc unit_id o)
  unfolding reviews_if_unit
  reviews_if_unit_step unit_id none = search (steps_rules, order)
  reviews_if_unit_step unit_id (some u) = submit_missing_review_step closed unit_id

  accepted_repair_step :
      (job_id : ℕ) (o : Option CardCandidate) → Steps R (accepted_repair svc job_id o)
  unfolding accepted_repair
  accepted_repair_step job_id none = search (steps_rules, order)
  accepted_repair_step job_id (some c) =
      search
        (steps_rules, order, accepted_result_step, ensure_child_step closed, reviews_if_unit_step)
        depth 8

  accepted_review_step :
      (job_id : ℕ) (o : Option CardCandidate) → Steps R (accepted_review svc job_id o)
  unfolding accepted_review
  accepted_review_step job_id none = search (steps_rules, order, accepted_repair_step)
  accepted_review_step job_id (some c) =
      search (steps_rules, order, accepted_result_step, process_review_step closed)

  accepted_page_step :
      (job_id : ℕ) (o : Option (WorkflowUnit Payload)) → Steps R (accepted_page svc job_id o)
  unfolding accepted_page
  accepted_page_step job_id none = search (steps_rules, order, accepted_review_step)
  accepted_page_step job_id (some u) =
      search
        (
          steps_rules,
          order,
          accepted_result_step,
          ensure_initial_step closed,
          submit_missing_review_step closed,
        )
        depth 8

  process_accepted_step : (job_id : ℕ) → Steps R (process_accepted_job_result svc job_id)
  unfolding process_accepted_job_result
  process_accepted_step job_id = search (steps_rules, order, accepted_page_step)

  pub process_webhook_event_step :
      (event : JobQueueWebhookEvent) → Steps R (process_webhook_event svc event)
  unfolding process_webhook_event
  process_webhook_event_step event =
      search
        (steps_rules, order, process_accepted_step, require_terminal_step, process_terminal_step)
        depth 8

  pub handle_event_step :
      (now : ℕ) (event : JobQueueWebhookEvent) → Steps R (handle_event svc now event)
  unfolding handle_event
  handle_event_step now event =
      search
        (
          steps_rules, order, Steps-try_except, process_webhook_event_step, mark_processed_step,
          mark_failed_step,
        )
        depth 8

  on_page_reply_step :
      (unit_id : ℕ) (reply : Reply Payload) → Steps R (on_page_reply svc unit_id reply)
  unfolding on_page_reply
  on_page_reply_step unit_id (accepted payload) =
      search (steps_rules, order, ensure_initial_step closed, advance_step closed)
  on_page_reply_step unit_id (not_ready state) = search (steps_rules, order, write_unit_step)
  on_page_reply_step unit_id (failed e) = search (steps_rules, order)

  reconcile_unit_step : (unit_id : ℕ) → Steps R (reconcile_unit svc unit_id)
  unfolding reconcile_unit
  reconcile_unit_step unit_id = search (read_rules, order, ask_step, on_page_reply_step) depth 9

  clock_step' :
      (now : ℕ)
      → Steps R (
          modify {E = Exception} {S = State Payload}
            (λ s. record s { last_reconcile_at = some now }))
  clock_step' now = record { at = λ s. clock_step s now }

  commit_runs : Steps R (commit {Payload = Payload})
  unfolding commit
  commit_runs = record { at = λ s. commit_step s }

  module _ (settings : Settings) where
    pub submit_missing_step : Steps R (submit_missing_page_to_card_jobs svc settings)
    unfolding submit_missing_page_to_card_jobs
    submit_missing_step = search (steps_rules, order, submit_page_step) depth 8

    pub process_pending_step : (now : ℕ) → Steps R (process_pending_webhook_events svc settings now)
    unfolding process_pending_webhook_events
    process_pending_step now = search (steps_rules, order, handle_event_step) depth 8

    reconcile_units_step : (now : ℕ) → Steps R (reconcile_units svc settings now)
    unfolding reconcile_units
    reconcile_units_step now = search (steps_rules, order, clock_step', reconcile_unit_step) depth 9

    reconcile_since_step : (now : ℕ) (o : Option ℕ) → Steps R (reconcile_since svc settings now o)
    unfolding reconcile_since
    reconcile_since_step now none = search (steps_rules, order, clock_step')
    reconcile_since_step now (some last) = search (steps_rules, order, reconcile_units_step)

    pub reconcile_step : (now : ℕ) → Steps R (run_low_frequency_reconcile svc settings now)
    unfolding run_low_frequency_reconcile
    reconcile_step now = search (steps_rules, order, reconcile_since_step)

    pub tick_step : (now : ℕ) → Steps R (tick svc settings now)
    unfolding tick
    tick_step now =
        search
          (
            steps_rules, order, submit_missing_step, process_pending_step, reconcile_step,
            commit_runs,
          )
          depth 12

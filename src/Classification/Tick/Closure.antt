-- ===== src/Classification/Tick/Closure.antt =====
-- A tick stays in a closed relation on states that lets the time of the reconcile change.
use hll.Prelude.{
  ℕ, suc, String, refl, not, ◌||◌, Option, none, some, List, [], ◌∷◌, Bool-cases, Option-cases, inl,
  inr, is_some,
}
use hll.Exec.{Result, ok, err, ◌>>=◌}
use hll.Exec.Steps.{Steps, Steps-pure, Steps-raise, Steps-bind, Steps-if, steps_rules}
use hll.SourcePipeline.Model.{get_row}
use hll.Classification.Model.{
  Error, value_error, runtime_error, integrity_error, key_error, endless, client_error, Card,
  ContinuationRequest, CreateJobItem, CreatedJob, Services, State, commit,
}
use hll.Classification.Scopes.{ResolvedScope, resolve_scope_by_node_id}
use hll.Classification.Submission.{
  SubmissionCounts, PendingSubmissionItem, created_at_index, open_job_of, add_job, ask_create,
  link_job, taken, link_entries, count_created, submit_batch, submit_batches, submit_pending_items,
}
use hll.Classification.Refinement.{submit_existing_jobs}
use hll.Classification.Continuations.{
  Prepared, delete_continuation_request, write_continuation, drop_request, with_the_card,
  new_next_job, active_job_for_scope_node, is_next_job, prepare_job, prepare_in_scope,
  is_assigned_to, prepare_continuation_submission, prepare_all, submit_prepared, after_submission,
  submit_once, submit_and_settle, drain_continuation_requests, delete_prepared,
  record_continuation_submission_error,
}
use hll.Classification.Results.Moves.{SameCards, Closed, same_step, write_job_step}
use hll.Classification.Runtime.{
  Settings, run_low_frequency_reconcile, reconcile_jobs, reconcile_after, set_last_reconcile,
}
use hll.Classification.Runtime.Events.{
  process_pending_webhook_events_step, reconcile_job_step, result_items_step, drain_refreshes_step,
  modify_step,
}
use hll.Classification.Tick.{tick, tick_reconcile, tick_continuations, tick_refreshes}

add_job_same : (scope node_id now : ℕ) (s : State) → SameCards s (add_job scope node_id now s).1
unfolding add_job
add_job_same scope node_id now s = elim (Bool-cases (open_job_of scope node_id s.jobs)) [
  | inl e ↦
      rw (add_job, e) (record { tree = refl; assigned = refl; last = refl; named = λ id h. h })
  | inr e ↦
      rw (add_job, e) (record { tree = refl; assigned = refl; last = refl; named = λ id h. h })
]

with_the_card_same :
    (request : ContinuationRequest) (scope : ResolvedScope) (id : ℕ) (s : State)
    → SameCards s (with_the_card request scope id s).1
unfolding with_the_card drop_request delete_continuation_request ◌>>=◌
with_the_card_same request scope id s =
    elim (Option-cases (get_row (λ (c : Card). c.id) request.node_id s.cards)) [
      | inl e ↦
          rw (with_the_card, e)
            (record { tree = refl; assigned = refl; last = refl; named = λ id h. h })
      | inr e ↦
          rw (with_the_card, e.1)
            (record { tree = refl; assigned = refl; last = refl; named = λ id h. h })
    ]

module _ {R : State → State → Type 0} (closed : Closed R) where
  open closed use {order, same}

  commit_step : Steps R commit
  unfolding commit
  commit_step =
      modify_step closed _
        (λ s. record { tree = refl; assigned = refl; last = refl; named = λ id h. h })

  delete_step : (id : ℕ) → Steps R (delete_continuation_request id)
  unfolding delete_continuation_request
  delete_step id =
      modify_step closed _
        (λ s. record { tree = refl; assigned = refl; last = refl; named = λ id h. h })

  write_step :
      (id : ℕ) (f : ContinuationRequest → ContinuationRequest) → Steps R (write_continuation id f)
  unfolding write_continuation
  write_step id f =
      modify_step closed _
        (λ s. record { tree = refl; assigned = refl; last = refl; named = λ id h. h })

  drop_request_step : (id : ℕ) → Steps R (drop_request id)
  unfolding drop_request
  drop_request_step id = search (steps_rules, delete_step, order) depth 6

  with_the_card_step :
      (request : ContinuationRequest) (scope : ResolvedScope) (id : ℕ)
      → Steps R (with_the_card request scope id)
  with_the_card_step request scope id =
      same_step closed (with_the_card request scope id) (with_the_card_same request scope id)

  add_job_step : (scope node_id now : ℕ) → Steps R (add_job scope node_id now)
  add_job_step scope node_id now =
      same_step closed (add_job scope node_id now) (add_job_same scope node_id now)

  new_next_job_step : (request : ContinuationRequest) (now : ℕ) → Steps R (new_next_job request now)
  unfolding new_next_job
  new_next_job_step request now =
      Steps-bind order (add_job request.scope_node_id request.node_id now) _
        (add_job_step request.scope_node_id request.node_id now)
        (λ id.
          Steps-bind order (write_continuation request.id _) _ (write_step request.id _)
            (λ _. Steps-pure order id))

  prepare_job_step :
      (request : ContinuationRequest) (scope : ResolvedScope) (now : ℕ)
      → Steps R (prepare_job request scope now)
  unfolding prepare_job
  prepare_job_step request scope now = record {
    at = λ s.
        elim (Option-cases (active_job_for_scope_node request.scope_node_id request.node_id s)) [
          | inl e ↦
              rw (prepare_job, e)
                ((Steps-bind order (new_next_job request now) (with_the_card request scope)
                    (new_next_job_step request now) (with_the_card_step request scope)).at
                  s)
          | inr (j, e) ↦
              rw (prepare_job, e)
                (elim (Bool-cases (not (is_next_job request.next_job_id j) || is_some j.job_id)) [
                  | inl k ↦ rw k ((drop_request_step request.id).at s)
                  | inr k ↦ rw k ((with_the_card_step request scope j.id).at s)
                ])
        ];
  }

  prepare_in_scope_step :
      (request : ContinuationRequest) (now : ℕ) (r : Result Error ResolvedScope)
      → Steps R (prepare_in_scope request now r)
  prepare_in_scope_step request now (ok scope) =
      search (steps_rules, drop_request_step, prepare_job_step, order) depth 4
  prepare_in_scope_step request now (err (value_error m)) = drop_request_step request.id
  prepare_in_scope_step request now (err (runtime_error m)) = Steps-raise order (runtime_error m)
  prepare_in_scope_step request now (err integrity_error) = Steps-raise order integrity_error
  prepare_in_scope_step request now (err key_error) = Steps-raise order key_error
  prepare_in_scope_step request now (err endless) = Steps-raise order endless
  prepare_in_scope_step request now (err (client_error m)) = Steps-raise order (client_error m)

  delete_prepared_step : (prepared : List Prepared) → Steps R (delete_prepared prepared)
  unfolding delete_prepared
  delete_prepared_step prepared = search (steps_rules, delete_step, order) depth 4

  record_error_step :
      (prepared : List Prepared) (e : Error) (now : ℕ)
      → Steps R (record_continuation_submission_error prepared e now)
  unfolding record_continuation_submission_error
  record_error_step prepared e now = search (steps_rules, write_step, order) depth 4

  module _ (svc : Services) where
    ask_create_step : (q : String) (items : List CreateJobItem) → Steps R (ask_create svc q items)
    unfolding ask_create
    ask_create_step q items =
        same_step closed (ask_create svc q items)
          (λ s. record { tree = refl; assigned = refl; last = refl; named = λ id h. h })

    link_job_step : (id job_id : ℕ) → Steps R (link_job id job_id)
    unfolding link_job
    link_job_step id job_id = record {
      at = λ s. elim (Bool-cases (taken id job_id s.jobs)) [
        | inl e ↦ rw e (order.reflexive s)
        | inr e ↦ rw e ((write_job_step closed id _).at s)
      ];
    }

    link_entries_step :
        (q : String) (jobs : List CreatedJob) (index : ℕ) (entries : List PendingSubmissionItem)
        (counts : SubmissionCounts)
        → Steps R (link_entries svc q jobs index entries counts)
    unfolding link_entries
    link_entries_step q jobs index [] counts = Steps-pure order counts
    link_entries_step q jobs index (entry ∷ entries) counts =
        elim (Option-cases (created_at_index index jobs)) [
          | inl e ↦ rw (link_entries, e) (Steps-raise order (value_error "index"))
          | inr (job, e) ↦
              rw (link_entries, e)
                (Steps-bind order (link_job entry.local_job job.job_id) _
                  (link_job_step entry.local_job job.job_id)
                  (λ _.
                    link_entries_step q jobs (suc index) entries
                      (count_created svc q job.created counts)))
        ]

    submit_batch_step :
        (q : String) (batch : List PendingSubmissionItem) (counts : SubmissionCounts)
        → Steps R (submit_batch svc q batch counts)
    unfolding submit_batch
    submit_batch_step q batch counts =
        search (steps_rules, ask_create_step, link_entries_step, commit_step, order) depth 12

    submit_batches_step :
        (q : String) (batches : List (List PendingSubmissionItem)) (counts : SubmissionCounts)
        → Steps R (submit_batches svc q batches counts)
    unfolding submit_batches
    submit_batches_step q [] counts = Steps-pure order counts
    submit_batches_step q (batch ∷ batches) counts =
        Steps-bind order (submit_batch svc q batch counts) _ (submit_batch_step q batch counts)
          (λ after. submit_batches_step q batches after)

    submit_pending_items_step :
        (q : String) (items : List PendingSubmissionItem) (n : ℕ)
        → Steps R (submit_pending_items svc q items n)
    unfolding submit_pending_items
    submit_pending_items_step q items n = search (steps_rules, submit_batches_step, order) depth 6

    submit_existing_jobs_step :
        (q : String) (now : ℕ) (submissions : List (ResolvedScope × (ℕ × Card))) (n : ℕ)
        → Steps R (submit_existing_jobs svc q now submissions n)
    unfolding submit_existing_jobs
    submit_existing_jobs_step q now submissions n =
        search (steps_rules, submit_pending_items_step, order) depth 8

    module _ (now : ℕ) where
      prepare_step :
          (request : ContinuationRequest)
          → Steps R (prepare_continuation_submission svc now request)
      unfolding prepare_continuation_submission
      prepare_step request = record {
        at = λ s.
            (Steps-if order (is_assigned_to request.node_id request.scope_node_id s) _ _
                (prepare_in_scope_step request now
                  (resolve_scope_by_node_id svc s.taxonomy_nodes request.scope_node_id))
                (drop_request_step request.id)).at
              s;
      }

      prepare_all_step :
          (requests : List ContinuationRequest) → Steps R (prepare_all svc now requests)
      unfolding prepare_all
      prepare_all_step [] = Steps-pure order []
      prepare_all_step (request ∷ requests) =
          Steps-bind order (prepare_continuation_submission svc now request) _
            (prepare_step request)
            (λ prepared.
              Steps-bind order (prepare_all svc now requests) _ (prepare_all_step requests)
                (λ rest. Steps-pure order _))

      submit_prepared_step :
          (q : Option String) (n : ℕ) (prepared : List Prepared)
          → Steps R (submit_prepared svc now q n prepared)
      unfolding submit_prepared
      submit_prepared_step none n prepared = Steps-raise order (runtime_error "queue_name")
      submit_prepared_step (some q) n prepared = submit_existing_jobs_step q now _ n

      after_submission_step :
          (prepared : List Prepared) (r : Result Error Unit)
          → Steps R (after_submission svc now prepared r)
      after_submission_step prepared (ok u) = delete_prepared_step prepared
      after_submission_step prepared (err (client_error m)) =
          record_error_step prepared (client_error m) now
      after_submission_step prepared (err (value_error m)) = Steps-raise order (value_error m)
      after_submission_step prepared (err (runtime_error m)) = Steps-raise order (runtime_error m)
      after_submission_step prepared (err integrity_error) = Steps-raise order integrity_error
      after_submission_step prepared (err key_error) = Steps-raise order key_error
      after_submission_step prepared (err endless) = Steps-raise order endless

      submit_once_step :
          (q : Option String) (n : ℕ) (prepared : List Prepared)
          → Steps R (submit_once svc now q n prepared)
      unfolding submit_once
      submit_once_step q n prepared = record {
        at = λ s.
            order.transitive s (submit_prepared svc now q n prepared s).1 _
              ((submit_prepared_step q n prepared).at s)
              ((after_submission_step prepared (submit_prepared svc now q n prepared s).0).at
                (submit_prepared svc now q n prepared s).1);
      }

      settle_step :
          (q : Option String) (n : ℕ) (prepared : List Prepared)
          → Steps R (submit_and_settle svc now q n prepared)
      unfolding submit_and_settle
      settle_step q n [] = Steps-pure order tt
      settle_step q n (p ∷ ps) = search (steps_rules, commit_step, submit_once_step, order) depth 4

      drain_continuations_step :
          (q : Option String) (n interval : ℕ)
          → Steps R (drain_continuation_requests svc now q n interval)
      unfolding drain_continuation_requests
      drain_continuations_step q n interval =
          search (steps_rules, prepare_all_step, settle_step, order) depth 12

      module _ (timed : (n : ℕ) → Steps R (set_last_reconcile svc n)) where
        reconcile_jobs_step : (n : ℕ) → Steps R (reconcile_jobs svc now n)
        unfolding reconcile_jobs
        reconcile_jobs_step n =
            search
              (
                steps_rules,
                timed,
                result_items_step closed svc,
                reconcile_job_step closed svc now,
                order,
              )
              depth 12

        low_frequency_step :
            (interval n : ℕ) (last : Option ℕ) → Steps R (reconcile_after svc now interval n last)
        unfolding reconcile_after
        low_frequency_step interval n none = search (steps_rules, timed, order) depth 4
        low_frequency_step interval n (some at) =
            search (steps_rules, reconcile_jobs_step, order) depth 4

        reconcile_step : (interval n : ℕ) → Steps R (run_low_frequency_reconcile svc now interval n)
        unfolding run_low_frequency_reconcile
        reconcile_step interval n = search (steps_rules, low_frequency_step, order) depth 4

        pub tick_step : (c : Settings) → Steps R (tick svc c now)
        unfolding tick tick_reconcile tick_continuations tick_refreshes
        tick_step c =
            search
              (
                steps_rules,
                process_pending_webhook_events_step closed svc now,
                reconcile_step,
                drain_continuations_step,
                drain_refreshes_step closed svc now,
                commit_step,
                order,
              )
              depth 16

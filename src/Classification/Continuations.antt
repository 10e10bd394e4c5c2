-- ===== src/Classification/Continuations.antt =====
-- modules/taxonomy_classification/runtime.py: the requests for the next job of a moved card.
use hll.Prelude.{
  ℕ, ◌-◌, String, Bool, false, not, ◌&&◌, ◌||◌, Option, none, some, List, [], ◌∷◌, map, ltb, leb,
  ◌==◌, if◌then◌else◌, is_some, find, filter, take, sort, length,
}
use hll.Exec.{Result, ok, err, pure, raise, gets, modify, ◌>>=◌, ◌>>◌, for_each}
use hll.SourcePipeline.Model.{get_row, update_row}
use hll.Classification.Model.{
  Error, value_error, runtime_error, client_error, Card, TaxonomyClassificationJob,
  ContinuationRequest, Services, State, Action, commit, is_open,
}
use hll.Classification.Scopes.{ResolvedScope, resolve_scope_by_node_id}
use hll.Classification.Submission.{add_job}
use hll.Classification.Refinement.{no_children, submit_existing_jobs}
use hll.Classification.Taxonomy.{assignment_row}

-- A request and its submission: the scope, the job's row and the card.
abbrev pub Prepared : Type 0
Prepared = ℕ × (ResolvedScope × (ℕ × Card))

-- `order_by(updated_at, id)`
abbrev pub continuation_le : ContinuationRequest → ContinuationRequest → Bool
continuation_le a b = ltb a.updated_at b.updated_at || a.updated_at == b.updated_at && leb a.id b.id

unfoldable pub delete_continuation_request : ℕ → Action Unit
delete_continuation_request id = modify (λ s. record s {
  tables = record s.tables {
    continuations = filter (λ (r : ContinuationRequest). not (r.id == id)) s.continuations;
  };
})

unfoldable pub write_continuation : ℕ → (ContinuationRequest → ContinuationRequest) → Action Unit
unfolding update_row
write_continuation id f = modify (λ s. record s {
  tables = record s.tables { continuations = update_row (λ r. r.id) id f s.continuations };
})

unfoldable pub drop_request : ℕ → Action (Option Prepared)
unfolding delete_continuation_request ◌>>=◌
drop_request id = delete_continuation_request id >> pure none

abbrev pub active_job_for_scope_node : ℕ → ℕ → State → Option TaxonomyClassificationJob
active_job_for_scope_node scope_node_id node_id s =
    find
      (λ (j : TaxonomyClassificationJob).
        j.scope_node_id == scope_node_id && (j.node_id == node_id && is_open j))
      s.jobs

abbrev pub is_next_job : Option ℕ → TaxonomyClassificationJob → Bool
is_next_job none j = false
is_next_job (some id) j = j.id == id

-- The card of the job, which the submission wants.
unfoldable pub with_the_card : ContinuationRequest → ResolvedScope → ℕ → Action (Option Prepared)
unfolding drop_request
with_the_card request scope local_job s =
    elim (get_row (λ (c : Card). c.id) request.node_id s.cards) [
      | none ↦ drop_request request.id s
      | some card ↦ (ok (some (request.id, (scope, (local_job, card)))), s)
    ]

unfoldable pub new_next_job : ContinuationRequest → ℕ → Action ℕ
unfolding add_job write_continuation ◌>>=◌
new_next_job request now = add_job request.scope_node_id request.node_id now >>= λ id.
    (write_continuation request.id
        (λ r. record r { next_job_id = some id; last_error = none; updated_at = now })
      >> pure id)

-- From the scope on: the job that is already there, or a new one.
unfoldable pub prepare_job : ContinuationRequest → ResolvedScope → ℕ → Action (Option Prepared)
unfolding drop_request with_the_card new_next_job ◌>>=◌
prepare_job request scope now s =
    elim (active_job_for_scope_node request.scope_node_id request.node_id s) [
      | some j ↦
          (if not (is_next_job request.next_job_id j) || is_some j.job_id
            then drop_request request.id s
            else with_the_card request scope j.id s)
      | none ↦ (new_next_job request now >>= λ id. with_the_card request scope id) s
    ]

abbrev pub prepare_in_scope :
    ContinuationRequest → ℕ → Result Error ResolvedScope → Action (Option Prepared)
prepare_in_scope request now (ok scope) =
    if no_children scope then drop_request request.id else prepare_job request scope now
prepare_in_scope request now (err (value_error m)) = drop_request request.id
prepare_in_scope request now (err e) = raise e

abbrev pub is_assigned_to : ℕ → ℕ → State → Bool
is_assigned_to node_id scope_node_id s = elim (assignment_row node_id s) [
  | none ↦ false
  | some a ↦ a.taxonomy_node_id == scope_node_id
]

abbrev pub prepared_submissions : List Prepared → List (ResolvedScope × (ℕ × Card))
prepared_submissions prepared = map (λ (p : Prepared). p.1) prepared

unfoldable pub record_continuation_submission_error : List Prepared → Error → ℕ → Action Unit
unfolding write_continuation for_each
record_continuation_submission_error prepared e now =
    for_each prepared
      (λ p. write_continuation p.0 (λ r. record r { last_error = some e; updated_at = now }))

unfoldable pub delete_prepared : List Prepared → Action Unit
unfolding delete_continuation_request for_each
delete_prepared prepared = for_each prepared (λ p. delete_continuation_request p.0)

module _ (svc : Services) (now : ℕ) where
  unfoldable pub prepare_continuation_submission : ContinuationRequest → Action (Option Prepared)
  unfolding drop_request resolve_scope_by_node_id prepare_job
  prepare_continuation_submission request s =
      (if is_assigned_to request.node_id request.scope_node_id s
          then prepare_in_scope request now
              (resolve_scope_by_node_id svc s.taxonomy_nodes request.scope_node_id)
          else drop_request request.id)
        s

  unfoldable pub prepare_all : List ContinuationRequest → Action (List Prepared)
  unfolding prepare_continuation_submission ◌>>=◌
  prepare_all [] = pure []
  prepare_all (request ∷ requests) = prepare_continuation_submission request >>= λ prepared.
      prepare_all requests >>= λ rest. pure (elim prepared [ none ↦ rest | some p ↦ p ∷ rest ])

  -- `_submission_service()` and its call
  unfoldable pub submit_prepared : Option String → ℕ → List Prepared → Action Unit
  unfolding submit_existing_jobs
  submit_prepared none batch_size prepared = raise (runtime_error "queue_name")
  submit_prepared (some queue_name) batch_size prepared =
      submit_existing_jobs svc queue_name now (prepared_submissions prepared) batch_size

  -- `except JobQueueMCPClientError`; any other error goes on.
  abbrev pub after_submission : List Prepared → Result Error Unit → Action Unit
  after_submission prepared (ok u) = delete_prepared prepared
  after_submission prepared (err (client_error m)) =
      record_continuation_submission_error prepared (client_error m) now
  after_submission prepared (err e) = raise e

  -- the `try` and what follows it
  unfoldable pub submit_once : Option String → ℕ → List Prepared → Action Unit
  unfolding submit_prepared delete_prepared record_continuation_submission_error
  submit_once queue_name batch_size prepared s =
      let (r, t) = submit_prepared queue_name batch_size prepared s in after_submission prepared r t

  unfoldable pub submit_and_settle : Option String → ℕ → List Prepared → Action Unit
  unfolding submit_once commit ◌>>=◌
  submit_and_settle queue_name batch_size [] = pure tt
  submit_and_settle queue_name batch_size (p ∷ ps) =
      commit >> submit_once queue_name batch_size (p ∷ ps)

  abbrev pub flushes : ℕ → ℕ → List ContinuationRequest → Bool
  flushes batch_size interval [] = false
  flushes batch_size interval (oldest ∷ more) =
      not (ltb (length (oldest ∷ more)) batch_size && ltb (now - oldest.updated_at) interval)

  unfoldable pub drain_continuation_requests : Option String → ℕ → ℕ → Action ℕ
  unfolding sort prepare_all submit_and_settle ◌>>=◌
  drain_continuation_requests queue_name batch_size interval =
      gets (λ s. sort continuation_le s.continuations) >>= λ ordered.
      (if flushes batch_size interval ordered
        then (let requests = take batch_size ordered in
            prepare_all requests >>= λ prepared.
            (submit_and_settle queue_name batch_size prepared >> pure (length requests)))
        else pure 0)

-- ===== src/Classification/Submission.antt =====
-- modules/taxonomy_classification/submission.py: local jobs are created, sent to the job queue in
-- chunks, and linked to the jobs that it made. The progress callbacks are left out.
use hll.Prelude.{
  ℕ, zero, suc, ◌+◌, ◌-◌, String, Bool, true, false, not, ◌&&◌, ◌||◌, Option, none, some, List, [],
  ◌∷◌, ◌++◌, map, if◌then◌else◌, filter, any, ltb, ◌==◌, str_eq, length, take, is_none, is_some,
  is_none,
}
use hll.Exec.{Result, ok, err, pure, raise, lift, ◌>>=◌, ◌>>◌}
use hll.SourcePipeline.Model.{get_row}
use hll.Classification.Model.{
  Error, value_error, integrity_error, Card, NodeTaxonomyAssignment, TaxonomyClassificationJob,
  JobPayload, CreateJobItem, CreatedJob, create_jobs, Services, State, Action, commit, is_open,
  write_job,
}
use hll.Classification.Chunks.{chunk_submission_items, max_job_queue_batch_request_bytes}
use hll.Classification.Scopes.{ResolvedScope}

pub record SubmissionCounts : Type 0 where
  pub submitted_count : ℕ
  pub reused_idempotent_count : ℕ

abbrev pub no_counts : SubmissionCounts
no_counts = record { submitted_count = 0; reused_idempotent_count = 0 }

abbrev pub total_count : SubmissionCounts → ℕ
total_count c = c.submitted_count + c.reused_idempotent_count

abbrev pub add_counts : SubmissionCounts → SubmissionCounts → SubmissionCounts
add_counts a b = record {
  submitted_count = a.submitted_count + b.submitted_count;
  reused_idempotent_count = a.reused_idempotent_count + b.reused_idempotent_count;
}

-- `local_job` is the row's primary key.
pub record PendingSubmissionItem : Type 0 where
  pub local_job : ℕ
  pub card : Card
  pub create_job : CreateJobItem

abbrev pub remaining_limit : Option ℕ → ℕ → Option ℕ
remaining_limit none submitted = none
remaining_limit (some limit) submitted = some (limit - submitted)

abbrev pub is_zero : Option ℕ → Bool
is_zero none = false
is_zero (some n) = n == 0

-- `statement.limit(limit)` where there is a limit
abbrev pub limited {ℓ} : {A : Type ℓ} → Option ℕ → List A → List A
limited none rows = rows
limited (some n) rows = take n rows

-- `{created_job.index: created_job for …}`: the last one stays.
unfoldable pub created_at_index : ℕ → List CreatedJob → Option CreatedJob
created_at_index index [] = none
created_at_index index (job ∷ jobs) = elim (created_at_index index jobs) [
  | some found ↦ some found
  | none ↦ (if job.index == index then some job else none)
]

-- Each index below `count` is there.
unfoldable pub has_indexes : ℕ → List CreatedJob → Bool
unfolding created_at_index
has_indexes zero jobs = true
has_indexes (suc n) jobs = is_some (created_at_index n jobs) && has_indexes n jobs

abbrev pub all_below : ℕ → List CreatedJob → Bool
all_below count [] = true
all_below count (job ∷ jobs) = ltb job.index count && all_below count jobs

-- `_created_job_by_index`: the dictionary is the list, read by `created_at_index`.
unfoldable pub created_job_by_index : List CreatedJob → ℕ → Result Error (List CreatedJob)
unfolding has_indexes
created_job_by_index jobs expected =
    if not (length jobs == expected)
    then err (value_error "length")
    else (if has_indexes expected jobs && all_below expected jobs
        then ok jobs
        else err (value_error "indexes"))

-- The cards of a scope, and its jobs that are not done.
abbrev pub open_job_of : ℕ → ℕ → List TaxonomyClassificationJob → Bool
open_job_of scope_id node_id jobs =
    any
      (λ (j : TaxonomyClassificationJob).
        j.scope_node_id == scope_id && j.node_id == node_id && is_open j)
      jobs

abbrev pub assigned_to : ℕ → ℕ → List NodeTaxonomyAssignment → Bool
assigned_to scope_id node_id rows =
    any (λ (a : NodeTaxonomyAssignment). a.taxonomy_node_id == scope_id && a.node_id == node_id)
      rows

unfoldable pub list_cards_without_active_job : ℕ → Option ℕ → State → List Card
list_cards_without_active_job scope_id limit s = limited limit (
    filter
      (λ (c : Card).
        assigned_to scope_id c.id s.assignments && not (open_job_of scope_id c.id s.jobs))
      s.cards)

abbrev pub is_pending_local : ℕ → TaxonomyClassificationJob → Bool
is_pending_local scope_id j = j.scope_node_id == scope_id && is_none j.job_id && is_open j

-- The join with the card's row; a job always has one.
abbrev pub with_card : List Card → List TaxonomyClassificationJob → List (ℕ × Card)
with_card cards [] = []
with_card cards (j ∷ jobs) =
    let rest = with_card cards jobs in
    elim (get_row (λ (c : Card). c.id) j.node_id cards) [
      | none ↦ rest
      | some card ↦ (j.id, card) ∷ rest
    ]

unfoldable pub list_pending_local_jobs : ℕ → Option ℕ → State → List (ℕ × Card)
list_pending_local_jobs scope_id limit s =
    limited limit (with_card s.cards (filter (is_pending_local scope_id) s.jobs))

pub record ScopeSubmissionPreflight : Type 0 where
  pub pending_local_count : ℕ
  pub candidate_without_active_job_count : ℕ
  pub already_linked_count : ℕ

abbrev pub jobs_to_link_count : ScopeSubmissionPreflight → ℕ
jobs_to_link_count p = p.pending_local_count + p.candidate_without_active_job_count

abbrev pub linked_job_of : ℕ → ℕ → List TaxonomyClassificationJob → Bool
linked_job_of scope_id node_id jobs =
    any
      (λ (j : TaxonomyClassificationJob).
        j.scope_node_id == scope_id && (j.node_id == node_id && (is_some j.job_id && is_open j)))
      jobs

unfoldable pub load_submission_preflight : ℕ → State → ScopeSubmissionPreflight
load_submission_preflight scope_id s = record {
  pending_local_count = length (filter (is_pending_local scope_id) s.jobs);
  candidate_without_active_job_count = length (
      filter
        (λ (a : NodeTaxonomyAssignment).
          a.taxonomy_node_id == scope_id && not (open_job_of scope_id a.node_id s.jobs))
        s.assignments);
  already_linked_count = length (
      filter
        (λ (a : NodeTaxonomyAssignment).
          a.taxonomy_node_id == scope_id && linked_job_of scope_id a.node_id s.jobs)
        s.assignments);
}

-- A new row of a job; one open job stands for a card in a scope.
unfoldable pub add_job : ℕ → ℕ → ℕ → Action ℕ
add_job scope_id node_id now s =
    if open_job_of scope_id node_id s.jobs then (err integrity_error, s) else (
      ok s.next_job_row_id,
      record s {
        tables = record s.tables {
          jobs =
              s.jobs
              ++ record {
                id = s.next_job_row_id;
                scope_node_id = scope_id;
                node_id = node_id;
                job_id = none;
                terminal_state = none;
                processed_at = none;
                target_name = none;
                last_error = none;
                updated_at = now;
              }
                ∷ [];
          next_job_row_id = s.next_job_row_id + 1;
        };
      },
    )

unfoldable pub add_jobs : ℕ → List Card → ℕ → Action (List (ℕ × Card))
unfolding add_job ◌>>=◌
add_jobs scope_id [] now = pure []
add_jobs scope_id (card ∷ cards) now = add_job scope_id card.id now >>= λ id.
    (add_jobs scope_id cards now >>= λ rest. pure ((id, card) ∷ rest))

unfoldable pub create_pending_jobs : ResolvedScope → List Card → ℕ → Action (List (ℕ × Card))
unfolding add_jobs commit ◌>>=◌
create_pending_jobs scope [] now = pure []
create_pending_jobs scope (card ∷ cards) now =
    add_jobs scope.scope_node.id (card ∷ cards) now >>= λ jobs. (commit >> pure jobs)

abbrev pub has_job : Option ℕ → ℕ → Bool
has_job none job_id = false
has_job (some other) job_id = other == job_id

-- Another row has the job, which the unique index of `job_id` forbids.
abbrev pub taken : ℕ → ℕ → List TaxonomyClassificationJob → Bool
taken id job_id rows =
    any (λ (r : TaxonomyClassificationJob). not (r.id == id) && has_job r.job_id job_id) rows

-- `entry.local_job.job_id = …`; the flush after the loop checks the index, here each write does.
unfoldable pub link_job : ℕ → ℕ → Action Unit
unfolding write_job
link_job id job_id s =
    if taken id job_id s.jobs
    then (err integrity_error, s)
    else write_job id (λ j. record j { job_id = some job_id }) s

module _ (svc : Services) (queue_name : String) where
  abbrev pub blank : String → Bool
  blank text = str_eq (svc.strip text) ""

  -- `_job_payload`, whose texts pydantic strips and wants not to be blank
  unfoldable pub job_payload : ResolvedScope → Card → Result Error JobPayload
  job_payload scope card =
      if blank card.title || blank card.content || any (λ n. blank n.name) scope.regular_children
      then err (value_error "payload")
      else ok (record {
        scope_path = scope.breadcrumb;
        title = svc.strip card.title;
        content = svc.strip card.content;
        children = map (λ n. svc.strip n.name) scope.regular_children ++ "Unclassified" ∷ [];
      })

  unfoldable pub pending_submission_item :
      ResolvedScope → ℕ × Card → Result Error PendingSubmissionItem
  unfolding job_payload
  pending_submission_item scope (id, card) = elim (job_payload scope card) [
    | err e ↦ err e
    | ok payload ↦ ok (record {
      local_job = id;
      card = card;
      create_job = record {
        queue_name = queue_name;
        idempotency_key = id;
        payload = payload;
        scope_node_id = scope.scope_node.id;
        node_id = card.id;
      };
    })
  ]

  unfoldable pub pending_items :
      ResolvedScope → List (ℕ × Card) → Result Error (List PendingSubmissionItem)
  unfolding pending_submission_item
  pending_items scope [] = ok []
  pending_items scope (p ∷ ps) =
      let rest = pending_items scope ps in
      elim (pending_submission_item scope p) [
        | err e ↦ err e
        | ok item ↦ elim rest [ err e ↦ err e | ok items ↦ ok (item ∷ items) ]
      ]

  unfoldable pub ask_create : List CreateJobItem → Action (List CreatedJob)
  ask_create items s = (svc.create s.calls items, record s { calls = create_jobs items ∷ s.calls })

  abbrev pub count_created : Bool → SubmissionCounts → SubmissionCounts
  count_created true c = record c { submitted_count = c.submitted_count + 1 }
  count_created false c = record c { reused_idempotent_count = c.reused_idempotent_count + 1 }

  -- The loop over `enumerate(batch)`.
  unfoldable pub link_entries :
      List CreatedJob → ℕ → List PendingSubmissionItem → SubmissionCounts → Action SubmissionCounts
  unfolding created_at_index link_job ◌>>=◌
  link_entries jobs index [] counts = pure counts
  link_entries jobs index (entry ∷ entries) counts = elim (created_at_index index jobs) [
    | none ↦ raise (value_error "index")
    | some job ↦
        link_job entry.local_job job.job_id
        >> link_entries jobs (suc index) entries (count_created job.created counts)
  ]

  unfoldable pub submit_batch :
      List PendingSubmissionItem → SubmissionCounts → Action SubmissionCounts
  unfolding ask_create created_job_by_index link_entries commit ◌>>=◌
  submit_batch batch counts = ask_create (map (λ entry. entry.create_job) batch) >>= λ created.
      lift (created_job_by_index created (length batch)) >>= λ jobs.
      link_entries jobs 0 batch counts >>= λ after. (commit >> pure after)

  unfoldable pub submit_batches :
      List (List PendingSubmissionItem) → SubmissionCounts → Action SubmissionCounts
  unfolding submit_batch ◌>>=◌
  submit_batches [] counts = pure counts
  submit_batches (batch ∷ batches) counts =
      submit_batch batch counts >>= λ after. submit_batches batches after

  unfoldable pub submit_pending_items : List PendingSubmissionItem → ℕ → Action SubmissionCounts
  unfolding chunk_submission_items submit_batches ◌>>=◌
  submit_pending_items items batch_size =
      lift (
        chunk_submission_items (λ entry. svc.item_bytes entry.create_job) batch_size
          max_job_queue_batch_request_bytes items)
      >>= λ batches. submit_batches batches no_counts

  unfoldable pub submit_pending_jobs : ResolvedScope → List (ℕ × Card) → ℕ → Action SubmissionCounts
  unfolding pending_items submit_pending_items ◌>>=◌
  submit_pending_jobs scope jobs batch_size =
      lift (pending_items scope jobs) >>= λ items. submit_pending_items items batch_size

-- ===== src/Classification/Refinement.antt =====
-- modules/taxonomy_classification/submission.py, from a selection of scopes to their linked jobs,
-- and the jobs of single cards.
pub mod Links
pub mod Limit
pub mod Entries
pub mod Answers
pub mod Rows
pub mod Spending
use hll.Prelude.{
  ℕ, ◌+◌, ◌-◌, min, String, Bool, true, false, not, ◌||◌, Option, none, some, List, [], ◌∷◌, ◌++◌,
  if◌then◌else◌, ltb, ◌==◌, length,
}
use hll.Exec.{Result, ok, err, pure, raise, lift, gets, ◌>>=◌, ◌>>◌}
use hll.Classification.Model.{Error, value_error, Card, Services, State, Action}
use hll.Classification.Chunks.{max_job_queue_batch_size}
use hll.Classification.Scopes.{ResolvedScope, Selection, resolve_scopes}
use hll.Classification.Submission.{
  SubmissionCounts, no_counts, add_counts, total_count, remaining_limit, is_zero,
  PendingSubmissionItem, ScopeSubmissionPreflight, jobs_to_link_count, load_submission_preflight,
  list_pending_local_jobs, list_cards_without_active_job, create_pending_jobs,
  pending_submission_item, submit_pending_items, submit_pending_jobs,
}

-- dto.py
pub record ScopeSummary : Type 0 where
  pub scope_node_id : ℕ
  pub breadcrumb : List String
  pub regular_child_count : ℕ
  pub submitted_count : ℕ
  pub reused_idempotent_count : ℕ
  pub already_linked_count : ℕ
  pub skipped_no_children : Bool

pub record SubmissionResult : Type 0 where
  pub selected_scope_count : ℕ
  pub submitted_count : ℕ
  pub reused_idempotent_count : ℕ
  pub already_linked_count : ℕ
  pub skipped_no_children : ℕ
  pub scopes : List ScopeSummary

-- The local variables of the loop over the scopes.
pub record Totals : Type 0 where
  pub submitted : ℕ
  pub reused_idempotent : ℕ
  pub linked : ℕ
  pub already_linked : ℕ
  pub skipped : ℕ
  pub summaries : List ScopeSummary

abbrev pub no_totals : Totals
no_totals = record {
  submitted = 0;
  reused_idempotent = 0;
  linked = 0;
  already_linked = 0;
  skipped = 0;
  summaries = [];
}

abbrev pub no_children : ResolvedScope → Bool
no_children scope = length scope.regular_children == 0

abbrev pub bad_batch_size : ℕ → Bool
bad_batch_size n = ltb n 1 || ltb max_job_queue_batch_size n

abbrev pub skipped_summary : ResolvedScope → ScopeSubmissionPreflight → ScopeSummary
skipped_summary scope preflight = record {
  scope_node_id = scope.scope_node.id;
  breadcrumb = scope.breadcrumb;
  regular_child_count = 0;
  submitted_count = 0;
  reused_idempotent_count = 0;
  already_linked_count = preflight.already_linked_count;
  skipped_no_children = true;
}

abbrev pub scope_summary :
    ResolvedScope → ScopeSubmissionPreflight → SubmissionCounts → ScopeSummary
scope_summary scope preflight counts = record {
  scope_node_id = scope.scope_node.id;
  breadcrumb = scope.breadcrumb;
  regular_child_count = length scope.regular_children;
  submitted_count = counts.submitted_count;
  reused_idempotent_count = counts.reused_idempotent_count;
  already_linked_count = preflight.already_linked_count;
  skipped_no_children = false;
}

-- What the loop's body adds for a scope without children, and for one with children.
abbrev pub skip_scope : ResolvedScope → ScopeSubmissionPreflight → Totals → Totals
skip_scope scope preflight t = record t {
  already_linked = t.already_linked + preflight.already_linked_count;
  skipped = t.skipped + 1;
  summaries = t.summaries ++ skipped_summary scope preflight ∷ [];
}

abbrev pub count_scope :
    ResolvedScope → ScopeSubmissionPreflight → SubmissionCounts → Totals → Totals
count_scope scope preflight counts t = record t {
  submitted = t.submitted + counts.submitted_count;
  reused_idempotent = t.reused_idempotent + counts.reused_idempotent_count;
  linked = t.linked + total_count counts;
  already_linked = t.already_linked + preflight.already_linked_count;
  summaries = t.summaries ++ scope_summary scope preflight counts ∷ [];
}

module _ (svc : Services) (queue_name : String) (now : ℕ) where
  -- The second half, after the rows that were left pending.
  unfoldable pub submit_new_jobs :
      ResolvedScope → Option ℕ → ℕ → SubmissionCounts → Action SubmissionCounts
  unfolding list_cards_without_active_job create_pending_jobs submit_pending_jobs ◌>>=◌
  submit_new_jobs scope remaining batch_size counts =
      if is_zero remaining
      then pure counts
      else gets (list_cards_without_active_job scope.scope_node.id remaining) >>= λ cards.
          create_pending_jobs scope cards now >>= λ jobs.
          submit_pending_jobs svc queue_name scope jobs batch_size >>= λ created.
          pure (add_counts counts created)

  unfoldable pub submit_resolved_scope_jobs : ResolvedScope → Option ℕ → ℕ → Action SubmissionCounts
  unfolding list_pending_local_jobs submit_pending_jobs submit_new_jobs ◌>>=◌
  submit_resolved_scope_jobs scope limit batch_size =
      if is_zero limit
      then pure no_counts
      else gets (list_pending_local_jobs scope.scope_node.id limit) >>= λ jobs.
          submit_pending_jobs svc queue_name scope jobs batch_size >>= λ counts.
          submit_new_jobs scope (remaining_limit limit (total_count counts)) batch_size counts

  unfoldable pub submit_scope :
      ResolvedScope → ScopeSubmissionPreflight → Option ℕ → ℕ → Action SubmissionCounts
  unfolding submit_resolved_scope_jobs
  submit_scope scope preflight remaining batch_size =
      if is_zero remaining || jobs_to_link_count preflight == 0
      then pure no_counts
      else submit_resolved_scope_jobs scope remaining batch_size

  -- The loop over the scopes; `preflight_by_scope` is a function of the scope's id.
  unfoldable pub submit_scopes :
      (ℕ → ScopeSubmissionPreflight) → Option ℕ → ℕ → List ResolvedScope → Totals → Action Totals
  unfolding submit_scope ◌>>=◌
  submit_scopes preflights limit batch_size [] t = pure t
  submit_scopes preflights limit batch_size (scope ∷ scopes) t =
      let preflight = preflights scope.scope_node.id in
      let skipped =
        submit_scopes preflights limit batch_size scopes (skip_scope scope preflight t) in
      let submitted =
        submit_scope scope preflight (remaining_limit limit t.linked) batch_size >>= λ counts.
        submit_scopes preflights limit batch_size scopes (count_scope scope preflight counts t) in
      if no_children scope then skipped else submitted

  abbrev pub result_of : ℕ → Totals → SubmissionResult
  result_of selected t = record {
    selected_scope_count = selected;
    submitted_count = t.submitted;
    reused_idempotent_count = t.reused_idempotent;
    already_linked_count = t.already_linked;
    skipped_no_children = t.skipped;
    scopes = t.summaries;
  }

  unfoldable pub submit_refinement_jobs : Selection → Option ℕ → ℕ → Action SubmissionResult
  unfolding resolve_scopes load_submission_preflight submit_scopes ◌>>=◌
  submit_refinement_jobs selection limit batch_size =
      if bad_batch_size batch_size
      then raise (value_error "batch_size")
      else gets (λ s. resolve_scopes svc s.taxonomy_nodes selection) >>= λ resolved.
          lift resolved >>= λ scopes.
          gets (λ s id. load_submission_preflight id s) >>= λ preflights.
          submit_scopes preflights limit batch_size scopes no_totals >>= λ t.
          pure (result_of (length scopes) t)

  -- An existing job with its scope, its row's primary key and its card.
  unfoldable pub existing_items :
      List (ResolvedScope × (ℕ × Card)) → Result Error (List PendingSubmissionItem)
  unfolding pending_submission_item
  existing_items [] = ok []
  existing_items ((scope, job) ∷ more) =
      let rest = existing_items more in
      elim (pending_submission_item svc queue_name scope job) [
        | err e ↦ err e
        | ok item ↦ elim rest [ err e ↦ err e | ok items ↦ ok (item ∷ items) ]
      ]

  unfoldable pub submit_existing_jobs : List (ResolvedScope × (ℕ × Card)) → ℕ → Action Unit
  unfolding existing_items submit_pending_items ◌>>=◌
  submit_existing_jobs submissions batch_size =
      if bad_batch_size batch_size
      then raise (value_error "batch_size")
      else lift (existing_items submissions) >>= λ items.
          (submit_pending_items svc queue_name items batch_size >> pure tt)

  unfoldable pub submit_existing_single_job : ResolvedScope → ℕ × Card → ℕ → Action ℕ
  unfolding submit_existing_jobs ◌>>=◌
  submit_existing_single_job scope job batch_size =
      if bad_batch_size batch_size
      then raise (value_error "batch_size")
      else submit_existing_jobs ((scope, job) ∷ []) batch_size >> pure job.0

  abbrev pub first_id : List (ℕ × Card) → Result Error ℕ
  first_id [] = err (value_error "index")
  first_id ((id, card) ∷ jobs) = ok id

  unfoldable pub create_and_submit_single_job : ResolvedScope → Card → ℕ → Action ℕ
  unfolding create_pending_jobs submit_pending_jobs ◌>>=◌
  create_and_submit_single_job scope card batch_size =
      if bad_batch_size batch_size
      then raise (value_error "batch_size")
      else create_pending_jobs scope (card ∷ []) now >>= λ jobs.
          (submit_pending_jobs svc queue_name scope jobs batch_size >> lift (first_id jobs))

-- `_count_jobs_to_link_from_preflight`
unfoldable pub count_jobs_to_link :
    (ℕ → ScopeSubmissionPreflight) → Option ℕ → List ResolvedScope → ℕ → ℕ
count_jobs_to_link preflights limit [] total = total
count_jobs_to_link preflights limit (scope ∷ scopes) total =
    let skipped = count_jobs_to_link preflights limit scopes total in
    let count = jobs_to_link_count (preflights scope.scope_node.id) in
    let all = count_jobs_to_link preflights limit scopes (total + count) in
    if no_children scope then skipped else elim (remaining_limit limit total) [
      | none ↦ all
      | some remaining ↦
          (let some_of = count_jobs_to_link preflights limit scopes (total + min count remaining) in
            if remaining == 0 then total else some_of)
    ]

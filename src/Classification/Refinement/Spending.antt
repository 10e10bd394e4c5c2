-- ===== src/Classification/Refinement/Spending.antt =====
-- The limit of a submission holds of the rows that it links, not of its counts alone.
use hll.Prelude.{
  ℕ, ◌+◌, String, ◌≡◌, refl, sym, subst, ◌||◌, Option, List, [], ◌∷◌, arith, length, ◌==◌,
}
use hll.Exec.{Result, ok, err, lift, gets}
use hll.Exec.Post.{Ok}
use hll.Exec.Costs.{
  Cost, Costs, Costs-pure, Costs-raise, Costs-bind, Costs-after, Costs-if, Costs-shift,
}
use hll.Classification.Model.{Error, value_error, Card, Services, State, commit}
use hll.Classification.Chunks.{chunk_submission_items, max_job_queue_batch_request_bytes}
use hll.Classification.Scopes.{ResolvedScope, Selection, resolve_scopes}
use hll.Classification.Submission.{
  SubmissionCounts, no_counts, add_counts, total_count, remaining_limit, is_zero,
  PendingSubmissionItem, ScopeSubmissionPreflight, jobs_to_link_count, ask_create,
  created_job_by_index, link_entries, submit_batch, submit_batches, submit_pending_items,
  pending_items, submit_pending_jobs, create_pending_jobs, list_pending_local_jobs,
  list_cards_without_active_job, load_submission_preflight,
}
use hll.Classification.Refinement.{
  SubmissionResult, Totals, no_totals, no_children, bad_batch_size, skip_scope, count_scope,
  submit_new_jobs, submit_resolved_scope_jobs, submit_scope, submit_scopes, result_of,
  submit_refinement_jobs,
}
use hll.Classification.Refinement.Rows.{
  Links, Links-same, Links-graded, commit_step, create_pending_jobs_step, Costs-link_entries,
}
use hll.Classification.Refinement.Limit.{InLimit, submit_refinement_jobs-InLimit}

abbrev counted : Totals → ℕ
counted t = t.submitted + t.reused_idempotent

module _ (svc : Services) (queue_name : String) where
  ask_create_none : (items : _) (s : State) → Links 0 s (ask_create svc queue_name items s).1
  unfolding ask_create
  ask_create_none items s = Links-same s _ (λ id. refl)

  Costs-submit_batch :
      (batch : List PendingSubmissionItem) (counts : SubmissionCounts)
      → Costs Links (total_count counts) total_count (submit_batch svc queue_name batch counts)
  unfolding submit_batch
  Costs-submit_batch batch counts =
      Costs-after Links-graded (total_count counts) total_count (ask_create svc queue_name _) _
        (ask_create_none _)
        (λ created.
          Costs-after Links-graded (total_count counts) total_count
            (lift (created_job_by_index created (length batch))) _ (λ s. Links-graded.none s)
            (λ jobs.
              Costs-bind Links-graded (total_count counts) total_count total_count
                (link_entries svc queue_name jobs 0 batch counts) _
                (Costs-link_entries svc queue_name jobs 0 batch counts)
                (λ after.
                  Costs-after Links-graded (total_count after) total_count commit _
                    (λ s. commit_step.at s)
                    (λ _.
                      Costs-pure Links-graded (total_count after) total_count after
                        (omega arith)))))

  Costs-submit_batches :
      (batches : List (List PendingSubmissionItem)) (counts : SubmissionCounts)
      → Costs Links (total_count counts) total_count (submit_batches svc queue_name batches counts)
  unfolding submit_batches
  Costs-submit_batches [] counts =
      Costs-pure Links-graded (total_count counts) total_count counts (omega arith)
  Costs-submit_batches (batch ∷ batches) counts =
      Costs-bind Links-graded (total_count counts) total_count total_count
        (submit_batch svc queue_name batch counts) _ (Costs-submit_batch batch counts)
        (λ after. Costs-submit_batches batches after)

  Costs-submit_pending_jobs :
      (scope : ResolvedScope) (jobs : List (ℕ × Card)) (batch_size : ℕ)
      → Costs Links 0 total_count (submit_pending_jobs svc queue_name scope jobs batch_size)
  unfolding submit_pending_jobs submit_pending_items
  Costs-submit_pending_jobs scope jobs batch_size =
      Costs-after Links-graded 0 total_count (lift (pending_items svc queue_name scope jobs)) _
        (λ s. Links-graded.none s)
        (λ items.
          Costs-after Links-graded 0 total_count
            (lift (
              chunk_submission_items (λ entry. svc.item_bytes entry.create_job) batch_size
                max_job_queue_batch_request_bytes items))
            _ (λ s. Links-graded.none s) (λ batches. Costs-submit_batches batches no_counts))

-- The result keeps the limit, and no more rows got another job than it counts.
pub record Limited (limit : Option ℕ) (s : State) (r : Result Error SubmissionResult × State)
    : Type 0 where
  pub counts : Ok (InLimit limit) r.0
  pub rows :
      Ok (λ result. Links (result.submitted_count + result.reused_idempotent_count) s r.1) r.0

counted_scope :
    (t : Totals) (counts : SubmissionCounts)
    → counted t + total_count counts
      ≡ (t.submitted + counts.submitted_count)
        + (t.reused_idempotent + counts.reused_idempotent_count)
counted_scope t counts = omega arith

module _ (svc : Services) (queue_name : String) (now batch_size : ℕ) where
  Costs-submit_new_jobs :
      (scope : ResolvedScope) (remaining : Option ℕ) (counts : SubmissionCounts)
      → Costs Links
          (total_count counts)
          total_count
          (submit_new_jobs svc queue_name now scope remaining batch_size counts)
  unfolding submit_new_jobs
  Costs-submit_new_jobs scope remaining counts =
      let base = total_count counts in
      Costs-if Links-graded base total_count (is_zero remaining) _ _
        (Costs-pure Links-graded base total_count counts (omega arith))
        (Costs-after Links-graded base total_count
          (gets (list_cards_without_active_job scope.scope_node.id remaining)) _
          (λ s. Links-graded.none s)
          (λ cards.
            Costs-after Links-graded base total_count (create_pending_jobs scope cards now) _
              (λ s. (create_pending_jobs_step scope cards now).at s)
              (λ jobs.
                Costs-bind Links-graded base (λ c. base + total_count c) total_count
                  (submit_pending_jobs svc queue_name scope jobs batch_size) _
                  (Costs-shift Links-graded base total_count _
                    (Costs-submit_pending_jobs svc queue_name scope jobs batch_size))
                  (λ created.
                    Costs-pure Links-graded (base + total_count created) total_count
                      (add_counts counts created) (omega arith)))))

  Costs-submit_resolved_scope_jobs :
      (scope : ResolvedScope) (limit : Option ℕ)
      → Costs Links 0 total_count
          (submit_resolved_scope_jobs svc queue_name now scope limit batch_size)
  unfolding submit_resolved_scope_jobs
  Costs-submit_resolved_scope_jobs scope limit =
      Costs-if Links-graded 0 total_count (is_zero limit) _ _
        (Costs-pure Links-graded 0 total_count no_counts (omega arith))
        (Costs-after Links-graded 0 total_count
          (gets (list_pending_local_jobs scope.scope_node.id limit)) _ (λ s. Links-graded.none s)
          (λ jobs.
            Costs-bind Links-graded 0 total_count total_count
              (submit_pending_jobs svc queue_name scope jobs batch_size) _
              (Costs-submit_pending_jobs svc queue_name scope jobs batch_size)
              (λ counts.
                Costs-submit_new_jobs scope (remaining_limit limit (total_count counts)) counts)))

  Costs-submit_scope :
      (scope : ResolvedScope) (preflight : ScopeSubmissionPreflight) (limit : Option ℕ)
      → Costs Links 0 total_count (submit_scope svc queue_name now scope preflight limit batch_size)
  unfolding submit_scope
  Costs-submit_scope scope preflight limit =
      Costs-if Links-graded 0 total_count (is_zero limit || jobs_to_link_count preflight == 0) _ _
        (Costs-pure Links-graded 0 total_count no_counts (omega arith))
        (Costs-submit_resolved_scope_jobs scope limit)

  Costs-submit_scopes :
      (preflights : ℕ → ScopeSubmissionPreflight) (limit : Option ℕ) (scopes : List ResolvedScope)
      (t : Totals)
      → Costs Links
          (counted t)
          counted
          (submit_scopes svc queue_name now preflights limit batch_size scopes t)
  unfolding submit_scopes
  Costs-submit_scopes preflights limit [] t =
      Costs-pure Links-graded (counted t) counted t (omega arith)
  Costs-submit_scopes preflights limit (scope ∷ scopes) t =
      let preflight = preflights scope.scope_node.id in
      Costs-if Links-graded (counted t) counted (no_children scope) _ _
        (Costs-submit_scopes preflights limit scopes (skip_scope scope preflight t))
        (Costs-bind Links-graded (counted t) (λ c. counted t + total_count c) counted
          (submit_scope svc queue_name now scope preflight (remaining_limit limit t.linked)
            batch_size)
          _
          (Costs-shift Links-graded (counted t) total_count _
            (Costs-submit_scope scope preflight (remaining_limit limit t.linked)))
          (λ counts.
            subst
              (λ n. Costs Links n counted (
                submit_scopes svc queue_name now preflights limit batch_size scopes
                  (count_scope scope preflight counts t)))
              (sym (counted_scope t counts))
              (Costs-submit_scopes preflights limit scopes (count_scope scope preflight counts t))))

  abbrev spent : SubmissionResult → ℕ
  spent r = r.submitted_count + r.reused_idempotent_count

  Costs-submit_refinement_jobs :
      (selection : Selection) (limit : Option ℕ)
      → Costs Links 0 spent (submit_refinement_jobs svc queue_name now selection limit batch_size)
  unfolding submit_refinement_jobs
  Costs-submit_refinement_jobs selection limit =
      Costs-if Links-graded 0 spent (bad_batch_size batch_size) _ _
        (Costs-raise Links-graded 0 spent (value_error "batch_size"))
        (Costs-after Links-graded 0 spent
          (gets (λ s. resolve_scopes svc s.taxonomy_nodes selection)) _ (λ s. Links-graded.none s)
          (λ resolved.
            Costs-after Links-graded 0 spent (lift resolved) _ (λ s. Links-graded.none s)
              (λ scopes.
                Costs-after Links-graded 0 spent (gets (λ s id. load_submission_preflight id s)) _
                  (λ s. Links-graded.none s)
                  (λ preflights.
                    Costs-bind Links-graded 0 counted spent
                      (submit_scopes svc queue_name now preflights limit batch_size scopes
                        no_totals)
                      _ (Costs-submit_scopes preflights limit scopes no_totals)
                      (λ t.
                        Costs-pure Links-graded (counted t) spent
                          (result_of svc queue_name now (length scopes) t) (omega arith))))))

  -- A submission that returns has given a job to no more rows than its result counts as submitted or reused,
  -- and these are no more than its limit; the result has one summary for each selected scope, and its counts
  -- are the sums of those of the summaries.
  pub submit_refinement_jobs-Limited :
      (selection : Selection) (limit : Option ℕ) (s : State)
      → Limited limit s (submit_refinement_jobs svc queue_name now selection limit batch_size s)
  submit_refinement_jobs-Limited selection limit s = record {
    counts = (submit_refinement_jobs-InLimit svc queue_name now selection limit batch_size).at s;
    rows = links_of _ _ ((Costs-submit_refinement_jobs selection limit).at s);
  }
    where
      links_of :
          (r : Result Error SubmissionResult) (t : State)
          → Ok (λ result. Cost Links 0 (spent result) s t) r
          → Ok (λ result. Links (result.submitted_count + result.reused_idempotent_count) s t) r
      links_of (ok result) t c = record {
        rows = c.taken.rows;
        few = omega (arith, c.within, c.taken.few);
        others = c.taken.others;
      }
      links_of (err e) t c = tt

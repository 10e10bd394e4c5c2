-- ===== src/Classification/Refinement/Links.antt =====
-- How many jobs a submission counts.
use hll.Prelude.{
  ℕ, suc, ◌+◌, ◌≤◌, String, ◌≡◌, refl, subst, Bool, true, false, Option, none, some, List, [], ◌∷◌,
  map, arith, length, length-append,
}
use hll.Exec.{Result, ok, err, raise, lift, ◌>>◌}
use hll.Exec.Post.{Ok, Post, Post-pure, Post-raise, Post-lift, Post-after, Post-bind}
use hll.Classification.Model.{Error, value_error, Card, Services, Action, commit, CreatedJob, State}
use hll.Classification.Chunks.{chunk_submission_items, max_job_queue_batch_request_bytes}
use hll.Classification.Chunks.Sizes.{Chunked, concat, chunk_submission_items-Chunked}
use hll.Classification.Scopes.{ResolvedScope}
use hll.Classification.Submission.{
  SubmissionCounts, no_counts, total_count, PendingSubmissionItem, created_at_index, ask_create,
  created_job_by_index, link_job, link_entries, submit_batch, submit_batches, submit_pending_items,
  pending_submission_item, pending_items, submit_pending_jobs, count_created,
}

-- A submission that returns has counted so many jobs.
abbrev pub Total : ℕ → SubmissionCounts → Type 0
Total n c = total_count c ≡ n

module _ (svc : Services) (queue_name : String) where
  Total-count_created :
      (b : Bool) (c : SubmissionCounts)
      → total_count (count_created svc queue_name b c) ≡ suc (total_count c)
  Total-count_created true c = omega arith
  Total-count_created false c = omega arith

  Total-link_entries :
      (jobs : List CreatedJob) (index : ℕ) (entries : List PendingSubmissionItem)
      (counts : SubmissionCounts) (n : ℕ)
      → total_count counts + length entries ≡ n
      → Post (Total n) (link_entries svc queue_name jobs index entries counts)
  unfolding link_entries
  Total-link_entries jobs index [] counts n h = Post-pure (Total n) counts (omega (arith, h))
  Total-link_entries jobs index (entry ∷ entries) counts n h =
      go (created_at_index index jobs) (λ job.
        Total-link_entries jobs (suc index) entries
          (count_created svc queue_name job.created counts) n
          (omega (arith, h, Total-count_created job.created counts)))
    where
      link : CreatedJob → Action SubmissionCounts
      link job =
          link_job entry.local_job job.job_id
          >> link_entries svc queue_name jobs (suc index) entries
              (count_created svc queue_name job.created counts)

      go :
          (found : Option CreatedJob)
          → ((job : CreatedJob)
              → Post (Total n) (
                  link_entries svc queue_name jobs
                    (suc index)
                    entries
                    (count_created svc queue_name job.created counts)))
          → Post {S = State} {E = Error}
              (Total n)
              (elim found [ none ↦ raise (value_error "index") | some job ↦ link job ])
      go none rest = Post-raise (Total n) (value_error "index")
      go (some job) rest =
          Post-after (Total n) (link_job entry.local_job job.job_id) _ (λ _. rest job)

  Total-submit_batch :
      (batch : List PendingSubmissionItem) (counts : SubmissionCounts) (n : ℕ)
      → total_count counts + length batch ≡ n
      → Post (Total n) (submit_batch svc queue_name batch counts)
  unfolding submit_batch
  Total-submit_batch batch counts n h =
      Post-after (Total n) (ask_create svc queue_name (map (λ entry. entry.create_job) batch)) _
        (λ created.
          Post-after (Total n) (lift (created_job_by_index created (length batch))) _ (λ jobs.
            Post-bind (Total n) (Total n) (link_entries svc queue_name jobs 0 batch counts) _
              (Total-link_entries jobs 0 batch counts n h)
              (λ after t. Post-after (Total n) commit _ (λ _. Post-pure (Total n) after t))))

  Total-submit_batches :
      (batches : List (List PendingSubmissionItem)) (counts : SubmissionCounts) (n : ℕ)
      → total_count counts + length (concat batches) ≡ n
      → Post (Total n) (submit_batches svc queue_name batches counts)
  unfolding submit_batches
  Total-submit_batches [] counts n h = Post-pure (Total n) counts (omega (arith, h))
  Total-submit_batches (batch ∷ batches) counts n h =
      Post-bind (Total (total_count counts + length batch)) (Total n)
        (submit_batch svc queue_name batch counts) _ (Total-submit_batch batch counts _ refl)
        (λ after t.
          Total-submit_batches batches after n
            (omega (arith, h, t, length-append batch (concat batches))))

  chunks_keep :
      (items : List PendingSubmissionItem) (batch_size : ℕ)
      → 1 ≤ batch_size
      → Ok
          (λ batches. length (concat batches) ≡ length items)
          (chunk_submission_items
            (λ entry. svc.item_bytes entry.create_job)
            batch_size
            max_job_queue_batch_request_bytes
            items)
  chunks_keep items batch_size one = go _ (chunk_submission_items-Chunked _ batch_size _ items one)
    where
      go :
          (r : Result Error (List (List PendingSubmissionItem)))
          → Chunked
              (λ entry. svc.item_bytes entry.create_job)
              batch_size
              max_job_queue_batch_request_bytes
              items
              items
              r
          → Ok (λ batches. length (concat batches) ≡ length items) r
      go (ok batches) h = rw h.0 refl
      go (err e) h = tt

  pub Total-submit_pending_items :
      (items : List PendingSubmissionItem) (batch_size : ℕ)
      → 1 ≤ batch_size
      → Post (Total (length items)) (submit_pending_items svc queue_name items batch_size)
  unfolding submit_pending_items
  Total-submit_pending_items items batch_size one =
      Post-bind (λ batches. length (concat batches) ≡ length items) (Total (length items))
        (lift (
          chunk_submission_items (λ entry. svc.item_bytes entry.create_job) batch_size
            max_job_queue_batch_request_bytes items))
        _
        (Post-lift (λ batches. length (concat batches) ≡ length items) _
          (chunks_keep items batch_size one))
        (λ batches h. Total-submit_batches batches no_counts (length items) (omega (arith, h)))

  pending_items_keep :
      (scope : ResolvedScope) (jobs : List (ℕ × Card))
      → Ok (λ items. length items ≡ length jobs) (pending_items svc queue_name scope jobs)
  unfolding pending_items
  pending_items_keep scope [] = refl
  pending_items_keep scope (p ∷ ps) =
      go (pending_submission_item svc queue_name scope p) _ (pending_items_keep scope ps)
    where
      go :
          (first : Result Error PendingSubmissionItem)
          (rest : Result Error (List PendingSubmissionItem))
          → Ok (λ items. length items ≡ length ps) rest
          → Ok
              (λ items. length items ≡ length (p ∷ ps))
              (elim first [
                | err e ↦ err e
                | ok item ↦ elim rest [ err e ↦ err e | ok items ↦ ok (item ∷ items) ]
              ])
      go (err e) rest h = tt
      go (ok item) (err e) h = tt
      go (ok item) (ok items) h = omega (arith, h)

  pub Total-submit_pending_jobs :
      (scope : ResolvedScope) (jobs : List (ℕ × Card)) (batch_size : ℕ)
      → 1 ≤ batch_size
      → Post (Total (length jobs)) (submit_pending_jobs svc queue_name scope jobs batch_size)
  unfolding submit_pending_jobs
  Total-submit_pending_jobs scope jobs batch_size one =
      Post-bind (λ items. length items ≡ length jobs) (Total (length jobs))
        (lift (pending_items svc queue_name scope jobs)) _
        (Post-lift (λ items. length items ≡ length jobs) _ (pending_items_keep scope jobs))
        (λ items h.
          subst (λ n. Post (Total n) (submit_pending_items svc queue_name items batch_size)) h
            (Total-submit_pending_items items batch_size one))

-- ===== src/Classification/Refinement/Answers.antt =====
-- A submission to a job queue that answers: it returns, and each of its rows is linked.
use mathlib.Core.Option
use hll.Prelude.{
  ℕ, suc, ◌≤◌, String, ◌≡◌, refl, sym, subst, true, false, Option, none, some, List, [], ◌∷◌, ◌++◌,
  map, arith, length, All, All-append, All-map, any, any, ◌==◌,
}
use hll.Exec.{Result, ok, err, pure, continue, pure, raise, ◌>>=◌, ◌>>◌}
use hll.Exec.Post.{Ok}
use hll.SourcePipeline.Model.{update_row}
use hll.Classification.Model.{
  Error, value_error, Services, Action, State, CreateJobItem, CreatedJob, Call, create_jobs, commit,
  write_job,
}
use hll.Classification.Chunks.{max_job_queue_batch_request_bytes}
use hll.Classification.Chunks.Sizes.{Chunked, concat, too_large, chunk_submission_items-Chunked}
use hll.Classification.Submission.{
  SubmissionCounts, no_counts, PendingSubmissionItem, created_at_index, taken, link_job, ask_create,
  created_job_by_index, count_created, link_entries, submit_batch, submit_batches,
  submit_pending_items,
}
use hll.Exec.Steps.{after_ok}
use hll.Classification.Refinement.Links.{Total, Total-submit_pending_items}
use hll.Classification.Refinement.Entries.{
  All-join, All-split, AllApart, Answered, Apart, Apart-sym, AreNamed, Done, Free, Linked, Separate,
  Separate-Split, Stored, Submitted, is_linked, length-create_jobs, linked_here, linked_there,
  named_job, still_free, with_job,
}

module _ (svc : Services) (queue_name : String) (job_of : CreateJobItem → ℕ) where
  abbrev link :
      List CreatedJob
      → ℕ
      → PendingSubmissionItem
      → List PendingSubmissionItem
      → SubmissionCounts
      → Option CreatedJob
      → Action SubmissionCounts
  link jobs index entry entries counts found = elim found [
    | none ↦ raise (value_error "index")
    | some job ↦
        link_job entry.local_job job.job_id
        >> link_entries svc queue_name jobs (suc index) entries
            (count_created svc queue_name job.created counts)
  ]

  abbrev linked_state : State → ℕ → ℕ → State
  linked_state s id job_id = record s {
    tables = record s.tables { jobs = update_row (λ j. j.id) id (with_job job_id) s.jobs };
  }

  frees_after :
      (s : State) (entry e : PendingSubmissionItem) (job_id : ℕ)
      → job_id ≡ job_of entry.create_job
      → Apart job_of entry e
      → Free job_of s.tables e
      → Free job_of (linked_state s entry.local_job job_id).tables e
  frees_after s entry e job_id same apart free = record {
    at =
        still_free entry.local_job e.local_job job_id (job_of e.create_job) s.jobs
          (subst (λ n. (n == job_of e.create_job) ≡ false) (sym same) apart.jobs) free.at;
  }

  All-frees_after :
      (s : State) (entry : PendingSubmissionItem) (job_id : ℕ)
      (entries : List PendingSubmissionItem)
      → job_id ≡ job_of entry.create_job
      → All (Apart job_of entry) entries
      → All (Free job_of s.tables) entries
      → All (Free job_of (linked_state s entry.local_job job_id).tables) entries
  All-frees_after s entry job_id [] same apart free = tt
  All-frees_after s entry job_id (e ∷ entries) same apart free = (
    frees_after s entry e job_id same apart.0 free.0,
    All-frees_after s entry job_id entries same apart.1 free.1,
  )

  Done-link_entries :
      (jobs : List CreatedJob) (index : ℕ) (entries : List PendingSubmissionItem)
      (counts : SubmissionCounts) (s : State)
      → AreNamed job_of jobs index (map (λ entry. entry.create_job) entries)
      → Separate job_of entries
      → All (Free job_of s.tables) entries
      → Done job_of (link_entries svc queue_name jobs index entries counts s) s entries
  unfolding link_entries link_job write_job ◌>>=◌
  Done-link_entries jobs index [] counts s named separate free = record {
    counts = counts;
    returned = refl;
    linked = tt;
    keeps = λ e _ l. l;
    frees = λ e _ f. f;
  }
  Done-link_entries jobs index (entry ∷ entries) counts s named separate free =
      go (created_at_index index jobs) named.0
        (λ c u f. Done-link_entries jobs (suc index) entries c u named.1 separate.1 f)
    where
      go :
          (found : Option CreatedJob)
          → Option.map (λ (j : CreatedJob). j.job_id) found ≡ some (job_of entry.create_job)
          → ((c : SubmissionCounts) (u : State)
              → All (Free job_of u.tables) entries
              → Done job_of (link_entries svc queue_name jobs (suc index) entries c u) u entries)
          → Done job_of (link jobs index entry entries counts found s) s (entry ∷ entries)
      go none is rest = cc
      go (some job) is rest =
          let same : job.job_id ≡ job_of entry.create_job = named_job job _ is in
          let open_job : taken entry.local_job job.job_id s.jobs ≡ false =
            subst (λ n. taken entry.local_job n s.jobs ≡ false) (sym same) free.0.at in
          let u = linked_state s entry.local_job job.job_id in
          let r =
            rest (count_created svc queue_name job.created counts) u
              (All-frees_after s entry job.job_id entries same separate.0 free.1) in
          rw open_job (record {
            counts = r.counts;
            returned = r.returned;
            linked = (
              r.keeps entry (All-map (λ x a. Apart-sym job_of entry x a) entries separate.0)
                  (record {
                    at =
                        subst (λ n. is_linked entry.local_job n u.jobs ≡ true) same
                          (linked_here entry.local_job job.job_id s.jobs);
                  }),
              r.linked,
            );
            keeps = λ e apart l. r.keeps e apart.1 (record {
              at =
                  linked_there entry.local_job e.local_job job.job_id (job_of e.create_job) s.jobs
                    apart.0.rows l.at;
            });
            frees =
                λ e apart f. r.frees e apart.1 (frees_after s entry e job.job_id same apart.0 f);
          })

  abbrev batch_state : State → List PendingSubmissionItem → State
  batch_state s batch = record s {
    calls = create_jobs (map (λ entry. entry.create_job) batch) ∷ s.calls;
  }

  created_jobs_ok :
      (s : State) (batch : List PendingSubmissionItem)
      (a : Answered svc job_of s.calls (map (λ entry. entry.create_job) batch))
      → created_job_by_index a.jobs (length batch) ≡ ok a.jobs
  unfolding created_job_by_index
  created_jobs_ok s batch a = ground (arith, a.count, a.indexes, a.below, length-create_jobs batch)

  -- One batch: the call, the check of its answer, the links and the commit.
  Stored-submit_batch :
      (batch : List PendingSubmissionItem) (counts : SubmissionCounts) (s : State)
      → Answered svc job_of s.calls (map (λ entry. entry.create_job) batch)
      → Separate job_of batch
      → All (Free job_of s.tables) batch
      → Stored job_of (submit_batch svc queue_name batch counts s) s batch
  unfolding submit_batch ask_create commit ◌>>=◌
  Stored-submit_batch batch counts s a separate free =
      let d = Done-link_entries a.jobs 0 batch counts (batch_state s batch) a.named separate free in
      rw (a.is, created_jobs_ok s batch a)
        (subst (λ x. Stored job_of x s batch)
          (sym (
            after_ok (link_entries svc queue_name a.jobs 0 batch counts)
              (λ after. commit >> pure after) (batch_state s batch) d.counts d.returned))
          (record {
            done = record {
              counts = d.counts;
              returned = refl;
              linked = d.linked;
              keeps = d.keeps;
              frees = d.frees;
            };
            durable = λ _. refl;
          }))

  Stored-submit_batches :
      (batches : List (List PendingSubmissionItem)) (counts : SubmissionCounts) (s : State)
      → ((calls : List Call) (items : List CreateJobItem) → Answered svc job_of calls items)
      → Separate job_of (concat batches)
      → All (Free job_of s.tables) (concat batches)
      → Stored job_of (submit_batches svc queue_name batches counts s) s (concat batches)
  unfolding submit_batches ◌>>=◌
  Stored-submit_batches [] counts s client separate free = record {
    done = record {
      counts = counts;
      returned = refl;
      linked = tt;
      keeps = λ e _ l. l;
      frees = λ e _ f. f;
    };
    durable = λ h. h;
  }
  Stored-submit_batches (batch ∷ batches) counts s client separate free =
      let parts = Separate-Split job_of batch (concat batches) separate in
      let (free_first, free_rest) = All-split (Free job_of s.tables) batch (concat batches) free in
      let first = Stored-submit_batch batch counts s (client s.calls _) parts.first free_first in
      let u = (submit_batch svc queue_name batch counts s).1 in
      let rest = Stored-submit_batches batches first.done.counts u client parts.second (
        All-join (AllApart job_of batch) (Free job_of s.tables) (Free job_of u.tables)
          (λ e a f. first.done.frees e a f) (concat batches) parts.back free_rest) in
      subst (λ x. Stored job_of x s (batch ++ concat batches))
        (sym (
          after_ok (submit_batch svc queue_name batch counts)
            (λ after. submit_batches svc queue_name batches after) s first.done.counts
            first.done.returned))
        (record {
          done = record {
            counts = rest.done.counts;
            returned = rest.done.returned;
            linked =
                All-append (Linked job_of _) batch (concat batches)
                  (All-join (AllApart job_of (concat batches)) (Linked job_of u.tables)
                    (Linked job_of _) (λ e a l. rest.done.keeps e a l) batch parts.across
                    first.done.linked)
                  rest.done.linked;
            keeps = λ e a l.
                let (here, later) = All-split _ batch (concat batches) a in
                rest.done.keeps e later (first.done.keeps e here l);
            frees = λ e a f.
                let (here, later) = All-split _ batch (concat batches) a in
                rest.done.frees e later (first.done.frees e here f);
          };
          durable = λ h. rest.durable (first.durable h);
        })

module _ (svc : Services) (queue_name : String) (job_of : CreateJobItem → ℕ) (batch_size : ℕ)
    (one : 1 ≤ batch_size) where
  -- From a state with nothing uncommitted, where the job queue answers each request with one job for each of
  -- its indexes, the job of the item at the index, where the items have different rows and different jobs, no
  -- other row has a job of theirs, and each item fits a request of its own, the submission of items returns:
  -- its counts add up to the number of the items, and in what is committed the row of each item, where it is
  -- there, has the job of the item.
  pub submit_pending_items-Submitted :
      (items : List PendingSubmissionItem) (s : State)
      → ((calls : List Call) (sent : List CreateJobItem) → Answered svc job_of calls sent)
      → any
          (too_large
            (λ entry. svc.item_bytes entry.create_job)
            batch_size
            max_job_queue_batch_request_bytes)
          items
        ≡ false
      → Separate job_of items
      → All (Free job_of s.tables) items
      → s.committed ≡ s.tables
      → Submitted job_of (submit_pending_items svc queue_name items batch_size s) items
  unfolding submit_pending_items ◌>>=◌
  submit_pending_items-Submitted items s client fit separate free clean =
      go _ (chunk_submission_items-Chunked _ batch_size _ items one)
        ((Total-submit_pending_items svc queue_name items batch_size one).at s)
    where
      run : Result Error (List (List PendingSubmissionItem)) → Result Error SubmissionCounts × State
      run r = continue r (λ batches. submit_batches svc queue_name batches no_counts) s

      go :
          (r : Result Error (List (List PendingSubmissionItem)))
          → Chunked
              (λ entry. svc.item_bytes entry.create_job)
              batch_size
              max_job_queue_batch_request_bytes
              items
              items
              r
          → Ok (Total (length items)) (run r).0
          → Submitted job_of (run r) items
      go (err e) chunked total = cc
      go (ok batches) chunked total =
          let stored =
            Stored-submit_batches svc queue_name job_of batches no_counts s client
              (subst (Separate job_of) (sym chunked.0) separate)
              (subst (All (Free job_of s.tables)) (sym chunked.0) free) in
          record {
            counts = stored.done.counts;
            returned = stored.done.returned;
            total = subst (Ok (Total (length items))) stored.done.returned total;
            linked =
                subst (λ t. All (Linked job_of t) items) (sym (stored.durable clean))
                  (subst (All (Linked job_of _)) chunked.0 stored.done.linked);
          }

-- ===== src/Classification/Refinement/Rows.antt =====
-- How many rows a submission links, against the counts that it returns.
use hll.Prelude.{
  ℕ, suc, ◌+◌, ◌≤◌, String, ◌≡◌, refl, ◌∙◌, Bool, true, false, ◌||◌, Option, none, some, List, [],
  ◌∷◌, ◌++◌, arith, any, any-append, Bool-cases, inl, inr, length, length-append, ◌==◌,
  if◌then◌else◌,
}
use hll.Exec.{Result, ok, err, raise, ◌>>◌}
use hll.Exec.Post.{Ok}
use hll.Exec.Steps.{IsPreorder, Steps, Steps-pure, Steps-bind}
use hll.Exec.Costs.{Graded, Cost, Costs, Costs-pure, Costs-raise, Costs-bind}
use hll.SourcePipeline.Model.{get_row, update_row}
use hll.SourcePipeline.Model.Rows.{get_row-update_row, get_row-append}
use hll.Classification.Model.{
  Error, value_error, Card, Services, State, Action, TaxonomyClassificationJob, CreatedJob, commit,
  write_job,
}
use hll.Classification.Scopes.{ResolvedScope}
use hll.Classification.Submission.{
  SubmissionCounts, total_count, PendingSubmissionItem, created_at_index, taken, link_job,
  link_entries, count_created, open_job_of, add_job, add_jobs, create_pending_jobs,
}

abbrev job_id_of : Option TaxonomyClassificationJob → Option ℕ
job_id_of none = none
job_id_of (some j) = j.job_id

-- The job of a row, where there are the row and the job
abbrev pub job_at_row : ℕ → State → Option ℕ
job_at_row id s = job_id_of (get_row (λ j. j.id) id s.jobs)

-- Only so many rows have another job than before.
pub record Links (n : ℕ) (s t : State) : Type 0 where
  pub rows : List ℕ
  pub few : length rows ≤ n
  pub others : (id : ℕ) → any (λ k. k == id) rows ≡ false → job_at_row id t ≡ job_at_row id s

pub Links-same : (s t : State) → ((id : ℕ) → job_at_row id t ≡ job_at_row id s) → Links 0 s t
Links-same s t h = record { rows = []; few = omega arith; others = λ id _. h id }

pub Links-graded : Graded Links
Links-graded = record {
  none = λ s. Links-same s s (λ id. refl);
  more = λ m n s t u p q. record {
    rows = p.rows ++ q.rows;
    few = omega (arith, p.few, q.few, length-append p.rows q.rows);
    others = λ id h.
        let apart : (any (λ k. k == id) p.rows || any (λ k. k == id) q.rows) ≡ false =
          ground (arith, h, any-append (λ k. k == id) p.rows q.rows) in
        q.others id (ground (arith, apart)) ∙ p.others id (ground (arith, apart));
  };
}

row_written :
    (id k job_id : ℕ) (rows : List TaxonomyClassificationJob)
    → (id == k) ≡ false
    → job_id_of (
        get_row
          (λ j. j.id)
          k
          (update_row (λ j. j.id) id (λ j. record j { job_id = some job_id }) rows))
      ≡ job_id_of (get_row (λ j. j.id) k rows)
row_written id k job_id rows apart =
    rw
      (get_row-update_row (λ (j : TaxonomyClassificationJob). j.id) id k
        (λ j. record j { job_id = some job_id }) rows (λ a. refl))
      (rw apart refl)

row_added :
    (id : ℕ) (rows : List TaxonomyClassificationJob) (r : TaxonomyClassificationJob)
    → r.job_id ≡ none
    → job_id_of (get_row (λ j. j.id) id (rows ++ r ∷ [])) ≡ job_id_of (get_row (λ j. j.id) id rows)
row_added id rows r empty =
    rw (get_row-append (λ (j : TaxonomyClassificationJob). j.id) id rows r)
      (go (get_row (λ j. j.id) id rows))
  where
    go :
        (found : Option TaxonomyClassificationJob)
        → job_id_of (elim found [ none ↦ (if r.id == id then some r else none) | some a ↦ some a ])
          ≡ job_id_of found
    go none = elim (Bool-cases (r.id == id)) [ inl e ↦ rw e empty | inr e ↦ rw e refl ]
    go (some a) = refl

link_job-Links : (id job_id : ℕ) (s : State) → Links 1 s (link_job id job_id s).1
unfolding link_job write_job
link_job-Links id job_id s = elim (Bool-cases (taken id job_id s.jobs)) [
  | inl e ↦ rw e (record { rows = []; few = omega arith; others = λ k _. refl })
  | inr e ↦ rw e (record {
    rows = id ∷ [];
    few = omega arith;
    others = λ k apart. row_written id k job_id s.jobs (ground (arith, apart));
  })
]

add_job-Links :
    (scope_id node_id now : ℕ) (s : State) → Links 0 s (add_job scope_id node_id now s).1
unfolding add_job
add_job-Links scope_id node_id now s = elim (Bool-cases (open_job_of scope_id node_id s.jobs)) [
  | inl e ↦ rw e (Links-same s s (λ id. refl))
  | inr e ↦ rw e (Links-same s _ (λ id. row_added id s.jobs _ refl))
]

-- What links no row at all, as a preorder
Links-order : IsPreorder (Links 0)
Links-order = record {
  reflexive = Links-graded.none;
  transitive = λ s t u p q. Links-graded.more 0 0 s t u p q;
}

add_job_step : (scope_id node_id now : ℕ) → Steps (Links 0) (add_job scope_id node_id now)
add_job_step scope_id node_id now = record { at = add_job-Links scope_id node_id now }

pub commit_step : Steps (Links 0) commit
unfolding commit
commit_step = record { at = λ s. Links-same s _ (λ id. refl) }

add_jobs_step :
    (scope_id : ℕ) (cards : List Card) (now : ℕ) → Steps (Links 0) (add_jobs scope_id cards now)
unfolding add_jobs
add_jobs_step scope_id [] now = Steps-pure Links-order []
add_jobs_step scope_id (card ∷ cards) now =
    Steps-bind Links-order (add_job scope_id card.id now) _ (add_job_step scope_id card.id now)
      (λ id.
        Steps-bind Links-order (add_jobs scope_id cards now) _ (add_jobs_step scope_id cards now)
          (λ rest. Steps-pure Links-order ((id, card) ∷ rest)))

pub create_pending_jobs_step :
    (scope : ResolvedScope) (cards : List Card) (now : ℕ)
    → Steps (Links 0) (create_pending_jobs scope cards now)
unfolding create_pending_jobs
create_pending_jobs_step scope [] now = Steps-pure Links-order []
create_pending_jobs_step scope (card ∷ cards) now =
    Steps-bind Links-order (add_jobs scope.scope_node.id (card ∷ cards) now) _
      (add_jobs_step scope.scope_node.id (card ∷ cards) now)
      (λ jobs. Steps-bind Links-order commit _ commit_step (λ _. Steps-pure Links-order jobs))

module _ (svc : Services) (queue_name : String) where
  pub Costs-link_entries :
      (jobs : List CreatedJob) (index : ℕ) (entries : List PendingSubmissionItem)
      (counts : SubmissionCounts)
      → Costs Links
          (total_count counts)
          total_count
          (link_entries svc queue_name jobs index entries counts)
  unfolding link_entries
  Costs-link_entries jobs index [] counts =
      Costs-pure Links-graded (total_count counts) total_count counts (omega arith)
  Costs-link_entries jobs index (entry ∷ entries) counts = go (created_at_index index jobs) (λ job.
      Costs-link_entries jobs (suc index) entries (count_created svc queue_name job.created counts))
    where
      one_more :
          (b : Bool) → total_count (count_created svc queue_name b counts) ≡ total_count counts + 1
      one_more true = omega arith
      one_more false = omega arith

      link : CreatedJob → Action SubmissionCounts
      link job =
          link_job entry.local_job job.job_id
          >> link_entries svc queue_name jobs (suc index) entries
              (count_created svc queue_name job.created counts)

      linked :
          (s : State) (b : Bool) (r : Result Error Unit) (t : State)
          → Links 1 s t
          → Ok
              (λ _.
                Cost Links
                  (total_count counts)
                  (total_count (count_created svc queue_name b counts))
                  s
                  t)
              r
      linked s b (ok u) t h = record { steps = 1; within = omega (arith, one_more b); taken = h }
      linked s b (err e) t h = tt

      go :
          (found : Option CreatedJob)
          → ((job : CreatedJob)
              → Costs Links
                  (total_count (count_created svc queue_name job.created counts))
                  total_count
                  (link_entries svc queue_name jobs
                    (suc index)
                    entries
                    (count_created svc queue_name job.created counts)))
          → Costs {S = State} {E = Error} Links
              (total_count counts)
              total_count
              (elim found [ none ↦ raise (value_error "index") | some job ↦ link job ])
      go none rest = Costs-raise Links-graded (total_count counts) total_count (value_error "index")
      go (some job) rest =
          Costs-bind Links-graded (total_count counts)
            (λ _. total_count (count_created svc queue_name job.created counts)) total_count
            (link_job entry.local_job job.job_id) _
            (record {
              at = λ s.
                  linked s job.created (link_job entry.local_job job.job_id s).0
                    (link_job entry.local_job job.job_id s).1
                    (link_job-Links entry.local_job job.job_id s);
            })
            (λ _. rest job)

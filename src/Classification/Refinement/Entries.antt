-- ===== src/Classification/Refinement/Entries.antt =====
-- The entries of a submission: which jobs are theirs, which are free, and which rows are linked to them.
use mathlib.Core.Option
use hll.Prelude.{
  ℕ, suc, ◌≡◌, refl, Bool, true, false, none, some, List, [], ◌∷◌, ◌++◌, map, arith, length, All,
  All-map, ◌==◌,
}
use hll.Exec.{Result, ok}
use hll.SourcePipeline.Model.{get_row, update_row}
use hll.SourcePipeline.Model.Rows.{get_row-update_row}
use hll.Classification.Model.{
  Error, Services, State, TaxonomyClassificationJob, Tables, CreateJobItem, CreatedJob, Call,
}
use hll.Classification.Submission.{
  SubmissionCounts, total_count, PendingSubmissionItem, created_at_index, has_indexes, all_below,
  has_job, taken,
}

-- The row, where it is there, has the job.
abbrev pub is_linked : ℕ → ℕ → List TaxonomyClassificationJob → Bool
is_linked id job_id jobs = elim (get_row (λ j. j.id) id jobs) [
  | none ↦ true
  | some j ↦ has_job j.job_id job_id
]

-- The jobs from an index on are those of the items.
abbrev pub AreNamed : (CreateJobItem → ℕ) → List CreatedJob → ℕ → List CreateJobItem → Type 0
AreNamed job_of jobs index [] = Unit
AreNamed job_of jobs index (item ∷ items) =
    (Option.map (λ (j : CreatedJob). j.job_id) (created_at_index index jobs) ≡ some (job_of item))
    × AreNamed job_of jobs (suc index) items

-- The job queue answered with one job for each index, the job of the item at the index.
pub record Answered (svc : Services) (job_of : CreateJobItem → ℕ) (calls : List Call)
    (items : List CreateJobItem) : Type 0 where
  pub jobs : List CreatedJob
  pub is : svc.create calls items ≡ ok jobs
  pub count : length jobs ≡ length items
  pub indexes : has_indexes (length items) jobs ≡ true
  pub below : all_below (length items) jobs ≡ true
  pub named : AreNamed job_of jobs 0 items

module _ (job_of : CreateJobItem → ℕ) where
  pub record Linked (t : Tables) (entry : PendingSubmissionItem) : Type 0 where
    pub at : is_linked entry.local_job (job_of entry.create_job) t.jobs ≡ true

  -- Entries of different rows with different jobs
  pub record Apart (a b : PendingSubmissionItem) : Type 0 where
    pub rows : (a.local_job == b.local_job) ≡ false
    pub jobs : (job_of a.create_job == job_of b.create_job) ≡ false

  abbrev pub Separate : List PendingSubmissionItem → Type 0
  Separate [] = Unit
  Separate (entry ∷ entries) = All (Apart entry) entries × Separate entries

  -- No other row has the job of the entry.
  pub record Free (t : Tables) (entry : PendingSubmissionItem) : Type 0 where
    pub at : taken entry.local_job (job_of entry.create_job) t.jobs ≡ false

  -- A method returned, linked the entries, and left links and free jobs of other entries as they were.
  pub record Done (r : Result Error SubmissionCounts × State) (s : State)
      (entries : List PendingSubmissionItem) : Type 0 where
    pub counts : SubmissionCounts
    pub returned : r.0 ≡ ok counts
    pub linked : All (Linked r.1.tables) entries
    pub keeps :
        (e : PendingSubmissionItem)
        → All (λ x. Apart x e) entries
        → Linked s.tables e
        → Linked r.1.tables e
    pub frees :
        (e : PendingSubmissionItem)
        → All (λ x. Apart x e) entries
        → Free s.tables e
        → Free r.1.tables e

  -- The entries are submitted, and what is written is committed.
  pub record Stored (r : Result Error SubmissionCounts × State) (s : State)
      (entries : List PendingSubmissionItem) : Type 0 where
    pub done : Done r s entries
    pub durable : s.committed ≡ s.tables → r.1.committed ≡ r.1.tables

  -- All the items are submitted: the counts add up to them, and each of their rows has its job in what is
  -- committed.
  pub record Submitted (r : Result Error SubmissionCounts × State)
      (items : List PendingSubmissionItem) : Type 0 where
    pub counts : SubmissionCounts
    pub returned : r.0 ≡ ok counts
    pub total : total_count counts ≡ length items
    pub linked : All (Linked r.1.committed) items

-- What holds of all of two lists, or of all of a list in two ways
pub All-split :
    {A : Type 0} (P : A → Type 0) (xs ys : List A) → All P (xs ++ ys) → All P xs × All P ys
All-split P [] ys h = (tt, h)
All-split P (x ∷ xs) ys h = let (left, right) = All-split P xs ys h.1 in ((h.0, left), right)

pub All-join :
    {A : Type 0} (P Q R : A → Type 0) (f : (x : A) → P x → Q x → R x) (xs : List A)
    → All P xs
    → All Q xs
    → All R xs
All-join P Q R f [] h k = tt
All-join P Q R f (x ∷ xs) h k = (f x h.0 k.0, All-join P Q R f xs h.1 k.1)

module _ (job_of : CreateJobItem → ℕ) where
  pub Apart-sym : (a b : PendingSubmissionItem) → Apart job_of a b → Apart job_of b a
  Apart-sym a b h = record { rows = ground (arith, h.rows); jobs = ground (arith, h.jobs) }

  -- The entries of one list are apart from each entry of another.
  abbrev pub AllApart : List PendingSubmissionItem → PendingSubmissionItem → Type 0
  AllApart entries e = All (λ x. Apart job_of x e) entries

  pub record Split (xs ys : List PendingSubmissionItem) : Type 0 where
    pub first : Separate job_of xs
    pub second : Separate job_of ys
    pub across : All (AllApart ys) xs
    pub back : All (AllApart xs) ys

  pub Separate-Split :
      (xs ys : List PendingSubmissionItem) → Separate job_of (xs ++ ys) → Split xs ys
  Separate-Split [] ys h = record { first = tt; second = h; across = tt; back = All-everywhere ys }
    where
      All-everywhere : (ys : List PendingSubmissionItem) → All (AllApart []) ys
      All-everywhere [] = tt
      All-everywhere (y ∷ ys) = (tt, All-everywhere ys)
  Separate-Split (x ∷ xs) ys h =
      let rest = Separate-Split xs ys h.1 in
      let (left, right) = All-split (Apart job_of x) xs ys h.0 in
      record {
        first = (left, rest.first);
        second = rest.second;
        across = (All-map (λ y a. Apart-sym x y a) ys right, rest.across);
        back =
            All-join (Apart job_of x) (AllApart xs) (AllApart (x ∷ xs)) (λ e a more. (a, more)) ys
              right rest.back;
      }

abbrev pub with_job : ℕ → TaxonomyClassificationJob → TaxonomyClassificationJob
with_job job_id j = record j { job_id = some job_id }

pub linked_here :
    (id job_id : ℕ) (jobs : List TaxonomyClassificationJob)
    → is_linked id job_id (update_row (λ j. j.id) id (with_job job_id) jobs) ≡ true
linked_here id job_id jobs =
    rw
      (
        is_linked,
        get_row-update_row (λ (j : TaxonomyClassificationJob). j.id) id id (with_job job_id) jobs
            (λ a. refl),
      )
      (ground (arith, is_linked))

pub linked_there :
    (id k job_id name : ℕ) (jobs : List TaxonomyClassificationJob)
    → (id == k) ≡ false
    → is_linked k name jobs ≡ true
    → is_linked k name (update_row (λ j. j.id) id (with_job job_id) jobs) ≡ true
linked_there id k job_id name jobs apart h =
    rw
      (
        is_linked,
        get_row-update_row (λ (j : TaxonomyClassificationJob). j.id) id k (with_job job_id) jobs
            (λ a. refl),
      )
      (ground (arith, is_linked, apart, h))

pub still_free :
    (id k job_id name : ℕ) (jobs : List TaxonomyClassificationJob)
    → (job_id == name) ≡ false
    → taken k name jobs ≡ false
    → taken k name (update_row (λ j. j.id) id (with_job job_id) jobs) ≡ false
unfolding update_row
still_free id k job_id name [] apart h = refl
still_free id k job_id name (r ∷ jobs) apart h =
    ground (arith, apart, h, still_free id k job_id name jobs apart)

pub length-create_jobs :
    (batch : List PendingSubmissionItem)
    → length (map (λ entry. entry.create_job) batch) ≡ length batch
length-create_jobs [] = refl
length-create_jobs (entry ∷ batch) = omega (arith, length-create_jobs batch)

pub named_job : (job : CreatedJob) (n : ℕ) → some job.job_id ≡ some n → job.job_id ≡ n
named_job job n h = ground (arith, h)

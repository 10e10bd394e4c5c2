-- ===== src/SourcePipeline/Runtime/Jobs/Closed.antt =====
-- The ways in which the runtime touches its state. A preorder on states that all of them respect
-- is respected by the whole runtime (Candidates/Closure and Tick/Closure).
use hll.Prelude.{
  ℕ, ◌+◌, String, ◌≡◌, refl, Option, none, some, false, [], ◌∷◌, ◌++◌, is_none, if◌then◌else◌,
}
use hll.Exec.{◌>>=◌}
use hll.Exec.Steps.{IsPreorder, Steps, Steps-pure, Steps-raise, steps_rules}
use hll.SourcePipeline.Model.{
  ReviewResult, Exception, WorkflowUnit, CardCandidate, CreateJobItem, Services, State, Action,
  candidate_at, unit_at,
}
use hll.SourcePipeline.Webhook.{mark_processed, mark_failed}
use hll.SourcePipeline.Runtime.Jobs.{
  present, read_unit, read_candidate, write_unit, write_candidate, require_job_id, validated,
  create_idempotent_job, ask_result, submit_review_job, submit_repair_job, handoff_passed_candidate,
}

module _ {Payload : Type 0} (svc : Services Payload)
    (R : State Payload → State Payload → Type 0) where
  pub record Closed : Type 0 where
    pub order : IsPreorder R
    pub write_unit_step :
        (id : ℕ) (f : WorkflowUnit Payload → WorkflowUnit Payload) → Steps R (write_unit id f)
    pub create_step : (item : CreateJobItem) → Steps R (create_idempotent_job svc item)
    pub ask_step : (job_id : ℕ) → Steps R (ask_result svc job_id)
    pub handoff_step : (id : ℕ) → Steps R (handoff_passed_candidate svc id)
    pub review_step :
        (id : ℕ) (s : State Payload) (c : CardCandidate)
        → candidate_at id s ≡ some c
        → c.review_job_id ≡ none
        → R s (submit_review_job svc id s).1
    pub repair_step :
        (id : ℕ) (review : ReviewResult) (s : State Payload) (c : CardCandidate)
        → candidate_at id s ≡ some c
        → c.repair_job_id ≡ none
        → R s (submit_repair_job svc id review s).1
    pub review_terminal_step :
        (id : ℕ) (state : Option String)
        → Steps R (
            write_candidate {Payload = Payload} id
              (λ c. record c { review_terminal_state = state }))
    pub repair_terminal_step :
        (id : ℕ) (state : Option String)
        → Steps R (
            write_candidate {Payload = Payload} id
              (λ c. record c { repair_terminal_state = state }))
    pub mark_processed_step :
        (event_id : String) (now : ℕ) → Steps R (mark_processed {Payload = Payload} event_id now)
    pub mark_failed_step :
        (event_id : String) (e : Exception) (now : ℕ)
        → Steps R (mark_failed {Payload = Payload} event_id e now)
    pub insert_step :
        (s : State Payload) (c : CardCandidate)
        → c.ingestion_handoff_done ≡ false
        → R s (record s {
          tables = record s.tables {
            candidates = s.candidates ++ c ∷ [];
            next_candidate_id = s.next_candidate_id + 1;
          };
        })
    pub commit_step : (s : State Payload) → R s (record s { committed = s.tables })
    pub clock_step : (s : State Payload) (now : ℕ) → R s (record s { last_reconcile_at = some now })

module _ {Payload : Type 0} {R : State Payload → State Payload → Type 0}
    (order : IsPreorder R) where
  present_step :
      {A B : Type 0} (o : Option A) (f : A → Action Payload B) (s : State Payload)
      → ((a : A) → o ≡ some a → R s (f a s).1)
      → R s ((present o >>= f) s).1
  unfolding present ◌>>=◌
  present_step none f s h = order.reflexive s
  present_step (some a) f s h = h a refl

  -- The row that was read is the one that the state still holds.
  pub Steps-read_candidate :
      {B : Type 0} (id : ℕ) (f : CardCandidate → Action Payload B)
      → ((s : State Payload) (c : CardCandidate) → candidate_at id s ≡ some c → R s (f c s).1)
      → Steps R (read_candidate id >>= f)
  unfolding read_candidate ◌>>=◌
  Steps-read_candidate id f h = record { at = λ s. present_step (candidate_at id s) f s (h s) }

  pub Steps-reading_candidate :
      {B : Type 0} (id : ℕ) (f : CardCandidate → Action Payload B)
      → ((c : CardCandidate) → Steps R (f c))
      → Steps R (read_candidate id >>= f)
  Steps-reading_candidate id f h = Steps-read_candidate id f (λ s c _. (h c).at s)

  pub Steps-read_unit :
      {B : Type 0} (id : ℕ) (f : WorkflowUnit Payload → Action Payload B)
      → ((u : WorkflowUnit Payload) → Steps R (f u))
      → Steps R (read_unit id >>= f)
  unfolding read_unit ◌>>=◌
  Steps-read_unit id f h = record { at = λ s. present_step (unit_at id s) f s (λ u _. (h u).at s) }

  pub Steps-require_job_id : (o : Option ℕ) → Steps R (require_job_id {Payload = Payload} o)
  unfolding require_job_id
  Steps-require_job_id none = Steps-raise order _
  Steps-require_job_id (some j) = Steps-pure order j

  pub Steps-validated : {A : Type 0} (o : Option A) → Steps R (validated {Payload = Payload} o)
  unfolding validated
  Steps-validated none = Steps-raise order _
  Steps-validated (some a) = Steps-pure order a

  -- Submitting where the column read is still empty.
  pub Steps-if_none :
      {B : Type 0} (o : Option ℕ) (m n : Action Payload B) (s : State Payload)
      → (o ≡ none → R s (m s).1)
      → R s (n s).1
      → R s ((if is_none o then m else n) s).1
  Steps-if_none none m n s h k = h refl
  Steps-if_none (some j) m n s h k = k

pub ruleset read_rules =
    (steps_rules, Steps-reading_candidate, Steps-read_unit, Steps-require_job_id, Steps-validated)

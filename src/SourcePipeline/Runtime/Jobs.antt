-- ===== src/SourcePipeline/Runtime/Jobs.antt =====
-- The calls of the job queue and of the ingestion service, and the jobs that are submitted.
pub mod Closed
pub mod Submitting
use hll.Prelude.{
  ℕ, String, Bool, true, false, Option, none, some, List, [], ◌∷◌, str_eq, ◌==◌, if◌then◌else◌, any,
}
use hll.Exec.{Result, ok, err, pure, raise, modify, ◌>>=◌, ◌>>◌}
use hll.SourcePipeline.Model.{
  CardDraft, ReviewResult, Exception, validation_error, missing_job_id, created_jobs_mismatch,
  row_missing, WorkflowUnit, CardCandidate, page_to_card_key, card_review_key, card_repair_key,
  source_unit, card, repair_input, CreateJobItem, CreatedJob, Call, create_jobs, get_result,
  handoff, Reply, Services, Action, update_row, candidate_at, unit_at,
}

abbrev pub terminal_non_accepted_states : List String
terminal_non_accepted_states = "CANCELLED" ∷ "DEAD_LETTER" ∷ "FAILED" ∷ "EXPIRED" ∷ []

unfoldable pub terminal_non_accepted_state : Option String → Bool
terminal_non_accepted_state none = false
terminal_non_accepted_state (some state) = any (str_eq state) terminal_non_accepted_states

unfoldable pub review_passed : ReviewResult → Bool
review_passed review = review.passed

abbrev pub went_through : Result Exception Unit → Bool
went_through (ok _) = true
went_through (err _) = false

module _ {Payload : Type 0} where
  -- The rows behind the session's objects.
  unfoldable pub present : {A : Type 0} → Option A → Action Payload A
  present none = raise row_missing
  present (some a) = pure a

  unfoldable pub read_unit : ℕ → Action Payload (WorkflowUnit Payload)
  unfolding present
  read_unit id s = present (unit_at id s) s

  unfoldable pub read_candidate : ℕ → Action Payload CardCandidate
  unfolding present
  read_candidate id s = present (candidate_at id s) s

  unfoldable pub write_unit :
      ℕ → (WorkflowUnit Payload → WorkflowUnit Payload) → Action Payload Unit
  write_unit id f =
      modify
        (λ s. record s { tables = record s.tables { units = update_row (λ u. u.id) id f s.units } })

  unfoldable pub write_candidate : ℕ → (CardCandidate → CardCandidate) → Action Payload Unit
  write_candidate id f = modify (λ s. record s {
    tables = record s.tables { candidates = update_row (λ c. c.id) id f s.candidates };
  })

  unfoldable pub require_job_id : Option ℕ → Action Payload ℕ
  require_job_id none = raise missing_job_id
  require_job_id (some job_id) = pure job_id

  -- `Model.model_validate(payload)`
  unfoldable pub validated : {A : Type 0} → Option A → Action Payload A
  validated none = raise validation_error
  validated (some a) = pure a

  note_call : Call → Action Payload Unit
  note_call c = modify (λ s. record s { calls = c ∷ s.calls })

  unfoldable pub only_job : List CreatedJob → Action Payload ℕ
  only_job (job ∷ []) = if job.index == 0 then pure job.job_id else raise created_jobs_mismatch
  only_job _ = raise created_jobs_mismatch

  module _ (svc : Services Payload) where
    unfoldable pub create_idempotent_job : CreateJobItem → Action Payload ℕ
    unfolding only_job note_call ◌>>=◌
    create_idempotent_job item s =
        (do
          note_call (create_jobs (item ∷ []))
          created ← (λ t. (svc.create s.calls (item ∷ []), t))
          only_job created)
          s

    unfoldable pub ask_result : ℕ → Action Payload (Reply Payload)
    unfolding note_call ◌>>=◌
    ask_result job_id s = (do note_call (get_result job_id); pure (svc.result s.calls job_id)) s

    -- The call of the ingestion service; whether it was accepted is noted.
    unfoldable pub hand_off_card : ℕ → CardDraft → Action Payload Unit
    hand_off_card id draft s =
        let answer = svc.hand_off s.calls id draft in
        (answer, record s { calls = handoff id draft (went_through answer) ∷ s.calls })

    unfoldable pub submit_page_to_card : ℕ → Action Payload Unit
    unfolding ◌>>=◌
    submit_page_to_card unit_id = do
      unit ← read_unit unit_id
      source ← validated (svc.parse_source_unit unit.payload)
      job_id ← create_idempotent_job (record {
        queue_name = "page_to_card";
        idempotency_key = page_to_card_key unit.id;
        priority = "normal";
        payload = source_unit source;
        metadata = record { workflow_unit_id = unit.id; candidate_id = none };
      })
      write_unit unit_id (λ u. record u { page_to_card_job_id = some job_id })

    unfoldable pub submit_review_job : ℕ → Action Payload Unit
    unfolding ◌>>=◌
    submit_review_job candidate_id = do
      candidate ← read_candidate candidate_id
      job_id ← create_idempotent_job (record {
        queue_name = "card_review";
        idempotency_key = card_review_key candidate.id;
        priority = "normal";
        payload = card candidate.card_payload;
        metadata = record {
          workflow_unit_id = candidate.workflow_unit_id;
          candidate_id = some candidate.id;
        };
      })
      write_candidate candidate_id (λ c. record c { review_job_id = some job_id })

    unfoldable pub submit_repair_job : ℕ → ReviewResult → Action Payload Unit
    unfolding ◌>>=◌
    submit_repair_job candidate_id review = do
      candidate ← read_candidate candidate_id
      job_id ← create_idempotent_job (record {
        queue_name = "card_repair";
        idempotency_key = card_repair_key candidate.id;
        priority = "normal";
        payload = repair_input candidate.card_payload review;
        metadata = record {
          workflow_unit_id = candidate.workflow_unit_id;
          candidate_id = some candidate.id;
        };
      })
      write_candidate candidate_id (λ c. record c { repair_job_id = some job_id })

    unfoldable pub handoff_passed_candidate : ℕ → Action Payload Unit
    unfolding ◌>>=◌
    handoff_passed_candidate candidate_id = do
      candidate ← read_candidate candidate_id
      if candidate.ingestion_handoff_done then pure tt else do
        hand_off_card candidate.id candidate.card_payload
        write_candidate candidate_id (λ c. record c { ingestion_handoff_done = true })

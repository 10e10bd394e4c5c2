-- ===== src/SourcePipeline/Runtime/Candidates.antt =====
-- From accepted results to candidates, and from candidates to reviews, repairs and handoffs.
pub mod Closure
pub mod Missing
pub mod Twice
use hll.Prelude.{
  ℕ, ◌+◌, Bool, true, false, ◌&&◌, Option, none, some, List, [], ◌∷◌, ◌++◌, map, ◌==◌,
  if◌then◌else◌, is_none, is_some, any, filter, sort, leb, enumerate,
}
use hll.Exec.{pure, raise, gets, modify, ◌>>=◌, for_each}
use hll.SourcePipeline.Model.{
  CardDraft, ReviewResult, validation_error, CardCandidate, OriginStep, page_to_card, card_repair,
  Reply, accepted, not_ready, failed, Services, State, Action,
}
use hll.SourcePipeline.Runtime.Jobs.{
  terminal_non_accepted_state, review_passed, read_unit, read_candidate, write_candidate,
  require_job_id, validated, ask_result, submit_review_job, submit_repair_job,
  handoff_passed_candidate,
}

-- An element of the set that `_candidate_origins_for_…` returns.
pub record Origin : Type 0 where
  pub step : OriginStep
  pub job_id : ℕ
  pub ordinal : ℕ

abbrev pub same_step : OriginStep → OriginStep → Bool
same_step page_to_card page_to_card = true
same_step card_repair card_repair = true
same_step _ _ = false

unfoldable pub same_origin : Origin → Origin → Bool
same_origin a b = same_step a.step b.step && a.job_id == b.job_id && a.ordinal == b.ordinal

unfoldable pub origin_of : CardCandidate → Origin
origin_of c = record { step = c.origin_step; job_id = c.origin_job_id; ordinal = c.origin_ordinal }

abbrev pub opt_is : Option ℕ → ℕ → Bool
opt_is none k = false
opt_is (some j) k = j == k

module _ {Payload : Type 0} where
  unfoldable pub list_candidates_for_unit : ℕ → State Payload → List CardCandidate
  list_candidates_for_unit unit_id s =
      sort (λ (a b : CardCandidate). leb a.id b.id)
        (filter (λ c. c.workflow_unit_id == unit_id) s.candidates)

  unfoldable pub candidate_origins_for_unit : ℕ → State Payload → List Origin
  candidate_origins_for_unit unit_id s = map origin_of (list_candidates_for_unit unit_id s)

  unfoldable pub candidate_origins_for_parent : ℕ → State Payload → List Origin
  candidate_origins_for_parent parent_candidate_id s =
      map origin_of (filter (λ c. opt_is c.parent_candidate_id parent_candidate_id) s.candidates)

  -- `session.add(CardCandidate(...))`
  unfoldable pub add_candidate : ℕ → Option ℕ → Origin → CardDraft → Action Payload Unit
  add_candidate unit_id parent origin draft = modify (λ s. record s {
    tables = record s.tables {
      candidates =
          s.candidates
          ++ record {
            id = s.next_candidate_id;
            workflow_unit_id = unit_id;
            parent_candidate_id = parent;
            card_payload = draft;
            origin_step = origin.step;
            origin_job_id = origin.job_id;
            origin_ordinal = origin.ordinal;
            review_job_id = none;
            review_terminal_state = none;
            repair_job_id = none;
            repair_terminal_state = none;
            ingestion_handoff_done = false;
          }
            ∷ [];
      next_candidate_id = s.next_candidate_id + 1;
    };
  })

  -- The loop that both `_ensure_…_candidates` run: what is there already is skipped.
  unfoldable pub add_missing :
      ℕ → Option ℕ → OriginStep → ℕ → List Origin → ℕ × CardDraft → Action Payload Unit
  add_missing unit_id parent step job_id existing_origins (ordinal, draft) =
      let origin : Origin = record { step = step; job_id = job_id; ordinal = ordinal } in
      if any (same_origin origin) existing_origins
      then pure tt
      else add_candidate unit_id parent origin draft

  module _ (svc : Services Payload) where
    unfoldable pub validate_reason : ReviewResult → Action Payload ReviewResult
    validate_reason review =
        if review.passed
        then pure review
        else if elim review.reason [ none ↦ true | some reason ↦ svc.blank reason ]
        then raise validation_error
        else pure review

    unfoldable pub validate_review : Payload → Action Payload ReviewResult
    unfolding ◌>>=◌
    validate_review payload = do
      review ← validated (svc.parse_review payload)
      validate_reason review

    unfoldable pub ensure_initial_candidates : ℕ → Payload → Action Payload Unit
    unfolding ◌>>=◌
    ensure_initial_candidates unit_id page_result = do
      cards ← validated (svc.parse_cards page_result)
      existing_origins ← gets (candidate_origins_for_unit unit_id)
      unit ← read_unit unit_id
      page_job_id ← require_job_id unit.page_to_card_job_id
      for_each (enumerate cards)
          (add_missing unit_id none page_to_card page_job_id existing_origins)

    unfoldable pub ensure_child_candidates : ℕ → Payload → Action Payload Unit
    unfolding ◌>>=◌
    ensure_child_candidates candidate_id repair_result = do
      cards ← validated (svc.parse_cards repair_result)
      existing_origins ← gets (candidate_origins_for_parent candidate_id)
      candidate ← read_candidate candidate_id
      repair_job_id ← require_job_id candidate.repair_job_id
      for_each (enumerate cards) (
          add_missing candidate.workflow_unit_id (some candidate_id) card_repair repair_job_id
            existing_origins)

    review_if_missing : ℕ → Action Payload Unit
    unfolding ◌>>=◌
    review_if_missing candidate_id = do
      candidate ← read_candidate candidate_id
      if is_none candidate.review_job_id then submit_review_job svc candidate_id else pure tt

    unfoldable pub submit_missing_review_jobs : ℕ → Action Payload Unit
    unfolding review_if_missing ◌>>=◌
    submit_missing_review_jobs unit_id = do
      candidates ← gets (list_candidates_for_unit unit_id)
      for_each (map (λ c. c.id) candidates) review_if_missing

    -- The rest of `_process_review_result` behind the validation.
    act_on_review : ℕ → ReviewResult → Action Payload Unit
    unfolding ◌>>=◌
    act_on_review candidate_id review =
        if review_passed review then handoff_passed_candidate svc candidate_id else do
          candidate ← read_candidate candidate_id
          if is_none candidate.repair_job_id
              then submit_repair_job svc candidate_id review
              else pure tt

    unfoldable pub process_review_result : ℕ → Payload → Action Payload Unit
    unfolding act_on_review ◌>>=◌
    process_review_result candidate_id payload = do
      review ← validate_review payload
      act_on_review candidate_id review

    -- The body of `_advance_candidates`, from its last `continue` to its first.
    on_repair_reply : ℕ → Reply Payload → Action Payload Unit
    on_repair_reply candidate_id (accepted payload) = ensure_child_candidates candidate_id payload
    on_repair_reply candidate_id (not_ready state) =
        if terminal_non_accepted_state state
        then write_candidate candidate_id (λ c. record c { repair_terminal_state = state })
        else pure tt
    on_repair_reply candidate_id (failed e) = raise e

    follow_repair : ℕ → ReviewResult → CardCandidate → Option ℕ → Action Payload Unit
    unfolding on_repair_reply ◌>>=◌
    follow_repair candidate_id review candidate none = submit_repair_job svc candidate_id review
    follow_repair candidate_id review candidate (some repair_job_id) =
        if is_some candidate.repair_terminal_state
        then pure tt
        else do reply ← ask_result svc repair_job_id; on_repair_reply candidate_id reply

    on_review_reply : ℕ → Reply Payload → Action Payload Unit
    unfolding follow_repair ◌>>=◌
    on_review_reply candidate_id (accepted payload) = do
      review ← validate_review payload
      if review_passed review then handoff_passed_candidate svc candidate_id else do
        candidate ← read_candidate candidate_id
        follow_repair candidate_id review candidate candidate.repair_job_id
    on_review_reply candidate_id (not_ready state) =
        if terminal_non_accepted_state state
        then write_candidate candidate_id (λ c. record c { review_terminal_state = state })
        else pure tt
    on_review_reply candidate_id (failed e) = raise e

    follow_review : ℕ → CardCandidate → Option ℕ → Action Payload Unit
    unfolding on_review_reply ◌>>=◌
    follow_review candidate_id candidate none = submit_review_job svc candidate_id
    follow_review candidate_id candidate (some review_job_id) =
        if is_some candidate.review_terminal_state
        then pure tt
        else do reply ← ask_result svc review_job_id; on_review_reply candidate_id reply

    advance_candidate : ℕ → Action Payload Unit
    unfolding follow_review ◌>>=◌
    advance_candidate candidate_id = do
      candidate ← read_candidate candidate_id
      follow_review candidate_id candidate candidate.review_job_id

    unfoldable pub advance_candidates : ℕ → Action Payload Unit
    unfolding advance_candidate ◌>>=◌
    advance_candidates unit_id = do
      candidates ← gets (list_candidates_for_unit unit_id)
      for_each (map (λ c. c.id) candidates) advance_candidate

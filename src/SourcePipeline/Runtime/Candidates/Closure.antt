-- ===== src/SourcePipeline/Runtime/Candidates/Closure.antt =====
-- What the primitive operations respect, the operations on candidates respect.
use hll.Prelude.{ℕ, ◌≡◌, refl, Option, none, some, List}
use hll.Exec.Steps.{Steps, Steps-if, Steps-bind, steps_rules}
use hll.SourcePipeline.Model.{
  CardDraft, ReviewResult, CardCandidate, OriginStep, Reply, accepted, not_ready, failed, Services,
  State, candidate_at,
}
use hll.SourcePipeline.Runtime.Jobs.{review_passed}
use hll.SourcePipeline.Runtime.Jobs.Closed.{Closed, read_rules, Steps-read_candidate, Steps-if_none}
use hll.SourcePipeline.Runtime.Candidates.{
  Origin, add_candidate, add_missing, validate_reason, validate_review, ensure_initial_candidates,
  ensure_child_candidates, review_if_missing, submit_missing_review_jobs, act_on_review,
  process_review_result, on_repair_reply, follow_repair, on_review_reply, follow_review,
  advance_candidate, advance_candidates,
}

module _ {Payload : Type 0} {svc : Services Payload} {R : State Payload → State Payload → Type 0}
    (closed : Closed svc R) where
  open closed use {
    order, handoff_step, ask_step, review_step, repair_step, insert_step, review_terminal_step,
    repair_terminal_step,
  }

  add_candidate_step :
      (unit_id : ℕ) (parent : Option ℕ) (origin : Origin) (draft : CardDraft)
      → Steps R (add_candidate {Payload = Payload} unit_id parent origin draft)
  unfolding add_candidate
  add_candidate_step unit_id parent origin draft = record { at = λ s. insert_step s _ refl }

  add_missing_step :
      (unit_id : ℕ) (parent : Option ℕ) (step : OriginStep) (job_id : ℕ) (existing : List Origin)
      (card : ℕ × CardDraft)
      → Steps R (add_missing {Payload = Payload} unit_id parent step job_id existing card)
  unfolding add_missing
  add_missing_step unit_id parent step job_id existing (ordinal, draft) =
      search (steps_rules, order, add_candidate_step)

  validate_review_step : (payload : Payload) → Steps R (validate_review svc payload)
  unfolding validate_review validate_reason
  validate_review_step payload = search (read_rules, order)

  pub ensure_initial_step :
      (id : ℕ) (payload : Payload) → Steps R (ensure_initial_candidates svc id payload)
  unfolding ensure_initial_candidates
  ensure_initial_step id payload = search (read_rules, order, add_missing_step) depth 9

  pub ensure_child_step :
      (id : ℕ) (payload : Payload) → Steps R (ensure_child_candidates svc id payload)
  unfolding ensure_child_candidates
  ensure_child_step id payload = search (read_rules, order, add_missing_step) depth 9

  review_if_missing_step : (id : ℕ) → Steps R (review_if_missing svc id)
  unfolding review_if_missing
  review_if_missing_step id = Steps-read_candidate order id _ (λ s c found.
      Steps-if_none order c.review_job_id _ _ s (review_step id s c found) (order.reflexive s))

  pub submit_missing_review_step : (unit_id : ℕ) → Steps R (submit_missing_review_jobs svc unit_id)
  unfolding submit_missing_review_jobs
  submit_missing_review_step unit_id = search (steps_rules, order, review_if_missing_step)

  act_on_review_step : (id : ℕ) (review : ReviewResult) → Steps R (act_on_review svc id review)
  unfolding act_on_review
  act_on_review_step id review = Steps-if order (review_passed review) _ _ (handoff_step id) (
      Steps-read_candidate order id _ (λ s c found.
        Steps-if_none order c.repair_job_id _ _ s (repair_step id review s c found)
          (order.reflexive s)))

  pub process_review_step :
      (id : ℕ) (payload : Payload) → Steps R (process_review_result svc id payload)
  unfolding process_review_result
  process_review_step id payload =
      search (steps_rules, order, validate_review_step, act_on_review_step)

  on_repair_reply_step : (id : ℕ) (reply : Reply Payload) → Steps R (on_repair_reply svc id reply)
  unfolding on_repair_reply
  on_repair_reply_step id (accepted payload) = ensure_child_step id payload
  on_repair_reply_step id (not_ready state) = search (steps_rules, order, repair_terminal_step)
  on_repair_reply_step id (failed e) = search (steps_rules, order)

  follow_repair_step :
      (id : ℕ) (review : ReviewResult) (s : State Payload) (c : CardCandidate) (o : Option ℕ)
      → candidate_at id s ≡ some c
      → c.repair_job_id ≡ o
      → R s (follow_repair svc id review c o s).1
  unfolding follow_repair
  follow_repair_step id review s c none found empty = repair_step id review s c found empty
  follow_repair_step id review s c (some j) found _ = known.at s
    where
      known : Steps R (follow_repair svc id review c (some j))
      known = search (steps_rules, order, ask_step, on_repair_reply_step)

  on_review_reply_step : (id : ℕ) (reply : Reply Payload) → Steps R (on_review_reply svc id reply)
  unfolding on_review_reply
  on_review_reply_step id (accepted payload) =
      Steps-bind order (validate_review svc payload) _ (validate_review_step payload) (λ review.
        Steps-if order (review_passed review) _ _ (handoff_step id) (
          Steps-read_candidate order id _
            (λ s c found. follow_repair_step id review s c c.repair_job_id found refl)))
  on_review_reply_step id (not_ready state) = search (steps_rules, order, review_terminal_step)
  on_review_reply_step id (failed e) = search (steps_rules, order)

  follow_review_step :
      (id : ℕ) (s : State Payload) (c : CardCandidate) (o : Option ℕ)
      → candidate_at id s ≡ some c
      → c.review_job_id ≡ o
      → R s (follow_review svc id c o s).1
  unfolding follow_review
  follow_review_step id s c none found empty = review_step id s c found empty
  follow_review_step id s c (some j) found _ = known.at s
    where
      known : Steps R (follow_review svc id c (some j))
      known = search (steps_rules, order, ask_step, on_review_reply_step)

  advance_candidate_step : (id : ℕ) → Steps R (advance_candidate svc id)
  unfolding advance_candidate
  advance_candidate_step id =
      Steps-read_candidate order id _
        (λ s c found. follow_review_step id s c c.review_job_id found refl)

  pub advance_step : (unit_id : ℕ) → Steps R (advance_candidates svc unit_id)
  unfolding advance_candidates
  advance_step unit_id = search (steps_rules, order, advance_candidate_step)

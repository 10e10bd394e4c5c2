-- ===== src/SourcePipeline/Tests.antt =====
-- A small pipeline run: one page with one card, whose review passes.
use hll.Prelude.{
  zero, suc, ◌≤◌, ◌≡◌, refl, true, false, Option, none, some, List, [], ◌∷◌, arith, is_some, length,
  sort,
}
use hll.Exec.{ok, ◌>>=◌, for_each, try_except}
use hll.SourcePipeline.Model.{
  CardDraft, ReviewResult, WorkflowUnit, CardCandidate, JobQueueWebhookEvent, page_to_card, Tables,
  Services, State, accepted, update_row, client_error, candidate_at,
}
use hll.SourcePipeline.Webhook.{
  JobQueueWebhookPayload, record_event, event_named, wakeup_named, list_pending_events,
  mark_processed, mark_failed,
}
use hll.SourcePipeline.Webhook.Queue.{Sound, record_event_once, record_event-Sound}
use hll.SourcePipeline.Webhook.Marks.{
  mark_processed_outcome, mark_processed-Sound, mark_failed-Sound,
}
use hll.SourcePipeline.Runtime.Jobs.{
  ask_result, validated, review_passed, handoff_passed_candidate, read_candidate, read_unit,
  require_job_id, present, hand_off_card, write_candidate,
}
use hll.SourcePipeline.Runtime.Candidates.{
  ensure_initial_candidates, candidate_origins_for_unit, list_candidates_for_unit, add_missing,
  add_candidate, process_review_result, validate_review, validate_reason,
}
use hll.SourcePipeline.Runtime.Candidates.Twice.{ensure_initial_candidates_twice}
use hll.SourcePipeline.Runtime.Tick.{
  Settings, tick, process_pending_webhook_events, submit_missing_page_to_card_jobs, handle_event,
  process_webhook_event, process_accepted_job_result, unit_for_page_job, candidate_for_review_job,
  candidate_for_repair_job,
}
use hll.SourcePipeline.Runtime.Tick.Commit.{tick-Durable}
use hll.SourcePipeline.Runtime.Tick.Events.{process_pending_returns}
use hll.SourcePipeline.Runtime.Evolution.{AllEvolve, tick-AllEvolve}
use hll.SourcePipeline.Runtime.Handoffs.{handoffs, Marked, HandsOnce, tick-HandsOnce}

data Json : Type 0 where
  page review : Json

abbrev draft : CardDraft
draft = record { title = "Ring"; content = "A set with two operations." }

abbrev parse_cards : Json → Option (List CardDraft)
parse_cards page = some (draft ∷ [])
parse_cards review = none

abbrev parse_review : Json → Option ReviewResult
parse_review page = none
parse_review review = some (record { passed = true; reason = none })

abbrev services : Services Json
services = record {
  create = λ calls items. ok (record { index = 0; job_id = suc (length calls) } ∷ []);
  result = λ calls job_id.
      accepted (elim job_id [ zero ↦ page | suc n ↦ elim n [ zero ↦ page | suc _ ↦ review ] ]);
  hand_off = λ calls id card. ok tt;
  parse_source_unit = λ j. some (record {
    source_kind = "wiki";
    source_ref = "r";
    title = "t";
    content = "c";
    metadata = "";
  });
  parse_cards = parse_cards;
  parse_review = parse_review;
  blank = λ s. false;
}

abbrev candidate : CardCandidate
candidate = record {
  id = 1;
  workflow_unit_id = 1;
  parent_candidate_id = none;
  card_payload = draft;
  origin_step = page_to_card;
  origin_job_id = 1;
  origin_ordinal = 0;
  review_job_id = some 2;
  review_terminal_state = none;
  repair_job_id = none;
  repair_terminal_state = none;
  ingestion_handoff_done = false;
}

abbrev unit_row : WorkflowUnit Json
unit_row = record {
  id = 1;
  workflow_run_id = 1;
  source_kind = "wiki";
  source_ref = "r";
  payload = page;
  page_to_card_job_id = some 1;
  page_to_card_terminal_state = none;
}

abbrev tables_before : Tables Json
tables_before = record {
  units = unit_row ∷ [];
  candidates = candidate ∷ [];
  events = [];
  wakeups = [];
  next_candidate_id = 2;
  next_event_id = 1;
  next_wakeup_id = 1;
}

abbrev before : State Json
before = record {
  tables = tables_before;
  committed = tables_before;
  calls = [];
  last_reconcile_at = none;
}

abbrev accepted_review : JobQueueWebhookPayload
accepted_review = record {
  event_id = "e1";
  event_type = "result.accepted";
  job_id = 2;
  queue_name = "card_review";
  occurred_at = 5;
  submission_id = some 9;
  terminal_state = none;
}

abbrev recorded : State Json
recorded = (record_event accepted_review 6 before).1

-- The receiver commits.
abbrev notified : State Json
notified = record recorded { committed = recorded.tables }

abbrev settings : Settings
settings = record { poll_batch_size = 10; reconcile_interval = 3600; reconcile_batch_size = 10 }

found_c : candidate_at 1 before ≡ some candidate
found_c = refl

tick-AllEvolve_example : AllEvolve notified (tick services settings 7 notified).1
tick-AllEvolve_example = tick-AllEvolve services settings 7 notified

notified-Marked : Marked notified
unfolding record_event
notified-Marked = record { session = λ id. ground arith; committed = λ id. ground arith }

notified_clean : notified.committed ≡ notified.tables
notified_clean = refl

tick-HandsOnce_example : HandsOnce notified (tick services settings 7 notified)
tick-HandsOnce_example = tick-HandsOnce services settings 7 notified notified_clean notified-Marked

process_pending_returns_example :
    ((process_pending_webhook_events services settings 7 notified).0
      ≡ ok (length (list_pending_events 10 notified)))
    × (length (list_pending_events 10 notified) ≤ 10)
process_pending_returns_example = process_pending_returns services settings 7 notified

-- The tick processes the event: it returns, and the ingestion service accepted the card once.
tick_runs :
    ((tick services settings 7 notified).0 ≡ ok tt)
    × (handoffs 1 (tick services settings 7 notified).1.calls ≡ 1)
unfolding tick submit_missing_page_to_card_jobs process_pending_webhook_events list_pending_events
    handle_event process_webhook_event process_accepted_job_result unit_for_page_job
    candidate_for_review_job candidate_for_repair_job ask_result process_review_result
    validate_review validated validate_reason review_passed handoff_passed_candidate read_candidate
    present hand_off_card write_candidate update_row try_except for_each mark_processed sort
    record_event ◌>>=◌
tick_runs = (refl, refl)

tick-Durable_example :
    (tick services settings 7 notified).1.committed ≡ (tick services settings 7 notified).1.tables
tick-Durable_example = tick-Durable services settings 7 notified refl tick_runs.0

abbrev event : JobQueueWebhookEvent
event = record {
  id = 1;
  event_id = "e1";
  event_type = "result.accepted";
  job_id = 2;
  queue_name = "card_review";
  submission_id = some 9;
  terminal_state = none;
  occurred_at = 5;
  processed_at = none;
  last_error = none;
  created_at = 6;
  updated_at = 6;
}

first_delivery : record_event accepted_review 6 before ≡ (ok event, recorded)
unfolding record_event
first_delivery = refl

record_event_once_example : record_event accepted_review 60 recorded ≡ (ok event, recorded)
record_event_once_example =
    record_event_once accepted_review accepted_review 6 60 before recorded event first_delivery refl

before-Sound : Sound before
before-Sound = record { keyed = λ n e h. cc; fresh = tt; queued = λ n e h pending. cc }

record_event-Sound_example : Sound (record_event accepted_review 6 before).1
record_event-Sound_example = record_event-Sound accepted_review 6 before before-Sound

recorded_row : event_named "e1" recorded ≡ some event
unfolding record_event
recorded_row = refl

waiting : is_some (wakeup_named "e1" recorded) ≡ true
unfolding record_event
waiting = refl

mark_processed_outcome_example :
    ((mark_processed "e1" 7 recorded).0 ≡ ok tt)
    × (event_named "e1" (mark_processed "e1" 7 recorded).1
        ≡ some (record event { processed_at = some 7; last_error = none; updated_at = 7 }))
    × (wakeup_named "e1" (mark_processed "e1" 7 recorded).1 ≡ none)
mark_processed_outcome_example = mark_processed_outcome "e1" 7 recorded event recorded_row

mark_processed-Sound_example : Sound (mark_processed "e1" 7 recorded).1
mark_processed-Sound_example =
    mark_processed-Sound "e1" 7 recorded event recorded_row
      (record_event-Sound accepted_review 6 before before-Sound)

mark_failed-Sound_example : Sound (mark_failed "e1" (client_error "down") 7 recorded).1
mark_failed-Sound_example =
    mark_failed-Sound "e1" 7 recorded event recorded_row sound (client_error "down") waiting
  where
    sound : Sound recorded
    sound = record_event-Sound accepted_review 6 before before-Sound

-- A page result is processed twice.
abbrev new_page : State Json
new_page = record before { tables = record tables_before { candidates = [] } }

abbrev once : State Json
once = (ensure_initial_candidates services 1 page new_page).1

first_time : ensure_initial_candidates services 1 page new_page ≡ (ok tt, once)
unfolding ensure_initial_candidates validated read_unit present require_job_id for_each
    candidate_origins_for_unit list_candidates_for_unit sort add_missing add_candidate ◌>>=◌
first_time = refl

ensure_initial_candidates_twice_example :
    ensure_initial_candidates services 1 page once ≡ (ok tt, once)
ensure_initial_candidates_twice_example =
    ensure_initial_candidates_twice services 1 page new_page once first_time

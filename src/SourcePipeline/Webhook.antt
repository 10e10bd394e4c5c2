-- ===== src/SourcePipeline/Webhook.antt =====
-- pipeline_webhook/contracts.py and pipeline_webhook/repository.py: the events that the job queue
-- sends, recorded once each, and the queue of those still to process.
-- The JSON copy of the payload in the event's row is not read again and is left out. No other
-- session holds a lock (`skip_locked`).
pub mod Marking
pub mod Queue
pub mod Pending
pub mod Marks
use hll.Prelude.{
  ℕ, ◌+◌, String, Bool, true, false, not, ◌&&◌, ◌||◌, Option, none, some, List, [], ◌∷◌, ◌++◌, map,
  str_eq, ltb, leb, if◌then◌else◌, is_none, find, filter, take, sort,
}
use hll.Exec.{Result, ok, err, pure, raise, gets, modify, ◌>>=◌, ◌>>◌}
use hll.SourcePipeline.Model.{
  Exception, validation_error, event_missing, conflict_without_row, JobQueueWebhookEvent,
  JobQueueWebhookWakeup, State, Action, update_row,
}

pub record JobQueueWebhookPayload : Type 0 where
  pub event_id : String
  pub event_type : String
  pub job_id : ℕ
  pub queue_name : String
  pub occurred_at : ℕ
  pub submission_id : Option ℕ
  pub terminal_state : Option String

abbrev opt_str_is : Option String → String → Bool
opt_str_is none t = false
opt_str_is (some s) t = str_eq s t

-- The declared types of the fields: lengths, `Literal` and `PositiveInt`.
fields_valid : JobQueueWebhookPayload → Bool
fields_valid p =
    not (str_eq p.event_id "")
    && (str_eq p.event_type "result.accepted" || str_eq p.event_type "job.terminal_non_accepted")
    && ltb 0 p.job_id
    && not (str_eq p.queue_name "")
    && elim p.submission_id [ none ↦ true | some n ↦ ltb 0 n ]
    && elim p.terminal_state [ none ↦ true | some t ↦ str_eq t "DEAD_LETTER" ]

validate_event_shape : JobQueueWebhookPayload → Bool
validate_event_shape p =
    if str_eq p.event_type "result.accepted" && is_none p.submission_id
    then false
    else if str_eq p.event_type "job.terminal_non_accepted"
        && not (opt_str_is p.terminal_state "DEAD_LETTER")
    then false
    else true

unfoldable pub validate_payload : JobQueueWebhookPayload → Result Exception JobQueueWebhookPayload
unfolding fields_valid validate_event_shape
validate_payload p = if fields_valid p && validate_event_shape p then ok p else err validation_error

abbrev new_event : JobQueueWebhookPayload → ℕ → ℕ → JobQueueWebhookEvent
new_event p id now = record {
  id = id;
  event_id = p.event_id;
  event_type = p.event_type;
  job_id = p.job_id;
  queue_name = p.queue_name;
  submission_id = p.submission_id;
  terminal_state = p.terminal_state;
  occurred_at = p.occurred_at;
  processed_at = none;
  last_error = none;
  created_at = now;
  updated_at = now;
}

-- The join of events and wakeups on `event_id`.
abbrev matching :
    List JobQueueWebhookEvent
    → JobQueueWebhookWakeup
    → List (JobQueueWebhookWakeup × JobQueueWebhookEvent)
matching events w =
    map (λ e. (w, e)) (filter (λ (e : JobQueueWebhookEvent). str_eq w.event_id e.event_id) events)

join :
    List JobQueueWebhookWakeup
    → List JobQueueWebhookEvent
    → List (JobQueueWebhookWakeup × JobQueueWebhookEvent)
join [] events = []
join (w ∷ ws) events = matching events w ++ join ws events

-- wakeup id, then `created_at`, then event id
pending_le :
    JobQueueWebhookWakeup × JobQueueWebhookEvent
    → JobQueueWebhookWakeup × JobQueueWebhookEvent
    → Bool
pending_le (v, d) (w, e) =
    if ltb v.id w.id
    then true
    else if ltb w.id v.id
    then false
    else if ltb d.created_at e.created_at
    then true
    else if ltb e.created_at d.created_at
    then false
    else leb d.id e.id

module _ {Payload : Type 0} where
  abbrev pub event_named : String → State Payload → Option JobQueueWebhookEvent
  event_named event_id s = find (λ e. str_eq e.event_id event_id) s.events

  -- `insert(...).on_conflict_do_nothing(...).returning(...)`: nothing comes back on a conflict.
  insert_event : JobQueueWebhookPayload → ℕ → Action Payload (Option JobQueueWebhookEvent)
  insert_event p now s = elim (event_named p.event_id s) [
    | some e ↦ (ok none, s)
    | none ↦
        let e = new_event p s.next_event_id now in
        (
          ok (some e),
          record s {
            tables = record s.tables {
              events = s.events ++ e ∷ [];
              next_event_id = s.next_event_id + 1;
            };
          },
        )
  ]

  abbrev pub wakeup_named : String → State Payload → Option JobQueueWebhookWakeup
  wakeup_named event_id s = find (λ w. str_eq w.event_id event_id) s.wakeups

  insert_wakeup : String → Action Payload Unit
  insert_wakeup event_id s = elim (wakeup_named event_id s) [
    | some w ↦ (ok tt, s)
    | none ↦ (
      ok tt,
      record s {
        tables = record s.tables {
          wakeups = s.wakeups ++ record { id = s.next_wakeup_id; event_id = event_id } ∷ [];
          next_wakeup_id = s.next_wakeup_id + 1;
        };
      },
    )
  ]

  existing_or_raise : Option JobQueueWebhookEvent → Action Payload JobQueueWebhookEvent
  existing_or_raise none = raise conflict_without_row
  existing_or_raise (some e) = pure e

  after_insert :
      JobQueueWebhookPayload → Option JobQueueWebhookEvent → Action Payload JobQueueWebhookEvent
  unfolding existing_or_raise insert_wakeup ◌>>=◌
  after_insert p none = do existing ← gets (event_named p.event_id); existing_or_raise existing
  after_insert p (some e) = do insert_wakeup e.event_id; pure e

  unfoldable pub record_event : JobQueueWebhookPayload → ℕ → Action Payload JobQueueWebhookEvent
  unfolding insert_event after_insert ◌>>=◌
  record_event p now = do inserted ← insert_event p now; after_insert p inserted

  unfoldable pub list_pending_events : ℕ → State Payload → List JobQueueWebhookEvent
  unfolding join pending_le
  list_pending_events limit s = take limit (
      map (λ (p : JobQueueWebhookWakeup × JobQueueWebhookEvent). p.1)
        (sort pending_le (
          filter (λ (p : JobQueueWebhookWakeup × JobQueueWebhookEvent). is_none p.1.processed_at)
            (join s.wakeups s.events))))

  found_event : String → Option JobQueueWebhookEvent → Action Payload JobQueueWebhookEvent
  found_event event_id none = raise (event_missing event_id)
  found_event event_id (some e) = pure e

  get_event : String → Action Payload JobQueueWebhookEvent
  unfolding found_event ◌>>=◌
  get_event event_id = do found ← gets (event_named event_id); found_event event_id found

  abbrev write_event : ℕ → (JobQueueWebhookEvent → JobQueueWebhookEvent) → Action Payload Unit
  write_event id f =
      modify (λ s. record s {
        tables = record s.tables { events = update_row (λ e. e.id) id f s.events };
      })

  unfoldable pub mark_processed : String → ℕ → Action Payload Unit
  unfolding get_event ◌>>=◌
  mark_processed event_id processed_at = do
    e ← get_event event_id
    write_event e.id (λ r. record r {
      processed_at = some processed_at;
      last_error = none;
      updated_at = processed_at;
    })
    modify (λ s. record s {
      tables = record s.tables {
        wakeups = filter (λ w. not (str_eq w.event_id event_id)) s.wakeups;
      };
    })

  unfoldable pub mark_failed : String → Exception → ℕ → Action Payload Unit
  unfolding get_event ◌>>=◌
  mark_failed event_id last_error failed_at = do
    e ← get_event event_id
    write_event e.id (λ r. record r {
      processed_at = none;
      last_error = some last_error;
      updated_at = failed_at;
    })

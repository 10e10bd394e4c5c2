-- ===== src/Classification/Webhook.antt =====
-- modules/taxonomy_classification/webhook.py: the events that the job queue sends, recorded once each.
-- The columns of an event that are not read again (queue_name, submission_id, occurred_at and the
-- JSON copy of the payload) are left out of its row. No other session holds a lock.
use hll.Prelude.{
  ℕ, ◌+◌, String, Bool, true, false, not, ◌&&◌, ◌||◌, Option, none, some, List, [], ◌∷◌, ◌++◌, map,
  str_eq, ltb, leb, ◌==◌, if◌then◌else◌, is_none, find, filter, take, sort,
}
use hll.Exec.{Result, ok, err, modify, ◌>>=◌, ◌>>◌}
use hll.SourcePipeline.Model.{update_row}
use hll.Classification.Model.{
  Error, value_error, TaxonomyClassificationWebhookEvent, TaxonomyClassificationWebhookWakeup,
  State, Action,
}

pub record TaxonomyClassificationWebhookPayload : Type 0 where
  pub event_id : String
  pub event_type : String
  pub job_id : ℕ
  pub queue_name : String
  pub occurred_at : ℕ
  pub submission_id : Option ℕ
  pub terminal_state : Option String

abbrev pub result_accepted : String
result_accepted = "result.accepted"

abbrev pub job_terminal_non_accepted : String
job_terminal_non_accepted = "job.terminal_non_accepted"

abbrev pub no_text : Option String → Bool
no_text none = true
no_text (some text) = str_eq text ""

abbrev pub positive_or_none : Option ℕ → Bool
positive_or_none none = true
positive_or_none (some n) = ltb 0 n

-- The declared types of the fields.
abbrev pub fields_valid : TaxonomyClassificationWebhookPayload → Bool
fields_valid p =
    not (str_eq p.event_id "")
    && ((str_eq p.event_type result_accepted || str_eq p.event_type job_terminal_non_accepted)
        && (ltb 0 p.job_id && (not (str_eq p.queue_name "") && positive_or_none p.submission_id)))

abbrev pub validate_event_shape : TaxonomyClassificationWebhookPayload → Bool
validate_event_shape p =
    if str_eq p.event_type result_accepted && is_none p.submission_id
    then false
    else not (str_eq p.event_type job_terminal_non_accepted && no_text p.terminal_state)

unfoldable pub validate_payload :
    TaxonomyClassificationWebhookPayload → Result Error TaxonomyClassificationWebhookPayload
validate_payload p =
    if fields_valid p && validate_event_shape p then ok p else err (value_error "payload")

abbrev pub event_named : String → State → Option TaxonomyClassificationWebhookEvent
event_named event_id s = find (λ e. str_eq e.event_id event_id) s.events

abbrev pub wakeup_named : String → State → Option TaxonomyClassificationWebhookWakeup
wakeup_named event_id s = find (λ w. str_eq w.event_id event_id) s.wakeups

abbrev pub new_event :
    TaxonomyClassificationWebhookPayload → ℕ → ℕ → TaxonomyClassificationWebhookEvent
new_event p id now = record {
  id = id;
  event_id = p.event_id;
  event_type = p.event_type;
  job_id = p.job_id;
  terminal_state = p.terminal_state;
  processed_at = none;
  last_error = none;
  created_at = now;
  updated_at = now;
}

abbrev pub add_wakeup : String → State → State
add_wakeup event_id s = elim (wakeup_named event_id s) [
  | some w ↦ s
  | none ↦ record s {
    tables = record s.tables {
      wakeups = s.wakeups ++ record { id = s.next_wakeup_id; event_id = event_id } ∷ [];
      next_wakeup_id = s.next_wakeup_id + 1;
    };
  }
]

abbrev pub add_event : TaxonomyClassificationWebhookEvent → State → State
add_event e s = record s {
  tables = record s.tables { events = s.events ++ e ∷ []; next_event_id = s.next_event_id + 1 };
}

-- `now` is the database's time. A conflict leaves the row that is there, and adds no wakeup.
unfoldable pub record_event :
    TaxonomyClassificationWebhookPayload → ℕ → Action TaxonomyClassificationWebhookEvent
record_event p now s = elim (event_named p.event_id s) [
  | some existing ↦ (ok existing, s)
  | none ↦
      (let e = new_event p s.next_event_id now in (ok e, add_wakeup e.event_id (add_event e s)))
]

-- The join of events and wakeups on `event_id`.
unfoldable pub join :
    List TaxonomyClassificationWebhookWakeup
    → List TaxonomyClassificationWebhookEvent
    → List (TaxonomyClassificationWebhookWakeup × TaxonomyClassificationWebhookEvent)
join [] events = []
join (w ∷ ws) events =
    map (λ e. (w, e))
      (filter (λ (e : TaxonomyClassificationWebhookEvent). str_eq w.event_id e.event_id) events)
    ++ join ws events

-- wakeup id, then `created_at`, then event id
abbrev pub pending_le :
    TaxonomyClassificationWebhookWakeup × TaxonomyClassificationWebhookEvent
    → TaxonomyClassificationWebhookWakeup × TaxonomyClassificationWebhookEvent
    → Bool
pending_le (v, d) (w, e) =
    ltb v.id w.id
    || v.id == w.id
      && (ltb d.created_at e.created_at || d.created_at == e.created_at && leb d.id e.id)

unfoldable pub list_pending_events : ℕ → State → List TaxonomyClassificationWebhookEvent
unfolding join sort
list_pending_events limit s = take limit (
    map (λ (p : TaxonomyClassificationWebhookWakeup × TaxonomyClassificationWebhookEvent). p.1)
      (sort pending_le (
        filter
          (λ (p : TaxonomyClassificationWebhookWakeup × TaxonomyClassificationWebhookEvent).
            is_none p.1.processed_at)
          (join s.wakeups s.events))))

-- `_get_event` and the assignments to the row's columns
unfoldable pub write_event :
    String → (TaxonomyClassificationWebhookEvent → TaxonomyClassificationWebhookEvent) → Action Unit
unfolding update_row
write_event event_id f s = elim (event_named event_id s) [
  | none ↦ (err (value_error "event does not exist"), s)
  | some e ↦ (
    ok tt,
    record s { tables = record s.tables { events = update_row (λ r. r.id) e.id f s.events } },
  )
]

abbrev pub drop_wakeup : String → State → State
drop_wakeup event_id s = record s {
  tables = record s.tables { wakeups = filter (λ w. not (str_eq w.event_id event_id)) s.wakeups };
}

unfoldable pub mark_processed : String → ℕ → Action Unit
unfolding write_event ◌>>=◌
mark_processed event_id processed_at =
    write_event event_id (λ r. record r {
      processed_at = some processed_at;
      last_error = none;
      updated_at = processed_at;
    })
    >> modify (drop_wakeup event_id)

unfoldable pub mark_failed : String → Error → ℕ → Action Unit
unfolding write_event
mark_failed event_id last_error failed_at =
    write_event event_id
      (λ r. record r { processed_at = none; last_error = some last_error; updated_at = failed_at })

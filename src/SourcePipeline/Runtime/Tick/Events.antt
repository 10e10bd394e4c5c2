-- ===== src/SourcePipeline/Runtime/Tick/Events.antt =====
-- One event's failure does not stop the others.
use hll.Prelude.{
  ℕ, ◌≤◌, String, ◌≡◌, refl, ap, true, List, [], ◌∷◌, arith, is_some, length, All, All-map,
  Option-cases, inl, inr,
}
use hll.Exec.{Result, ok, err, handle, pure, try_except, for_each, ◌>>=◌, ◌>>◌}
use hll.Exec.Steps.{IsPreorder, Steps, after_ok, steps_rules}
use hll.SourcePipeline.Model.{Exception, JobQueueWebhookEvent, Services, State, Action}
use hll.SourcePipeline.Webhook.{event_named, list_pending_events, mark_processed, mark_failed}
use hll.SourcePipeline.Webhook.Marks.{mark_processed_names, mark_failed_names, mark_failed_outcome}
use hll.SourcePipeline.Webhook.Pending.{list_pending_named, length-list_pending_events}
use hll.SourcePipeline.Runtime.Jobs.{write_unit, write_candidate, ask_result}
use hll.SourcePipeline.Runtime.Jobs.Closed.{Closed}
use hll.SourcePipeline.Runtime.Jobs.Submitting.{
  submit_review_then, submit_repair_then, handoff_then, create_alone,
}
use hll.SourcePipeline.Runtime.Tick.{
  Settings, process_webhook_event, handle_event, process_pending_webhook_events,
}
use hll.SourcePipeline.Runtime.Tick.Closure.{process_webhook_event_step, handle_event_step}

module _ {Payload : Type 0} where
  record NamesStay (s t : State Payload) : Type 0 where
    stay : (m : String) → is_some (event_named m s) ≡ true → is_some (event_named m t) ≡ true

  same_events : (s t : State Payload) → t.events ≡ s.events → NamesStay s t
  same_events s t same = record { stay = λ m h. rw same h }

  NamesStay-order : IsPreorder NamesStay
  NamesStay-order = record {
    reflexive = λ s. same_events s s refl;
    transitive = λ s t u p q. record { stay = λ m h. q.stay m (p.stay m h) };
  }

  module _ (svc : Services Payload) where
    NamesStay-closed : Closed svc NamesStay
    unfolding write_unit write_candidate ask_result ◌>>=◌
    NamesStay-closed = record {
      order = NamesStay-order;
      write_unit_step = λ id f. record { at = λ s. same_events s _ refl };
      create_step =
          λ item. record { at = λ s. create_alone svc NamesStay item s (same_events s _ refl) };
      ask_step = λ job_id. record { at = λ s. same_events s _ refl };
      handoff_step = λ id. record {
        at = λ s.
            handoff_then svc NamesStay id s (same_events s s refl) (λ _ _ _. same_events s _ refl)
              (λ _ _ _. same_events s _ refl);
      };
      review_step = λ id s c found _.
          submit_review_then svc NamesStay id s c found (λ _. same_events s _ refl)
            (λ _ _. same_events s _ refl);
      repair_step = λ id review s c found _.
          submit_repair_then svc NamesStay id review s c found (λ _. same_events s _ refl)
            (λ _ _. same_events s _ refl);
      review_terminal_step = λ id state. record { at = λ s. same_events s _ refl };
      repair_terminal_step = λ id state. record { at = λ s. same_events s _ refl };
      mark_processed_step =
          λ n now. record { at = λ s. record { stay = λ m h. mark_processed_names n now s m h } };
      mark_failed_step =
          λ n e now. record { at = λ s. record { stay = λ m h. mark_failed_names n now s m h e } };
      insert_step = λ s c _. same_events s _ refl;
      commit_step = λ s. same_events s _ refl;
      clock_step = λ s now. same_events s _ refl;
    }

    body : ℕ → JobQueueWebhookEvent → Action Payload Unit
    body now event = do process_webhook_event svc event; mark_processed event.event_id now

    body_step : (now : ℕ) (event : JobQueueWebhookEvent) → Steps NamesStay (body now event)
    unfolding body
    body_step now event = search (
      steps_rules,
      NamesStay-order,
      process_webhook_event_step NamesStay-closed,
      λ (n : String) (t : ℕ). NamesStay-closed.mark_processed_step n t,
    )

    marked :
        (now : ℕ) (event : JobQueueWebhookEvent) (r : Result Exception Unit × State Payload)
        → is_some (event_named event.event_id r.1) ≡ true
        → (handle r.0 (λ exc. mark_failed event.event_id exc now) r.1).0 ≡ ok tt
    marked now event (ok _, t) there = refl
    marked now event (err exc, t) there = elim (Option-cases (event_named event.event_id t)) [
      | inl absent ↦ ground arith
      | inr (e, found) ↦ (mark_failed_outcome event.event_id now t e found exc).0
    ]

    handle_event_returns :
        (now : ℕ) (event : JobQueueWebhookEvent) (s : State Payload)
        → is_some (event_named event.event_id s) ≡ true
        → (handle_event svc now event s).0 ≡ ok tt
    unfolding handle_event try_except body
    handle_event_returns now event s there =
        marked now event (body now event s) (((body_step now event).at s).stay event.event_id there)

    loop_returns :
        (now : ℕ) (events : List JobQueueWebhookEvent) (s : State Payload)
        → All (λ (e : JobQueueWebhookEvent). is_some (event_named e.event_id s) ≡ true) events
        → (for_each events (handle_event svc now) s).0 ≡ ok tt
    unfolding for_each
    loop_returns now [] s h = refl
    loop_returns now (e ∷ events) s h =
        rw
          (after_ok (handle_event svc now e) (λ _. for_each events (handle_event svc now)) s tt
            (handle_event_returns now e s h.0))
          (loop_returns now events (handle_event svc now e s).1 (
            All-map
              (λ d there. ((handle_event_step NamesStay-closed now e).at s).stay d.event_id there)
              events h.1))

    -- Whatever an event's processing raises, the batch goes through to its end, and the number of
    -- its events is returned, at most `poll_batch_size`.
    pub process_pending_returns :
        (settings : Settings) (now : ℕ) (s : State Payload)
        → ((process_pending_webhook_events svc settings now s).0
            ≡ ok (length (list_pending_events settings.poll_batch_size s)))
          × (length (list_pending_events settings.poll_batch_size s) ≤ settings.poll_batch_size)
    unfolding process_pending_webhook_events ◌>>=◌
    process_pending_returns settings now s = (
      ap (λ r. r.0)
          (after_ok
            (for_each (list_pending_events settings.poll_batch_size s) (handle_event svc now))
            (λ _. pure (length (list_pending_events settings.poll_batch_size s))) s tt
            (loop_returns now _ s (list_pending_named settings.poll_batch_size s))),
      length-list_pending_events settings.poll_batch_size s,
    )

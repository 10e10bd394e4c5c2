-- ===== src/Classification/Runtime/Batch.antt =====
-- A batch of webhook events: nothing that the job queue or an event does stops it.
use hll.Prelude.{
  ℕ, String, ◌≡◌, refl, ap, true, none, List, [], ◌∷◌, map, arith, Bool-cases, Option-cases, inl,
  inr, str_eq, is_some, find, filter, length, any, All, All-append, All-take, All-filter_of_All,
  All-map, All-sort,
}
use text.Mathlib.TextPositions.{eq_refl}
use hll.Exec.{Result, ok, err, continue, handle, pure, ◌>>=◌, ◌>>◌, for_each, try_except}
use hll.Exec.Steps.{Steps, Steps-bind, after_ok}
use hll.Classification.Model.{
  Error, TaxonomyClassificationWebhookEvent, TaxonomyClassificationWebhookWakeup, ResultReadItem,
  Services, State, Action,
}
use hll.Classification.Webhook.{
  event_named, write_event, mark_processed, mark_failed, join, pending_le, list_pending_events,
}
use hll.Classification.Results.Moves.{Closed, set_current_assignment_state, assign_found}
use hll.Classification.Results.{result_items_by_job_id}
use hll.Classification.Runtime.{
  Read, read, unread, is_accepted, accepted_job_ids, process_webhook_event, process_or_fail,
  read_accepted, fail_events, process_events, process_pending_webhook_events,
}
use hll.Classification.Runtime.Events.{
  mark_processed_step, mark_failed_step, process_webhook_event_step, process_or_fail_step,
  read_accepted_step, fail_events_step,
}

abbrev WebhookEvent : Type 0
WebhookEvent = TaxonomyClassificationWebhookEvent

record KeepsEvents (s t : State) : Type 0 where
  pub at :
      (event_id : String)
      → is_some (event_named event_id s) ≡ true
      → is_some (event_named event_id t) ≡ true

KeepsEvents-Closed : Closed KeepsEvents
KeepsEvents-Closed = record {
  order = record {
    reflexive = λ s. record { at = λ id h. h };
    transitive = λ s t u p q. record { at = λ id h. q.at id (p.at id h) };
  };
  same = λ s t h. record { at = h.named };
  move = λ node_id target now s h. record {
    at = λ id k.
        rw
          (
            set_current_assignment_state node_id target now s,
            assign_found node_id target now s h.assignment h.found,
          )
          k;
  };
}

abbrev Named : State → WebhookEvent → Type 0
Named s e = is_some (event_named e.event_id s) ≡ true

Named-keep :
    (s t : State) (events : List WebhookEvent)
    → KeepsEvents s t
    → All (Named s) events
    → All (Named t) events
Named-keep s t events k h = All-map (λ e n. k.at e.event_id n) events h

abbrev Found : List WebhookEvent → WebhookEvent → Type 0
Found all e = is_some (find (λ r. str_eq r.event_id e.event_id) all) ≡ true

not_none :
    (event_id : String) (s : State)
    → is_some (event_named event_id s) ≡ true
    → event_named event_id s ≡ none
    → ⊥
not_none event_id s h e = cc (ap is_some e, h)

abbrev Found-rows : (all rows : List WebhookEvent) → Type 0
Found-rows all rows = All (λ e. is_some (find (λ r. str_eq r.event_id e.event_id) all) ≡ true) rows

Found-more :
    (r : WebhookEvent) (all rows : List WebhookEvent)
    → Found-rows all rows
    → Found-rows (r ∷ all) rows
Found-more r all rows h = All-map (λ e n. ground (arith, n)) rows h

Found-all : (rows : List WebhookEvent) → Found-rows rows rows
Found-all [] = tt
Found-all (r ∷ rows) = (rw (eq_refl r.event_id) refl, Found-more r rows rows (Found-all rows))

Found-matching :
    (all : List WebhookEvent) (w : TaxonomyClassificationWebhookWakeup) (rows : List WebhookEvent)
    → Found-rows all rows
    → All
        (λ (p : TaxonomyClassificationWebhookWakeup × WebhookEvent). Found all p.1)
        (map (λ e. (w, e)) rows)
Found-matching all w [] h = tt
Found-matching all w (e ∷ rows) h = (h.0, Found-matching all w rows h.1)

Found-join :
    (all : List WebhookEvent) (wakeups : List TaxonomyClassificationWebhookWakeup)
    → All
        (λ (p : TaxonomyClassificationWebhookWakeup × WebhookEvent). Found all p.1)
        (join wakeups all)
unfolding join
Found-join all [] = tt
Found-join all (w ∷ ws) =
    All-append (λ (p : TaxonomyClassificationWebhookWakeup × WebhookEvent). Found all p.1) _ _
      (Found-matching all w _ (All-filter_of_All (Found all) _ all (Found-all all)))
      (Found-join all ws)

Found-events :
    (all : List WebhookEvent) (pairs : List (TaxonomyClassificationWebhookWakeup × WebhookEvent))
    → All (λ (p : TaxonomyClassificationWebhookWakeup × WebhookEvent). Found all p.1) pairs
    → Found-rows all (map (λ (p : TaxonomyClassificationWebhookWakeup × WebhookEvent). p.1) pairs)
Found-events all [] h = tt
Found-events all (p ∷ pairs) h = (h.0, Found-events all pairs h.1)

listed-Named : (n : ℕ) (s : State) → All (Named s) (list_pending_events n s)
unfolding list_pending_events
listed-Named n s = All-take (Named s) n _ (
    Found-events s.events _ (
      All-sort pending_le
        (λ (p : TaxonomyClassificationWebhookWakeup × WebhookEvent). Found s.events p.1) _
        (All-filter_of_All
          (λ (p : TaxonomyClassificationWebhookWakeup × WebhookEvent). Found s.events p.1) _ _
          (Found-join s.events s.wakeups))))

write_event_ok :
    (event_id : String) (f : WebhookEvent → WebhookEvent) (s : State)
    → is_some (event_named event_id s) ≡ true
    → (write_event event_id f s).0 ≡ ok tt
unfolding write_event
write_event_ok event_id f s h = elim (Option-cases (event_named event_id s)) [
  | inl e ↦ absurd (not_none event_id s h e)
  | inr e ↦ rw (write_event, e.1) refl
]

mark_failed_ok :
    (event_id : String) (e : Error) (now : ℕ) (s : State)
    → is_some (event_named event_id s) ≡ true
    → (mark_failed event_id e now s).0 ≡ ok tt
unfolding mark_failed
mark_failed_ok event_id e now s h = write_event_ok event_id _ s h

-- A loop whose body returns where its event is in the table, and keeps the events, returns.
for_each_ok :
    (body : WebhookEvent → Action Unit)
    → ((e : WebhookEvent) (s : State) → Named s e → (body e s).0 ≡ ok tt)
    → ((e : WebhookEvent) → Steps KeepsEvents (body e))
    → (events : List WebhookEvent) (s : State) → All (Named s) events
    → (for_each events body s).0 ≡ ok tt
unfolding for_each
for_each_ok body returns keeps [] s h = refl
for_each_ok body returns keeps (e ∷ events) s h =
    rw (after_ok (body e) (λ _. for_each events body) s tt (returns e s h.0)) (
      for_each_ok body returns keeps events (body e s).1
        (Named-keep s _ events ((keeps e).at s) h.1))

module _ (svc : Services) (now : ℕ) where
  process_or_fail_ok :
      (items : List ResultReadItem) (e : WebhookEvent) (s : State)
      → Named s e
      → (process_or_fail svc now items e s).0 ≡ ok tt
  unfolding process_or_fail try_except
  process_or_fail_ok items e s h =
      go ((process_webhook_event svc now e items >> mark_processed e.event_id now) s) (
        (Steps-bind KeepsEvents-Closed.order (process_webhook_event svc now e items) _
            (process_webhook_event_step KeepsEvents-Closed svc now e items)
            (λ _. mark_processed_step KeepsEvents-Closed e.event_id now)).at
          s)
    where
      go :
          (r : Result Error Unit × State)
          → KeepsEvents s r.1
          → (handle r.0 (λ x. mark_failed e.event_id x now) r.1).0 ≡ ok tt
      go (ok u, t) k = refl
      go (err x, t) k = mark_failed_ok e.event_id x now t (k.at e.event_id h)

  process_events_ok :
      (events : List WebhookEvent) (r : Read) (s : State)
      → All (Named s) events
      → (process_events svc now events r s).0 ≡ ok tt
  unfolding process_events fail_events
  process_events_ok events (read items) s h =
      for_each_ok (process_or_fail svc now items) (process_or_fail_ok items)
        (process_or_fail_step KeepsEvents-Closed svc now items) events s h
  process_events_ok events (unread e) s h =
      let failed = filter is_accepted events in
      rw
        (after_ok (fail_events svc now e failed) _ s tt (
          for_each_ok (λ event. mark_failed event.event_id e now)
            (λ event t n. mark_failed_ok event.event_id e now t n)
            (λ event. mark_failed_step KeepsEvents-Closed event.event_id e now) failed s
            (All-filter_of_All (Named s) is_accepted events h)))
        (for_each_ok (process_or_fail svc now []) (process_or_fail_ok [])
          (process_or_fail_step KeepsEvents-Closed svc now []) _ _
          (Named-keep s _ _ ((fail_events_step KeepsEvents-Closed svc now e failed).at s)
            (All-filter_of_All (Named s) _ events h)))

  read_accepted_ok :
      (events : List WebhookEvent) (s : State)
      → (r : Read) × ((read_accepted svc now events s).0 ≡ ok r)
  unfolding read_accepted try_except ◌>>=◌
  read_accepted_ok events s = elim (Bool-cases (any is_accepted events)) [
    | inr e ↦ (read [], rw e refl)
    | inl e ↦ rw e (go (result_items_by_job_id svc (accepted_job_ids svc now events) s))
  ]
    where
      answered : Result Error (List ResultReadItem) × State → Result Error Read × State
      answered r = continue r.0 (λ items. pure (read items)) r.1

      go :
          (r : Result Error (List ResultReadItem) × State)
          → (x : Read) × ((handle (answered r).0 (λ e. pure (unread e)) (answered r).1).0 ≡ ok x)
      go (ok items, t) = (read items, refl)
      go (err x, t) = (unread x, refl)

  -- A batch of webhook events returns the number of the events it was given, whatever the job queue
  -- answers and whatever an event raises.
  pub process_pending_webhook_events_returns :
      (n : ℕ) (s : State)
      → (process_pending_webhook_events svc now n s).0 ≡ ok (length (list_pending_events n s))
  unfolding process_pending_webhook_events ◌>>=◌
  process_pending_webhook_events_returns n s =
      let events = list_pending_events n s in
      let found = read_accepted_ok events s in
      let t = (read_accepted svc now events s).1 in
      rw (after_ok (read_accepted svc now events) _ s found.0 found.1) (
        rw
          (after_ok (process_events svc now events found.0) (λ _. pure (length events)) t tt
            (process_events_ok events found.0 t (
              Named-keep s t events ((read_accepted_step KeepsEvents-Closed svc now events).at s)
                (listed-Named n s))))
          refl)

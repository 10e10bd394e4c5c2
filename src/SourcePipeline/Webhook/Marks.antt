-- ===== src/SourcePipeline/Webhook/Marks.antt =====
-- Marking an event: what its row and the queue hold afterwards.
use mathlib.Core.Option
use hll.Prelude.{
  ℕ, String, ◌≡◌, refl, true, false, not, Option, none, some, arith, str_eq, eq_iff, ◌==◌,
  if◌then◌else◌, is_some, find, filter, subst, Option-cases, Bool-cases, inl, inr, ==_iff,
}
use hll.Exec.{ok, ◌>>=◌}
use hll.SourcePipeline.Model.{
  Exception, JobQueueWebhookEvent, JobQueueWebhookWakeup, State, get_row, update_row,
}
use hll.SourcePipeline.Model.Rows.{
  get_row-update_row, find-update_row, find-filter, filtered_out, find_passes, All-update_row,
}
use hll.SourcePipeline.Webhook.{
  event_named, wakeup_named, found_event, get_event, mark_processed, mark_failed,
}
use hll.SourcePipeline.Webhook.Queue.{Sound, id_of}

module _ {Payload : Type 0} (n : String) (now : ℕ) (s : State Payload) (e : JobQueueWebhookEvent)
    (there : event_named n s ≡ some e) where
  as_processed : JobQueueWebhookEvent → JobQueueWebhookEvent
  as_processed r = record r { processed_at = some now; last_error = none; updated_at = now }

  after_processed : State Payload
  unfolding as_processed
  after_processed = record s {
    tables = record s.tables {
      events = update_row id_of e.id as_processed s.events;
      wakeups = filter (λ w. not (str_eq w.event_id n)) s.wakeups;
    };
  }

  processed : mark_processed n now s ≡ (ok tt, after_processed)
  unfolding mark_processed get_event found_event ◌>>=◌ after_processed
  processed = rw (there, found_event)

  as_failed : Exception → JobQueueWebhookEvent → JobQueueWebhookEvent
  as_failed exc r = record r { processed_at = none; last_error = some exc; updated_at = now }

  after_failed : Exception → State Payload
  unfolding as_failed
  after_failed exc = record s {
    tables = record s.tables { events = update_row id_of e.id (as_failed exc) s.events };
  }

  failed_lem : (exc : Exception) → mark_failed n exc now s ≡ (ok tt, after_failed exc)
  unfolding mark_failed get_event found_event ◌>>=◌ after_failed
  failed_lem exc = rw (there, found_event)

  -- A processed event leaves the queue: its row has the time and no error, and its wakeup is gone.
  pub mark_processed_outcome :
      ((mark_processed n now s).0 ≡ ok tt)
      × (event_named n (mark_processed n now s).1
          ≡ some (record e { processed_at = some now; last_error = none; updated_at = now }))
      × (wakeup_named n (mark_processed n now s).1 ≡ none)
  mark_processed_outcome = rw processed (
    refl,
    (unfold after_processed in
        rw
          (
            find-update_row (λ (r : JobQueueWebhookEvent). str_eq r.event_id n) id_of e.id
                as_processed s.events (λ r. refl),
            there,
          )
          (ground arith)),
    unfold after_processed in
        filtered_out (λ (w : JobQueueWebhookWakeup). str_eq w.event_id n) s.wakeups,
  )

  -- A failed event stays in the queue: its row has the error, and no wakeup is removed.
  pub mark_failed_outcome :
      (exc : Exception)
      → ((mark_failed n exc now s).0 ≡ ok tt)
        × (event_named n (mark_failed n exc now s).1
            ≡ some (record e { processed_at = none; last_error = some exc; updated_at = now }))
        × ((mark_failed n exc now s).1.wakeups ≡ s.wakeups)
  mark_failed_outcome exc = rw (failed_lem exc) (
    refl,
    (unfold after_failed in
        rw
          (
            find-update_row (λ (r : JobQueueWebhookEvent). str_eq r.event_id n) id_of e.id
                (as_failed exc) s.events (λ r. refl),
            there,
          )
          (ground arith)),
    unfold after_failed in refl,
  )

  module _ (sound : Sound s) where
    -- The rows after a write to the marked event.
    module _ (f : JobQueueWebhookEvent → JobQueueWebhookEvent)
        (same_name : (r : JobQueueWebhookEvent) → (f r).event_id ≡ r.event_id)
        (same_id : (r : JobQueueWebhookEvent) → (f r).id ≡ r.id) where
      named_after :
          (m : String)
          → find
              (λ (r : JobQueueWebhookEvent). str_eq r.event_id m)
              (update_row id_of e.id f s.events)
            ≡ Option.map
                (λ (r : JobQueueWebhookEvent). if r.id == e.id then f r else r)
                (event_named m s)
      named_after m =
          find-update_row (λ (r : JobQueueWebhookEvent). str_eq r.event_id m) id_of e.id f s.events
            (λ r. rw (same_name r))

      keyed_after :
          (m : String) (d : JobQueueWebhookEvent)
          → find
              (λ (r : JobQueueWebhookEvent). str_eq r.event_id m)
              (update_row id_of e.id f s.events)
            ≡ some d
          → get_row id_of d.id (update_row id_of e.id f s.events) ≡ some d
      keyed_after m d h =
          rw (get_row-update_row id_of e.id d.id f s.events same_id)
            (keyed (event_named m s) refl (rw (named_after m) at h))
        where
          keyed :
              (o : Option JobQueueWebhookEvent)
              → event_named m s ≡ o
              → Option.map (λ (r : JobQueueWebhookEvent). if r.id == e.id then f r else r) o
                ≡ some d
              → (if e.id == d.id
                  then Option.map f (get_row id_of d.id s.events)
                  else get_row id_of d.id s.events)
                ≡ some d
          keyed none _ h = cc
          keyed (some r) at_m h = ground (arith, same_id r, sound.keyed m r at_m)

    other_wakeup :
        (m : String)
        → str_eq n m ≡ false
        → (w : JobQueueWebhookWakeup) → str_eq w.event_id m ≡ true
        → not (str_eq w.event_id n) ≡ true
    other_wakeup m differ w h = ground (arith, eq_iff w.event_id m, eq_iff w.event_id n, eq_iff n m)

    still_queued :
        (m : String) (d : JobQueueWebhookEvent) (o : Option JobQueueWebhookEvent)
        → event_named m s ≡ o
        → Option.map (λ (r : JobQueueWebhookEvent). if r.id == e.id then as_processed r else r) o
          ≡ some d
        → d.processed_at ≡ none
        → is_some (wakeup_named m after_processed) ≡ true
    unfolding as_processed after_processed
    still_queued m d none _ h pending = cc
    still_queued m d (some r) at_m h pending = elim (Bool-cases (str_eq n m)) [
      | inl same ↦
          let at_e : event_named m s ≡ some e =
            subst (λ x. event_named x s ≡ some e) ((eq_iff n m).0 same) there in
          ground (arith, at_e, at_m)
      | inr differ ↦
          rw
            (find-filter (λ (w : JobQueueWebhookWakeup). str_eq w.event_id m)
              (λ w. not (str_eq w.event_id n)) s.wakeups (other_wakeup m differ))
            (ground (arith, sound.queued m r at_m))
    ]

    -- A processed event is the only one whose wakeup goes.
    pub mark_processed-Sound : Sound (mark_processed n now s).1
    unfolding after_processed
    mark_processed-Sound = rw processed (record {
      keyed = keyed_after as_processed (λ r. refl) (λ r. refl);
      fresh = All-update_row _ id_of e.id as_processed s.events (λ r h. h) sound.fresh;
      queued = λ m d h pending.
          still_queued m d (event_named m s) refl
            (rw (named_after as_processed (λ r. refl) (λ r. refl) m) at h) pending;
    })

    same_event :
        (r : JobQueueWebhookEvent) (m : String)
        → event_named m s ≡ some r
        → (r.id == e.id) ≡ true
        → n ≡ m
    same_event r m at_m same =
        let ids : r.id ≡ e.id = (==_iff r.id e.id).0 same in
        let rows : get_row id_of r.id s.events ≡ some e = rw ids (sound.keyed n e there) in
        ground (
          arith,
          rows,
          sound.keyed m r at_m,
          eq_iff e.event_id n,
          eq_iff r.event_id m,
          find_passes (λ (x : JobQueueWebhookEvent). str_eq x.event_id n) s.events e there,
          find_passes (λ (x : JobQueueWebhookEvent). str_eq x.event_id m) s.events r at_m,
        )

    failed_queued :
        (exc : Exception) (m : String) (d : JobQueueWebhookEvent) (o : Option JobQueueWebhookEvent)
        → is_some (wakeup_named n s) ≡ true
        → event_named m s ≡ o
        → Option.map (λ (r : JobQueueWebhookEvent). if r.id == e.id then as_failed exc r else r) o
          ≡ some d
        → d.processed_at ≡ none
        → is_some (wakeup_named m s) ≡ true
    unfolding as_failed
    failed_queued exc m d none waiting _ h pending = cc
    failed_queued exc m d (some r) waiting at_m h pending = elim (Bool-cases (r.id == e.id)) [
      | inl same ↦
          let named : n ≡ m = same_event r m at_m same in
          subst (λ x. is_some (wakeup_named x s) ≡ true) named waiting
      | inr differ ↦ ground (arith, sound.queued m r at_m)
    ]

    -- A failed event whose wakeup is there leaves the queue sound: it will be tried again.
    pub mark_failed-Sound :
        (exc : Exception) → is_some (wakeup_named n s) ≡ true → Sound (mark_failed n exc now s).1
    unfolding after_failed
    mark_failed-Sound exc waiting = rw (failed_lem exc) (record {
      keyed = keyed_after (as_failed exc) (λ r. refl) (λ r. refl);
      fresh = All-update_row _ id_of e.id (as_failed exc) s.events (λ r h. h) sound.fresh;
      queued = λ m d h pending.
          failed_queued exc m d (event_named m s) waiting refl
            (rw (named_after (as_failed exc) (λ r. refl) (λ r. refl) m) at h) pending;
    })

module _ {Payload : Type 0} (n : String) (now : ℕ) (s : State Payload) (m : String)
    (there : is_some (event_named m s) ≡ true) where
  pub mark_processed_names : is_some (event_named m (mark_processed n now s).1) ≡ true
  unfolding mark_processed get_event ◌>>=◌
  mark_processed_names = elim (Option-cases (event_named n s)) [
    | inl absent ↦ rw (absent, found_event) there
    | inr (e, found) ↦
        rw (found, found_event)
          (rw
            (find-update_row (λ (r : JobQueueWebhookEvent). str_eq r.event_id m) id_of e.id
              (λ r. record r { processed_at = some now; last_error = none; updated_at = now })
              s.events (λ r. refl))
            (ground arith))
  ]

  pub mark_failed_names :
      (exc : Exception) → is_some (event_named m (mark_failed n exc now s).1) ≡ true
  unfolding mark_failed get_event ◌>>=◌
  mark_failed_names exc = elim (Option-cases (event_named n s)) [
    | inl absent ↦ rw (absent, found_event) there
    | inr (e, found) ↦
        rw (found, found_event)
          (rw
            (find-update_row (λ (r : JobQueueWebhookEvent). str_eq r.event_id m) id_of e.id
              (λ r. record r { processed_at = none; last_error = some exc; updated_at = now })
              s.events (λ r. refl))
            (ground arith))
  ]

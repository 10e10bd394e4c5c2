-- ===== src/SourcePipeline/Webhook/Queue.antt =====
-- The event queue: a pending event keeps its wakeup until it is processed.
use text.Mathlib.TextPositions.{eq_refl}
use hll.Prelude.{
  ℕ, ◌+◌, ◌<◌, String, ◌≡◌, refl, true, none, some, List, [], ◌∷◌, ◌++◌, arith, str_eq, eq_iff,
  if◌then◌else◌, is_some, All, All-append, All-map, Option-cases, inl, inr,
}
use hll.Exec.{ok, ◌>>=◌}
use hll.SourcePipeline.Model.{JobQueueWebhookEvent, JobQueueWebhookWakeup, State, get_row}
use hll.SourcePipeline.Model.Rows.{get_row-append, find-append}
use hll.SourcePipeline.Webhook.{
  JobQueueWebhookPayload, event_named, wakeup_named, new_event, insert_event, insert_wakeup,
  existing_or_raise, after_insert, record_event,
}

abbrev pub id_of : JobQueueWebhookEvent → ℕ
id_of e = e.id

below_suc : (n : ℕ) (e : JobQueueWebhookEvent) → e.id < n → e.id < n + 1
below_suc n e h = omega arith

below→absent :
    (k : ℕ) (rows : List JobQueueWebhookEvent)
    → All (λ e. e.id < k) rows
    → get_row id_of k rows ≡ none
below→absent k [] all = refl
below→absent k (r ∷ rows) all = ground (arith, below→absent k rows all.1)

module _ {Payload : Type 0} where
  pub record Sound (s : State Payload) : Type 0 where
    -- the event found by its name is the one found by its primary key
    pub keyed :
        (n : String) (e : JobQueueWebhookEvent)
        → event_named n s ≡ some e
        → get_row id_of e.id s.events ≡ some e
    pub fresh : All (λ (e : JobQueueWebhookEvent). e.id < s.next_event_id) s.events
    pub queued :
        (n : String) (e : JobQueueWebhookEvent)
        → event_named n s ≡ some e
        → e.processed_at ≡ none
        → is_some (wakeup_named n s) ≡ true

  -- An event is recorded once: the second delivery returns the row of the first and changes nothing.
  pub record_event_once :
      (p q : JobQueueWebhookPayload) (now later : ℕ) (s t : State Payload)
      (e : JobQueueWebhookEvent)
      → record_event p now s ≡ (ok e, t)
      → q.event_id ≡ p.event_id
      → record_event q later t ≡ (ok e, t)
  unfolding record_event insert_event after_insert existing_or_raise insert_wakeup ◌>>=◌
  record_event_once p q now later s t e first same = ground (
    arith,
    find-append (λ (e : JobQueueWebhookEvent). str_eq e.event_id p.event_id) s.events
        (new_event p s.next_event_id now),
    eq_refl p.event_id,
  )

  -- The row of the new event, where its name was free.
  inserted : JobQueueWebhookPayload → ℕ → State Payload → State Payload
  inserted p now s = record s {
    tables = record s.tables {
      events = s.events ++ new_event p s.next_event_id now ∷ [];
      next_event_id = s.next_event_id + 1;
      wakeups = elim (wakeup_named p.event_id s) [
        | some _ ↦ s.wakeups
        | none ↦ s.wakeups ++ record { id = s.next_wakeup_id; event_id = p.event_id } ∷ []
      ];
      next_wakeup_id = elim (wakeup_named p.event_id s) [
        | some _ ↦ s.next_wakeup_id
        | none ↦ s.next_wakeup_id + 1
      ];
    };
  }

  recorded :
      (p : JobQueueWebhookPayload) (now : ℕ) (s : State Payload)
      → event_named p.event_id s ≡ none
      → record_event p now s ≡ (ok (new_event p s.next_event_id now), inserted p now s)
  unfolding record_event insert_event after_insert existing_or_raise insert_wakeup inserted ◌>>=◌
  recorded p now s free = ground arith

  found_again :
      (p : JobQueueWebhookPayload) (now : ℕ) (s : State Payload) (e : JobQueueWebhookEvent)
      → event_named p.event_id s ≡ some e
      → record_event p now s ≡ (ok e, s)
  unfolding record_event insert_event after_insert existing_or_raise ◌>>=◌
  found_again p now s e there = ground arith

  module _ (p : JobQueueWebhookPayload) (now : ℕ) (s : State Payload) (sound : Sound s)
      (free : event_named p.event_id s ≡ none) where
    named_after :
        (n : String)
        → event_named n (inserted p now s) ≡ elim (event_named n s) [
          | none ↦ (if str_eq p.event_id n then some (new_event p s.next_event_id now) else none)
          | some a ↦ some a
        ]
    unfolding inserted
    named_after n = find-append (λ (e : JobQueueWebhookEvent). str_eq e.event_id n) s.events _

    keyed_after :
        (n : String) (e : JobQueueWebhookEvent)
        → event_named n (inserted p now s) ≡ some e
        → get_row id_of e.id (inserted p now s).events ≡ some e
    unfolding inserted
    keyed_after n e h = rw (get_row-append id_of e.id s.events (new_event p s.next_event_id now)) (
        ground (
          arith,
          named_after n,
          sound.keyed n e,
          below→absent s.next_event_id s.events sound.fresh,
        ))

    queued_after :
        (n : String) (e : JobQueueWebhookEvent)
        → event_named n (inserted p now s) ≡ some e
        → e.processed_at ≡ none
        → is_some (wakeup_named n (inserted p now s)) ≡ true
    unfolding inserted
    queued_after n e h pending = ground (
      arith,
      named_after n,
      sound.queued n e,
      find-append (λ (w : JobQueueWebhookWakeup). str_eq w.event_id n) s.wakeups
          (record { id = s.next_wakeup_id; event_id = p.event_id }),
      eq_iff p.event_id n,
    )

    inserted-Sound : Sound (inserted p now s)
    unfolding inserted
    inserted-Sound = record {
      keyed = keyed_after;
      fresh =
          All-append _ s.events _ (All-map (below_suc s.next_event_id) s.events sound.fresh)
            (omega arith, tt);
      queued = queued_after;
    }

  -- Recording an event keeps the queue sound, for a new event and for one delivered before.
  pub record_event-Sound :
      (p : JobQueueWebhookPayload) (now : ℕ) (s : State Payload)
      → Sound s
      → Sound (record_event p now s).1
  record_event-Sound p now s sound = elim (Option-cases (event_named p.event_id s)) [
    | inl free ↦ rw (recorded p now s free) (inserted-Sound p now s sound free)
    | inr (e, there) ↦ rw (found_again p now s e there) sound
  ]

-- ===== src/SourcePipeline/Webhook/Pending.antt =====
-- The events that a tick is given are rows of the table, at most as many as asked for.
use text.Mathlib.TextPositions.{eq_refl}
use hll.Prelude.{
  ℕ, ◌≤◌, ◌≡◌, true, List, [], ◌∷◌, map, arith, str_eq, is_some, find, length, length-take, All,
  All-append, All-filter_of_All, All-map, All-sort, All-take,
}
use hll.SourcePipeline.Model.{JobQueueWebhookEvent, JobQueueWebhookWakeup, State}
use hll.SourcePipeline.Webhook.{event_named, matching, join, pending_le, list_pending_events}

abbrev Named : List JobQueueWebhookEvent → JobQueueWebhookEvent → Type 0
Named xs e = is_some (find (λ x. str_eq x.event_id e.event_id) xs) ≡ true

found_with_more :
    (x : JobQueueWebhookEvent) (xs : List JobQueueWebhookEvent) (e : JobQueueWebhookEvent)
    → Named xs e
    → Named (x ∷ xs) e
found_with_more x xs e h = ground arith

rows_found : (xs : List JobQueueWebhookEvent) → All (Named xs) xs
rows_found [] = tt
rows_found (x ∷ xs) =
    (ground (arith, eq_refl x.event_id), All-map (found_with_more x xs) xs (rows_found xs))

module _ (P : JobQueueWebhookEvent → Type 0) where
  abbrev Second : JobQueueWebhookWakeup × JobQueueWebhookEvent → Type 0
  Second p = P p.1

  pair_up :
      (w : JobQueueWebhookWakeup) (xs : List JobQueueWebhookEvent)
      → All P xs
      → All Second (map (λ e. (w, e)) xs)
  pair_up w [] h = tt
  pair_up w (x ∷ xs) h = (h.0, pair_up w xs h.1)

  joined :
      (ws : List JobQueueWebhookWakeup) (xs : List JobQueueWebhookEvent)
      → All P xs
      → All Second (join ws xs)
  unfolding join
  joined [] xs h = tt
  joined (w ∷ ws) xs h =
      All-append Second (matching xs w) (join ws xs) (pair_up w _ (All-filter_of_All P _ xs h))
        (joined ws xs h)

  seconds :
      (ps : List (JobQueueWebhookWakeup × JobQueueWebhookEvent))
      → All Second ps
      → All P (map (λ p. p.1) ps)
  seconds [] h = tt
  seconds (p ∷ ps) h = (h.0, seconds ps h.1)

module _ {Payload : Type 0} (limit : ℕ) (s : State Payload) where
  pub list_pending_named :
      All
        (λ (e : JobQueueWebhookEvent). is_some (event_named e.event_id s) ≡ true)
        (list_pending_events limit s)
  unfolding list_pending_events
  list_pending_named = All-take _ limit _ (
      seconds _ _ (
        All-sort pending_le _ _
          (All-filter_of_All _ _ _ (joined _ s.wakeups s.events (rows_found s.events)))))

  pub length-list_pending_events : length (list_pending_events limit s) ≤ limit
  unfolding list_pending_events
  length-list_pending_events = omega (arith, length-take {0})

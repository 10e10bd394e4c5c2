-- ===== src/Classification/Tick/Reconcile.antt =====
-- The reconcile in the loop that runs the ticks.
use hll.Prelude.{ℕ, ◌≡◌, refl, none, List, [], ◌∷◌, Bool-cases, inl, inr, if◌then◌else◌, ltb}
use hll.Exec.{Result, ok, err, continue, ◌>>=◌, ◌>>◌}
use hll.Classification.Model.{Error, Services, State, Action, commit}
use hll.Classification.Results.Moves.{Closed, set_current_assignment_state, assign_found}
use hll.Classification.Runtime.{
  Settings, process_pending_webhook_events, run_low_frequency_reconcile, reconcile_after,
  set_last_reconcile,
}
use hll.Classification.Runtime.Events.{process_pending_webhook_events_step}
use hll.Classification.Tick.{
  tick, tick_reconcile, tick_continuations, opened, closed, run_turn, next_turns, run_turns,
}

record SameLast (s t : State) : Type 0 where
  pub at : t.last_reconcile_at ≡ s.last_reconcile_at

SameLast-Closed : Closed SameLast
SameLast-Closed = record {
  order = record {
    reflexive = λ s. record { at = refl };
    transitive = λ s t u p q. record { at = cc (p.at, q.at) };
  };
  same = λ s t h. record { at = h.last };
  move = λ node_id target now s h. record {
    at =
        rw
          (
            set_current_assignment_state node_id target now s,
            assign_found node_id target now s h.assignment h.found,
          )
          refl;
  };
}

module _ (svc : Services) (c : Settings) where
  -- A tick whose reconcile only notes the time.
  abbrev pub tick_without_reconcile : ℕ → Action Unit
  tick_without_reconcile now =
      process_pending_webhook_events svc now c.poll_batch_size >>= λ processed.
      (if ltb 0 processed
        then commit
        else (set_last_reconcile svc now >> tick_continuations svc c now))

  abbrev pub turns_without_reconcile : List ℕ → State → Result Error Unit × State
  turns_without_reconcile [] s = (ok tt, s)
  turns_without_reconcile (now ∷ nows) s =
      let (r, t) = tick_without_reconcile now (opened s) in
      next_turns (turns_without_reconcile nows) (r, closed t)

  reconcile_first :
      (now : ℕ) (s : State)
      → s.last_reconcile_at ≡ none
      → tick_reconcile svc c now s ≡ (set_last_reconcile svc now >> tick_continuations svc c now) s
  unfolding tick_reconcile run_low_frequency_reconcile reconcile_after ◌>>=◌
  reconcile_first now s h = rw h refl

  same_tick :
      (now : ℕ) (s : State)
      → s.last_reconcile_at ≡ none
      → tick svc c now s ≡ tick_without_reconcile now s
  unfolding tick ◌>>=◌
  same_tick now s h =
      go (process_pending_webhook_events svc now c.poll_batch_size s)
        ((process_pending_webhook_events_step SameLast-Closed svc now c.poll_batch_size).at s).at
    where
      go :
          (r : Result Error ℕ × State)
          → r.1.last_reconcile_at ≡ s.last_reconcile_at
          → continue r.0 (λ n. if ltb 0 n then commit else tick_reconcile svc c now) r.1
            ≡ continue r.0
                (λ n.
                  if ltb 0 n
                  then commit
                  else (set_last_reconcile svc now >> tick_continuations svc c now))
                r.1
      go (err e, t) k = refl
      go (ok n, t) k = elim (Bool-cases (ltb 0 n)) [
        | inl some_events ↦ rw some_events refl
        | inr idle ↦ rw idle (reconcile_first now t (cc (k, h)))
      ]

  -- No turn of the loop of the classification runtime reconciles, whatever the settings: each turn makes
  -- a new service, whose first reconcile only notes the time.
  pub run_turns-without :
      (nows : List ℕ) (s : State) → run_turns svc c nows s ≡ turns_without_reconcile nows s
  unfolding run_turns run_turn
  run_turns-without [] s = refl
  run_turns-without (now ∷ nows) s =
      rw (same_tick now (opened s) refl)
        (go (run_turns-without nows) (tick_without_reconcile now (opened s)))
    where
      go :
          ((t : State) → run_turns svc c nows t ≡ turns_without_reconcile nows t)
          → (x : Result Error Unit × State)
          → next_turns (run_turns svc c nows) (x.0, closed x.1)
            ≡ next_turns (turns_without_reconcile nows) (x.0, closed x.1)
      go more (err e, t) = refl
      go more (ok u, t) = more (closed t)

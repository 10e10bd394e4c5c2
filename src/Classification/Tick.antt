-- ===== src/Classification/Tick.antt =====
-- One tick of the classification runtime (modules/taxonomy_classification/runtime.py), and the turns
-- of the loop that runs it (entrypoints/taxonomy_classification_runtime.py).
pub mod Reconcile
pub mod Closure
pub mod Descent
use hll.Prelude.{ℕ, Bool, true, false, Option, none, some, List, [], ◌∷◌, if◌then◌else◌, ltb}
use hll.Exec.{Result, ok, err, Exec, pure, ◌>>=◌, ◌>>◌}
use hll.Classification.Model.{Error, Services, State, Action, commit}
use hll.Classification.Continuations.{drain_continuation_requests}
use hll.Classification.Runtime.{
  Settings, process_pending_webhook_events, run_low_frequency_reconcile,
  drain_projection_refresh_requests,
}

module _ (svc : Services) (c : Settings) (now : ℕ) where
  unfoldable pub tick_refreshes : Action Unit
  unfolding drain_projection_refresh_requests commit ◌>>=◌
  tick_refreshes =
      drain_projection_refresh_requests svc now c.projection_refresh_batch_size >>= λ refreshed.
      (if ltb 0 refreshed then commit else pure tt)

  unfoldable pub tick_continuations : Action Unit
  unfolding drain_continuation_requests commit tick_refreshes ◌>>=◌
  tick_continuations =
      drain_continuation_requests svc now c.queue_name c.continuation_request_batch_size
        c.continuation_flush_interval
      >>= λ drained. (if ltb 0 drained then commit else tick_refreshes)

  unfoldable pub tick_reconcile : Action Unit
  unfolding run_low_frequency_reconcile commit tick_continuations ◌>>=◌
  tick_reconcile =
      run_low_frequency_reconcile svc now c.reconcile_interval c.reconcile_batch_size >>= λ ran.
      (if ran then commit else tick_continuations)

  unfoldable pub tick : Action Unit
  unfolding process_pending_webhook_events commit tick_reconcile ◌>>=◌
  tick = process_pending_webhook_events svc now c.poll_batch_size >>= λ processed.
      (if ltb 0 processed then commit else tick_reconcile)

-- One turn of the loop of `run_forever`: a new session sees what is committed, and a new service has no
-- time of a reconcile. What the turn did not commit is lost when the session closes.
abbrev pub opened : State → State
opened s = record s { tables = s.committed; last_reconcile_at = none }

abbrev pub closed : State → State
closed s = record s { tables = s.committed }

unfoldable pub run_turn : Services → Settings → ℕ → State → Result Error Unit × State
unfolding tick
run_turn svc c now s = let (r, t) = tick svc c now (opened s) in (r, closed t)

-- A raise ends the loop.
abbrev pub next_turns :
    (State → Result Error Unit × State) → Result Error Unit × State → Result Error Unit × State
next_turns more (err e, t) = (err e, t)
next_turns more (ok u, t) = more t

-- The turns at the times `nows`
unfoldable pub run_turns : Services → Settings → List ℕ → State → Result Error Unit × State
unfolding run_turn
run_turns svc c [] s = (ok tt, s)
run_turns svc c (now ∷ nows) s = next_turns (run_turns svc c nows) (run_turn svc c now s)

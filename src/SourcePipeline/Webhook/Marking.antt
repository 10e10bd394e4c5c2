-- ===== src/SourcePipeline/Webhook/Marking.antt =====
-- What marking an event leaves alone.
use hll.Prelude.{ℕ, String, ◌≡◌, arith}
use hll.Exec.{◌>>=◌}
use hll.SourcePipeline.Model.{Exception, State}
use hll.SourcePipeline.Webhook.{found_event, get_event, mark_processed, mark_failed}

module _ {Payload : Type 0} (event_id : String) (now : ℕ) (s : State Payload) where
  pub mark_processed_keeps :
      ((mark_processed event_id now s).1.candidates ≡ s.candidates)
      × ((mark_processed event_id now s).1.calls ≡ s.calls)
      × ((mark_processed event_id now s).1.units ≡ s.units)
  unfolding mark_processed get_event found_event ◌>>=◌
  mark_processed_keeps = ground arith

  pub mark_failed_keeps :
      (e : Exception)
      → ((mark_failed event_id e now s).1.candidates ≡ s.candidates)
        × ((mark_failed event_id e now s).1.calls ≡ s.calls)
        × ((mark_failed event_id e now s).1.units ≡ s.units)
  unfolding mark_failed get_event found_event ◌>>=◌
  mark_failed_keeps e = ground arith

  pub mark_processed_committed : (mark_processed event_id now s).1.committed ≡ s.committed
  unfolding mark_processed get_event found_event ◌>>=◌
  mark_processed_committed = ground arith

  pub mark_failed_committed :
      (e : Exception) → (mark_failed event_id e now s).1.committed ≡ s.committed
  unfolding mark_failed get_event found_event ◌>>=◌
  mark_failed_committed e = ground arith

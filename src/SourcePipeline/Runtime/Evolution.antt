-- ===== src/SourcePipeline/Runtime/Evolution.antt =====
-- How a candidate's row may change: a job id that is set stays, and what a handoff has done stays
-- done; where the row came from never changes.
use hll.Prelude.{
  ℕ, String, ◌≡◌, refl, true, Option, none, some, List, arith, ◌==◌, Bool-cases, inl, inr,
}
use hll.Exec.{◌>>=◌}
use hll.Exec.Steps.{IsPreorder}
use hll.SourcePipeline.Model.{
  CardCandidate, create_jobs, handoff, Services, State, get_row, update_row, candidate_at,
}
use hll.SourcePipeline.Model.Rows.{get_row-update_row, get_row-append}
use hll.SourcePipeline.Webhook.Marking.{mark_processed_keeps, mark_failed_keeps}
use hll.SourcePipeline.Runtime.Jobs.{write_unit, write_candidate, ask_result}
use hll.SourcePipeline.Runtime.Jobs.Closed.{Closed}
use hll.SourcePipeline.Runtime.Jobs.Submitting.{
  noting, submit_review_then, submit_repair_then, handoff_then, create_alone,
}
use hll.SourcePipeline.Runtime.Tick.{Settings, tick}
use hll.SourcePipeline.Runtime.Tick.Closure.{tick_step}

abbrev pub Stays : Option ℕ → Option ℕ → Type 0
Stays o o' = (j : ℕ) → o ≡ some j → o' ≡ some j

pub record Evolves (c d : CardCandidate) : Type 0 where
  pub unit : d.workflow_unit_id ≡ c.workflow_unit_id
  pub parent : d.parent_candidate_id ≡ c.parent_candidate_id
  pub card : d.card_payload ≡ c.card_payload
  pub step : d.origin_step ≡ c.origin_step
  pub origin_job : d.origin_job_id ≡ c.origin_job_id
  pub ordinal : d.origin_ordinal ≡ c.origin_ordinal
  pub review : Stays c.review_job_id d.review_job_id
  pub repair : Stays c.repair_job_id d.repair_job_id
  pub handed_off : c.ingestion_handoff_done ≡ true → d.ingestion_handoff_done ≡ true

Evolves-refl : (c : CardCandidate) → Evolves c c
Evolves-refl c = record {
  unit = refl;
  parent = refl;
  card = refl;
  step = refl;
  origin_job = refl;
  ordinal = refl;
  review = λ j h. h;
  repair = λ j h. h;
  handed_off = λ h. h;
}

Evolves-trans : {b c d : CardCandidate} → Evolves b c → Evolves c d → Evolves b d
Evolves-trans p q = record {
  unit = cc (p.unit, q.unit);
  parent = cc (p.parent, q.parent);
  card = cc (p.card, q.card);
  step = cc (p.step, q.step);
  origin_job = cc (p.origin_job, q.origin_job);
  ordinal = cc (p.ordinal, q.ordinal);
  review = λ j h. q.review j (p.review j h);
  repair = λ j h. q.repair j (p.repair j h);
  handed_off = λ h. q.handed_off (p.handed_off h);
}

module _ (c : CardCandidate) where
  reviewed : (j : ℕ) → c.review_job_id ≡ none → Evolves c (record c { review_job_id = some j })
  reviewed j empty = ground arith

  repaired : (j : ℕ) → c.repair_job_id ≡ none → Evolves c (record c { repair_job_id = some j })
  repaired j empty = ground arith

  done : Evolves c (record c { ingestion_handoff_done = true })
  done = ground arith

  review_ended : (state : Option String) → Evolves c (record c { review_terminal_state = state })
  review_ended state = ground arith

  repair_ended : (state : Option String) → Evolves c (record c { repair_terminal_state = state })
  repair_ended state = ground arith

rewritten :
    (id j : ℕ) (f : CardCandidate → CardCandidate) (rows : List CardCandidate) (c : CardCandidate)
    → ((r : CardCandidate) → (f r).id ≡ r.id)
    → ((r : CardCandidate) → get_row (λ r. r.id) id rows ≡ some r → Evolves r (f r))
    → get_row (λ r. r.id) j rows ≡ some c
    → (d : CardCandidate) × (get_row (λ r. r.id) j (update_row (λ r. r.id) id f rows) ≡ some d)
      × Evolves c d
rewritten id j f rows c same better found = elim (Bool-cases (id == j)) [
  | inl e ↦ (
    f c,
    rw (get_row-update_row (λ (r : CardCandidate). r.id) id j f rows same, e, found) refl,
    better c (ground arith),
  )
  | inr e ↦ (
    c,
    rw (get_row-update_row (λ (r : CardCandidate). r.id) id j f rows same, e) found,
    Evolves-refl c,
  )
]

module _ {Payload : Type 0} where
  -- Every candidate of `s` is in `t`, evolved.
  pub record AllEvolve (s t : State Payload) : Type 0 where
    pub at :
        (id : ℕ) (c : CardCandidate)
        → candidate_at id s ≡ some c
        → (d : CardCandidate) × (candidate_at id t ≡ some d) × Evolves c d

  quiet : (s t : State Payload) → t.candidates ≡ s.candidates → AllEvolve s t
  quiet s t same = record { at = λ id c found. (c, rw same found, Evolves-refl c) }

  AllEvolve-order : IsPreorder AllEvolve
  AllEvolve-order = record {
    reflexive = λ s. quiet s s refl;
    transitive = λ s t u p q. record {
      at = λ id c found.
          let (d, at_t, pe) = p.at id c found in
          let (e, at_u, qe) = q.at id d at_t in (e, at_u, Evolves-trans pe qe);
    };
  }

  pub write_better :
      (id : ℕ) (f : CardCandidate → CardCandidate) (s : State Payload)
      → ((r : CardCandidate) → (f r).id ≡ r.id)
      → ((r : CardCandidate) → candidate_at id s ≡ some r → Evolves r (f r))
      → AllEvolve s (write_candidate id f s).1
  unfolding write_candidate
  write_better id f s same better = record {
    at = λ j c found. rewritten id j f s.candidates c same better found;
  }

  quiet_then : (s t u : State Payload) → t.candidates ≡ s.candidates → AllEvolve t u → AllEvolve s u
  quiet_then s t u same p = AllEvolve-order.transitive s t u (quiet s t same) p

  module _ (svc : Services Payload) where
    AllEvolve-closed : Closed svc AllEvolve
    unfolding write_unit ask_result ◌>>=◌
    AllEvolve-closed = record {
      order = AllEvolve-order;
      write_unit_step = λ id f. record { at = λ s. quiet s _ refl };
      create_step = λ item. record { at = λ s. create_alone svc AllEvolve item s (quiet s _ refl) };
      ask_step = λ job_id. record { at = λ s. quiet s _ refl };
      handoff_step = λ id. record {
        at = λ s.
            handoff_then svc AllEvolve id s (quiet s s refl) (λ c _ _. quiet s _ refl)
              (λ c _ _.
                quiet_then s (noting (handoff c.id c.card_payload true) s) _ refl
                  (write_better id _ _ (λ r. refl) (λ r _. done r)));
      };
      review_step = λ id s c found empty.
          submit_review_then svc AllEvolve id s c found (λ call. quiet s _ refl)
            (λ call j. quiet_then s (noting (create_jobs call) s) _ refl (
              write_better id _ _ (λ r. refl)
                (λ r at_id. reviewed r j (cc (found, at_id, empty)))));
      repair_step = λ id review s c found empty.
          submit_repair_then svc AllEvolve id review s c found (λ call. quiet s _ refl)
            (λ call j. quiet_then s (noting (create_jobs call) s) _ refl (
              write_better id _ _ (λ r. refl)
                (λ r at_id. repaired r j (cc (found, at_id, empty)))));
      review_terminal_step = λ id state. record {
        at = λ s. write_better id _ s (λ r. refl) (λ r _. review_ended r state);
      };
      repair_terminal_step = λ id state. record {
        at = λ s. write_better id _ s (λ r. refl) (λ r _. repair_ended r state);
      };
      mark_processed_step =
          λ event_id now. record { at = λ s. quiet s _ (mark_processed_keeps event_id now s).0 };
      mark_failed_step =
          λ event_id e now. record { at = λ s. quiet s _ (mark_failed_keeps event_id now s e).0 };
      insert_step = λ s c _. record {
        at = λ id d found. (
          d,
          rw (get_row-append (λ (r : CardCandidate). r.id) id s.candidates c, found) refl,
          Evolves-refl d,
        );
      };
      commit_step = λ s. quiet s _ refl;
      clock_step = λ s now. quiet s _ refl;
    }

    -- A tick, whether it returns or raises, only lets candidates evolve.
    pub tick-AllEvolve :
        (settings : Settings) (now : ℕ) (s : State Payload)
        → AllEvolve s (tick svc settings now s).1
    tick-AllEvolve settings now s = (tick_step AllEvolve-closed settings now).at s

-- ===== src/SourcePipeline/Runtime/Handoffs.antt =====
-- The calls of the ingestion service, against the flags of the candidates.
use mathlib.Core.Option
use hll.Prelude.{
  ℕ, suc, ◌+◌, ◌≤◌, ◌≡◌, refl, sym, subst, true, false, Option, none, some, List, [], ◌∷◌, ◌++◌,
  arith, ◌==◌, if◌then◌else◌,
}
use hll.Exec.{Result, ok, err, ◌>>=◌}
use hll.Exec.Post.{Ok}
use hll.SourcePipeline.Runtime.Tick.Commit.{tick-Durable}
use hll.Exec.Steps.{IsPreorder}
use hll.SourcePipeline.Model.{
  Exception, CardCandidate, Call, create_jobs, get_result, handoff, Services, State, candidate_at,
  get_row,
}
use hll.SourcePipeline.Model.Rows.{get_row-update_row, get_row-append, key-get_row}
use hll.SourcePipeline.Webhook.Marking.{
  mark_processed_committed, mark_failed_committed, mark_processed_keeps, mark_failed_keeps,
}
use hll.SourcePipeline.Runtime.Jobs.{write_unit, write_candidate, ask_result}
use hll.SourcePipeline.Runtime.Jobs.Closed.{Closed}
use hll.SourcePipeline.Runtime.Jobs.Submitting.{
  noting, submit_review_then, submit_repair_then, handoff_then, create_alone,
}
use hll.SourcePipeline.Runtime.Tick.{Settings, tick}
use hll.SourcePipeline.Runtime.Tick.Closure.{tick_step}

-- How often the ingestion service accepted a candidate.
abbrev pub handoffs : ℕ → List Call → ℕ
handoffs id [] = 0
handoffs id (handoff j draft true ∷ calls) =
    if j == id then suc (handoffs id calls) else handoffs id calls
handoffs id (handoff j draft false ∷ calls) = handoffs id calls
handoffs id (create_jobs items ∷ calls) = handoffs id calls
handoffs id (get_result job_id ∷ calls) = handoffs id calls

abbrev pub flag_of : Option CardCandidate → ℕ
flag_of none = 0
flag_of (some c) = if c.ingestion_handoff_done then 1 else 0

abbrev pub key : CardCandidate → ℕ
key c = c.id

module _ {Payload : Type 0} where
  -- Each candidate that is marked as done was accepted, in the session and in what is committed.
  pub record Marked (s : State Payload) : Type 0 where
    pub session : (id : ℕ) → flag_of (candidate_at id s) ≤ handoffs id s.calls
    pub committed : (id : ℕ) → flag_of (get_row key id s.committed.candidates) ≤ handoffs id s.calls

  -- As often as a candidate was accepted in between, its flag rose in the session.
  record Books (s t : State Payload) : Type 0 where
    pub at :
        (id : ℕ)
        → handoffs id t.calls + flag_of (candidate_at id s)
          ≡ handoffs id s.calls + flag_of (candidate_at id t)
    pub grows : (id : ℕ) → handoffs id s.calls ≤ handoffs id t.calls
    pub committed :
        (id : ℕ)
        → flag_of (candidate_at id s) ≤ handoffs id s.calls
        → flag_of (get_row key id s.committed.candidates) ≤ handoffs id s.calls
        → flag_of (get_row key id t.committed.candidates) ≤ handoffs id t.calls

  Books-trans : (s t u : State Payload) → Books s t → Books t u → Books s u
  Books-trans s t u p q = record {
    at = λ id. omega (arith, p.at id, q.at id);
    grows = λ id. omega (arith, p.grows id, q.grows id);
    committed =
        λ id h k. q.committed id (omega (arith, p.at id, p.grows id, h)) (p.committed id h k);
  }

  Books-order : IsPreorder Books
  Books-order = record {
    reflexive = λ s. record { at = λ id. refl; grows = λ id. omega arith; committed = λ id h k. k };
    transitive = Books-trans;
  }

  quiet :
      (s t : State Payload)
      → t.candidates ≡ s.candidates
      → t.committed ≡ s.committed
      → t.calls ≡ s.calls
      → Books s t
  quiet s t same_rows same_committed same_calls = record {
    at = λ id. rw (same_rows, same_calls) refl;
    grows = λ id. rw same_calls (omega arith);
    committed = λ id h k. rw (same_committed, same_calls) k;
  }

  unrelated_call :
      (s : State Payload) (call : Call)
      → ((id : ℕ) → handoffs id (call ∷ s.calls) ≡ handoffs id s.calls)
      → Books s (noting call s)
  unrelated_call s call same = record {
    at = λ id. rw (same id) refl;
    grows = λ id. rw (same id) (omega arith);
    committed = λ id h k. rw (same id) k;
  }

  flag_write :
      (s : State Payload) (id : ℕ) (f : CardCandidate → CardCandidate)
      → ((r : CardCandidate) → (f r).id ≡ r.id)
      → ((r : CardCandidate) → (f r).ingestion_handoff_done ≡ r.ingestion_handoff_done)
      → (j : ℕ) → flag_of (candidate_at j (write_candidate id f s).1) ≡ flag_of (candidate_at j s)
  unfolding write_candidate
  flag_write s id f same_id same_flag j =
      rw (get_row-update_row key id j f s.candidates same_id) (flags (candidate_at j s))
    where
      flags :
          (o : Option CardCandidate) → flag_of (if id == j then Option.map f o else o) ≡ flag_of o
      flags none = ground arith
      flags (some c) = ground (arith, same_flag c)

  harmless_write :
      (s t : State Payload) (id : ℕ) (f : CardCandidate → CardCandidate)
      → Books s t
      → ((r : CardCandidate) → (f r).id ≡ r.id)
      → ((r : CardCandidate) → (f r).ingestion_handoff_done ≡ r.ingestion_handoff_done)
      → Books s (write_candidate id f t).1
  harmless_write s t id f before same_id same_flag =
      Books-trans s t (write_candidate id f t).1 before (record {
        at = λ j. rw (flag_write t id f same_id same_flag j) (unfold write_candidate in refl);
        grows = λ j. unfold write_candidate in omega arith;
        committed = λ j h k. unfold write_candidate in k;
      })

  booked :
      (s : State Payload) (id : ℕ) (c : CardCandidate)
      → candidate_at id s ≡ some c
      → c.ingestion_handoff_done ≡ false
      → Books s
          (write_candidate id
            (λ r. record r { ingestion_handoff_done = true })
            (noting (handoff c.id c.card_payload true) s)).1
  unfolding write_candidate
  booked s id c found still_open = record {
    at = λ j.
        rw
          (get_row-update_row key id j (λ r. record r { ingestion_handoff_done = true })
            s.candidates (λ r. refl))
          (ground (arith, key-get_row key id s.candidates c found, found));
    grows = λ j. ground arith;
    committed = λ j h k. ground (arith, k);
  }

  inserted :
      (s : State Payload) (c : CardCandidate) (id : ℕ)
      → c.ingestion_handoff_done ≡ false
      → flag_of (get_row key id (s.candidates ++ c ∷ [])) ≡ flag_of (candidate_at id s)
  inserted s c id still_open = rw (get_row-append key id s.candidates c) (ground arith)

  committed_flags :
      (s t : State Payload)
      → s.committed ≡ s.tables
      → t.committed ≡ t.tables
      → Books s t
      → (id : ℕ)
      → handoffs id t.calls + flag_of (get_row key id s.committed.candidates)
        ≡ handoffs id s.calls + flag_of (get_row key id t.committed.candidates)
  committed_flags s t before after books id =
      subst
        (λ x.
          handoffs id t.calls + flag_of (get_row key id x.candidates)
          ≡ handoffs id s.calls + flag_of (get_row key id t.committed.candidates))
        (sym before)
        (subst
          (λ x.
            handoffs id t.calls + flag_of (candidate_at id s)
            ≡ handoffs id s.calls + flag_of (get_row key id x.candidates))
          (sym after) (books.at id))

  -- The handoffs of a run against the flags before and after it.
  pub record HandsOnce {A : Type 0} (s : State Payload) (r : Result Exception A × State Payload)
      : Type 0 where
    pub session :
        (id : ℕ)
        → handoffs id r.1.calls + flag_of (candidate_at id s)
          ≡ handoffs id s.calls + flag_of (candidate_at id r.1)
    pub returned :
        Ok
          (λ _.
            (id : ℕ)
            → handoffs id r.1.calls + flag_of (get_row key id s.committed.candidates)
              ≡ handoffs id s.calls + flag_of (get_row key id r.1.committed.candidates))
          r.0
    pub marked : Marked r.1

  module _ (svc : Services Payload) where
    Books-closed : Closed svc Books
    unfolding write_unit ask_result ◌>>=◌
    Books-closed = record {
      order = Books-order;
      write_unit_step = λ id f. record { at = λ s. quiet s _ refl refl refl };
      create_step = λ item. record {
        at = λ s. create_alone svc Books item s (unrelated_call s _ (λ id. refl));
      };
      ask_step = λ job_id. record { at = λ s. unrelated_call s (get_result job_id) (λ id. refl) };
      handoff_step = λ id. record {
        at = λ s.
            handoff_then svc Books id s (quiet s s refl refl refl)
              (λ c _ _. unrelated_call s _ (λ id. refl))
              (λ c found still_open. booked s id c found still_open);
      };
      review_step = λ id s c found empty.
          submit_review_then svc Books id s c found (λ call. unrelated_call s _ (λ id. refl))
            (λ call j.
              harmless_write s _ id _ (unrelated_call s (create_jobs call) (λ id. refl)) (λ r. refl)
                (λ r. refl));
      repair_step = λ id review s c found empty.
          submit_repair_then svc Books id review s c found (λ call. unrelated_call s _ (λ id. refl))
            (λ call j.
              harmless_write s _ id _ (unrelated_call s (create_jobs call) (λ id. refl)) (λ r. refl)
                (λ r. refl));
      review_terminal_step = λ id state. record {
        at = λ s. harmless_write s s id _ (quiet s s refl refl refl) (λ r. refl) (λ r. refl);
      };
      repair_terminal_step = λ id state. record {
        at = λ s. harmless_write s s id _ (quiet s s refl refl refl) (λ r. refl) (λ r. refl);
      };
      mark_processed_step = λ event_id now. record {
        at = λ s.
            let k = mark_processed_keeps event_id now s in
            quiet s _ k.0 (mark_processed_committed event_id now s) k.1;
      };
      mark_failed_step = λ event_id e now. record {
        at = λ s.
            let k = mark_failed_keeps event_id now s e in
            quiet s _ k.0 (mark_failed_committed event_id now s e) k.1;
      };
      insert_step = λ s c still_open. record {
        at = λ id. rw (inserted s c id still_open) refl;
        grows = λ id. omega arith;
        committed = λ id h k. k;
      };
      commit_step =
          λ s. record { at = λ id. refl; grows = λ id. omega arith; committed = λ id h k. h };
      clock_step = λ s now. quiet s _ refl refl refl;
    }

    committed_too :
        (settings : Settings) (now : ℕ) (s : State Payload) (result : Result Exception Unit)
        → (tick svc settings now s).0 ≡ result
        → Books s (tick svc settings now s).1
        → s.committed ≡ s.tables
        → Ok
            (λ _.
              (id : ℕ)
              → handoffs id (tick svc settings now s).1.calls
                  + flag_of (get_row key id s.committed.candidates)
                ≡ handoffs id s.calls
                  + flag_of (get_row key id (tick svc settings now s).1.committed.candidates))
            result
    committed_too settings now s (err e) is books clean = tt
    committed_too settings now s (ok u) is books clean =
        committed_flags s (tick svc settings now s).1 clean
          (tick-Durable svc settings now s clean is) books

    -- A tick that starts with nothing uncommitted, where each flag that is set stands for a handoff: whether
    -- it returns or raises, the ingestion service answers that it accepted a candidate as often as its flag
    -- rises in the session: at most once, and never where it was set. If it returns, that holds of the
    -- committed flags too. After it, each flag that is set, in the session or in what is committed, stands
    -- for a handoff, also where the tick raised and the flags of its last handoffs are lost with the session.
    pub tick-HandsOnce :
        (settings : Settings) (now : ℕ) (s : State Payload)
        → s.committed ≡ s.tables
        → Marked s
        → HandsOnce s (tick svc settings now s)
    tick-HandsOnce settings now s clean m =
        let books = (tick_step Books-closed settings now).at s in
        record {
          session = books.at;
          returned = committed_too settings now s (tick svc settings now s).0 refl books clean;
          marked = record {
            session = λ id. omega (arith, books.at id, books.grows id, m.session id);
            committed = λ id. books.committed id (m.session id) (m.committed id);
          };
        }

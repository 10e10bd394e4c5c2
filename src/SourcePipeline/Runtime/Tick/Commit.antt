-- ===== src/SourcePipeline/Runtime/Tick/Commit.antt =====
-- What a tick that returns has made durable, and what a tick leaves to the next one.
use hll.Prelude.{
  ℕ, zero, suc, ◌+◌, ◌≡◌, refl, ap, Bool, true, false, not, Option, none, some, List, [], ◌∷◌, map,
  arith, ltb, ◌==◌, if◌then◌else◌, length, Bool-cases, inl, inr,
}
use hll.Exec.{Result, ok, err, Exec, lift, pure, for_each, ◌>>=◌, ◌>>◌}
use hll.SourcePipeline.Model.{Exception, WorkflowUnit, Services, State}
use hll.SourcePipeline.Webhook.{list_pending_events}
use hll.SourcePipeline.Runtime.Jobs.{submit_page_to_card}
use hll.SourcePipeline.Runtime.Tick.{
  Settings, commit, pending_units, open_units, handle_event, reconcile_unit,
  submit_missing_page_to_card_jobs, process_pending_webhook_events, reconcile_units,
  reconcile_since, run_low_frequency_reconcile, tick,
}

abbrev Durable : {Payload : Type 0} → State Payload → Type 0
Durable s = s.committed ≡ s.tables

-- The state after a run that returned `a`.
abbrev Returning :
    {Payload A : Type 0}
    → A
    → (State Payload → Type 0)
    → Result Exception A × State Payload
    → Type 0
Returning a P r = r.0 ≡ ok a → P r.1

positive : (n : ℕ) → ltb 0 (suc n) ≡ true
positive n = ground arith

module _ {Payload : Type 0} where
  never_returns :
      {A C : Type 0} (b c : C) (r : Result Exception A × State Payload)
      → (b ≡ c → ⊥)
      → ((lift r.0 >>= λ _. pure b) r.1).0 ≡ ok c
      → ⊥
  unfolding ◌>>=◌
  never_returns b c (ok _, t) differ e = differ (cc)
  never_returns b c (err _, t) differ e = cc

  -- A loop that ran and then returned `b` did not return `c`.
  batch_quiet :
      {A C : Type 0} (xs : List A) (body : A → Exec Exception (State Payload) Unit) (b c : C)
      (s : State Payload)
      → ((x : A) (rest : List A) → xs ≡ x ∷ rest → b ≡ c → ⊥)
      → Durable s
      → Returning c Durable ((for_each xs body >>= λ _. pure b) s)
  unfolding for_each ◌>>=◌
  batch_quiet [] body b c s only durable = λ _. durable
  batch_quiet (x ∷ xs) body b c s only durable = λ returned.
      absurd (never_returns b c ((body x >> for_each xs body) s) (only x xs refl) returned)

  nonempty :
      (us : List (WorkflowUnit Payload)) (x : ℕ) (rest : List ℕ)
      → map (λ u. u.id) us ≡ x ∷ rest
      → length us ≡ 0
      → ⊥
  nonempty [] x rest e n = cc
  nonempty (u ∷ us) x rest e n = omega arith

  some_left :
      (us : List (WorkflowUnit Payload)) (x : ℕ) (rest : List ℕ)
      → map (λ u. u.id) us ≡ x ∷ rest
      → not (length us == 0) ≡ false
      → ⊥
  some_left [] x rest e n = cc
  some_left (u ∷ us) x rest e n = ground arith

  module _ (svc : Services Payload) (settings : Settings) (now : ℕ) where
    submit_quiet :
        (s : State Payload)
        → Durable s
        → Returning 0 Durable (submit_missing_page_to_card_jobs svc settings s)
    unfolding submit_missing_page_to_card_jobs ◌>>=◌
    submit_quiet s durable =
        batch_quiet
          (map (λ (u : WorkflowUnit Payload). u.id) (pending_units settings.poll_batch_size s))
          (submit_page_to_card svc) _ 0 s (nonempty (pending_units settings.poll_batch_size s))
          durable

    events_quiet :
        (s : State Payload)
        → Durable s
        → Returning 0 Durable (process_pending_webhook_events svc settings now s)
    unfolding process_pending_webhook_events ◌>>=◌
    events_quiet s durable =
        batch_quiet (list_pending_events settings.poll_batch_size s) (handle_event svc now) _ 0 s
          (λ x rest e n. omega (arith, ap length e)) durable

    reconcile_since_quiet :
        (o : Option ℕ) (s : State Payload)
        → Durable s
        → Returning false Durable (reconcile_since svc settings now o s)
    unfolding reconcile_since reconcile_units ◌>>=◌
    reconcile_since_quiet none s durable = λ _. durable
    reconcile_since_quiet (some last) s durable =
        elim (Bool-cases (ltb now (last + settings.reconcile_interval))) [
          | inl early ↦ rw early (λ _. durable)
          | inr due ↦ rw due (
              batch_quiet
                (map (λ (u : WorkflowUnit Payload). u.id)
                  (open_units settings.reconcile_batch_size s))
                (reconcile_unit svc) _ false (record s { last_reconcile_at = some now })
                (some_left (open_units settings.reconcile_batch_size s)) durable)
        ]

    reconcile_quiet :
        (s : State Payload)
        → Durable s
        → Returning false Durable (run_low_frequency_reconcile svc settings now s)
    unfolding run_low_frequency_reconcile ◌>>=◌
    reconcile_quiet s durable = reconcile_since_quiet s.last_reconcile_at s durable

    after_reconcile :
        (r : Result Exception Bool × State Payload)
        → Returning false Durable r
        → Returning tt Durable ((lift r.0 >>= λ b. if b then commit else pure tt) r.1)
    unfolding commit ◌>>=◌
    after_reconcile (ok true, t) h = λ _. refl
    after_reconcile (ok false, t) h = λ _. h refl
    after_reconcile (err e, t) h = λ returned. cc

    after_events :
        (r : Result Exception ℕ × State Payload)
        → Returning 0 Durable r
        → Returning tt Durable (
            (lift r.0 >>= λ n.
            if ltb 0 n
            then commit
            else (run_low_frequency_reconcile svc settings now >>= λ b.
                if b then commit else pure tt))
              r.1)
    unfolding commit ◌>>=◌
    after_events (ok zero, t) h =
        after_reconcile (run_low_frequency_reconcile svc settings now t)
          (reconcile_quiet t (h refl))
    after_events (ok (suc n), t) h = rw (positive n) (λ _. refl)
    after_events (err e, t) h = λ returned. cc

    after_submit :
        (r : Result Exception ℕ × State Payload)
        → Returning 0 Durable r
        → Returning tt Durable (
            (lift r.0 >>= λ k.
            if ltb 0 k
            then commit
            else (process_pending_webhook_events svc settings now >>= λ n.
                if ltb 0 n
                then commit
                else (run_low_frequency_reconcile svc settings now >>= λ b.
                    if b then commit else pure tt)))
              r.1)
    unfolding commit ◌>>=◌
    after_submit (ok zero, t) h =
        after_events (process_pending_webhook_events svc settings now t) (events_quiet t (h refl))
    after_submit (ok (suc n), t) h = rw (positive n) (λ _. refl)
    after_submit (err e, t) h = λ returned. cc

    -- A tick that returns leaves nothing uncommitted.
    pub tick-Durable :
        (s : State Payload)
        → s.committed ≡ s.tables
        → (tick svc settings now s).0 ≡ ok tt
        → (tick svc settings now s).1.committed ≡ (tick svc settings now s).1.tables
    unfolding tick commit ◌>>=◌
    tick-Durable s durable =
        after_submit (submit_missing_page_to_card_jobs svc settings s) (submit_quiet s durable)

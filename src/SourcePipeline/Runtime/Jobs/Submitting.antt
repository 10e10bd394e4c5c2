-- ===== src/SourcePipeline/Runtime/Jobs/Submitting.antt =====
-- What submitting a job does to the state: the call is noted, and the row is written only behind
-- one created job.
use hll.Prelude.{
  ℕ, ◌≡◌, refl, Bool, true, false, Option, none, some, List, [], ◌∷◌, ◌==◌, Bool-cases, inl, inr,
}
use hll.Exec.{Result, ok, err, lift, ◌>>=◌}
use hll.SourcePipeline.Model.{
  CardCandidate, ReviewResult, CreateJobItem, CreatedJob, Call, Exception, create_jobs, handoff,
  Services, State, Action, candidate_at,
}
use hll.SourcePipeline.Runtime.Jobs.{
  present, read_candidate, write_candidate, only_job, create_idempotent_job, submit_review_job,
  submit_repair_job, went_through, hand_off_card, handoff_passed_candidate,
}

abbrev pub noting : {Payload : Type 0} → Call → State Payload → State Payload
noting call s = record s { calls = call ∷ s.calls }

module _ {Payload : Type 0} (svc : Services Payload)
    (R : State Payload → State Payload → Type 0) where
  only_job_step :
      {B : Type 0} (r : Result Exception (List CreatedJob)) (k : ℕ → Action Payload B)
      (s t : State Payload)
      → R s t
      → ((j : ℕ) → R s (k j t).1)
      → R s ((lift r >>= only_job >>= k) t).1
  unfolding only_job ◌>>=◌
  only_job_step (err e) k s t h later = h
  only_job_step (ok []) k s t h later = h
  only_job_step (ok (job ∷ [])) k s t h later = elim (Bool-cases (job.index == 0)) [
    | inl e ↦ rw e (later job.job_id)
    | inr e ↦ rw e h
  ]
  only_job_step (ok (job ∷ other ∷ jobs)) k s t h later = h

  pub create_then :
      {B : Type 0} (item : CreateJobItem) (k : ℕ → Action Payload B) (s : State Payload)
      → R s (noting (create_jobs (item ∷ [])) s)
      → ((j : ℕ) → R s (k j (noting (create_jobs (item ∷ [])) s)).1)
      → R s ((create_idempotent_job svc item >>= k) s).1
  unfolding create_idempotent_job ◌>>=◌
  create_then item k s h later = only_job_step (svc.create s.calls (item ∷ [])) k s _ h later

  pub submit_review_then :
      (id : ℕ) (s : State Payload) (c : CardCandidate)
      → candidate_at id s ≡ some c
      → ((call : List CreateJobItem) → R s (noting (create_jobs call) s))
      → ((call : List CreateJobItem) (j : ℕ)
          → R s
              (write_candidate id
                (λ r. record r { review_job_id = some j })
                (noting (create_jobs call) s)).1)
      → R s (submit_review_job svc id s).1
  unfolding submit_review_job read_candidate ◌>>=◌
  submit_review_then id s c found noted written =
      rw (found, present) (create_then _ _ s (noted _) (written _))

  pub submit_repair_then :
      (id : ℕ) (review : ReviewResult) (s : State Payload) (c : CardCandidate)
      → candidate_at id s ≡ some c
      → ((call : List CreateJobItem) → R s (noting (create_jobs call) s))
      → ((call : List CreateJobItem) (j : ℕ)
          → R s
              (write_candidate id
                (λ r. record r { repair_job_id = some j })
                (noting (create_jobs call) s)).1)
      → R s (submit_repair_job svc id review s).1
  unfolding submit_repair_job read_candidate ◌>>=◌
  submit_repair_then id review s c found noted written =
      rw (found, present) (create_then _ _ s (noted _) (written _))

  create_answer :
      (r : Result Exception (List CreatedJob)) (s t : State Payload)
      → R s t
      → R s ((lift r >>= only_job) t).1
  unfolding only_job ◌>>=◌
  create_answer (err e) s t h = h
  create_answer (ok []) s t h = h
  create_answer (ok (job ∷ [])) s t h = elim (Bool-cases (job.index == 0)) [
    | inl e ↦ rw e h
    | inr e ↦ rw e h
  ]
  create_answer (ok (job ∷ other ∷ jobs)) s t h = h

  pub create_alone :
      (item : CreateJobItem) (s : State Payload)
      → R s (noting (create_jobs (item ∷ [])) s)
      → R s (create_idempotent_job svc item s).1
  unfolding create_idempotent_job ◌>>=◌
  create_alone item s h = create_answer (svc.create s.calls (item ∷ [])) s _ h

  -- A handoff is called for once the row says that none was done; it is booked if it went through.
  handoff_answer :
      (answer : Result Exception Unit) (k : Action Payload Unit) (call : Bool → Call)
      (s : State Payload)
      → R s (noting (call false) s)
      → R s (k (noting (call true) s)).1
      → R s ((lift answer >>= λ _. k) (noting (call (went_through answer)) s)).1
  unfolding ◌>>=◌
  handoff_answer (ok _) k call s refused booked = booked
  handoff_answer (err e) k call s refused booked = refused

  handoff_row :
      (id : ℕ) (s : State Payload) (o : Option CardCandidate)
      → candidate_at id s ≡ o
      → R s s
      → ((c : CardCandidate)
          → candidate_at id s ≡ some c
          → c.ingestion_handoff_done ≡ false
          → R s (noting (handoff c.id c.card_payload false) s))
      → ((c : CardCandidate)
          → candidate_at id s ≡ some c
          → c.ingestion_handoff_done ≡ false
          → R s
              (write_candidate id
                (λ r. record r { ingestion_handoff_done = true })
                (noting (handoff c.id c.card_payload true) s)).1)
      → R s (handoff_passed_candidate svc id s).1
  unfolding handoff_passed_candidate read_candidate present hand_off_card ◌>>=◌
  handoff_row id s none e same refused booked = rw (e, present) same
  handoff_row id s (some c) e same refused booked = elim (Bool-cases c.ingestion_handoff_done) [
    | inl done ↦ rw (e, present) (rw done same)
    | inr open_still ↦
        rw (e, present)
          (rw open_still (
            handoff_answer (svc.hand_off s.calls c.id c.card_payload) _
              (handoff c.id c.card_payload) s (refused c e open_still) (booked c e open_still)))
  ]

  pub handoff_then :
      (id : ℕ) (s : State Payload)
      → R s s
      → ((c : CardCandidate)
          → candidate_at id s ≡ some c
          → c.ingestion_handoff_done ≡ false
          → R s (noting (handoff c.id c.card_payload false) s))
      → ((c : CardCandidate)
          → candidate_at id s ≡ some c
          → c.ingestion_handoff_done ≡ false
          → R s
              (write_candidate id
                (λ r. record r { ingestion_handoff_done = true })
                (noting (handoff c.id c.card_payload true) s)).1)
      → R s (handoff_passed_candidate svc id s).1
  handoff_then id s = handoff_row id s (candidate_at id s) refl

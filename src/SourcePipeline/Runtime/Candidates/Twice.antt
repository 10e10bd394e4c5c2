-- ===== src/SourcePipeline/Runtime/Candidates/Twice.antt =====
-- Processing an accepted page result a second time adds no candidate.
use hll.Prelude.{
  ℕ, ◌≡◌, refl, ◌∙◌, Bool, true, Option, none, some, List, [], ◌∷◌, ◌++◌, arith, any-map, any-sort,
  any-filter, any-append, enumerate, ◌⊎◌, All, All-map, Option-cases, inl, inr,
}
use hll.Exec.{ok, err, ◌>>=◌}
use hll.SourcePipeline.Model.{
  CardDraft, CardCandidate, Exception, validation_error, row_missing, missing_job_id, WorkflowUnit,
  page_to_card, Services, State, unit_at,
}
use hll.SourcePipeline.Runtime.Jobs.{present as present_row, read_unit, validated, require_job_id}
use hll.SourcePipeline.Runtime.Candidates.{
  Origin, list_candidates_for_unit, candidate_origins_for_unit, ensure_initial_candidates,
}
use hll.SourcePipeline.Runtime.Candidates.Missing.{
  has_origin, present, missing_rows, Covered, missing_rows_cover, extended, loop_adds, loop_skips,
}

abbrev initial : ℕ → ℕ → ℕ → List CardCandidate → Bool
initial unit_id page_job_id = present unit_id none page_to_card page_job_id

module _ {Payload : Type 0} (unit_id : ℕ) where
  origins_for_unit :
      (page_job_id ordinal : ℕ) (s : State Payload)
      → has_origin unit_id none page_to_card page_job_id
          (candidate_origins_for_unit unit_id s)
          ordinal
        ≡ initial unit_id page_job_id ordinal s.candidates
  unfolding candidate_origins_for_unit list_candidates_for_unit
  origins_for_unit page_job_id ordinal s = rw (any-map, any-sort, any-filter)

  module _ (page_job_id : ℕ) (cards : List CardDraft) (s : State Payload) where
    abbrev existing : List Origin
    existing = candidate_origins_for_unit unit_id s

    after : State Payload
    after =
        extended unit_id none page_to_card page_job_id
          (missing_rows unit_id none page_to_card page_job_id s.next_candidate_id existing
            (enumerate cards))
          s

    rows_hold :
        (pending : List (ℕ × CardDraft)) (rows : List CardCandidate)
        → All (Covered unit_id none page_to_card page_job_id existing rows) pending
        → All
            (λ (card : ℕ × CardDraft).
              initial unit_id page_job_id card.0 (s.candidates ++ rows) ≡ true)
            pending
    rows_hold [] rows h = tt
    rows_hold ((ordinal, draft) ∷ pending) rows h = (
      rw any-append (ground (arith, origins_for_unit page_job_id ordinal s, h.0)),
      rows_hold pending rows h.1,
    )

    covered_after :
        All
          (λ (card : ℕ × CardDraft).
            has_origin unit_id none page_to_card page_job_id
              (candidate_origins_for_unit unit_id after)
              card.0
            ≡ true)
          (enumerate cards)
    unfolding after extended
    covered_after =
        All-map (λ card h. origins_for_unit page_job_id card.0 after ∙ h) (enumerate cards)
          (rows_hold (enumerate cards) _ (
            missing_rows_cover unit_id none page_to_card page_job_id s.next_candidate_id existing
              (enumerate cards)))

    module _ (svc : Services Payload) (payload : Payload) (u : WorkflowUnit Payload)
        (parsed : svc.parse_cards payload ≡ some cards) (there : unit_at unit_id s ≡ some u)
        (submitted : u.page_to_card_job_id ≡ some page_job_id) where
      first_run : ensure_initial_candidates svc unit_id payload s ≡ (ok tt, after)
      unfolding ensure_initial_candidates read_unit validated require_job_id ◌>>=◌ after
      first_run =
          rw (parsed, validated)
            (rw (there, present_row)
              (rw (submitted, require_job_id)
                (loop_adds unit_id none page_to_card page_job_id existing (enumerate cards) s)))

      unit_after : unit_at unit_id after ≡ some u
      unfolding after extended
      unit_after = there

      second_run : ensure_initial_candidates svc unit_id payload after ≡ (ok tt, after)
      unfolding ensure_initial_candidates read_unit validated require_job_id ◌>>=◌
      second_run =
          rw (parsed, validated)
            (rw (unit_after, present_row)
              (rw (submitted, require_job_id)
                (loop_skips unit_id none page_to_card page_job_id _ (enumerate cards) after
                  covered_after)))

module _ {Payload : Type 0} (svc : Services Payload) (unit_id : ℕ) (payload : Payload)
    (s : State Payload) where
  abbrev Fails : Type 0
  Fails = (e : Exception) × ((ensure_initial_candidates svc unit_id payload s).0 ≡ err e)

  -- What a run that does not return `ok` lacks, or what a run that does has read.
  inversion :
      (cards : Option (List CardDraft)) (u : Option (WorkflowUnit Payload))
      → svc.parse_cards payload ≡ cards
      → unit_at unit_id s ≡ u
      → Fails
        ⊎ ((cs : List CardDraft) × (row : WorkflowUnit Payload) × (j : ℕ) × (svc.parse_cards payload
              ≡ some cs)
            × (unit_at unit_id s ≡ some row)
            × (row.page_to_card_job_id ≡ some j))
  unfolding ensure_initial_candidates read_unit validated require_job_id ◌>>=◌
  inversion none u parsed there = inl (validation_error, rw parsed refl)
  inversion (some cs) none parsed there =
      inl (row_missing, rw parsed (rw (there, present_row) refl))
  inversion (some cs) (some row) parsed there = elim (Option-cases row.page_to_card_job_id) [
    | inl missing ↦ inl (missing_job_id, rw parsed (rw (there, present_row) (rw missing refl)))
    | inr (j, submitted) ↦ inr (cs, row, j, parsed, there, submitted)
  ]

  -- An accepted page result may be processed again (by its event and by the reconcile): once the
  -- candidates are there, a second run returns and changes nothing.
  pub ensure_initial_candidates_twice :
      (t : State Payload)
      → ensure_initial_candidates svc unit_id payload s ≡ (ok tt, t)
      → ensure_initial_candidates svc unit_id payload t ≡ (ok tt, t)
  ensure_initial_candidates_twice t h =
      elim (inversion (svc.parse_cards payload) (unit_at unit_id s) refl refl) [
        | inl (e, fails) ↦ cc (fails, h)
        | inr (cs, row, j, parsed, there, submitted) ↦
            let same : after unit_id j cs s ≡ t =
              cc (first_run unit_id j cs s svc payload row parsed there submitted, h) in
            rw (← same) (second_run unit_id j cs s svc payload row parsed there submitted)
      ]

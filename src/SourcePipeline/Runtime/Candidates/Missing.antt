-- ===== src/SourcePipeline/Runtime/Candidates/Missing.antt =====
-- What the loop of `_ensure_…_candidates` adds: the cards whose origin has no row yet.
use mathlib.Core.Path.{ap₂}
use mathlib.Core.List.{append-nil, append_assoc}
use native.Mathlib.Nat.{add-zero}
use hll.Prelude.{
  ap, sym, subst, ◌∙◌, ℕ, suc, ◌+◌, ◌≡◌, refl, Bool, true, false, ◌&&◌, ◌||◌, Option, none, List,
  [], ◌∷◌, ◌++◌, arith, ◌==◌, if◌then◌else◌, any, length, All, All-map, Bool-cases, inl, inr,
}
use hll.Exec.{ok, for_each, ◌>>=◌}
use hll.SourcePipeline.Model.{CardDraft, CardCandidate, OriginStep, State}
use hll.SourcePipeline.Runtime.Candidates.{
  Origin, same_step, same_origin, origin_of, add_candidate, add_missing,
}

module _ (unit_id : ℕ) (parent : Option ℕ) (step : OriginStep) (job_id : ℕ) where
  abbrev pub origin_at : ℕ → Origin
  origin_at ordinal = record { step = step; job_id = job_id; ordinal = ordinal }

  abbrev pub has_origin : List Origin → ℕ → Bool
  has_origin existing ordinal = any (same_origin (origin_at ordinal)) existing

  -- What the loop adds, as a list of rows: the cards whose origin is not there yet.
  unfoldable pub new_row : ℕ → ℕ → CardDraft → CardCandidate
  new_row next ordinal draft = record {
    id = next;
    workflow_unit_id = unit_id;
    parent_candidate_id = parent;
    card_payload = draft;
    origin_step = step;
    origin_job_id = job_id;
    origin_ordinal = ordinal;
    review_job_id = none;
    review_terminal_state = none;
    repair_job_id = none;
    repair_terminal_state = none;
    ingestion_handoff_done = false;
  }

  -- The rows come in the order of the cards, with the next primary keys.
  unfoldable pub missing_rows : ℕ → List Origin → List (ℕ × CardDraft) → List CardCandidate
  missing_rows next existing [] = []
  missing_rows next existing ((ordinal, draft) ∷ cards) =
      let rest = missing_rows next existing cards in
      let later = missing_rows (next + 1) existing cards in
      if has_origin existing ordinal then rest else new_row next ordinal draft ∷ later

  missing_rows_nil : (next : ℕ) (existing : List Origin) → missing_rows next existing [] ≡ []
  unfolding missing_rows
  missing_rows_nil next existing = refl

  module _ (next : ℕ) (existing : List Origin) (ordinal : ℕ) (draft : CardDraft)
      (cards : List (ℕ × CardDraft)) where
    missing_rows_skip :
        has_origin existing ordinal ≡ true
        → missing_rows next existing ((ordinal, draft) ∷ cards) ≡ missing_rows next existing cards
    unfolding missing_rows
    missing_rows_skip there = rw there

    missing_rows_add :
        has_origin existing ordinal ≡ false
        → missing_rows next existing ((ordinal, draft) ∷ cards)
          ≡ new_row next ordinal draft ∷ missing_rows (next + 1) existing cards
    unfolding missing_rows
    missing_rows_add absent = rw absent

  -- A row of the unit that has the origin of this ordinal.
  abbrev pub present : ℕ → List CardCandidate → Bool
  present ordinal rows =
      any (λ c. c.workflow_unit_id == unit_id && same_origin (origin_at ordinal) (origin_of c)) rows

  abbrev pub Covered : List Origin → List CardCandidate → ℕ × CardDraft → Type 0
  Covered existing rows card = (has_origin existing card.0 || present card.0 rows) ≡ true

  seen_with_more :
      (existing : List Origin) (row : CardCandidate) (rows : List CardCandidate)
      (card : ℕ × CardDraft)
      → Covered existing rows card
      → Covered existing (row ∷ rows) card
  seen_with_more existing row rows card h = ground arith

  step_refl : same_step step step ≡ true
  step_refl = ground arith

  new_row_has_origin :
      (next ordinal : ℕ) (draft : CardDraft) (rows : List CardCandidate)
      → present ordinal (new_row next ordinal draft ∷ rows) ≡ true
  unfolding same_origin origin_of new_row
  new_row_has_origin next ordinal draft rows = ground (arith, step_refl)

  pub missing_rows_cover :
      (next : ℕ) (existing : List Origin) (cards : List (ℕ × CardDraft))
      → All (Covered existing (missing_rows next existing cards)) cards
  missing_rows_cover next existing [] = tt
  missing_rows_cover next existing ((ordinal, draft) ∷ cards) =
      elim (Bool-cases (has_origin existing ordinal)) [
        | inl there ↦
            let same = missing_rows_skip next existing ordinal draft cards there in
            (
              ground (arith, there),
              subst (λ rows. All (Covered existing rows) cards) (sym same)
                  (missing_rows_cover next existing cards),
            )
        | inr absent ↦
            let more = missing_rows_add next existing ordinal draft cards absent in
            (
              rw more (
                  ground (
                    arith,
                    new_row_has_origin next ordinal draft (missing_rows (next + 1) existing cards),
                  )),
              subst (λ rows. All (Covered existing rows) cards) (sym more)
                  (All-map (seen_with_more existing _ _) cards
                    (missing_rows_cover (next + 1) existing cards)),
            )
      ]

  module _ {Payload : Type 0} where
    -- The state after the loop.
    unfoldable pub extended : List CardCandidate → State Payload → State Payload
    extended rows s = record s {
      tables = record s.tables {
        candidates = s.candidates ++ rows;
        next_candidate_id = s.next_candidate_id + length rows;
      };
    }

    with_candidates : State Payload → List CardCandidate → ℕ → State Payload
    with_candidates s rows next = record s {
      tables = record s.tables { candidates = rows; next_candidate_id = next };
    }

    extend_more :
        (row : CardCandidate) (rows : List CardCandidate) (s : State Payload)
        → extended rows (with_candidates s (s.candidates ++ row ∷ []) (s.next_candidate_id + 1))
          ≡ extended (row ∷ rows) s
    unfolding extended with_candidates
    extend_more row rows s = ap₂ (with_candidates s) (append_assoc s.candidates (row ∷ []) rows) (
        let n : s.next_candidate_id + 1 + length rows ≡ s.next_candidate_id + suc (length rows) =
          omega arith in
        n)

    pub loop_adds :
        (existing : List Origin) (cards : List (ℕ × CardDraft)) (s : State Payload)
        → for_each cards (add_missing unit_id parent step job_id existing) s
          ≡ (ok tt, extended (missing_rows s.next_candidate_id existing cards) s)
    unfolding for_each add_missing add_candidate extended with_candidates new_row ◌>>=◌
    loop_adds existing [] s = rw missing_rows_nil (simp (append-nil, add-zero))
    loop_adds existing ((ordinal, draft) ∷ cards) s =
        elim (Bool-cases (has_origin existing ordinal)) [
          | inl there ↦ rw there (
              rw (missing_rows_skip s.next_candidate_id existing ordinal draft cards there)
                (loop_adds existing cards s))
          | inr absent ↦ rw absent (
              rw (missing_rows_add s.next_candidate_id existing ordinal draft cards absent) (
                loop_adds existing cards (
                  with_candidates s (s.candidates ++ new_row s.next_candidate_id ordinal draft ∷ [])
                    (s.next_candidate_id + 1))
                ∙ ap (λ t. (ok tt, t))
                    (extend_more (new_row s.next_candidate_id ordinal draft) _ s)))
        ]

    pub loop_skips :
        (existing : List Origin) (cards : List (ℕ × CardDraft)) (s : State Payload)
        → All (λ (card : ℕ × CardDraft). has_origin existing card.0 ≡ true) cards
        → for_each cards (add_missing unit_id parent step job_id existing) s ≡ (ok tt, s)
    unfolding for_each add_missing ◌>>=◌
    loop_skips existing [] s h = refl
    loop_skips existing ((ordinal, draft) ∷ cards) s h = rw h.0 (loop_skips existing cards s h.1)

-- ===== src/KnowledgeGraph/Proposals/Lifecycle.antt =====
-- The life of a proposal as a step relation on the tables: submitted, decided without effect, or
-- accepted together with its audit.
use hll.Prelude.{
  ℕ, ◌+◌, ◌<◌, String, ◌≡◌, refl, sym, ◌∙◌, subst, false, Option, none, some, List, [], ◌∷◌, ◌++◌,
  ◌==◌, if◌then◌else◌, arith, length, Bool-cases, inl, inr, filter,
}
use hll.SourcePipeline.Model.{get_row, update_row}
use hll.SourcePipeline.Model.Rows.{get_row-update_row, get_row-append}
use hll.KnowledgeGraph.Model.{
  ProposalStatus, pending_review, accepted_applied, is_pending, is_accepted, CardProposal,
  ProposalApplyAudit, Tables,
}
use hll.KnowledgeGraph.Repo.{with_status}

abbrev pub id_of : CardProposal → ℕ
id_of p = p.id

-- How many audits a proposal has.
abbrev pub audits_of : ℕ → List ProposalApplyAudit → ℕ
audits_of id audits = length (filter (λ (a : ProposalApplyAudit). a.proposal_id == id) audits)

abbrev pub due : ProposalStatus → ℕ
due status = if is_accepted status then 1 else 0

-- What no step changes of a proposal: its request, and once it is decided, anything of it.
pub record Kept (p q : CardProposal) : Type 0 where
  pub proposal_type : q.proposal_type ≡ p.proposal_type
  pub submitted_by_user_id : q.submitted_by_user_id ≡ p.submitted_by_user_id
  pub reason : q.reason ≡ p.reason
  pub payload : q.payload ≡ p.payload
  pub final : is_pending p.status ≡ false → q ≡ p

pub Kept-refl : (p : CardProposal) → Kept p p
Kept-refl p = record {
  proposal_type = refl;
  submitted_by_user_id = refl;
  reason = refl;
  payload = refl;
  final = λ _. refl;
}

pub Kept-trans : (p q r : CardProposal) → Kept p q → Kept q r → Kept p r
Kept-trans p q r h k = record {
  proposal_type = k.proposal_type ∙ h.proposal_type;
  submitted_by_user_id = k.submitted_by_user_id ∙ h.submitted_by_user_id;
  reason = k.reason ∙ h.reason;
  payload = k.payload ∙ h.payload;
  final = λ done.
      let e = h.final done in k.final (subst (λ x. is_pending x.status ≡ false) (sym e) done) ∙ e;
}

decided-Kept :
    (p : CardProposal) (status : ProposalStatus) (reviewer note : Option String) (now : ℕ)
    → p.status ≡ pending_review
    → Kept p (with_status status reviewer note now p)
decided-Kept p status reviewer remark now pending = record {
  proposal_type = refl;
  submitted_by_user_id = refl;
  reason = refl;
  payload = refl;
  final = λ h. cc;
}

updated-KeptAt :
    (k id : ℕ) (p r : CardProposal) (status : ProposalStatus) (reviewer note : Option String)
    (now : ℕ) (rows : List CardProposal)
    → get_row id_of k rows ≡ some r
    → r.status ≡ pending_review
    → get_row id_of id rows ≡ some p
    → (q : CardProposal) × (get_row id_of id
          (update_row id_of k (with_status status reviewer note now) rows)
        ≡ some q)
      × Kept p q
updated-KeptAt k id p r status reviewer note now rows there pending h =
    elim (Bool-cases (k == id)) [
      | inl e ↦ (
        with_status status reviewer note now p,
        ground (
          arith,
          get_row-update_row id_of k id (with_status status reviewer note now) rows (λ a. refl),
        ),
        decided-Kept p status reviewer note now (ground arith),
      )
      | inr e ↦ (
        p,
        ground (
          arith,
          get_row-update_row id_of k id (with_status status reviewer note now) rows (λ a. refl),
        ),
        Kept-refl p,
      )
    ]

audits_of-append :
    (id : ℕ) (audits : List ProposalApplyAudit) (a : ProposalApplyAudit)
    → audits_of id (audits ++ a ∷ []) ≡ audits_of id audits + (if a.proposal_id == id then 1 else 0)
audits_of-append id [] a = ground arith
audits_of-append id (b ∷ audits) a = ground (arith, audits_of-append id audits a)

module _ {Real Taxonomy : Type 0} where
  pub data ProposalStep (s t : Tables Real Taxonomy) : Type 0 where
    quiet :
        t.proposals ≡ s.proposals
        → t.audits ≡ s.audits
        → t.next_proposal_id ≡ s.next_proposal_id
        → ProposalStep s t
    submitted :
        (p : CardProposal)
        → p.id ≡ s.next_proposal_id
        → p.status ≡ pending_review
        → t.proposals ≡ s.proposals ++ p ∷ []
        → t.audits ≡ s.audits
        → t.next_proposal_id ≡ s.next_proposal_id + 1
        → ProposalStep s t
    decided :
        (id : ℕ) (p : CardProposal) (status : ProposalStatus) (reviewer note : Option String)
        (now : ℕ)
        → get_row id_of id s.proposals ≡ some p
        → p.status ≡ pending_review
        → is_pending status ≡ false
        → is_accepted status ≡ false
        → t.proposals ≡ update_row id_of id (with_status status reviewer note now) s.proposals
        → t.audits ≡ s.audits
        → t.next_proposal_id ≡ s.next_proposal_id
        → ProposalStep s t
    applied :
        (id : ℕ) (p : CardProposal) (reviewer note : Option String) (now : ℕ)
        (audit : ProposalApplyAudit)
        → get_row id_of id s.proposals ≡ some p
        → p.status ≡ pending_review
        → audit.proposal_id ≡ id
        → t.proposals
          ≡ update_row id_of id (with_status accepted_applied reviewer note now) s.proposals
        → t.audits ≡ s.audits ++ audit ∷ []
        → t.next_proposal_id ≡ s.next_proposal_id
        → ProposalStep s t

  pub record Audited (s : Tables Real Taxonomy) : Type 0 where
    -- one audit for an applied proposal, none for any other
    pub counted :
        (id : ℕ) (p : CardProposal)
        → get_row id_of id s.proposals ≡ some p
        → audits_of id s.audits ≡ due p.status
    pub fresh : (id : ℕ) → s.next_proposal_id < id + 1 → get_row id_of id s.proposals ≡ none
    pub unused : (id : ℕ) → s.next_proposal_id < id + 1 → audits_of id s.audits ≡ 0

  pub step-Kept :
      (s t : Tables Real Taxonomy) (id : ℕ) (p : CardProposal)
      → ProposalStep s t
      → get_row id_of id s.proposals ≡ some p
      → (q : CardProposal) × (get_row id_of id t.proposals ≡ some q) × Kept p q
  step-Kept s t id p (quiet same _ _) h = (p, ground arith, Kept-refl p)
  step-Kept s t id p (submitted r _ _ more _ _) h =
      (p, ground (arith, get_row-append id_of id s.proposals r), Kept-refl p)
  step-Kept s t id p (decided k r status reviewer note now there pending _ _ more _ _) h =
      subst (λ rows. (q : CardProposal) × (get_row id_of id rows ≡ some q) × Kept p q) (sym more)
        (updated-KeptAt k id p r status reviewer note now s.proposals there pending h)
  step-Kept s t id p (applied k r reviewer note now audit there pending _ more _ _) h =
      subst (λ rows. (q : CardProposal) × (get_row id_of id rows ≡ some q) × Kept p q) (sym more)
        (updated-KeptAt k id p r accepted_applied reviewer note now s.proposals there pending h)

  -- Every step keeps one audit for each applied proposal and none for any other.
  pub step-Audited : (s t : Tables Real Taxonomy) → ProposalStep s t → Audited s → Audited t
  step-Audited s t (quiet a b c) audited = record {
    counted = λ id p h. ground (arith, audited.counted id p);
    fresh = λ id h. ground (arith, audited.fresh id);
    unused = λ id h. ground (arith, audited.unused id);
  }
  step-Audited s t (submitted r e pending a b c) audited = record {
    counted = λ id p h.
        ground
          (arith, audited.counted id p, audited.unused id, get_row-append id_of id s.proposals r);
    fresh = λ id h. ground (arith, audited.fresh id, get_row-append id_of id s.proposals r);
    unused = λ id h. ground (arith, audited.unused id);
  }
  step-Audited s t (decided k r status reviewer note now there pending _ refused a b c) audited =
      record {
        counted = λ id p h. ground (
          arith,
          audited.counted id r,
          audited.counted id p,
          get_row-update_row id_of k id (with_status status reviewer note now) s.proposals
              (λ x. refl),
        );
        fresh = λ id h. ground (
          arith,
          audited.fresh id,
          get_row-update_row id_of k id (with_status status reviewer note now) s.proposals
              (λ x. refl),
        );
        unused = λ id h. ground (arith, audited.unused id);
      }
  step-Audited s t (applied k r reviewer note now audit there pending same a b c) audited = record {
    counted = λ id p h. ground (
      arith,
      audited.counted id r,
      audited.counted id p,
      audits_of-append id s.audits audit,
      get_row-update_row id_of k id (with_status accepted_applied reviewer note now) s.proposals
          (λ x. refl),
    );
    fresh = λ id h. ground (
      arith,
      audited.fresh id,
      get_row-update_row id_of k id (with_status accepted_applied reviewer note now) s.proposals
          (λ x. refl),
    );
    unused = λ id h.
        ground (arith, audited.unused id, audited.fresh k, audits_of-append id s.audits audit);
  }

-- ===== src/KnowledgeGraph/Proposals/Decisions.antt =====
-- The parts of the methods that decide a proposal: the pending row that is fetched, and its new
-- status.
use hll.Prelude.{
  ℕ, String, ◌≡◌, refl, sym, ◌∙◌, subst, true, false, Option, none, some, arith, [], ◌∷◌, ◌++◌,
}
use hll.Exec.{Result, ok, err, pure, lift, ◌>>=◌, ◌>>◌}
use hll.Exec.Returns.{bind-Returned}
use hll.SourcePipeline.Model.{get_row, update_row}
use hll.SourcePipeline.Model.Rows.{key-get_row}
use hll.KnowledgeGraph.Model.{
  Error, ProposalStatus, pending_review, accepted_applied, rejected, withdrawn, is_pending,
  is_accepted, CardProposal, Applied, ProposalApplyAudit, Platform, State, Action, TaxonomyPort,
}
use hll.KnowledgeGraph.Repo.{
  proposal_record, fetch_card_proposal, record_if, transition_card_proposal,
  mark_card_proposal_accepted, create_proposal_apply_audit, proposal_at, with_status,
}
use hll.KnowledgeGraph.Proposals.{
  fetch_pending_proposal, record_or_missing, require_review_role, apply_and_record, apply_proposal,
}
use hll.KnowledgeGraph.Frames.{CardsOnly, apply_proposal-CardsOnly}
use hll.KnowledgeGraph.Proposals.Lifecycle.{ProposalStep, decided, applied, id_of}

-- `record p { … }` keeps the fields that the methods read.
module _ {Real : Type 0} (platform : Platform Real) where
  proposal_record_keeps :
      (p q : CardProposal)
      → proposal_record platform p ≡ ok q
      → (q.id ≡ p.id) × (q.status ≡ p.status)
  unfolding proposal_record
  proposal_record_keeps p q h = ground arith

abbrev audit_row : String → Option String → CardProposal → Applied → ProposalApplyAudit
audit_row reviewer remark q outcome = record {
  proposal_id = q.id;
  reviewer_user_id = reviewer;
  proposal_type = q.proposal_type;
  applied = outcome;
  review_note = remark;
}

pending_status : (status : ProposalStatus) → is_pending status ≡ true → status ≡ pending_review
pending_status pending_review h = refl
pending_status accepted_applied h = cc
pending_status rejected h = cc
pending_status withdrawn h = cc

module _ {Real Taxonomy : Type 0} (platform : Platform Real)
    (port : Option (TaxonomyPort Taxonomy)) where
  -- A pending proposal that was fetched is a row of the table.
  pub record Fetched (id : ℕ) (q : CardProposal) (s : State Real Taxonomy) : Type 0 where
    pub row : CardProposal
    pub there : get_row id_of id s.proposals ≡ some row
    pub pending : row.status ≡ pending_review
    pub same_id : q.id ≡ id

  pub fetched :
      (id : ℕ) (q : CardProposal) (s t : State Real Taxonomy)
      → fetch_pending_proposal platform port id s ≡ (ok q, t)
      → (t ≡ s) × Fetched id q s
  unfolding fetch_pending_proposal fetch_card_proposal ◌>>=◌ record_if
  fetched id q s t h = go (proposal_at id s) refl h
    where
      kept :
          (p : CardProposal) (r : Result Error CardProposal)
          → proposal_at id s ≡ some p
          → proposal_record platform p ≡ r
          → ((lift r >>= λ x. pure (some x)) >>= record_or_missing) s ≡ (ok q, t)
          → (t ≡ s) × Fetched id q s
      kept p (err e) there e2 k = cc
      kept p (ok x) there e2 k = (
        ground arith,
        record {
          row = p;
          there = there;
          pending = pending_status p.status (ground (arith, proposal_record_keeps platform p x));
          same_id =
              ground
                (arith, proposal_record_keeps platform p x, key-get_row id_of id s.proposals p);
        },
      )

      go :
          (o : Option CardProposal)
          → proposal_at id s ≡ o
          → (record_if platform o >>= record_or_missing) s ≡ (ok q, t)
          → (t ≡ s) × Fetched id q s
      go none there k = cc
      go (some p) there k = kept p (proposal_record platform p) there refl k

  -- The row was found and got its new status; nothing else of proposals and audits changed.
  pub record Marked (id : ℕ) (status : ProposalStatus) (reviewer remark : Option String) (now : ℕ)
      (s t : State Real Taxonomy) : Type 0 where
    pub proposals :
        t.proposals ≡ update_row id_of id (with_status status reviewer remark now) s.proposals
    pub audits : t.audits ≡ s.audits
    pub next_proposal_id : t.next_proposal_id ≡ s.next_proposal_id

  pub marked :
      (id : ℕ) (status : ProposalStatus) (reviewer remark : Option String) (now : ℕ)
      (r p : CardProposal) (s t : State Real Taxonomy)
      → get_row id_of id s.proposals ≡ some p
      → (transition_card_proposal id status reviewer remark now >>= λ p.
            lift (proposal_record platform p))
          s
        ≡ (ok r, t)
      → Marked id status reviewer remark now s t
  unfolding transition_card_proposal ◌>>=◌
  marked id status reviewer remark now r p s t there h = record {
    proposals = ground arith;
    audits = ground arith;
    next_proposal_id = ground arith;
  }

  pub role_checked :
      (user_id : String) (x : Unit) (s t : State Real Taxonomy)
      → require_review_role platform port user_id s ≡ (ok x, t)
      → t ≡ s
  unfolding require_review_role
  role_checked user_id x s t h = ground arith

  pub decided_step :
      (id : ℕ) (q : CardProposal) (status : ProposalStatus) (reviewer remark : Option String)
      (now : ℕ) (s t : State Real Taxonomy)
      → Fetched id q s
      → is_pending status ≡ false
      → is_accepted status ≡ false
      → Marked q.id status reviewer remark now s t
      → ProposalStep s.tables t.tables
  decided_step id q status reviewer remark now s t f a b m =
      decided id f.row status reviewer remark now f.there f.pending a b
        (subst
          (λ k.
            t.proposals ≡ update_row id_of k (with_status status reviewer remark now) s.proposals)
          f.same_id m.proposals)
        m.audits m.next_proposal_id

  abbrev record_audit :
      String
      → Option String
      → CardProposal
      → Applied
      → CardProposal
      → Action Real Taxonomy CardProposal
  record_audit reviewer remark q outcome accepted =
      create_proposal_apply_audit q.id reviewer q.proposal_type outcome remark >> pure accepted

  abbrev mark_and_audit :
      String → Option String → ℕ → CardProposal → Applied → Action Real Taxonomy CardProposal
  mark_and_audit reviewer remark now q outcome =
      mark_card_proposal_accepted platform q.id reviewer remark now
      >>= record_audit reviewer remark q outcome

  audited_last :
      (id : ℕ) (reviewer : String) (remark : Option String) (now : ℕ) (q r a : CardProposal)
      (outcome : Applied) (s u v t : State Real Taxonomy)
      → Fetched id q s
      → CardsOnly s u
      → Marked q.id accepted_applied (some reviewer) remark now u v
      → record_audit reviewer remark q outcome a v ≡ (ok r, t)
      → ProposalStep s.tables t.tables
  unfolding create_proposal_apply_audit ◌>>=◌
  audited_last id reviewer remark now q r a outcome s u v t f cards m h =
      applied id f.row (some reviewer) remark now (audit_row reviewer remark q outcome) f.there
        f.pending f.same_id
        (subst
          (λ k.
            t.proposals
            ≡ update_row id_of k (with_status accepted_applied (some reviewer) remark now)
                s.proposals)
          f.same_id
          (subst
            (λ rows.
              t.proposals
              ≡ update_row id_of q.id (with_status accepted_applied (some reviewer) remark now)
                  rows)
            cards.proposals (ground (arith, m.proposals))))
        (subst (λ audits. t.audits ≡ audits ++ audit_row reviewer remark q outcome ∷ [])
          (m.audits ∙ cards.audits) (ground arith))
        (ground (arith, m.next_proposal_id, cards.next_proposal_id))

  pub applied_step :
      (id : ℕ) (reviewer : String) (remark : Option String) (now : ℕ) (q r : CardProposal)
      (s t : State Real Taxonomy)
      → Fetched id q s
      → apply_and_record platform port reviewer remark now q s ≡ (ok r, t)
      → ProposalStep s.tables t.tables
  unfolding apply_and_record mark_card_proposal_accepted
  applied_step id reviewer remark now q r s t f h =
      let apply : Action Real Taxonomy Applied =
        apply_proposal platform port q.proposal_type q.payload in
      let first = bind-Returned apply (mark_and_audit reviewer remark now q) s r t h in
      let second =
        bind-Returned (mark_card_proposal_accepted platform q.id reviewer remark now)
          (record_audit reviewer remark q first.value) first.state r t first.second in
      let cards : CardsOnly s first.state =
        subst (λ x. CardsOnly s x.1) first.first
          ((apply_proposal-CardsOnly platform port q.proposal_type q.payload).at s) in
      let row : get_row id_of id first.state.proposals ≡ some f.row =
        subst (λ rows. get_row id_of id rows ≡ some f.row) (sym cards.proposals) f.there in
      let m : Marked q.id accepted_applied (some reviewer) remark now first.state second.state =
        marked q.id accepted_applied (some reviewer) remark now second.value f.row first.state
          second.state
          (subst (λ k. get_row id_of k first.state.proposals ≡ some f.row) (sym f.same_id) row)
          second.first in
      audited_last id reviewer remark now q r second.value first.value s first.state second.state t
        f cards m second.second

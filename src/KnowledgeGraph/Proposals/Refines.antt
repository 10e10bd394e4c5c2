-- ===== src/KnowledgeGraph/Proposals/Refines.antt =====
-- The methods on proposals refine the life of a proposal.
use hll.Prelude.{ℕ, String, ◌≡◌, refl, sym, ◌∙◌, subst, Option, none, some}
use hll.Exec.{ok, lift, ◌>>=◌, ◌>>◌}
use hll.Exec.Steps.{Steps, steps_rules}
use hll.Exec.Returns.{bind-Returned, lift-returned}
use hll.SourcePipeline.Model.{get_row}
use hll.KnowledgeGraph.Model.{
  rejected, withdrawn, CardProposal, Platform, State, Action, TaxonomyPort,
}
use hll.KnowledgeGraph.Repo.{mark_card_proposal_rejected, mark_card_proposal_withdrawn}
use hll.KnowledgeGraph.Proposals.{
  fetch_pending_proposal, require_review_role, apply_and_record, accept_card_proposal,
  reject_card_proposal, require_submitter, withdraw_card_proposal,
}
use hll.KnowledgeGraph.Proposals.Atomic.{Clean, transact_tables}
use hll.KnowledgeGraph.Proposals.Lifecycle.{ProposalStep, quiet, id_of}
use hll.KnowledgeGraph.Proposals.Uncommitted.{
  SameCommitted, SameCommitted-order, fetch_pending-frame, require_review_role-frame,
  rejected-frame, withdrawn-frame, apply_and_record-frame,
}
use hll.KnowledgeGraph.Proposals.Decisions.{
  fetched, marked, role_checked, decided_step, applied_step,
}

module _ {Real Taxonomy : Type 0} (platform : Platform Real)
    (port : Option (TaxonomyPort Taxonomy)) where
  -- From a clean state, accepting a proposal applies it with its audit or changes no proposal.
  pub accept_card_proposal_refines :
      (id : ℕ) (reviewer : String) (remark : Option String) (now : ℕ) (s : State Real Taxonomy)
      → Clean s
      → ProposalStep s.tables (accept_card_proposal platform port id reviewer remark now s).1.tables
  unfolding accept_card_proposal
  accept_card_proposal_refines id reviewer remark now s clean =
      transact_tables ProposalStep (accepting id reviewer remark now) s clean
        ((accepting-frame id reviewer remark now).at s) (quiet refl refl refl)
        (accepting_step id reviewer remark now s)
    where
      accepting :
          (id : ℕ) (reviewer : String) (remark : Option String) (now : ℕ)
          → Action Real Taxonomy CardProposal
      accepting id reviewer remark now =
          require_review_role platform port reviewer
          >> (fetch_pending_proposal platform port id
              >>= apply_and_record platform port reviewer remark now)

      accepting-frame :
          (id : ℕ) (reviewer : String) (remark : Option String) (now : ℕ)
          → Steps SameCommitted (accepting id reviewer remark now)
      accepting-frame id reviewer remark now =
          search
            (
              steps_rules, require_review_role-frame, fetch_pending-frame, apply_and_record-frame,
              SameCommitted-order,
            )
            depth 8

      accepting_step :
          (id : ℕ) (reviewer : String) (remark : Option String) (now : ℕ) (s : State Real Taxonomy)
          (a : CardProposal) (t : State Real Taxonomy)
          → accepting id reviewer remark now s ≡ (ok a, t)
          → ProposalStep s.tables t.tables
      accepting_step id reviewer remark now s a t h =
          let role =
            bind-Returned (require_review_role platform port reviewer)
              (λ _.
                fetch_pending_proposal platform port id
                >>= apply_and_record platform port reviewer remark now)
              s a t h in
          let same : role.state ≡ s =
            role_checked platform port reviewer role.value s role.state role.first in
          let fetch =
            bind-Returned (fetch_pending_proposal platform port id)
              (apply_and_record platform port reviewer remark now) s a t
              (subst
                (λ u.
                  (fetch_pending_proposal platform port id
                      >>= apply_and_record platform port reviewer remark now)
                    u
                  ≡ (ok a, t))
                same role.second) in
          let f = fetched platform port id fetch.value s fetch.state fetch.first in
          applied_step platform port id reviewer remark now fetch.value a s t f.1 (
            subst
              (λ u. apply_and_record platform port reviewer remark now fetch.value u ≡ (ok a, t))
              f.0 fetch.second)

  -- From a clean state, rejecting a proposal decides a pending one or changes no proposal.
  pub reject_card_proposal_refines :
      (id : ℕ) (reviewer : String) (remark : Option String) (now : ℕ) (s : State Real Taxonomy)
      → Clean s
      → ProposalStep s.tables (reject_card_proposal platform port id reviewer remark now s).1.tables
  unfolding reject_card_proposal mark_card_proposal_rejected
  reject_card_proposal_refines id reviewer remark now s clean =
      transact_tables ProposalStep rejecting s clean (rejecting-frame.at s) (quiet refl refl refl)
        (rejecting_step)
    where
      then_reject : CardProposal → Action Real Taxonomy CardProposal
      then_reject q =
          require_review_role platform port reviewer
          >> mark_card_proposal_rejected platform q.id reviewer remark now

      rejecting : Action Real Taxonomy CardProposal
      rejecting = fetch_pending_proposal platform port id >>= then_reject

      then_reject-frame : (q : CardProposal) → Steps SameCommitted (then_reject q)
      then_reject-frame q =
          search
            (
              steps_rules,
              require_review_role-frame,
              rejected-frame platform port,
              SameCommitted-order,
            )
            depth 8

      rejecting-frame : Steps SameCommitted rejecting
      rejecting-frame =
          search (steps_rules, fetch_pending-frame, then_reject-frame, SameCommitted-order) depth 8

      rejecting_step :
          (a : CardProposal) (t : State Real Taxonomy)
          → rejecting s ≡ (ok a, t)
          → ProposalStep s.tables t.tables
      rejecting_step a t h =
          let fetch = bind-Returned (fetch_pending_proposal platform port id) then_reject s a t h in
          let f = fetched platform port id fetch.value s fetch.state fetch.first in
          let role =
            bind-Returned (require_review_role platform port reviewer)
              (λ _. mark_card_proposal_rejected platform fetch.value.id reviewer remark now)
              fetch.state a t fetch.second in
          let same : role.state ≡ s =
            role_checked platform port reviewer role.value fetch.state role.state role.first
            ∙ f.0 in
          decided_step platform port id fetch.value rejected (some reviewer) remark now s t f.1 refl
            refl
            (marked platform port fetch.value.id rejected (some reviewer) remark now a f.1.row s t
              (subst (λ k. get_row id_of k s.proposals ≡ some f.1.row) (sym f.1.same_id) f.1.there)
              (subst
                (λ u.
                  mark_card_proposal_rejected platform fetch.value.id reviewer remark now u
                  ≡ (ok a, t))
                same role.second))

  -- From a clean state, withdrawing a proposal decides a pending one or changes no proposal.
  pub withdraw_card_proposal_refines :
      (id : ℕ) (user_id : String) (now : ℕ) (s : State Real Taxonomy)
      → Clean s
      → ProposalStep s.tables (withdraw_card_proposal platform port id user_id now s).1.tables
  unfolding withdraw_card_proposal mark_card_proposal_withdrawn
  withdraw_card_proposal_refines id user_id now s clean =
      transact_tables ProposalStep withdrawing s clean (withdrawing-frame.at s)
        (quiet refl refl refl) (withdrawing_step)
    where
      then_withdraw : CardProposal → Action Real Taxonomy CardProposal
      then_withdraw q =
          lift (require_submitter platform port user_id q)
          >> mark_card_proposal_withdrawn platform q.id now

      withdrawing : Action Real Taxonomy CardProposal
      withdrawing = fetch_pending_proposal platform port id >>= then_withdraw

      then_withdraw-frame : (q : CardProposal) → Steps SameCommitted (then_withdraw q)
      then_withdraw-frame q =
          search (steps_rules, withdrawn-frame platform port, SameCommitted-order) depth 8

      withdrawing-frame : Steps SameCommitted withdrawing
      withdrawing-frame =
          search (steps_rules, fetch_pending-frame, then_withdraw-frame, SameCommitted-order) depth
            8

      withdrawing_step :
          (a : CardProposal) (t : State Real Taxonomy)
          → withdrawing s ≡ (ok a, t)
          → ProposalStep s.tables t.tables
      withdrawing_step a t h =
          let fetch =
            bind-Returned (fetch_pending_proposal platform port id) then_withdraw s a t h in
          let f = fetched platform port id fetch.value s fetch.state fetch.first in
          let mine =
            bind-Returned (lift (require_submitter platform port user_id fetch.value))
              (λ _. mark_card_proposal_withdrawn platform fetch.value.id now) fetch.state a t
              fetch.second in
          let same : mine.state ≡ s =
            sym (lift-returned _ fetch.state mine.value mine.state mine.first).1 ∙ f.0 in
          decided_step platform port id fetch.value withdrawn none none now s t f.1 refl refl (
            marked platform port fetch.value.id withdrawn none none now a f.1.row s t
              (subst (λ k. get_row id_of k s.proposals ≡ some f.1.row) (sym f.1.same_id) f.1.there)
              (subst (λ u. mark_card_proposal_withdrawn platform fetch.value.id now u ≡ (ok a, t))
                same mine.second))

-- ===== src/KnowledgeGraph/Proposals/Submits.antt =====
-- Submitting refines the life of a proposal: one new pending row, or no change.
use hll.Prelude.{ℕ, String, ◌≡◌, refl, sym, subst, arith, Option, none, some}
use hll.Exec.{ok, lift, ◌>>=◌}
use hll.Exec.Steps.{Steps, Steps-pure, Steps-raise, steps_rules}
use hll.Exec.Returns.{bind-Returned, lift-returned}
use hll.KnowledgeGraph.Model.{
  missing_target, ProposalType, create, edit, delete, other, pending_review, CardVersion,
  ProposalPayload, CardProposal, Platform, State, Action, TaxonomyPort,
}
use hll.KnowledgeGraph.Repo.{add_proposal, create_card_proposal, fetch_card_version, snapshot_if}
use hll.KnowledgeGraph.Proposals.{
  build_proposal_payload, payload_for_target, Proposed, submit_card_proposal, normalize_reason,
}
use hll.KnowledgeGraph.Frames.{CardsOnly, CardsOnly-order}
use hll.KnowledgeGraph.Proposals.Atomic.{Clean, transact_tables}
use hll.KnowledgeGraph.Proposals.Lifecycle.{ProposalStep, quiet, submitted}
use hll.KnowledgeGraph.Proposals.Uncommitted.{
  SameCommitted, SameCommitted-order, build_payload-frame, create_card_proposal-frame,
}

module _ {Real Taxonomy : Type 0} (platform : Platform Real)
    (port : Option (TaxonomyPort Taxonomy)) where
  snapshot_if-CardsOnly :
      (v : Option CardVersion)
      → Steps (CardsOnly {Real = Real} {Taxonomy = Taxonomy}) (snapshot_if platform v)
  unfolding snapshot_if
  snapshot_if-CardsOnly none = Steps-pure CardsOnly-order none
  snapshot_if-CardsOnly (some v) = search (steps_rules, CardsOnly-order) depth 5

  target-CardsOnly :
      (type : ProposalType) (p : Proposed) (id version : Option ℕ)
      → Steps CardsOnly (payload_for_target platform port type p id version)
  unfolding payload_for_target fetch_card_version
  target-CardsOnly type p (some id) (some version) =
      search (steps_rules, snapshot_if-CardsOnly, CardsOnly-order) depth 8
  target-CardsOnly type p none version = Steps-raise CardsOnly-order missing_target
  target-CardsOnly type p (some id) none = Steps-raise CardsOnly-order missing_target

  payload-CardsOnly :
      (type : ProposalType) (p : Proposed) (reason : String)
      → Steps CardsOnly (build_proposal_payload platform port type p reason)
  unfolding build_proposal_payload
  payload-CardsOnly create p reason = search (steps_rules, CardsOnly-order) depth 6
  payload-CardsOnly edit p reason = search (steps_rules, target-CardsOnly, CardsOnly-order) depth 6
  payload-CardsOnly delete p reason =
      search (steps_rules, target-CardsOnly, CardsOnly-order) depth 6
  payload-CardsOnly (other type) p reason =
      search (steps_rules, target-CardsOnly, CardsOnly-order) depth 6

  created_step :
      (type : ProposalType) (user_id reason : String) (payload : ProposalPayload) (now : ℕ)
      (a : CardProposal) (s u t : State Real Taxonomy)
      → CardsOnly s u
      → create_card_proposal platform type user_id reason payload now u ≡ (ok a, t)
      → ProposalStep s.tables t.tables
  unfolding create_card_proposal add_proposal ◌>>=◌
  created_step type user_id reason payload now a s u t cards h =
      submitted
        (record {
          id = u.next_proposal_id;
          proposal_type = type;
          status = pending_review;
          submitted_by_user_id = user_id;
          reason = reason;
          reviewed_by_user_id = none;
          review_note = none;
          payload = payload;
          created_at = now;
          updated_at = now;
          reviewed_at = none;
        })
        cards.next_proposal_id refl (ground (arith, cards.proposals)) (ground (arith, cards.audits))
        (ground (arith, cards.next_proposal_id))

  -- From a clean state, submitting a proposal adds one pending row or changes no proposal.
  pub submit_card_proposal_refines :
      (type : ProposalType) (user_id : String) (p : Proposed) (reason : String) (now : ℕ)
      (s : State Real Taxonomy)
      → Clean s
      → ProposalStep s.tables
          (submit_card_proposal platform port type user_id p reason now s).1.tables
  unfolding submit_card_proposal
  submit_card_proposal_refines type user_id p reason now s clean =
      transact_tables ProposalStep submitting s clean (submitting-frame.at s) (quiet refl refl refl)
        submitting_step
    where
      then_create : String → ProposalPayload → Action Real Taxonomy CardProposal
      then_create normalized payload =
          create_card_proposal platform type user_id normalized payload now

      then_build : String → Action Real Taxonomy CardProposal
      then_build normalized =
          build_proposal_payload platform port type p normalized >>= then_create normalized

      submitting : Action Real Taxonomy CardProposal
      submitting = lift (normalize_reason platform (some reason)) >>= then_build

      then_build-frame : (normalized : String) → Steps SameCommitted (then_build normalized)
      then_build-frame normalized =
          search
            (
              steps_rules,
              build_payload-frame platform port,
              create_card_proposal-frame platform,
              SameCommitted-order,
            )
            depth 8

      submitting-frame : Steps SameCommitted submitting
      submitting-frame = search (steps_rules, then_build-frame, SameCommitted-order) depth 8

      submitting_step :
          (a : CardProposal) (t : State Real Taxonomy)
          → submitting s ≡ (ok a, t)
          → ProposalStep s.tables t.tables
      submitting_step a t h =
          let r =
            bind-Returned (lift (normalize_reason platform (some reason))) then_build s a t h in
          let b =
            bind-Returned (build_proposal_payload platform port type p r.value)
              (then_create r.value) s a t
              (subst (λ u. then_build r.value u ≡ (ok a, t))
                (sym (lift-returned _ s r.value r.state r.first).1) r.second) in
          created_step type user_id r.value b.value now a s b.state t
            (subst (λ x. CardsOnly s x.1) b.first ((payload-CardsOnly type p r.value).at s))
            b.second

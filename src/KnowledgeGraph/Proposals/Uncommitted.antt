-- ===== src/KnowledgeGraph/Proposals/Uncommitted.antt =====
-- Before `commit`, no method of KnowledgeGraphService writes the committed tables.
use hll.Prelude.{ℕ, String, ◌≡◌, refl, ◌∙◌, arith, Option, none, some}
use hll.Exec.Steps.{IsPreorder, Steps, Steps-pure, Steps-raise, steps_rules}
use hll.KnowledgeGraph.Model.{
  proposal_not_found, missing_target, ProposalType, create, edit, delete, other, ProposalStatus,
  CardVersion, ProposalPayload, CardProposal, Applied, Platform, State, Action, TaxonomyPort,
}
use hll.KnowledgeGraph.Repo.{
  add_proposal, create_card_proposal, create_card_suggested_edit, fetch_card_version,
  fetch_card_proposal, snapshot_if, record_if, transition_card_proposal,
  mark_card_proposal_accepted, mark_card_proposal_rejected, mark_card_proposal_withdrawn,
  create_proposal_apply_audit,
}
use hll.KnowledgeGraph.Proposals.{
  fetch_pending_proposal, record_or_missing, require_review_role, apply_and_record, apply_proposal,
  build_proposal_payload, payload_for_target, Proposed,
}
use hll.KnowledgeGraph.Frames.{CardsOnly, apply_proposal-CardsOnly}

module _ {Real Taxonomy : Type 0} where
  abbrev pub SameCommitted : State Real Taxonomy → State Real Taxonomy → Type 0
  SameCommitted s t = t.committed ≡ s.committed

  pub SameCommitted-order : IsPreorder SameCommitted
  SameCommitted-order = record { reflexive = λ s. refl; transitive = λ s t u h k. k ∙ h }

  pub frame_of_cards :
      {A : Type 0} (m : Action Real Taxonomy A) → Steps CardsOnly m → Steps SameCommitted m
  frame_of_cards m h = record { at = λ s. (h.at s).committed }

  module _ (platform : Platform Real) where
    add_proposal-frame :
        (type : ProposalType) (user_id reason : String) (payload : ProposalPayload) (now : ℕ)
        → Steps SameCommitted (add_proposal platform type user_id reason payload now)
    unfolding add_proposal
    add_proposal-frame type user_id reason payload now = record { at = λ s. ground arith }

    transition-frame :
        (id : ℕ) (status : ProposalStatus) (reviewer remark : Option String) (now : ℕ)
        → Steps SameCommitted (transition_card_proposal id status reviewer remark now)
    unfolding transition_card_proposal
    transition-frame id status reviewer remark now = record { at = λ s. ground arith }

    audit-frame :
        (id : ℕ) (reviewer : String) (type : ProposalType) (applied : Applied)
        (remark : Option String)
        → Steps SameCommitted (create_proposal_apply_audit id reviewer type applied remark)
    unfolding create_proposal_apply_audit
    audit-frame id reviewer type applied remark = record { at = λ s. refl }

    record_if-frame : (p : Option CardProposal) → Steps SameCommitted (record_if platform p)
    unfolding record_if
    record_if-frame none = Steps-pure SameCommitted-order none
    record_if-frame (some p) = search (steps_rules, SameCommitted-order) depth 5

    snapshot_if-frame : (v : Option CardVersion) → Steps SameCommitted (snapshot_if platform v)
    unfolding snapshot_if
    snapshot_if-frame none = Steps-pure SameCommitted-order none
    snapshot_if-frame (some v) = search (steps_rules, SameCommitted-order) depth 5

    record_or_missing-frame : (p : Option CardProposal) → Steps SameCommitted (record_or_missing p)
    record_or_missing-frame none = Steps-raise SameCommitted-order proposal_not_found
    record_or_missing-frame (some p) = search (steps_rules, SameCommitted-order) depth 5

    fetch_card_version-frame :
        (id version : ℕ) → Steps SameCommitted (fetch_card_version platform id version)
    unfolding fetch_card_version
    fetch_card_version-frame id version =
        search (steps_rules, snapshot_if-frame, SameCommitted-order) depth 6

    pub create_card_proposal-frame :
        (type : ProposalType) (user_id reason : String) (payload : ProposalPayload) (now : ℕ)
        → Steps SameCommitted (create_card_proposal platform type user_id reason payload now)
    unfolding create_card_proposal
    create_card_proposal-frame type user_id reason payload now =
        search (steps_rules, add_proposal-frame, SameCommitted-order) depth 6

    pub suggested_edit-frame :
        (id version : ℕ) (title content user_id reason : String) (now : ℕ)
        → Steps SameCommitted
            (create_card_suggested_edit platform id version title content user_id reason now)
    unfolding create_card_suggested_edit
    suggested_edit-frame id version title content user_id reason now =
        search (steps_rules, add_proposal-frame, SameCommitted-order) depth 6

    module _ (port : Option (TaxonomyPort Taxonomy)) where
      pub fetch_pending-frame :
          (id : ℕ) → Steps SameCommitted (fetch_pending_proposal platform port id)
      unfolding fetch_pending_proposal fetch_card_proposal
      fetch_pending-frame id =
          search (steps_rules, record_if-frame, record_or_missing-frame, SameCommitted-order) depth
            8

      pub require_review_role-frame :
          (user_id : String) → Steps SameCommitted (require_review_role platform port user_id)
      unfolding require_review_role
      require_review_role-frame user_id = record { at = λ s. ground arith }

      pub rejected-frame :
          (id : ℕ) (reviewer : String) (remark : Option String) (now : ℕ)
          → Steps SameCommitted (mark_card_proposal_rejected platform id reviewer remark now)
      unfolding mark_card_proposal_rejected
      rejected-frame id reviewer remark now =
          search (steps_rules, transition-frame, SameCommitted-order) depth 6

      pub withdrawn-frame :
          (id now : ℕ) → Steps SameCommitted (mark_card_proposal_withdrawn platform id now)
      unfolding mark_card_proposal_withdrawn
      withdrawn-frame id now = search (steps_rules, transition-frame, SameCommitted-order) depth 6

      accepted-frame :
          (id : ℕ) (reviewer : String) (remark : Option String) (now : ℕ)
          → Steps SameCommitted (mark_card_proposal_accepted platform id reviewer remark now)
      unfolding mark_card_proposal_accepted
      accepted-frame id reviewer remark now =
          search (steps_rules, transition-frame, SameCommitted-order) depth 6

      apply-frame :
          (type : ProposalType) (payload : ProposalPayload)
          → Steps SameCommitted (apply_proposal platform port type payload)
      apply-frame type payload =
          frame_of_cards _ (apply_proposal-CardsOnly platform port type payload)

      pub apply_and_record-frame :
          (reviewer : String) (remark : Option String) (now : ℕ) (p : CardProposal)
          → Steps SameCommitted (apply_and_record platform port reviewer remark now p)
      unfolding apply_and_record
      apply_and_record-frame reviewer remark now p =
          search (steps_rules, apply-frame, accepted-frame, audit-frame, SameCommitted-order) depth
            8

      payload_for_target-frame :
          (type : ProposalType) (p : Proposed) (id version : Option ℕ)
          → Steps SameCommitted (payload_for_target platform port type p id version)
      unfolding payload_for_target
      payload_for_target-frame type p (some id) (some version) =
          search (steps_rules, fetch_card_version-frame, SameCommitted-order) depth 6
      payload_for_target-frame type p none version = Steps-raise SameCommitted-order missing_target
      payload_for_target-frame type p (some id) none =
          Steps-raise SameCommitted-order missing_target

      pub build_payload-frame :
          (type : ProposalType) (p : Proposed) (reason : String)
          → Steps SameCommitted (build_proposal_payload platform port type p reason)
      unfolding build_proposal_payload
      build_payload-frame create p reason = search (steps_rules, SameCommitted-order) depth 6
      build_payload-frame edit p reason =
          search (steps_rules, payload_for_target-frame, SameCommitted-order) depth 6
      build_payload-frame delete p reason =
          search (steps_rules, payload_for_target-frame, SameCommitted-order) depth 6
      build_payload-frame (other type) p reason =
          search (steps_rules, payload_for_target-frame, SameCommitted-order) depth 6

-- ===== src/KnowledgeGraph/Proposals/Requests.antt =====
-- Any sequence of requests on proposals, each of which runs in a transaction of its own.
use hll.Prelude.{ℕ, String, ◌≡◌, Option, some, List, [], ◌∷◌}
use hll.Exec.{Result, ok, err, ◌>>=◌, ◌>>◌, lift}
use hll.Exec.Steps.{Steps, steps_rules}
use hll.SourcePipeline.Model.{get_row}
use hll.KnowledgeGraph.Model.{
  Error, ProposalType, CardProposal, Platform, State, Action, transact, TaxonomyPort,
}
use hll.KnowledgeGraph.Repo.{
  create_card_proposal, mark_card_proposal_rejected, mark_card_proposal_withdrawn,
}
use hll.KnowledgeGraph.Proposals.{
  fetch_pending_proposal, require_review_role, apply_and_record, require_submitter,
  build_proposal_payload, Proposed, accept_card_proposal, reject_card_proposal,
  withdraw_card_proposal, submit_card_proposal, normalize_reason,
}
use hll.KnowledgeGraph.Proposals.Atomic.{Clean, Settled, transact-Settled}
use hll.KnowledgeGraph.Proposals.Lifecycle.{
  ProposalStep, id_of, Kept, Kept-refl, Kept-trans, Audited, step-Audited, step-Kept,
}
use hll.KnowledgeGraph.Proposals.Uncommitted.{
  SameCommitted, SameCommitted-order, fetch_pending-frame, require_review_role-frame,
  rejected-frame, withdrawn-frame, apply_and_record-frame, build_payload-frame,
  create_card_proposal-frame,
}
use hll.KnowledgeGraph.Proposals.Refines.{
  accept_card_proposal_refines, reject_card_proposal_refines, withdraw_card_proposal_refines,
}
use hll.KnowledgeGraph.Proposals.Submits.{submit_card_proposal_refines}

pub data Request : Type 0 where
  accept : (id : ℕ) (reviewer : String) (remark : Option String) (now : ℕ) → Request
  reject : (id : ℕ) (reviewer : String) (remark : Option String) (now : ℕ) → Request
  withdraw : (id : ℕ) (user_id : String) (now : ℕ) → Request
  submit : ProposalType → (user_id : String) → Proposed → (reason : String) (now : ℕ) → Request

settled :
    {Real Taxonomy A : Type 0} {body : Action Real Taxonomy A}
    → Steps SameCommitted body
    → (s : State Real Taxonomy) → Clean s
    → Settled s (transact body s)
settled {Real} {Taxonomy} {A} {body} h s clean = transact-Settled body s clean (h.at s)

module _ {Real Taxonomy : Type 0} (platform : Platform Real)
    (port : Option (TaxonomyPort Taxonomy)) where
  abbrev pub answer : Request → Action Real Taxonomy CardProposal
  answer (accept id reviewer remark now) = accept_card_proposal platform port id reviewer remark now
  answer (reject id reviewer remark now) = reject_card_proposal platform port id reviewer remark now
  answer (withdraw id user_id now) = withdraw_card_proposal platform port id user_id now
  answer (submit type user_id p reason now) =
      submit_card_proposal platform port type user_id p reason now

  abbrev pub serve : List Request → State Real Taxonomy → State Real Taxonomy
  serve [] s = s
  serve (r ∷ rs) s = serve rs (answer r s).1

  accept-frame :
      (id : ℕ) (reviewer : String) (remark : Option String) (now : ℕ)
      → Steps SameCommitted (
          require_review_role platform port reviewer
          >> (fetch_pending_proposal platform port id
              >>= apply_and_record platform port reviewer remark now))
  accept-frame id reviewer remark now =
      search
        (
          steps_rules, require_review_role-frame, fetch_pending-frame, apply_and_record-frame,
          SameCommitted-order,
        )
        depth 8

  reject-frame :
      (id : ℕ) (reviewer : String) (remark : Option String) (now : ℕ)
      → Steps SameCommitted (
          fetch_pending_proposal platform port id >>= λ q.
          (require_review_role platform port reviewer
            >> mark_card_proposal_rejected platform q.id reviewer remark now))
  reject-frame id reviewer remark now =
      search
        (
          steps_rules,
          require_review_role-frame,
          fetch_pending-frame,
          rejected-frame platform port,
          SameCommitted-order,
        )
        depth 8

  withdraw-frame :
      (id : ℕ) (user_id : String) (now : ℕ)
      → Steps SameCommitted (
          fetch_pending_proposal platform port id >>= λ q.
          (lift (require_submitter platform port user_id q)
            >> mark_card_proposal_withdrawn platform q.id now))
  withdraw-frame id user_id now =
      search (steps_rules, fetch_pending-frame, withdrawn-frame platform port, SameCommitted-order)
        depth 8

  submit-frame :
      (type : ProposalType) (user_id : String) (p : Proposed) (reason : String) (now : ℕ)
      → Steps SameCommitted (
          lift (normalize_reason platform (some reason)) >>= λ r.
          build_proposal_payload platform port type p r >>= λ payload.
          create_card_proposal platform type user_id r payload now)
  submit-frame type user_id p reason now =
      search
        (
          steps_rules,
          build_payload-frame platform port,
          create_card_proposal-frame platform,
          SameCommitted-order,
        )
        depth 8

  -- From a clean state, a request that returns has committed all it did, and one that raises
  -- leaves the state as it was.
  pub answer-Settled : (r : Request) (s : State Real Taxonomy) → Clean s → Settled s (answer r s)
  unfolding accept_card_proposal reject_card_proposal withdraw_card_proposal submit_card_proposal
  answer-Settled (accept id reviewer remark now) s clean =
      settled (accept-frame id reviewer remark now) s clean
  answer-Settled (reject id reviewer remark now) s clean =
      settled (reject-frame id reviewer remark now) s clean
  answer-Settled (withdraw id user_id now) s clean = settled (withdraw-frame id user_id now) s clean
  answer-Settled (submit type user_id p reason now) s clean =
      settled (submit-frame type user_id p reason now) s clean

  still-Clean :
      (s : State Real Taxonomy) (r : Result Error CardProposal × State Real Taxonomy)
      → Clean s
      → Settled s r
      → Clean r.1
  still-Clean s (ok a, t) clean h = h
  still-Clean s (err e, t) clean h = cc

  -- From a clean state, every request is a step in the life of a proposal or changes none: a
  -- pending row is added, a pending row is rejected or withdrawn, or a pending row is accepted and
  -- one audit of it is added.
  pub answer_refines :
      (r : Request) (s : State Real Taxonomy)
      → Clean s
      → ProposalStep s.tables (answer r s).1.tables
  answer_refines (accept id reviewer remark now) s clean =
      accept_card_proposal_refines platform port id reviewer remark now s clean
  answer_refines (reject id reviewer remark now) s clean =
      reject_card_proposal_refines platform port id reviewer remark now s clean
  answer_refines (withdraw id user_id now) s clean =
      withdraw_card_proposal_refines platform port id user_id now s clean
  answer_refines (submit type user_id p reason now) s clean =
      submit_card_proposal_refines platform port type user_id p reason now s clean

  -- From a clean state in which every applied proposal has one audit and every other has none, any
  -- sequence of requests leads to such a state.
  pub serve-Audited :
      (rs : List Request) (s : State Real Taxonomy)
      → Clean s
      → Audited s.tables
      → Clean (serve rs s) × Audited (serve rs s).tables
  serve-Audited [] s clean audited = (clean, audited)
  serve-Audited (r ∷ rs) s clean audited =
      serve-Audited rs (answer r s).1 (still-Clean s (answer r s) clean (answer-Settled r s clean))
        (step-Audited s.tables (answer r s).1.tables (answer_refines r s clean) audited)

  -- Through any sequence of requests from a clean state, a proposal keeps its type, submitter,
  -- reason and payload, and one that is not pending stays as it is in all its columns.
  pub serve-Kept :
      (rs : List Request) (s : State Real Taxonomy) (id : ℕ) (p : CardProposal)
      → Clean s
      → get_row id_of id s.proposals ≡ some p
      → (q : CardProposal) × (get_row id_of id (serve rs s).proposals ≡ some q) × Kept p q
  serve-Kept [] s id p clean there = (p, there, Kept-refl p)
  serve-Kept (r ∷ rs) s id p clean there =
      let (q, at, kept) =
        step-Kept s.tables (answer r s).1.tables id p (answer_refines r s clean) there in
      let (q2, at2, kept2) =
        serve-Kept rs (answer r s).1 id q
          (still-Clean s (answer r s) clean (answer-Settled r s clean)) at in
      (q2, at2, Kept-trans p q q2 kept kept2)

-- ===== src/KnowledgeGraph/Frames.antt =====
-- What a method of the card store leaves alone: writes to cards, versions, edges and the taxonomy
-- leave the proposals and their audits, and nothing but `commit` writes the committed tables.
use hll.Prelude.{ℕ, String, ◌≡◌, refl, ◌∙◌, arith, Option, none, some, List}
use hll.Exec.{Exec, modify}
use hll.Exec.Steps.{IsPreorder, Steps, Steps-pure, Steps-raise, steps_rules}
use hll.KnowledgeGraph.Model.{
  Error, unsupported_type, ProposalType, create, edit, delete, other, Node, Adjacency, CardVersion,
  ProposalPayload, Platform, State, TaxonomyPort, in_taxonomy,
}
use hll.KnowledgeGraph.Repo.{
  add_version, add_node, create_node, write_node, bump_version, create_next_card_version,
  archive_node, archived_if_active,
}
use hll.KnowledgeGraph.Repo.Edges.{add_edge, add_adjacency}
use hll.KnowledgeGraph.Proposals.{
  apply_proposal, apply_create_proposal, apply_edit_proposal, apply_delete_proposal, assign_if_port,
}

module _ {Real Taxonomy : Type 0} where
  pub record CardsOnly (s t : State Real Taxonomy) : Type 0 where
    pub proposals : t.proposals ≡ s.proposals
    pub audits : t.audits ≡ s.audits
    pub next_proposal_id : t.next_proposal_id ≡ s.next_proposal_id
    pub committed : t.committed ≡ s.committed

  pub CardsOnly-order : IsPreorder CardsOnly
  CardsOnly-order = record {
    reflexive =
        λ s. record { proposals = refl; audits = refl; next_proposal_id = refl; committed = refl };
    transitive = λ s t u h k. record {
      proposals = k.proposals ∙ h.proposals;
      audits = k.audits ∙ h.audits;
      next_proposal_id = k.next_proposal_id ∙ h.next_proposal_id;
      committed = k.committed ∙ h.committed;
    };
  }

  same :
      (s t : State Real Taxonomy)
      → t.proposals ≡ s.proposals
      → t.audits ≡ s.audits
      → t.next_proposal_id ≡ s.next_proposal_id
      → t.committed ≡ s.committed
      → CardsOnly s t
  same s t a b c d = record { proposals = a; audits = b; next_proposal_id = c; committed = d }

  pub add_version-CardsOnly : (v : CardVersion) → Steps CardsOnly (add_version v)
  unfolding add_version
  add_version-CardsOnly v = record {
    at = λ s. same s _ (ground arith) (ground arith) (ground arith) (ground arith);
  }

  pub add_node-CardsOnly :
      (title content : String) (embedding : List Real)
      → Steps CardsOnly (add_node title content embedding)
  unfolding add_node
  add_node-CardsOnly title content embedding = record { at = λ s. same s _ refl refl refl refl }

  pub write_node-CardsOnly :
      (id : ℕ) (f : Node Real → Node Real) → Steps CardsOnly (modify {E = Error} (write_node id f))
  unfolding write_node
  write_node-CardsOnly id f = record { at = λ s. same s _ refl refl refl refl }

  pub in_taxonomy-CardsOnly :
      {A : Type 0} (call : Exec Error Taxonomy A) → Steps CardsOnly (in_taxonomy call)
  unfolding in_taxonomy
  in_taxonomy-CardsOnly call = record { at = λ s. same s _ refl refl refl refl }

  pub add_edge-CardsOnly :
      (pair : ℕ × ℕ) (strength : Real) → Steps CardsOnly (add_edge pair strength)
  unfolding add_edge
  add_edge-CardsOnly pair strength = record {
    at = λ s. same s _ (ground arith) (ground arith) (ground arith) (ground arith);
  }

  pub add_adjacency-CardsOnly : (rows : List Adjacency) → Steps CardsOnly (add_adjacency rows)
  unfolding add_adjacency
  add_adjacency-CardsOnly rows = record { at = λ s. same s _ refl refl refl refl }

  ruleset writes = (
    add_version-CardsOnly, add_node-CardsOnly, write_node-CardsOnly, in_taxonomy-CardsOnly,
    add_edge-CardsOnly, add_adjacency-CardsOnly,
  )

  pub create_node-CardsOnly :
      (title content : String) (embedding : List Real)
      → Steps CardsOnly (create_node title content embedding)
  unfolding create_node
  create_node-CardsOnly title content embedding =
      search (steps_rules, writes, CardsOnly-order) depth 8

  bump_version-CardsOnly :
      (title content : String) (embedding : List Real) (n : Option (Node Real))
      → Steps CardsOnly (bump_version title content embedding n)
  unfolding bump_version
  bump_version-CardsOnly title content embedding none =
      search (steps_rules, CardsOnly-order) depth 4
  bump_version-CardsOnly title content embedding (some n) =
      search (steps_rules, writes, CardsOnly-order) depth 8

  create_next_card_version-CardsOnly :
      (id : ℕ) (title content : String) (embedding : List Real)
      → Steps CardsOnly (create_next_card_version id title content embedding)
  unfolding create_next_card_version
  create_next_card_version-CardsOnly id title content embedding =
      search (steps_rules, bump_version-CardsOnly, CardsOnly-order) depth 6

  archive_node-CardsOnly : (id : ℕ) → Steps CardsOnly (archive_node id)
  unfolding archive_node
  archive_node-CardsOnly id = write_node-CardsOnly id archived_if_active

  pub assign_if_port-CardsOnly :
      (port : Option (TaxonomyPort Taxonomy)) (id : ℕ) → Steps (CardsOnly) (assign_if_port port id)
  unfolding assign_if_port
  assign_if_port-CardsOnly none id = Steps-pure CardsOnly-order tt
  assign_if_port-CardsOnly (some p) id = search (steps_rules, writes, CardsOnly-order) depth 6

  module _ (platform : Platform Real) (port : Option (TaxonomyPort Taxonomy)) where
    -- Applying a proposal writes neither proposals nor audits.
    pub apply_proposal-CardsOnly :
        (type : ProposalType) (payload : ProposalPayload)
        → Steps CardsOnly (apply_proposal platform port type payload)
    unfolding apply_proposal apply_create_proposal apply_edit_proposal apply_delete_proposal
    apply_proposal-CardsOnly create payload =
        search (steps_rules, create_node-CardsOnly, assign_if_port-CardsOnly, CardsOnly-order) depth
          12
    apply_proposal-CardsOnly edit payload =
        search (steps_rules, create_next_card_version-CardsOnly, CardsOnly-order) depth 12
    apply_proposal-CardsOnly delete payload =
        search (steps_rules, archive_node-CardsOnly, CardsOnly-order) depth 8
    apply_proposal-CardsOnly (other type) payload = Steps-raise CardsOnly-order unsupported_type

-- ===== src/KnowledgeGraph/Repo.antt =====
-- The cards, versions, proposals and roles of modules/knowledge_graph/repo.py.
-- Rows stand in the order of their primary keys, so the first row found is the one of `limit(1)`.
pub mod Edges
use hll.Prelude.{
  ℕ, zero, ◌+◌, String, Bool, true, false, not, ◌&&◌, ◌||◌, Option, none, some, List, [], ◌∷◌, ◌++◌,
  ◌==◌, str_eq, if◌then◌else◌, is_none, find, filter, any, ltb, leb, sort,
}
use hll.Exec.{Result, ok, err, pure, raise, lift, gets, modify, ◌>>=◌, ◌>>◌}
use hll.SourcePipeline.Model.{get_row, update_row}
use hll.KnowledgeGraph.Model.{
  Error, card_version_not_found, no_change, proposal_not_found, invalid_state, permission,
  missing_reason, missing_target, missing_create_text, missing_edit_text, unsupported_type,
  missing_payload, missing_embedding_client, missing_target_node, missing_proposal, equal_endpoints,
  integrity_error, validation_error, top_k_too_small, limit_too_small, client_error, LifecycleState,
  active, archived, ProposalType, create, edit, delete, other, ProposalStatus, pending_review,
  accepted_applied, rejected, withdrawn, is_active, is_pending, is_accepted, Node, Edge,
  SimilarNodeCandidate, PlannedEdge, Adjacency, CardVersion, WorkspaceRole, ProposalPayload,
  no_payload, CardProposal, CardSuggestedEditRecord, Applied, ProposalApplyAudit, Platform, Tables,
  State, Action, commit, rollback, transact, blank,
}

-- The record of a row: pydantic strips the texts and refuses blank ones.
module _ {Real : Type 0} (platform : Platform Real) where
  abbrev pub optional_blank : Option String → Bool
  optional_blank none = false
  optional_blank (some text) = blank platform text

  abbrev pub optional_strip : Option String → Option String
  optional_strip none = none
  optional_strip (some text) = some (platform.strip text)

  unfoldable pub proposal_record : CardProposal → Result Error CardProposal
  proposal_record p =
      if ltb 0 p.id
        && not (blank platform p.reason)
        && not (blank platform p.submitted_by_user_id)
        && not (optional_blank p.reviewed_by_user_id)
      then ok (record p {
        reason = platform.strip p.reason;
        submitted_by_user_id = platform.strip p.submitted_by_user_id;
        reviewed_by_user_id = optional_strip p.reviewed_by_user_id;
      })
      else err validation_error

  unfoldable pub version_snapshot : CardVersion → Result Error CardVersion
  version_snapshot v =
      if ltb 0 v.node_id
        && ltb 0 v.version
        && not (blank platform v.title)
        && not (blank platform v.content)
      then ok (record v { title = platform.strip v.title; content = platform.strip v.content })
      else err validation_error

  unfoldable pub records_of : List CardProposal → Result Error (List CardProposal)
  unfolding proposal_record
  records_of [] = ok []
  records_of (p ∷ ps) =
      let rest = records_of ps in
      elim (proposal_record p) [
        | err e ↦ err e
        | ok r ↦ elim rest [ err e ↦ err e | ok rs ↦ ok (r ∷ rs) ]
      ]

abbrev pub is_version : ℕ → ℕ → CardVersion → Bool
is_version node_id version v = v.node_id == node_id && v.version == version

unfoldable pub snapshot_if :
    {Real Taxonomy : Type 0}
    → Platform Real
    → Option CardVersion
    → Action Real Taxonomy (Option CardVersion)
unfolding version_snapshot ◌>>=◌
snapshot_if platform none = pure none
snapshot_if platform (some v) = lift (version_snapshot platform v) >>= λ r. pure (some r)

unfoldable pub record_if :
    {Real Taxonomy : Type 0}
    → Platform Real
    → Option CardProposal
    → Action Real Taxonomy (Option CardProposal)
unfolding proposal_record ◌>>=◌
record_if platform none = pure none
record_if platform (some p) = lift (proposal_record platform p) >>= λ r. pure (some r)

-- The check constraints of card_proposals.
abbrev pub storable : {Real : Type 0} → Platform Real → ProposalType → String → Bool
storable platform (other type) reason = false
storable platform create reason = not (blank platform reason)
storable platform edit reason = not (blank platform reason)
storable platform delete reason = not (blank platform reason)

abbrev pub with_status :
    ProposalStatus → Option String → Option String → ℕ → CardProposal → CardProposal
with_status status reviewer note now p = record p {
  status = status;
  reviewed_by_user_id = reviewer;
  review_note = note;
  reviewed_at = some now;
  updated_at = now;
}

abbrev pub proposal_at : {Real Taxonomy : Type 0} → ℕ → State Real Taxonomy → Option CardProposal
proposal_at id s = get_row (λ (p : CardProposal). p.id) id s.proposals

abbrev pub node_at : {Real Taxonomy : Type 0} → ℕ → State Real Taxonomy → Option (Node Real)
node_at id s = get_row (λ n. n.id) id s.nodes

module _ {Real : Type 0} where
  abbrev pub next_version : String → String → List Real → Node Real → Node Real
  next_version title content embedding n = record n {
    title = title;
    content = content;
    embedding = embedding;
    current_version = n.current_version + 1;
  }

  abbrev pub active_node : Option (Node Real) → Option (Node Real)
  active_node none = none
  active_node (some n) = if is_active n.lifecycle_state then some n else none

  abbrev pub archived_if_active : Node Real → Node Real
  archived_if_active n =
      if is_active n.lifecycle_state then record n { lifecycle_state = archived } else n

module _ {Real Taxonomy : Type 0} where
  -- A row of card_versions, whose pair of node and version is unique.
  unfoldable pub add_version : CardVersion → Action Real Taxonomy Unit
  add_version v s =
      if any (is_version v.node_id v.version) s.card_versions then (err integrity_error, s) else (
        ok tt,
        record s { tables = record s.tables { card_versions = s.card_versions ++ v ∷ [] } },
      )

  unfoldable pub add_node : String → String → List Real → Action Real Taxonomy ℕ
  add_node title content embedding s = (
    ok s.next_node_id,
    record s {
      tables = record s.tables {
        nodes =
            s.nodes
            ++ record {
              id = s.next_node_id;
              title = title;
              content = content;
              current_version = 1;
              embedding = embedding;
              lifecycle_state = active;
            }
              ∷ [];
        next_node_id = s.next_node_id + 1;
      };
    },
  )

  unfoldable pub create_node : String → String → List Real → Action Real Taxonomy ℕ
  unfolding add_node add_version ◌>>=◌
  create_node title content embedding = add_node title content embedding >>= λ id.
      (add_version (record { node_id = id; version = 1; title = title; content = content }))
      >> pure id

  unfoldable pub fetch_card_version :
      Platform Real → ℕ → ℕ → Action Real Taxonomy (Option CardVersion)
  unfolding ◌>>=◌
  fetch_card_version platform node_id version =
      gets (λ s. find (is_version node_id version) s.card_versions) >>= snapshot_if platform

  unfoldable pub add_proposal :
      Platform Real
      → ProposalType
      → String
      → String
      → ProposalPayload
      → ℕ
      → Action Real Taxonomy CardProposal
  add_proposal platform type user_id reason payload now s =
      let row : CardProposal = record {
        id = s.next_proposal_id;
        proposal_type = type;
        status = pending_review;
        submitted_by_user_id = user_id;
        reason = reason;
        reviewed_by_user_id = none;
        review_note = none;
        payload = payload;
        created_at = now;
        updated_at = now;
        reviewed_at = none;
      } in
      if storable platform type reason
      then (
        ok row,
        record s {
          tables = record s.tables {
            proposals = s.proposals ++ row ∷ [];
            next_proposal_id = s.next_proposal_id + 1;
          };
        },
      )
      else (err integrity_error, s)

  unfoldable pub create_card_suggested_edit :
      Platform Real
      → ℕ
      → ℕ
      → String
      → String
      → String
      → String
      → ℕ
      → Action Real Taxonomy CardSuggestedEditRecord
  unfolding add_proposal ◌>>=◌
  create_card_suggested_edit platform node_id base_version title content user_id reason now =
      add_proposal platform edit user_id reason
        (record no_payload {
          target_node_id = some node_id;
          base_version = some base_version;
          suggested_title = some title;
          suggested_content = some content;
        })
        now
      >>= λ proposal.
          if ltb 0 proposal.id
            && ltb 0 node_id
            && ltb 0 base_version
            && not (blank platform title)
            && not (blank platform content)
            && not (blank platform user_id)
          then pure (record {
            id = proposal.id;
            node_id = node_id;
            base_version = base_version;
            suggested_title = platform.strip title;
            suggested_content = platform.strip content;
            suggested_by_user_id = platform.strip user_id;
            created_at = proposal.created_at;
          })
          else raise validation_error

  unfoldable pub create_card_proposal :
      Platform Real
      → ProposalType
      → String
      → String
      → ProposalPayload
      → ℕ
      → Action Real Taxonomy CardProposal
  unfolding add_proposal proposal_record ◌>>=◌
  create_card_proposal platform type user_id reason payload now =
      add_proposal platform type user_id reason payload now >>= λ row.
      lift (proposal_record platform row)

  unfoldable pub fetch_card_proposal :
      Platform Real → ℕ → Action Real Taxonomy (Option CardProposal)
  unfolding ◌>>=◌
  fetch_card_proposal platform id = gets (proposal_at id) >>= record_if platform

  unfoldable pub list_card_proposals_for_user :
      Platform Real → String → Action Real Taxonomy (List CardProposal)
  unfolding records_of sort ◌>>=◌
  list_card_proposals_for_user platform user_id = gets (λ s. s.proposals) >>= λ rows.
      (lift (
        records_of platform (
          sort
            (λ a b. ltb b.created_at a.created_at || a.created_at == b.created_at && leb b.id a.id)
            (filter (λ p. str_eq p.submitted_by_user_id user_id) rows))))

  unfoldable pub list_pending_card_proposals :
      Platform Real → Action Real Taxonomy (List CardProposal)
  unfolding records_of sort ◌>>=◌
  list_pending_card_proposals platform = gets (λ s. s.proposals) >>= λ rows.
      (lift (
        records_of platform (
          sort
            (λ a b. ltb a.created_at b.created_at || a.created_at == b.created_at && leb a.id b.id)
            (filter (λ p. is_pending p.status) rows))))

  unfoldable pub has_active_workspace_review_role : String → State Real Taxonomy → Bool
  has_active_workspace_review_role user_id s =
      any
        (λ (r : WorkspaceRole).
          str_eq r.user_id user_id
          && (str_eq r.role "reviewer" || str_eq r.role "admin")
          && is_none r.revoked_at)
        s.roles

  unfoldable pub write_node :
      ℕ → (Node Real → Node Real) → State Real Taxonomy → State Real Taxonomy
  unfolding update_row
  write_node id f s = record s {
    tables = record s.tables { nodes = update_row (λ n. n.id) id f s.nodes };
  }

  unfoldable pub bump_version :
      String → String → List Real → Option (Node Real) → Action Real Taxonomy ℕ
  unfolding add_version ◌>>=◌
  bump_version title content embedding none = raise missing_target_node
  bump_version title content embedding (some n) =
      modify (write_node n.id (next_version title content embedding))
      >> add_version (record {
        node_id = n.id;
        version = n.current_version + 1;
        title = title;
        content = content;
      })
      >> pure (n.current_version + 1)

  unfoldable pub create_next_card_version : ℕ → String → String → List Real → Action Real Taxonomy ℕ
  unfolding bump_version ◌>>=◌
  create_next_card_version node_id title content embedding =
      gets (λ s. active_node (node_at node_id s)) >>= bump_version title content embedding

  unfoldable pub archive_node : ℕ → Action Real Taxonomy Unit
  archive_node node_id = modify (write_node node_id archived_if_active)

  unfoldable pub transition_card_proposal :
      ℕ → ProposalStatus → Option String → Option String → ℕ → Action Real Taxonomy CardProposal
  unfolding update_row
  transition_card_proposal id status reviewer note now s = elim (proposal_at id s) [
    | none ↦ (err missing_proposal, s)
    | some p ↦ (
      ok (with_status status reviewer note now p),
      record s {
        tables = record s.tables {
          proposals =
              update_row (λ (p : CardProposal). p.id) id (with_status status reviewer note now)
                s.proposals;
        };
      },
    )
  ]

  unfoldable pub mark_card_proposal_accepted :
      Platform Real → ℕ → String → Option String → ℕ → Action Real Taxonomy CardProposal
  unfolding transition_card_proposal proposal_record ◌>>=◌
  mark_card_proposal_accepted platform id reviewer note now =
      transition_card_proposal id accepted_applied (some reviewer) note now >>= λ p.
      lift (proposal_record platform p)

  unfoldable pub mark_card_proposal_rejected :
      Platform Real → ℕ → String → Option String → ℕ → Action Real Taxonomy CardProposal
  unfolding transition_card_proposal proposal_record ◌>>=◌
  mark_card_proposal_rejected platform id reviewer note now =
      transition_card_proposal id rejected (some reviewer) note now >>= λ p.
      lift (proposal_record platform p)

  unfoldable pub mark_card_proposal_withdrawn :
      Platform Real → ℕ → ℕ → Action Real Taxonomy CardProposal
  unfolding transition_card_proposal proposal_record ◌>>=◌
  mark_card_proposal_withdrawn platform id now =
      transition_card_proposal id withdrawn none none now >>= λ p. lift (proposal_record platform p)

  unfoldable pub create_proposal_apply_audit :
      ℕ → String → ProposalType → Applied → Option String → Action Real Taxonomy Unit
  create_proposal_apply_audit id reviewer type applied note = modify (λ s. record s {
    tables = record s.tables {
      audits =
          s.audits
          ++ record {
            proposal_id = id;
            reviewer_user_id = reviewer;
            proposal_type = type;
            applied = applied;
            review_note = note;
          }
            ∷ [];
    };
  })

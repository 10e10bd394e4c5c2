-- ===== src/Classification/Results.antt =====
-- modules/taxonomy_classification/runtime.py: results of classification jobs, and the moves of cards.
-- The time of a tick stands for the `datetime.now` of a move, too.
pub mod Moves
use hll.Prelude.{
  ℕ, zero, suc, ◌+◌, ◌-◌, String, Bool, true, false, not, ◌&&◌, ◌||◌, Option, none, some, List, [],
  ◌∷◌, ◌++◌, str_eq, ltb, leb, ◌==◌, if◌then◌else◌, is_none, is_some, find, filter, any, take, sort,
  length,
}
use hll.Exec.{Result, ok, err, pure, raise, lift, gets, modify, ◌>>=◌, ◌>>◌, for_each, try_except}
use hll.SourcePipeline.Model.{get_row, update_row}
use hll.KnowledgeGraph.Model.{TaxonomyScopeIdentity}
use hll.Classification.Model.{
  Error, value_error, runtime_error, key_error, TaxonomyNode, TaxonomyClassificationJob,
  ContinuationRequest, ProjectionRefreshRequest, ResultReadItem, Call, get_results, Services, State,
  Action, write_job, same_scope,
}
use hll.Classification.Taxonomy.{
  unclassified_node_name, assignment_row, scope_identities_of, set_current_assignment,
}

abbrev pub max_result_read_batch_size : ℕ
max_result_read_batch_size = 1000

abbrev pub is_terminal_non_accepted : Option String → Bool
is_terminal_non_accepted none = false
is_terminal_non_accepted (some state) =
    str_eq state "CANCELLED"
    || (str_eq state "DEAD_LETTER" || (str_eq state "FAILED" || str_eq state "EXPIRED"))

abbrev pub drop {ℓ} : {A : Type ℓ} → ℕ → List A → List A
drop zero xs = xs
drop (suc n) [] = []
drop (suc n) (x ∷ xs) = drop n xs

-- `_chunks`: a slice from each start in `range(0, len(items), size)`; each start takes one of the fuel.
unfoldable pub slices : {A : Type 0} → ℕ → ℕ → List A → List (List A)
slices zero size items = []
slices (suc fuel) size [] = []
slices (suc fuel) size (x ∷ xs) = take size (x ∷ xs) ∷ slices fuel size (drop size (x ∷ xs))

unfoldable pub chunks : {A : Type 0} → List A → ℕ → List (List A)
unfolding slices
chunks items size = slices (length items) size items

-- `list(dict.fromkeys(ids))`: the first of each stays.
unfoldable pub unique_from : List ℕ → List ℕ → List ℕ
unique_from seen [] = []
unique_from seen (x ∷ xs) =
    let without = unique_from seen xs in
    let with_it = x ∷ unique_from (x ∷ seen) xs in
    if any (λ y. y == x) seen then without else with_it

-- `_validate_result_items`, after the test of the lengths
abbrev pub items_match : ℕ → List ResultReadItem → List ℕ → Bool
items_match index [] ids = true
items_match index (item ∷ items) [] = false
items_match index (item ∷ items) (id ∷ ids) =
    item.index == index && (item.job_id == id && items_match (suc index) items ids)

unfoldable pub validate_result_items : List ResultReadItem → List ℕ → Result Error Unit
validate_result_items items ids =
    if not (length items == length ids)
    then err (value_error "length")
    else (if items_match 0 items ids then ok tt else err (value_error "indexes"))

-- The dictionary by job id; the last item of an id stays.
unfoldable pub item_of : ℕ → List ResultReadItem → Option ResultReadItem
item_of id [] = none
item_of id (item ∷ items) = elim (item_of id items) [
  | some found ↦ some found
  | none ↦ (if item.job_id == id then some item else none)
]

abbrev pub required_item : ℕ → List ResultReadItem → Result Error ResultReadItem
required_item id items = elim (item_of id items) [ none ↦ err key_error | some item ↦ ok item ]

-- `_accepted_result_from_item`: the raw result
unfoldable pub accepted_result_from_item : ResultReadItem → Result Error String
accepted_result_from_item item =
    if not (str_eq item.status "ready")
    then err (value_error "not ready")
    else elim item.result_payload [
      | none ↦ err (value_error "missing fields")
      | some text ↦ ok text
    ]

abbrev pub ready_item : Result Error ResultReadItem → Result Error ResultReadItem
ready_item (err e) = err e
ready_item (ok item) =
    if not (str_eq item.status "ready") then err (value_error "accepted but not ready") else ok item

unfoldable pub require_ready_result_item : ℕ → List ResultReadItem → Result Error ResultReadItem
unfolding item_of
require_ready_result_item job_id items = ready_item (required_item job_id items)

unfoldable pub mark_job_terminal : ℕ → String → ℕ → Action Unit
unfolding write_job
mark_job_terminal id terminal_state now =
    write_job id (λ j. record j { terminal_state = some terminal_state; updated_at = now })

unfoldable pub mark_job_processed_error : ℕ → Error → ℕ → Action Unit
unfolding write_job
mark_job_processed_error id e now =
    write_job id (λ j. record j { processed_at = some now; last_error = some e; updated_at = now })

-- `insert … on_conflict_do_update` on the scope and the card
unfoldable pub record_continuation_request : ℕ → ℕ → ℕ → ℕ → Action Unit
unfolding update_row
record_continuation_request scope_node_id node_id source_job_id now s =
    elim (find
      (λ (r : ContinuationRequest). r.scope_node_id == scope_node_id && r.node_id == node_id)
      s.continuations) [
        | some existing ↦ (
          ok tt,
          record s {
            tables = record s.tables {
              continuations =
                  update_row (λ r. r.id) existing.id
                    (λ r. record r {
                      source_job_id = source_job_id;
                      last_error = none;
                      updated_at = now;
                    })
                    s.continuations;
            };
          },
        )
        | none ↦ (
          ok tt,
          record s {
            tables = record s.tables {
              continuations =
                  s.continuations
                  ++ record {
                    id = s.next_continuation_id;
                    scope_node_id = scope_node_id;
                    node_id = node_id;
                    source_job_id = source_job_id;
                    next_job_id = none;
                    last_error = none;
                    updated_at = now;
                  }
                    ∷ [];
              next_continuation_id = s.next_continuation_id + 1;
            };
          },
        )
      ]

-- The rows of refresh requests have the scope as their primary key.
abbrev pub refresh_again : ℕ → ProjectionRefreshRequest → ProjectionRefreshRequest
refresh_again now r = record r { last_error = none; updated_at = now }

unfoldable pub update_refresh :
    TaxonomyScopeIdentity
    → (ProjectionRefreshRequest → ProjectionRefreshRequest)
    → List ProjectionRefreshRequest
    → List ProjectionRefreshRequest
update_refresh scope f [] = []
update_refresh scope f (r ∷ rows) =
    let rest = update_refresh scope f rows in
    if same_scope r.scope scope then f r ∷ rest else r ∷ rest

unfoldable pub upsert_refresh :
    ℕ → TaxonomyScopeIdentity → List ProjectionRefreshRequest → List ProjectionRefreshRequest
unfolding update_refresh
upsert_refresh now scope rows =
    if any (λ (r : ProjectionRefreshRequest). same_scope r.scope scope) rows
    then update_refresh scope (refresh_again now) rows
    else rows ++ record { scope = scope; last_error = none; updated_at = now } ∷ []

-- The statement's rows, the scopes of a set in order.
unfoldable pub upsert_refreshes :
    ℕ → List TaxonomyScopeIdentity → List ProjectionRefreshRequest → List ProjectionRefreshRequest
unfolding upsert_refresh
upsert_refreshes now [] rows = rows
upsert_refreshes now (scope ∷ scopes) rows =
    upsert_refreshes now scopes (upsert_refresh now scope rows)

module _ (svc : Services) where
  -- the key `(scope_kind, taxonomy_node_id)`
  abbrev pub scope_key_le : TaxonomyScopeIdentity → TaxonomyScopeIdentity → Bool
  scope_key_le a b =
      not (svc.text_le b.scope_kind a.scope_kind)
      || svc.text_le a.scope_kind b.scope_kind && leb a.taxonomy_node_id b.taxonomy_node_id

  abbrev pub distinct_scopes : List TaxonomyScopeIdentity → List TaxonomyScopeIdentity
  distinct_scopes [] = []
  distinct_scopes (x ∷ xs) =
      let rest = distinct_scopes xs in if any (same_scope x) xs then rest else x ∷ rest

  unfoldable pub record_projection_refresh_requests : List TaxonomyScopeIdentity → ℕ → Action Unit
  unfolding sort upsert_refreshes
  record_projection_refresh_requests scopes now = modify (λ s. record s {
    tables = record s.tables {
      refreshes = upsert_refreshes now (sort scope_key_le (distinct_scopes scopes)) s.refreshes;
    };
  })

  unfoldable pub read_results : List ℕ → Action (List ResultReadItem)
  read_results ids s = (svc.results s.calls ids, record s { calls = get_results ids ∷ s.calls })

  unfoldable pub read_batches : List (List ℕ) → List ResultReadItem → Action (List ResultReadItem)
  unfolding read_results validate_result_items ◌>>=◌
  read_batches [] found = pure found
  read_batches (batch ∷ batches) found = read_results batch >>= λ items.
      (lift (validate_result_items items batch) >> read_batches batches (found ++ items))

  unfoldable pub result_items_by_job_id : List ℕ → Action (List ResultReadItem)
  unfolding unique_from chunks read_batches
  result_items_by_job_id ids =
      read_batches (chunks (unique_from [] ids) max_result_read_batch_size) []

  abbrev pub is_child_named : ℕ → String → TaxonomyNode → Bool
  is_child_named parent_id name n =
      elim n.parent_id [ none ↦ false | some p ↦ p == parent_id ]
      && str_eq (svc.db_lower n.name) (svc.lower name)

  abbrev pub child_named : ℕ → String → List TaxonomyNode → Result Error ℕ
  child_named parent_id name nodes = elim (find (is_child_named parent_id name) nodes) [
    | none ↦ err (value_error "unknown child target")
    | some child ↦ ok child.id
  ]

  -- From the name of a valid result.
  unfoldable pub resolve_target_taxonomy_node_id : ℕ → String → List TaxonomyNode → Result Error ℕ
  resolve_target_taxonomy_node_id scope_node_id target_name nodes =
      let target = svc.strip target_name in
      if str_eq (svc.casefold target) (svc.casefold unclassified_node_name)
      then ok scope_node_id
      else child_named scope_node_id target nodes

  unfoldable pub move_assignment : ℕ → ℕ → ℕ → ℕ → Action Unit
  unfolding scope_identities_of set_current_assignment record_projection_refresh_requests
      record_continuation_request ◌>>=◌
  move_assignment node_id source_job_id target now =
      gets (scope_identities_of node_id) >>= λ previous.
      set_current_assignment node_id target now >>= λ _.
      gets (scope_identities_of node_id) >>= λ current.
      (record_projection_refresh_requests (previous ++ current) now
        >> record_continuation_request target node_id source_job_id now)

  unfoldable pub keep_assignment : ℕ → ℕ → Action Unit
  unfolding scope_identities_of record_projection_refresh_requests ◌>>=◌
  keep_assignment node_id now = gets (scope_identities_of node_id) >>= λ previous.
      record_projection_refresh_requests previous now

  unfoldable pub move_assignment_if_needed : ℕ → ℕ → ℕ → ℕ → ℕ → Action Unit
  unfolding move_assignment keep_assignment
  move_assignment_if_needed node_id source_job_id source target now s =
      elim (assignment_row node_id s) [
        | none ↦ (err (value_error "card assignment is missing"), s)
        | some a ↦
            (if not (a.taxonomy_node_id == source)
                then raise (value_error "assignment moved away")
                else (if a.taxonomy_node_id == target
                    then keep_assignment node_id now
                    else move_assignment node_id source_job_id target now))
              s
      ]

  abbrev pub valid_target : Option String → Result Error String
  valid_target none = err (value_error "result payload")
  valid_target (some name) = ok name

  -- The body of the `try`; it leaves the name that the job's row keeps.
  unfoldable pub apply_result : TaxonomyClassificationJob → String → ℕ → Action String
  unfolding resolve_target_taxonomy_node_id move_assignment_if_needed ◌>>=◌
  apply_result job payload now = lift (valid_target (svc.parse_result payload)) >>= λ name.
      gets (λ s. resolve_target_taxonomy_node_id job.scope_node_id name s.taxonomy_nodes)
      >>= λ target. lift target >>= λ id.
          (move_assignment_if_needed job.node_id job.id job.scope_node_id id now >> pure name)

  -- `except ValueError`; any other error goes on.
  abbrev pub store_result : TaxonomyClassificationJob → ℕ → Result Error String → Action Unit
  store_result job now (ok name) = write_job job.id (λ j. record j {
    processed_at = some now;
    target_name = some name;
    last_error = none;
    updated_at = now;
  })
  store_result job now (err (value_error m)) = mark_job_processed_error job.id (value_error m) now
  store_result job now (err e) = raise e

  unfoldable pub process_accepted_result : TaxonomyClassificationJob → String → ℕ → Action Unit
  unfolding apply_result write_job mark_job_processed_error
  process_accepted_result job payload now s =
      let (r, t) = apply_result job payload now s in
      elim job.processed_at [ some at ↦ (ok tt, s) | none ↦ store_result job now r t ]

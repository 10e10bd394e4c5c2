-- ===== src/Layout/Requests.antt =====
-- The requests to compute a layout, of modules/taxonomy/repo.py: pending, running, succeeded or failed. The
-- rows stand in the order of their ids, and times are numbers of ticks.
pub mod Lawful
use hll.Prelude.{
  ℕ, zero, suc, ◌+◌, String, Bool, true, false, not, ◌&&◌, ◌||◌, Option, none, some, List, [], ◌∷◌,
  ◌++◌, map, if◌then◌else◌, filter, any, leb, str_eq, sort, is_none,
}
use hll.KnowledgeGraph.Model.{TaxonomyScopeIdentity}
use hll.Classification.Model.{same_scope}

pub data Status : Type 0 where
  pending running succeeded failed : Status

pub record ComputeRequest : Type 0 where
  pub scope : TaxonomyScopeIdentity
  pub layout_version : String
  pub input_fingerprint : String
  pub status : Status
  pub attempt_count : ℕ
  pub last_error : Option String
  pub requested_at : ℕ
  pub claimed_at : Option ℕ
  pub completed_at : Option ℕ
  pub failed_at : Option ℕ
  pub updated_at : ℕ

pub record ComputeClaim : Type 0 where
  pub scope_identity : TaxonomyScopeIdentity
  pub input_fingerprint : String

pub record RequestState : Type 0 where
  pub input_fingerprint : String
  pub status : Status
  pub last_error : Option String

abbrev pub is_pending : Status → Bool
is_pending pending = true
is_pending running = false
is_pending succeeded = false
is_pending failed = false

abbrev pub is_running : Status → Bool
is_running pending = false
is_running running = true
is_running succeeded = false
is_running failed = false

abbrev pub has_key : TaxonomyScopeIdentity → String → ComputeRequest → Bool
has_key scope version r = same_scope r.scope scope && str_eq r.layout_version version

-- The key is unique, so this is an update of one row.
unfoldable pub update_request :
    TaxonomyScopeIdentity
    → String
    → (ComputeRequest → ComputeRequest)
    → List ComputeRequest
    → List ComputeRequest
update_request scope version f [] = []
update_request scope version f (r ∷ rows) =
    (if has_key scope version r then f r else r) ∷ update_request scope version f rows

abbrev pub find_request :
    TaxonomyScopeIdentity → String → List ComputeRequest → Option ComputeRequest
find_request scope version [] = none
find_request scope version (r ∷ rows) =
    let rest = find_request scope version rows in if has_key scope version r then some r else rest

-- `claimed_at <= now - recovery`, where a claim is
abbrev pub stale : ℕ → ℕ → Option ℕ → Bool
stale recovery now none = true
stale recovery now (some claimed_at) = leb (claimed_at + recovery) now

-- The `where` of the update on conflict
abbrev pub may_restart : ℕ → ℕ → String → ComputeRequest → Bool
may_restart recovery now fingerprint r =
    (not (is_running r.status) || stale recovery now r.claimed_at)
    && (not (is_pending r.status) || not (str_eq r.input_fingerprint fingerprint))

abbrev pub restarted : ℕ → String → ComputeRequest → ComputeRequest
restarted now fingerprint r = record r {
  input_fingerprint = fingerprint;
  status = pending;
  attempt_count = 0;
  last_error = none;
  requested_at = now;
  claimed_at = none;
  completed_at = none;
  failed_at = none;
  updated_at = now;
}

abbrev pub new_request : TaxonomyScopeIdentity → String → String → ℕ → ComputeRequest
new_request scope version fingerprint now = record {
  scope = scope;
  layout_version = version;
  input_fingerprint = fingerprint;
  status = pending;
  attempt_count = 0;
  last_error = none;
  requested_at = now;
  claimed_at = none;
  completed_at = none;
  failed_at = none;
  updated_at = now;
}

abbrev pub restart_found :
    ℕ
    → TaxonomyScopeIdentity
    → String
    → String
    → ℕ
    → List ComputeRequest
    → Option ComputeRequest
    → List ComputeRequest × Bool
restart_found recovery scope version fingerprint now rows none =
    (rows ++ new_request scope version fingerprint now ∷ [], true)
restart_found recovery scope version fingerprint now rows (some r) =
    if may_restart recovery now fingerprint r
    then (update_request scope version (restarted now fingerprint) rows, true)
    else (rows, false)

unfoldable pub request_compute :
    ℕ
    → TaxonomyScopeIdentity
    → String
    → String
    → ℕ
    → List ComputeRequest
    → List ComputeRequest × Bool
unfolding update_request
request_compute recovery scope version fingerprint now rows =
    restart_found recovery scope version fingerprint now rows (find_request scope version rows)

abbrev pub requested_le : ComputeRequest → ComputeRequest → Bool
requested_le a b = leb a.requested_at b.requested_at

abbrev pub first_request : List ComputeRequest → Option ComputeRequest
first_request [] = none
first_request (r ∷ rows) = some r

abbrev pub claimed : ℕ → ComputeRequest → ComputeRequest
claimed now r = record r {
  status = running;
  claimed_at = some now;
  completed_at = none;
  failed_at = none;
  last_error = none;
  attempt_count = r.attempt_count + 1;
  updated_at = now;
}

abbrev pub claim_found :
    ℕ → List ComputeRequest → Option ComputeRequest → List ComputeRequest × Option ComputeClaim
claim_found now rows none = (rows, none)
claim_found now rows (some r) = (
  update_request r.scope r.layout_version (claimed now) rows,
  some (record { scope_identity = r.scope; input_fingerprint = r.input_fingerprint }),
)

unfoldable pub claim_compute : ℕ → List ComputeRequest → List ComputeRequest × Option ComputeClaim
unfolding sort update_request
claim_compute now rows =
    claim_found now rows
      (first_request (sort requested_le (filter (λ r. is_pending r.status) rows)))

abbrev pub completed : ℕ → ComputeRequest → ComputeRequest
completed now r = record r {
  status = succeeded;
  completed_at = some now;
  failed_at = none;
  last_error = none;
  updated_at = now;
}

unfoldable pub complete_compute :
    TaxonomyScopeIdentity → String → ℕ → List ComputeRequest → List ComputeRequest
unfolding update_request
complete_compute scope version now rows = update_request scope version (completed now) rows

abbrev pub failed_with : ℕ → String → ComputeRequest → ComputeRequest
failed_with now message r = record r {
  status = failed;
  failed_at = some now;
  last_error = some message;
  updated_at = now;
}

-- `clip` is Python's `message[:4096]`.
unfoldable pub fail_compute :
    (String → String)
    → TaxonomyScopeIdentity
    → String
    → String
    → ℕ
    → List ComputeRequest
    → List ComputeRequest
unfolding update_request
fail_compute clip scope version message now rows =
    update_request scope version (failed_with now (clip message)) rows

abbrev pub state_of : Option ComputeRequest → Option RequestState
state_of none = none
state_of (some r) = some (record {
  input_fingerprint = r.input_fingerprint;
  status = r.status;
  last_error = r.last_error;
})

abbrev pub request_state :
    TaxonomyScopeIdentity → String → List ComputeRequest → Option RequestState
request_state scope version rows = state_of (find_request scope version rows)

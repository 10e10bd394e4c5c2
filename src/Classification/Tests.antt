-- ===== src/Classification/Tests.antt =====
-- A tree of a root and two scopes, one card in the root, and a job queue that answers.
use mathlib.Core.Option
use hll.Prelude.{
  ◌∙◌, ℕ, zero, suc, subst, if◌then◌else◌, ◌+◌, ◌≤◌, ◌<◌, String, ◌≡◌, refl, Bool, true, false,
  Option, none, some, List, [], ◌∷◌, map, arith, length, enumerate_from, ◌==◌, is_some,
}
use hll.Exec.{ok}
use hll.KnowledgeGraph.Model.{TaxonomyScopeIdentity}
use hll.Classification.Model.{
  TaxonomyClassificationJob, TaxonomyNode, Tables, CreateJobItem, CreatedJob, Call, Services, State,
}
use hll.Classification.Chunks.{chunk_submission_items}
use hll.Classification.Chunks.Sizes.{Chunked, chunk_submission_items-Chunked}
use hll.Classification.Scopes.{breadcrumb, all_direct_assignments}
use hll.Classification.Scopes.Breadcrumb.{Above, Rooted, breadcrumb_ends}
use hll.Classification.Submission.{
  PendingSubmissionItem, created_at_index, has_indexes, all_below, submit_pending_items,
}
use hll.Classification.Refinement.{submit_refinement_jobs}
use hll.Classification.Refinement.Spending.{Limited, submit_refinement_jobs-Limited}
use hll.Classification.Refinement.Entries.{AreNamed, Answered, Submitted}
use hll.Classification.Refinement.Answers.{submit_pending_items-Submitted}
use hll.Classification.Webhook.{list_pending_events}
use hll.Classification.Runtime.{Settings, process_pending_webhook_events, refresh_scope_projection}
use hll.Classification.Runtime.Batch.{process_pending_webhook_events_returns}
use hll.Classification.Runtime.Refreshes.{Refreshed, refresh_scope_projection-Refreshed}
use hll.Classification.Tick.{tick, run_turns}
use hll.Classification.Tick.Reconcile.{turns_without_reconcile, run_turns-without}
use hll.Classification.Tick.Descent.{MovesDown, tick-MovesDown}

abbrev created_from : ℕ → List CreateJobItem → List CreatedJob
created_from index [] = []
created_from index (item ∷ items) =
    record { index = index; job_id = 100 + item.idempotency_key; created = true }
    ∷ created_from (suc index) items

-- The job queue makes a job for each item, and has the result `science` for each job.
abbrev svc : Services
svc = record {
  create = λ calls items. ok (created_from 0 items);
  results = λ calls ids. ok (
      map
        (λ (p : ℕ × ℕ). record {
          index = p.0;
          job_id = p.1;
          status = "ready";
          state = none;
          result_payload = some "Science";
        })
        (enumerate_from 0 ids));
  item_bytes = λ item. 10;
  parse_result = λ text. some text;
  strip = λ text. text;
  casefold = λ text. text;
  lower = λ text. text;
  db_lower = λ text. text;
  name_le = λ a b. true;
  text_le = λ a b. true;
}

abbrev root : TaxonomyNode
root = record { id = 1; parent_id = none; name = "Root"; depth = 0 }

abbrev science : TaxonomyNode
science = record { id = 2; parent_id = some 1; name = "Science"; depth = 1 }

abbrev history : TaxonomyNode
history = record { id = 3; parent_id = some 1; name = "History"; depth = 1 }

abbrev nodes : List TaxonomyNode
nodes = root ∷ science ∷ history ∷ []

-- The card's job in the root is sent, and its result has arrived.
abbrev tables : Tables
tables = record {
  taxonomy_nodes = nodes;
  cards = record { id = 7; title = "Ring"; content = "A ring is …" } ∷ [];
  adjacency = (7, 70) ∷ [];
  assignments = record { node_id = 7; taxonomy_node_id = 1; assigned_at = 0 } ∷ [];
  jobs =
      record {
        id = 5;
        scope_node_id = 1;
        node_id = 7;
        job_id = some 50;
        terminal_state = none;
        processed_at = none;
        target_name = none;
        last_error = none;
        updated_at = 0;
      }
      ∷ [];
  events =
      record {
        id = 9;
        event_id = "e";
        event_type = "result.accepted";
        job_id = 50;
        terminal_state = none;
        processed_at = none;
        last_error = none;
        created_at = 0;
        updated_at = 0;
      }
      ∷ [];
  wakeups = record { id = 4; event_id = "e" } ∷ [];
  continuations = [];
  refreshes = [];
  projection_edges = [];
  next_job_row_id = 6;
  next_event_id = 10;
  next_wakeup_id = 5;
  next_continuation_id = 1;
}

abbrev state : State
state = record { tables = tables; committed = tables; calls = []; last_reconcile_at = none }

abbrev settings : Settings
settings = record {
  queue_name = some "q";
  poll_batch_size = 10;
  reconcile_interval = 100;
  reconcile_batch_size = 10;
  continuation_request_batch_size = 10;
  continuation_flush_interval = 60;
  projection_refresh_batch_size = 1;
}

tick-MovesDown_example : MovesDown state (tick svc settings 20 state).1
tick-MovesDown_example = tick-MovesDown svc settings 20 state

run_turns-without_example :
    run_turns svc settings (20 ∷ 30 ∷ []) state
    ≡ turns_without_reconcile svc settings (20 ∷ 30 ∷ []) state
run_turns-without_example = run_turns-without svc settings (20 ∷ 30 ∷ []) state

process_pending_webhook_events_returns_example :
    (process_pending_webhook_events svc 20 10 state).0 ≡ ok (length (list_pending_events 10 state))
process_pending_webhook_events_returns_example =
    process_pending_webhook_events_returns svc 20 10 state

abbrev scope : TaxonomyScopeIdentity
scope = record { scope_kind = "taxonomy_node"; taxonomy_node_id = 1 }

refresh_scope_projection-Refreshed_example :
    Refreshed scope state (refresh_scope_projection svc 20 scope state)
refresh_scope_projection-Refreshed_example = refresh_scope_projection-Refreshed svc 20 scope state

submit_refinement_jobs-Limited_example :
    Limited
      (some 2)
      state
      (submit_refinement_jobs svc "q" 20 all_direct_assignments (some 2) 10 state)
submit_refinement_jobs-Limited_example =
    submit_refinement_jobs-Limited svc "q" 20 10 all_direct_assignments (some 2) state

chunk_submission_items-Chunked_example :
    Chunked
      (λ (n : ℕ). n)
      2
      30
      (4 ∷ 5 ∷ 6 ∷ [])
      (4 ∷ 5 ∷ 6 ∷ [])
      (chunk_submission_items (λ (n : ℕ). n) 2 30 (4 ∷ 5 ∷ 6 ∷ []))
chunk_submission_items-Chunked_example =
    chunk_submission_items-Chunked (λ (n : ℕ). n) 2 30 (4 ∷ 5 ∷ 6 ∷ []) (omega arith)

abbrev AboveFound : Option TaxonomyNode → Type 0
AboveFound none = Unit
AboveFound (some n) = Above nodes n.depth n.parent_id

above_found :
    (b c d : Bool)
    → AboveFound
        (if b then some root else (if c then some science else (if d then some history else none)))
above_found true c d = refl
above_found false true d = (root, refl, refl)
above_found false false true = (root, refl, refl)
above_found false false false = tt

rooted : Rooted nodes
rooted = record {
  above = λ n there. subst AboveFound there (above_found (1 == n.id) (2 == n.id) (3 == n.id));
}

breadcrumb_ends_example :
    (path : List String) × (breadcrumb nodes science ≡ ok path) × (length path ≡ 2)
breadcrumb_ends_example = breadcrumb_ends nodes rooted science refl

abbrev item : PendingSubmissionItem
item = record {
  local_job = 5;
  card = record { id = 7; title = "Ring"; content = "A ring is …" };
  create_job = record {
    queue_name = "q";
    idempotency_key = 5;
    payload = record {
      scope_path = "Root" ∷ [];
      title = "Ring";
      content = "A ring is …";
      children = [];
    };
    scope_node_id = 1;
    node_id = 7;
  };
}

length-created_from :
    (index : ℕ) (items : List CreateJobItem) → length (created_from index items) ≡ length items
length-created_from index [] = refl
length-created_from index (x ∷ items) = omega (arith, length-created_from (suc index) items)

below_created :
    (n index : ℕ) (items : List CreateJobItem)
    → index + length items ≤ n
    → all_below n (created_from index items) ≡ true
below_created n index [] h = refl
below_created n index (x ∷ items) h = ground (arith, below_created n (suc index) items)

created_there :
    (index n : ℕ) (items : List CreateJobItem)
    → index ≤ n
    → n < index + length items
    → is_some (created_at_index n (created_from index items)) ≡ true
unfolding created_at_index
created_there index n [] low high = absurd (omega (arith, low, high))
created_there index n (x ∷ items) low high =
    go (created_at_index n (created_from (suc index) items)) (index == n)
      (λ e. created_there (suc index) n items (ground (arith, e)) (omega (arith, high)))
  where
    go :
        (later : Option CreatedJob) (b : Bool)
        → (b ≡ false → is_some later ≡ true)
        → is_some {A = CreatedJob} (elim later [
          | some found ↦ some found
          | none ↦
              (if b
                then some
                    (record { index = index; job_id = 100 + x.idempotency_key; created = true })
                else none)
        ])
          ≡ true
    go (some found) b h = refl
    go none true h = refl
    go none false h = h refl

indexes_created :
    (n : ℕ) (items : List CreateJobItem)
    → n ≤ length items
    → has_indexes n (created_from 0 items) ≡ true
unfolding has_indexes
indexes_created zero items h = refl
indexes_created (suc n) items h =
    rw
      (
        created_there 0 n items (omega arith) (omega (arith, h)),
        indexes_created n items (omega (arith, h)),
      )
      refl

-- The job of an item
abbrev job_of : CreateJobItem → ℕ
job_of item = 100 + item.idempotency_key

none_before :
    (n index : ℕ) (items : List CreateJobItem)
    → n < index
    → created_at_index n (created_from index items) ≡ none
unfolding created_at_index
none_before n index [] h = refl
none_before n index (x ∷ items) h =
    rw (none_before n (suc index) items (omega (arith, h))) (ground (arith, h))

skip_job :
    (n : ℕ) (job : CreatedJob) (jobs : List CreatedJob)
    → (job.index == n) ≡ false
    → created_at_index n (job ∷ jobs) ≡ created_at_index n jobs
unfolding created_at_index
skip_job n job jobs h = go (created_at_index n jobs)
  where
    go :
        (later : Option CreatedJob)
        → (elim later [
          | some found ↦ some found
          | none ↦ (if job.index == n then some job else none)
        ])
          ≡ later
    go none = rw h refl
    go (some found) = refl

first_job :
    (index : ℕ) (x : CreateJobItem) (items : List CreateJobItem)
    → Option.map
        (λ (j : CreatedJob). j.job_id)
        (created_at_index index (created_from index (x ∷ items)))
      ≡ some (job_of x)
unfolding created_at_index
first_job index x items = rw (none_before index (suc index) items (omega arith)) (ground arith)

named_from :
    (jobs : List CreatedJob) (index : ℕ) (items : List CreateJobItem)
    → ((n : ℕ)
        → index ≤ n
        → created_at_index n jobs ≡ created_at_index n (created_from index items))
    → AreNamed job_of jobs index items
named_from jobs index [] h = tt
named_from jobs index (x ∷ items) h = (
  rw (h index (omega arith)) (first_job index x items),
  named_from jobs (suc index) items (λ n le.
      h n (omega (arith, le))
      ∙ skip_job n (record { index = index; job_id = job_of x; created = true })
          (created_from (suc index) items) (ground (arith, le))),
)

answers : (calls : List Call) (sent : List CreateJobItem) → Answered svc job_of calls sent
answers calls sent = record {
  jobs = created_from 0 sent;
  is = refl;
  count = length-created_from 0 sent;
  indexes = indexes_created (length sent) sent (omega arith);
  below = below_created (length sent) 0 sent (omega arith);
  named = named_from (created_from 0 sent) 0 sent (λ n _. refl);
}

abbrev other_item : PendingSubmissionItem
other_item = record item {
  local_job = 6;
  create_job = record item.create_job { idempotency_key = 6 };
}

abbrev pending_row : ℕ → ℕ → TaxonomyClassificationJob
pending_row id node_id = record {
  id = id;
  scope_node_id = 1;
  node_id = node_id;
  job_id = none;
  terminal_state = none;
  processed_at = none;
  target_name = none;
  last_error = none;
  updated_at = 0;
}

abbrev two_rows : State
two_rows =
    let rows = record tables { jobs = pending_row 5 7 ∷ pending_row 6 8 ∷ [] } in
    record state { tables = rows; committed = rows }

submit_pending_items-Submitted_example :
    Submitted job_of
      (submit_pending_items svc "q" (item ∷ other_item ∷ []) 10 two_rows)
      (item ∷ other_item ∷ [])
submit_pending_items-Submitted_example =
    submit_pending_items-Submitted svc "q" job_of 10 (omega arith) (item ∷ other_item ∷ []) two_rows
      answers refl ((record { rows = refl; jobs = refl }, tt), (tt, tt))
      (record { at = refl }, (record { at = refl }, tt)) refl

-- ===== src/SearchTool.antt =====
-- The MCP search tool: apps/mcp/src/knowledge_mcp/search_tool.py, which reserves quota, searches,
-- and records usage and analytics. A record that is written is the next row of its table.
pub mod Billing
mod Tests
use hll.Prelude.{
  ℕ, suc, String, Bool, true, false, Option, none, some, List, [], ◌∷◌, ◌++◌, map, str_eq,
  if◌then◌else◌, length, enumerate_from,
}
use hll.Exec.{Result, ok, err, Exec, pure, raise, lift, modify, ◌>>=◌, ◌>>◌, try_except}
use hll.Quota.{Counters, QuotaPolicy, QuotaDecision, QuotaError, reserve}

pub record AuthenticatedPrincipal : Type 0 where
  pub user_sub : String
  pub pat_fingerprint : String

pub data UsageStatus : Type 0 where
  quota_rejected error success : UsageStatus

pub record SearchUsageEvent : Type 0 where
  pub request_id : String
  pub user_sub : String
  pub pat_fingerprint : String
  pub query_hash : String
  pub status : UsageStatus
  pub error_code : Option String
  pub matched_count : ℕ
  pub connected_count : ℕ
  pub cost_units : ℕ
  pub duration_ms : ℕ

pub record AgentSearchEvent : Type 0 where
  pub user_sub : String
  pub pat_fingerprint : String
  pub mcp_session_id : String
  pub raw_query : String
  pub query_hash : String
  pub matched_count : ℕ
  pub connected_count : ℕ
  -- pairs of a rank and a node
  pub matched_results : List (ℕ × ℕ)
  pub search_algorithm_version : ℕ

pub record SearchCard : Type 0 where
  pub node_id : ℕ
  pub title : String
  pub content : String

pub record SearchResponse : Type 0 where
  pub matched_cards : List SearchCard
  pub connected_titles : List String

pub data ToolError : Type 0 where
  empty_query missing_provider : ToolError
  quota_exceeded : (retry_after_seconds : ℕ) → ToolError
  quota_error : QuotaError → ToolError
  search_error : String → ToolError

pub record ToolState : Type 0 where
  pub counters : Counters
  pub usage : List SearchUsageEvent
  pub analytics : List AgentSearchEvent

-- What the tool is built with, at one call: the clock readings of the call are `now` for Redis and
-- `elapsed_ms`.
pub record Tool : Type 0 where
  pub policy : QuotaPolicy
  pub now : ℕ
  pub elapsed_ms : ℕ
  pub strip : String → String
  pub query_hash : String → String
  pub analytics_query_hash : String → String
  pub search_service : String → Result ToolError SearchResponse
  pub principal_provider : Option (Result ToolError AuthenticatedPrincipal)
  pub search_algorithm_version : ℕ

abbrev pub ToolAction : Type 0 → Type 0
ToolAction A = Exec ToolError ToolState A

module _ (tool : Tool) where
  abbrev pub load_principal :
      Option AuthenticatedPrincipal → Result ToolError AuthenticatedPrincipal
  load_principal (some principal) = ok principal
  load_principal none = elim tool.principal_provider [
    | none ↦ err missing_provider
    | some answer ↦ answer
  ]

  abbrev pub with_counters :
      Result QuotaError QuotaDecision × Counters
      → ToolState
      → Result ToolError QuotaDecision × ToolState
  with_counters (ok d, c) s = (ok d, record s { counters = c })
  with_counters (err e, c) s = (err (quota_error e), record s { counters = c })

  unfoldable pub reserve_quota : AuthenticatedPrincipal → ToolAction QuotaDecision
  reserve_quota principal s =
      with_counters (reserve tool.policy tool.now 1 principal.user_sub s.counters) s

  unfoldable pub record_usage :
      AuthenticatedPrincipal
      → String
      → String
      → UsageStatus
      → Option String
      → ℕ
      → ℕ
      → ℕ
      → ToolAction Unit
  record_usage principal request_id query status code matched connected duration = modify (λ s.
      record s {
        usage =
            s.usage
            ++ record {
              request_id = request_id;
              user_sub = principal.user_sub;
              pat_fingerprint = principal.pat_fingerprint;
              query_hash = tool.query_hash query;
              status = status;
              error_code = code;
              matched_count = matched;
              connected_count = connected;
              cost_units = 1;
              duration_ms = duration;
            }
              ∷ [];
      })

  unfoldable pub record_agent_search_analytics :
      AuthenticatedPrincipal → String → String → SearchResponse → ToolAction Unit
  record_agent_search_analytics principal session raw_query response = modify (λ s. record s {
    analytics =
        s.analytics
        ++ record {
          user_sub = principal.user_sub;
          pat_fingerprint = principal.pat_fingerprint;
          mcp_session_id = session;
          raw_query = raw_query;
          query_hash = tool.analytics_query_hash raw_query;
          matched_count = length response.matched_cards;
          connected_count = length response.connected_titles;
          matched_results =
              map (λ ranked. (ranked.0, ranked.1.node_id))
                (enumerate_from 1 response.matched_cards);
          search_algorithm_version = tool.search_algorithm_version;
        }
          ∷ [];
  })

  -- The search and what is recorded of it, by the answer of the search service.
  unfoldable pub search_answered :
      AuthenticatedPrincipal
      → String
      → String
      → String
      → String
      → Result ToolError SearchResponse
      → ToolAction SearchResponse
  unfolding record_usage record_agent_search_analytics try_except ◌>>=◌
  search_answered principal request_id session raw_query query answer =
      try_except (lift answer) (λ e.
        record_usage principal request_id query error (some "search_failed") 0 0 tool.elapsed_ms
        >> raise e)
      >>= λ response.
          (record_usage principal request_id query success none (length response.matched_cards)
              (length response.connected_titles) tool.elapsed_ms
            >> record_agent_search_analytics principal session raw_query response
            >> pure response)

  unfoldable pub search_reserved :
      AuthenticatedPrincipal → String → String → String → String → ToolAction SearchResponse
  unfolding search_answered
  search_reserved principal request_id session raw_query query =
      search_answered principal request_id session raw_query query (tool.search_service query)

  unfoldable pub search_decided :
      AuthenticatedPrincipal
      → String
      → String
      → String
      → String
      → QuotaDecision
      → ToolAction SearchResponse
  unfolding search_reserved record_usage ◌>>=◌
  search_decided principal request_id session raw_query query decision =
      if decision.allowed
      then search_reserved principal request_id session raw_query query
      else (record_usage principal request_id query quota_rejected (some "quota_exceeded") 0 0 0
          >> raise (quota_exceeded decision.retry_after_seconds))

  unfoldable pub search_as :
      AuthenticatedPrincipal → String → String → String → String → ToolAction SearchResponse
  unfolding reserve_quota search_decided ◌>>=◌
  search_as principal request_id session raw_query query =
      reserve_quota principal >>= search_decided principal request_id session raw_query query

  -- `search`; the response is also what the returned dictionary is made of.
  unfoldable pub search :
      String → Option AuthenticatedPrincipal → String → String → ToolAction SearchResponse
  unfolding search_as ◌>>=◌
  search query principal request_id session =
      if str_eq (tool.strip query) ""
      then raise empty_query
      else (lift (load_principal principal) >>= λ resolved.
          search_as resolved request_id session query (tool.strip query))

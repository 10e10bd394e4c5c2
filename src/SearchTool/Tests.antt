-- ===== src/SearchTool/Tests.antt =====
-- A search by a user who has not searched before.
use hll.Prelude.{◌≤◌, none, [], ◌∷◌, arith}
use hll.Exec.{ok}
use hll.Quota.{Window, daily, weekly, seconds_of}
use hll.Quota.Windows.{Fits}
use hll.SearchTool.{Tool, ToolState, AuthenticatedPrincipal, SearchResponse, search_as}
use hll.SearchTool.Billing.{Booked, search_as-Booked}

abbrev response : SearchResponse
response = record {
  matched_cards = record { node_id = 7; title = "Ring"; content = "c" } ∷ [];
  connected_titles = "Field" ∷ [];
}

abbrev tool : Tool
tool = record {
  policy = record {
    user_daily_limit = 2;
    user_daily_window_seconds = 86400;
    user_weekly_limit = 5;
    user_weekly_window_seconds = 604800;
  };
  now = 10;
  elapsed_ms = 3;
  strip = λ s. s;
  query_hash = λ s. s;
  analytics_query_hash = λ s. s;
  search_service = λ query. ok response;
  principal_provider = none;
  search_algorithm_version = 1;
}

abbrev principal : AuthenticatedPrincipal
principal = record { user_sub = "ann"; pat_fingerprint = "f" }

abbrev state : ToolState
state = record { counters = λ user w. none; usage = []; analytics = [] }

long : (w : Window) → 1 ≤ seconds_of tool.policy w
long daily = omega arith
long weekly = omega arith

unused-Fits : Fits tool.policy 10 state.counters
unused-Fits = record { at = λ user w. tt }

search_as-Booked_example :
    Booked tool principal "r" "s" "ring" "ring" state
      (search_as tool principal "r" "s" "ring" "ring" state).1
search_as-Booked_example =
    search_as-Booked tool principal "r" "s" "ring" "ring" state long unused-Fits

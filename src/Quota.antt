-- ===== src/Quota.antt =====
-- The quota of MCP searches: apps/mcp/src/knowledge_mcp/quota/store.py, with RESERVE_SCRIPT run by
-- Redis as one step. A key is a user with a window; times are whole seconds.
pub mod Windows
pub mod Outcome
pub mod Summary
mod Tests
use hll.Prelude.{
  ℕ, ◌+◌, ◌-◌, ◌<◌, min, String, ◌≡◌, Bool, true, false, ◌&&◌, ◌||◌, Option, none, some, ◌==◌,
  str_eq, if◌then◌else◌, ltb,
}
use hll.Exec.{Result, ok, err}

pub data Window : Type 0 where
  daily weekly : Window

pub record Counter : Type 0 where
  pub value : ℕ
  pub expires_at : Option ℕ

-- what Redis holds
abbrev pub Counters : Type 0
Counters = String → Window → Option Counter

pub record QuotaPolicy : Type 0 where
  pub user_daily_limit : ℕ
  pub user_daily_window_seconds : ℕ
  pub user_weekly_limit : ℕ
  pub user_weekly_window_seconds : ℕ

pub record QuotaDecision : Type 0 where
  pub allowed : Bool
  pub retry_after_seconds : ℕ
  pub remaining_daily : ℕ
  pub remaining_weekly : ℕ

pub record QuotaWindowSnapshot : Type 0 where
  pub used : ℕ
  pub limit : ℕ
  pub remaining : ℕ
  pub window_seconds : ℕ
  -- `reset_at`; `started_at` is `window_seconds` before it
  pub reset_at : Option ℕ

pub data QuotaError : Type 0 where
  bad_cost missing_expiry : QuotaError

abbrev pub limit_of : QuotaPolicy → Window → ℕ
limit_of policy daily = policy.user_daily_limit
limit_of policy weekly = policy.user_weekly_limit

abbrev pub seconds_of : QuotaPolicy → Window → ℕ
seconds_of policy daily = policy.user_daily_window_seconds
seconds_of policy weekly = policy.user_weekly_window_seconds

abbrev pub same_window : Window → Window → Bool
same_window daily daily = true
same_window weekly weekly = true
same_window _ _ = false

abbrev pub unexpired : ℕ → Counter → Option ℕ → Option Counter
unexpired now c none = some c
unexpired now c (some expiry) = if ltb now expiry then some c else none

-- An expired key is gone.
abbrev pub live : ℕ → Option Counter → Option Counter
live now none = none
live now (some c) = unexpired now c c.expires_at

-- `GET` or "0"
abbrev pub value_of : Option Counter → ℕ
value_of none = 0
value_of (some c) = c.value

abbrev pub current : ℕ → Counters → String → Window → ℕ
current now counters user w = value_of (live now (counters user w))

-- `TTL`, with the window where there is none
abbrev pub ttl_or : ℕ → ℕ → Option ℕ → ℕ
ttl_or now window none = window
ttl_or now window (some expiry) = if ltb (expiry - now) 1 then window else expiry - now

abbrev pub ttl_of : ℕ → ℕ → Option Counter → ℕ
ttl_of now window none = window
ttl_of now window (some c) = ttl_or now window c.expires_at

-- `INCRBY`, and `EXPIRE` where the key is new
abbrev pub incremented : ℕ → ℕ → ℕ → Option Counter → Counter
incremented now window cost none = record { value = cost; expires_at = some (now + window) }
incremented now window cost (some c) =
    if c.value + cost == cost
    then record { value = c.value + cost; expires_at = some (now + window) }
    else record { value = c.value + cost; expires_at = c.expires_at }

module _ (policy : QuotaPolicy) (now cost : ℕ) (user : String) (counters : Counters) where
  abbrev pub over : Window → Bool
  over w = ltb (limit_of policy w) (current now counters user w + cost)

  abbrev pub wait : Window → ℕ
  wait w = ttl_of now (seconds_of policy w) (live now (counters user w))

  -- the smallest time to live of the windows without room
  abbrev pub retry_after : Bool → Bool → ℕ
  retry_after true true = min (wait daily) (wait weekly)
  retry_after true false = wait daily
  retry_after false weekly_over = wait weekly

  unfoldable pub spent : Counters
  spent other w =
      if str_eq user other
      then some (incremented now (seconds_of policy w) cost (live now (counters other w)))
      else counters other w

  unfoldable pub reserve_script : QuotaDecision × Counters
  unfolding spent
  reserve_script =
      if over daily || over weekly
      then (
        record {
          allowed = false;
          retry_after_seconds = retry_after (over daily) (over weekly);
          remaining_daily = limit_of policy daily - current now counters user daily;
          remaining_weekly = limit_of policy weekly - current now counters user weekly;
        },
        counters,
      )
      else (
        record {
          allowed = true;
          retry_after_seconds = 0;
          remaining_daily = limit_of policy daily - (current now counters user daily + cost);
          remaining_weekly = limit_of policy weekly - (current now counters user weekly + cost);
        },
        spent,
      )

  unfoldable pub reserve : Result QuotaError QuotaDecision × Counters
  unfolding reserve_script
  reserve = if ltb cost 1 then (err bad_cost, counters) else (ok reserve_script.0, reserve_script.1)

-- What Redis holds when it runs a command
pub record Moment : Type 0 where
  pub counters : Counters
  pub time : ℕ

-- The reading of a window: `GET` and `TTL` are two commands, and the clock is read after them.
pub record Reading : Type 0 where
  pub get : Moment
  pub ttl : Moment
  pub clock : ℕ

abbrev pub counter_at : Moment → String → Window → Option Counter
counter_at m user w = live m.time (m.counters user w)

-- `TTL`, none where it is negative: the key is gone or has no expiry. `rounded` is what Redis makes of the
-- seconds that are left.
abbrev pub expiry_left : (ℕ → ℕ) → ℕ → Option ℕ → Option ℕ
expiry_left rounded now none = none
expiry_left rounded now (some expiry) = some (rounded (expiry - now))

abbrev pub ttl_answer : (ℕ → ℕ) → ℕ → Option Counter → Option ℕ
ttl_answer rounded now none = none
ttl_answer rounded now (some c) = expiry_left rounded now c.expires_at

-- `_window_snapshot`, by the answers of Redis
abbrev pub active_snapshot :
    QuotaPolicy → ℕ → Window → ℕ → Option ℕ → Result QuotaError QuotaWindowSnapshot
active_snapshot policy clock w used none = err missing_expiry
active_snapshot policy clock w used (some ttl) =
    if ltb ttl 1
    then err missing_expiry
    else ok (record {
      used = used;
      limit = limit_of policy w;
      remaining = limit_of policy w - used;
      window_seconds = seconds_of policy w;
      reset_at = some (clock + ttl);
    })

abbrev pub snapshot_of :
    QuotaPolicy → ℕ → Window → Option Counter → Option ℕ → Result QuotaError QuotaWindowSnapshot
snapshot_of policy clock w none ttl = ok (record {
  used = 0;
  limit = limit_of policy w;
  remaining = limit_of policy w;
  window_seconds = seconds_of policy w;
  reset_at = none;
})
snapshot_of policy clock w (some c) ttl = active_snapshot policy clock w c.value ttl

unfoldable pub window_snapshot :
    QuotaPolicy → (ℕ → ℕ) → Reading → String → Window → Result QuotaError QuotaWindowSnapshot
window_snapshot policy rounded r user w =
    snapshot_of policy r.clock w (counter_at r.get user w)
      (ttl_answer rounded r.ttl.time (counter_at r.ttl user w))

abbrev pub both :
    Result QuotaError QuotaWindowSnapshot
    → Result QuotaError QuotaWindowSnapshot
    → Result QuotaError (QuotaWindowSnapshot × QuotaWindowSnapshot)
both (ok a) (ok b) = ok (a, b)
both (ok a) (err e) = err e
both (err e) _ = err e

-- The daily window and the weekly window, in this order.
unfoldable pub get_summary :
    QuotaPolicy
    → (ℕ → ℕ)
    → Reading
    → Reading
    → String
    → Result QuotaError (QuotaWindowSnapshot × QuotaWindowSnapshot)
unfolding window_snapshot
get_summary policy rounded of_day of_week user =
    both (window_snapshot policy rounded of_day user daily)
      (window_snapshot policy rounded of_week user weekly)

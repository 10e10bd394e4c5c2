-- ===== src/SearchTool/Billing.antt =====
-- The usage table agrees with the quota: a search that was let through is charged and recorded once.
use text.Mathlib.TextPositions.{eq_refl}
use hll.Prelude.{
  ℕ, suc, ◌+◌, ◌≤◌, String, ◌≡◌, refl, Bool, true, false, ◌&&◌, Option, none, some, List, [], ◌∷◌,
  ◌++◌, arith, str_eq, if◌then◌else◌, length, length-append, filter,
}
use hll.Exec.{Result, ok, err, ◌>>=◌, try_except}
use hll.Quota.{Window, Counters, QuotaDecision, current, seconds_of, reserve}
use hll.Quota.Windows.{Fits}
use hll.Quota.Outcome.{Outcome, invalid, granted, refused, reserve_outcome}
use hll.SearchTool.{
  Tool, ToolState, ToolError, AuthenticatedPrincipal, SearchUsageEvent, SearchResponse, UsageStatus,
  quota_rejected, error, success, reserve_quota, record_usage, record_agent_search_analytics,
  search_answered, search_reserved, search_decided, search_as,
}

abbrev let_through : UsageStatus → Bool
let_through quota_rejected = false
let_through error = true
let_through success = true

-- Usage events of a user whose search was let through.
abbrev pub billed : String → List SearchUsageEvent → ℕ
billed user events =
    length
      (filter (λ (e : SearchUsageEvent). str_eq e.user_sub user && let_through e.status) events)

billed-append :
    (user : String) (events : List SearchUsageEvent) (e : SearchUsageEvent)
    → billed user (events ++ e ∷ [])
      ≡ billed user events + (if str_eq e.user_sub user && let_through e.status then 1 else 0)
billed-append user [] e = ground arith
billed-append user (x ∷ events) e = ground (arith, billed-append user events e)

module _ (tool : Tool) (p : AuthenticatedPrincipal) (request_id session raw query : String) where
  -- One more usage event, which counts for `n` units of the user.
  record Recorded (n : ℕ) (s t : ToolState) : Type 0 where
    pub counters : t.counters ≡ s.counters
    pub longer : length t.usage ≡ suc (length s.usage)
    pub billing : billed p.user_sub t.usage ≡ billed p.user_sub s.usage + n

  usage-Recorded :
      (status : UsageStatus) (code : Option String) (a b c n : ℕ) (s : ToolState)
      → (if let_through status then 1 else 0) ≡ n
      → Recorded n s (record_usage tool p request_id query status code a b c s).1
  unfolding record_usage
  usage-Recorded status code a b c n s e =
      let row : SearchUsageEvent = record {
        request_id = request_id;
        user_sub = p.user_sub;
        pat_fingerprint = p.pat_fingerprint;
        query_hash = tool.query_hash query;
        status = status;
        error_code = code;
        matched_count = a;
        connected_count = b;
        cost_units = 1;
        duration_ms = c;
      } in
      record {
        counters = refl;
        longer = omega (arith, length-append s.usage (row ∷ []));
        billing = ground (arith, billed-append p.user_sub s.usage row, eq_refl p.user_sub);
      }

  answered-Recorded :
      (answer : Result ToolError SearchResponse) (s : ToolState)
      → Recorded 1 s (search_answered tool p request_id session raw query answer s).1
  unfolding search_answered record_agent_search_analytics try_except ◌>>=◌
  answered-Recorded (ok r) s =
      let u =
        usage-Recorded success none (length r.matched_cards) (length r.connected_titles)
          tool.elapsed_ms 1 s refl in
      record { counters = u.counters; longer = u.longer; billing = u.billing }
  answered-Recorded (err e) s =
      usage-Recorded error (some "search_failed") 0 0 tool.elapsed_ms 1 s refl

  decided-Recorded :
      (d : QuotaDecision) (b : Bool) (s : ToolState)
      → d.allowed ≡ b
      → Recorded (if b then 1 else 0) s (search_decided tool p request_id session raw query d s).1
  unfolding search_decided search_reserved ◌>>=◌
  decided-Recorded d true s e = rw e (answered-Recorded (tool.search_service query) s)
  decided-Recorded d false s e =
      rw e (usage-Recorded quota_rejected (some "quota_exceeded") 0 0 0 0 s refl)

  -- What a search did to the books: one usage event is new, and each window of the user is charged
  -- what the new event bills.
  pub record Booked (s t : ToolState) : Type 0 where
    pub longer : length t.usage ≡ suc (length s.usage)
    pub balanced :
        (w : Window)
        → current tool.now t.counters p.user_sub w + billed p.user_sub s.usage
          ≡ current tool.now s.counters p.user_sub w + billed p.user_sub t.usage

  charged_with : Counters → ToolState → ToolState
  charged_with c s = record s { counters = c }

  reserved_state :
      (s : ToolState) (d : QuotaDecision) (c : Counters)
      → reserve tool.policy tool.now 1 p.user_sub s.counters ≡ (ok d, c)
      → search_as tool p request_id session raw query s
        ≡ search_decided tool p request_id session raw query d (charged_with c s)
  unfolding search_as reserve_quota charged_with ◌>>=◌
  reserved_state s d c e = rw e refl

  charged-Booked :
      (s : ToolState) (d : QuotaDecision) (c : Counters) (b : Bool)
      → reserve tool.policy tool.now 1 p.user_sub s.counters ≡ (ok d, c)
      → d.allowed ≡ b
      → ((w : Window)
          → current tool.now c p.user_sub w
            ≡ current tool.now s.counters p.user_sub w + (if b then 1 else 0))
      → Booked s (search_as tool p request_id session raw query s).1
  unfolding charged_with
  charged-Booked s d c b e allowed charged = rw (reserved_state s d c e) (
      let r = decided-Recorded d b (charged_with c s) allowed in
      record {
        longer = r.longer;
        balanced = λ w. rw r.counters (omega (arith, r.billing, charged w));
      })

  -- In a store whose counters fit, a search of a principal, whether it returns or raises, adds one
  -- usage event, and charges both windows of the user one unit if that event was let through and
  -- none if it was rejected.
  pub search_as-Booked :
      (s : ToolState)
      → ((w : Window) → 1 ≤ seconds_of tool.policy w)
      → Fits tool.policy tool.now s.counters
      → Booked s (search_as tool p request_id session raw query s).1
  search_as-Booked s long fits =
      go (reserve_outcome tool.policy tool.now 1 p.user_sub s.counters long fits)
    where
      go :
          Outcome tool.policy tool.now 1 p.user_sub s.counters
          → Booked s (search_as tool p request_id session raw query s).1
      go (invalid e zero_cost) = omega (arith, zero_cost)
      go (granted g) = charged-Booked s g.decision g.after true g.answer g.allowed g.charged
      go (refused r) =
          charged-Booked s r.decision s.counters false r.answer r.denied (λ w. omega arith)

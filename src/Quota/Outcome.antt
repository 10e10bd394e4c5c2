-- ===== src/Quota/Outcome.antt =====
-- What a reservation answers and charges.
use hll.Prelude.{
  ℕ, ◌+◌, ◌≤◌, ◌<◌, min, String, ◌≡◌, refl, Bool, true, false, ◌||◌, Option, none, some, str_eq,
  arith, ltb, ltb→lt, Bool-cases, inl, inr, ◌⊎◌,
}
use text.Mathlib.TextPositions.{eq_refl}
use hll.Exec.{ok, err}
use hll.Quota.{
  Window, daily, weekly, Counter, Counters, QuotaPolicy, QuotaDecision, bad_cost, limit_of,
  seconds_of, live, unexpired, current, value_of, ttl_of, incremented, over, wait, retry_after,
  spent, reserve_script, reserve,
}
use hll.Quota.Windows.{FitIfLive, Fits, live-Fit, incremented-Fit, no_room}

module _ (policy : QuotaPolicy) (now cost : ℕ) (user : String) (counters : Counters) where
  -- Both windows had room: each is charged the cost, and the answer tells what remains.
  pub record Granted : Type 0 where
    pub decision : QuotaDecision
    pub after : Counters
    pub answer : reserve policy now cost user counters ≡ (ok decision, after)
    pub allowed : decision.allowed ≡ true
    pub charged : (w : Window) → current now after user w ≡ current now counters user w + cost
    pub within : (w : Window) → current now after user w ≤ limit_of policy w
    pub remaining_daily :
        decision.remaining_daily + current now after user daily ≡ policy.user_daily_limit
    pub remaining_weekly :
        decision.remaining_weekly + current now after user weekly ≡ policy.user_weekly_limit
    pub others :
        (other : String) (w : Window) → str_eq user other ≡ false → after other w ≡ counters other w

  -- A window had no room: nothing is charged, and a window without room is empty after the answer's
  -- `retry_after_seconds`.
  pub record Refused : Type 0 where
    pub decision : QuotaDecision
    pub answer : reserve policy now cost user counters ≡ (ok decision, counters)
    pub denied : decision.allowed ≡ false
    pub window : Window
    pub full : limit_of policy window < current now counters user window + cost
    pub empty_then : current (now + decision.retry_after_seconds) counters user window ≡ 0

  pub data Outcome : Type 0 where
    invalid : reserve policy now cost user counters ≡ (err bad_cost, counters) → cost ≡ 0 → Outcome
    granted : Granted → Outcome
    refused : Refused → Outcome

value-incremented :
    (now window cost : ℕ) (c : Option Counter)
    → (incremented now window cost c).value ≡ value_of c + cost
value-incremented now window cost none = omega arith
value-incremented now window cost (some c) = ground arith

module _ (policy : QuotaPolicy) (now : ℕ) where
  -- A counter is gone after the time to live that was told.
  empty_after :
      (w : Window) (c : Option Counter)
      → FitIfLive policy now w (live now c)
      → value_of (live (now + ttl_of now (seconds_of policy w) (live now c)) c) ≡ 0
  empty_after w none h = refl
  empty_after w (some c) h = go c.expires_at refl h
    where
      go :
          (e : Option ℕ)
          → c.expires_at ≡ e
          → FitIfLive policy now w (unexpired now c e)
          → value_of (unexpired (now + ttl_of now (seconds_of policy w) (unexpired now c e)) c e)
            ≡ 0
      go none same h = cc
      go (some e) same h = ground arith

  module _ (cost : ℕ) (user : String) (counters : Counters)
      (long : (w : Window) → 1 ≤ seconds_of policy w) (fits : Fits policy now counters) where
    empty_for :
        (w : Window) → current (now + wait policy now cost user counters w) counters user w ≡ 0
    empty_for w = empty_after w (counters user w) (fits.at user w)

    min_is : (a b : ℕ) → (min a b ≡ a) ⊎ (min a b ≡ b)
    min_is a b = ground arith

    refusal :
        (d w : Bool)
        → over policy now cost user counters daily ≡ d
        → over policy now cost user counters weekly ≡ w
        → (d || w) ≡ true
        → (v : Window) × (limit_of policy v < current now counters user v + cost)
          × (retry_after policy now cost user counters d w ≡ wait policy now cost user counters v)
    refusal true true a b h =
        elim (min_is (wait policy now cost user counters daily)
          (wait policy now cost user counters weekly)) [
            | inl e ↦ (daily, ltb→lt _ _ a, e)
            | inr e ↦ (weekly, ltb→lt _ _ b, e)
          ]
    refusal true false a b h = (daily, ltb→lt _ _ a, refl)
    refusal false true a b h = (weekly, ltb→lt _ _ b, refl)
    refusal false false a b h = cc

    module _ (one : 1 ≤ cost)
        (room : (w : Window) → current now counters user w + cost ≤ limit_of policy w) where
      charged_to :
          (w : Window)
          → current now (spent policy now cost user counters) user w
            ≡ current now counters user w + cost
      unfolding spent
      charged_to w =
          rw
            (
              eq_refl user,
              live-Fit policy now w _ (
                  incremented-Fit policy now cost w (counters user w) one (long w) (room w)
                    (fits.at user w)),
            )
            (value-incremented now (seconds_of policy w) cost (live now (counters user w)))

    pub reserve_outcome : Outcome policy now cost user counters
    unfolding reserve reserve_script spent
    reserve_outcome = elim (Bool-cases (ltb cost 1)) [
      | inl bad ↦ invalid (rw bad refl) (ground arith)
      | inr good ↦
          elim (Bool-cases (
            over policy now cost user counters daily
            || over policy now cost user counters weekly)) [
              | inl full ↦ refused (
                  let (v, over_v, wait_v) = refusal _ _ refl refl full in
                  record {
                    decision = (reserve_script policy now cost user counters).0;
                    answer = rw (good, full) refl;
                    denied = rw full refl;
                    window = v;
                    full = over_v;
                    empty_then = rw (full, wait_v) (empty_for v);
                  })
              | inr free ↦ granted (
                  let one : 1 ≤ cost = ground arith in
                  let room : (w : Window) → current now counters user w + cost ≤ limit_of policy w =
                    λ w. no_room policy now cost user counters w free in
                  record {
                    decision = (reserve_script policy now cost user counters).0;
                    after = spent policy now cost user counters;
                    answer = rw (good, free) refl;
                    allowed = rw free refl;
                    charged = charged_to one room;
                    within = λ w. rw (charged_to one room w) (room w);
                    remaining_daily =
                        rw (free, charged_to one room daily) (omega (arith, room daily));
                    remaining_weekly =
                        rw (free, charged_to one room weekly) (omega (arith, room weekly));
                    others = λ other w different. rw different refl;
                  })
            ]
    ]

-- ===== src/Quota/Summary.antt =====
-- The reading of the quota by `get_summary`, while counters run out and others count.
use hll.Prelude.{
  ℕ, ◌+◌, ◌-◌, ◌<◌, String, ◌≡◌, refl, sym, ◌∙◌, ◌⊎◌, inl, inr, Option, none, some, arith, ltb,
  Bool-cases, ltb→lt,
}
use hll.Exec.{Result, ok, err}
use hll.Quota.{
  Window, daily, weekly, Counter, QuotaPolicy, QuotaWindowSnapshot, QuotaError, missing_expiry,
  limit_of, Reading, counter_at, expiry_left, ttl_answer, active_snapshot, snapshot_of, value_of,
  window_snapshot, both, get_summary,
}
use hll.Quota.Windows.{Fit, FitIfLive, Fits}

-- The window of a counter that was read is over, or is rounded to none, when its time to live is asked for.
pub record Lapsed (policy : QuotaPolicy) (rounded : ℕ → ℕ) (r : Reading) (user : String)
    (w : Window) : Type 0 where
  pub counter : Counter
  pub read : counter_at r.get user w ≡ some counter
  pub over :
      (counter_at r.ttl user w ≡ none)
      ⊎ ((left : Counter) × (expiry : ℕ) × (counter_at r.ttl user w ≡ some left)
          × (left.expires_at ≡ some expiry)
          × (rounded (expiry - r.ttl.time) < 1))

-- What was read makes up the limit with what remains.
pub record Read (policy : QuotaPolicy) (r : Reading) (user : String) (w : Window)
    (v : QuotaWindowSnapshot) : Type 0 where
  pub used : v.used ≡ value_of (counter_at r.get user w)
  pub whole : v.used + v.remaining ≡ limit_of policy w

pub data Summary (policy : QuotaPolicy) (rounded : ℕ → ℕ) (of_day of_week : Reading) (user : String)
    : Result QuotaError (QuotaWindowSnapshot × QuotaWindowSnapshot) → Type 0 where
  read_both :
      (d e : QuotaWindowSnapshot)
      → Read policy of_day user daily d
      → Read policy of_week user weekly e
      → Summary policy rounded of_day of_week user (ok (d, e))
  day_lapsed :
      Lapsed policy rounded of_day user daily
      → Summary policy rounded of_day of_week user (err missing_expiry)
  week_lapsed :
      (d : QuotaWindowSnapshot)
      → Read policy of_day user daily d
      → Lapsed policy rounded of_week user weekly
      → Summary policy rounded of_day of_week user (err missing_expiry)

-- The reading of one window
data Outcome (policy : QuotaPolicy) (rounded : ℕ → ℕ) (r : Reading) (user : String) (w : Window)
    : Result QuotaError QuotaWindowSnapshot → Type 0 where
  is_read :
      (v : QuotaWindowSnapshot) → Read policy r user w v → Outcome policy rounded r user w (ok v)
  is_lapsed : Lapsed policy rounded r user w → Outcome policy rounded r user w (err missing_expiry)

no_expiry : (e : ℕ) → none ≡ some e → ⊥
no_expiry e h = cc h

module _ (policy : QuotaPolicy) (rounded : ℕ → ℕ) (user : String) where
  window_outcome :
      (r : Reading) (w : Window)
      → FitIfLive policy r.get.time w (counter_at r.get user w)
      → FitIfLive policy r.ttl.time w (counter_at r.ttl user w)
      → Outcome policy rounded r user w (window_snapshot policy rounded r user w)
  unfolding window_snapshot
  window_outcome r w at_get at_ttl =
      go (counter_at r.get user w) (counter_at r.ttl user w) refl refl at_get at_ttl
    where
      active :
          (c left : Counter)
          → counter_at r.get user w ≡ some c
          → counter_at r.ttl user w ≡ some left
          → Fit policy r.get.time w c
          → (expiry : Option ℕ) → left.expires_at ≡ expiry
          → Fit policy r.ttl.time w left
          → Outcome policy rounded r user w
              (active_snapshot policy r.clock w c.value (expiry_left rounded r.ttl.time expiry))
      active c left here there f none e g = absurd (no_expiry g.expiry (sym e ∙ g.expires))
      active c left here there f (some expiry) e g =
          elim (Bool-cases (ltb (rounded (expiry - r.ttl.time)) 1)) [
            | inl short ↦ rw short (
                is_lapsed (record {
                  counter = c;
                  read = here;
                  over = inr (left, expiry, there, e, ltb→lt _ 1 short);
                }))
            | inr long ↦
                rw long
                  (is_read _ (record { used = rw here refl; whole = omega (arith, f.within) }))
          ]

      go :
          (c left : Option Counter)
          → counter_at r.get user w ≡ c
          → counter_at r.ttl user w ≡ left
          → FitIfLive policy r.get.time w c
          → FitIfLive policy r.ttl.time w left
          → Outcome policy rounded r user w
              (snapshot_of policy r.clock w c (ttl_answer rounded r.ttl.time left))
      go none left here there f g = is_read _ (record { used = rw here refl; whole = omega arith })
      go (some c) none here there f g =
          is_lapsed (record { counter = c; read = here; over = inl there })
      go (some c) (some left) here there f g = active c left here there f left.expires_at refl g

  both_outcome :
      (of_day of_week : Reading) (d e : Result QuotaError QuotaWindowSnapshot)
      → Outcome policy rounded of_day user daily d
      → Outcome policy rounded of_week user weekly e
      → Summary policy rounded of_day of_week user (both d e)
  both_outcome of_day of_week _ _ (is_read d p) (is_read e q) = read_both d e p q
  both_outcome of_day of_week _ _ (is_read d p) (is_lapsed l) = week_lapsed d p l
  both_outcome of_day of_week _ e (is_lapsed l) q = day_lapsed l

  -- Where the counters fit whenever a command reads them: the summary returns what each window had used at
  -- its GET, which makes up the limit with what remains; or it raises that an expiry is missing, where a
  -- counter that was read runs out before its TTL is asked for, or has so little left that Redis rounds it to none.
  pub get_summary_outcome :
      (of_day of_week : Reading)
      → Fits policy of_day.get.time of_day.get.counters
      → Fits policy of_day.ttl.time of_day.ttl.counters
      → Fits policy of_week.get.time of_week.get.counters
      → Fits policy of_week.ttl.time of_week.ttl.counters
      → Summary policy rounded of_day of_week user (get_summary policy rounded of_day of_week user)
  unfolding get_summary
  get_summary_outcome of_day of_week day_get day_ttl week_get week_ttl =
      both_outcome of_day of_week (window_snapshot policy rounded of_day user daily)
        (window_snapshot policy rounded of_week user weekly)
        (window_outcome of_day daily (day_get.at user daily) (day_ttl.at user daily))
        (window_outcome of_week weekly (week_get.at user weekly) (week_ttl.at user weekly))

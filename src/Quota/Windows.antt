-- ===== src/Quota/Windows.antt =====
-- No window of a user ever holds more than its limit, and each counter runs out.
use hll.Prelude.{
  ℕ, ◌+◌, ◌≤◌, ◌<◌, String, ◌≡◌, refl, true, false, ◌||◌, Option, none, some, ◌==◌, str_eq, arith,
  if◌then◌else◌, ltb, Bool-cases, inl, inr, eq_iff, subst, sym, ltb→lt,
}
use hll.Quota.{
  Window, daily, weekly, Counter, Counters, QuotaPolicy, limit_of, seconds_of, live, unexpired,
  current, value_of, incremented, over, spent, reserve_script, reserve,
}

-- A counter that lives at `now` has a value within its limit and an expiry within its window.
pub record Fit (policy : QuotaPolicy) (now : ℕ) (w : Window) (c : Counter) : Type 0 where
  pub within : c.value ≤ limit_of policy w
  pub expiry : ℕ
  pub expires : c.expires_at ≡ some expiry
  pub later : now < expiry
  pub soon : expiry ≤ now + seconds_of policy w

abbrev pub FitIfLive : QuotaPolicy → ℕ → Window → Option Counter → Type 0
FitIfLive policy now w none = Unit
FitIfLive policy now w (some c) = Fit policy now w c

pub record Fits (policy : QuotaPolicy) (now : ℕ) (counters : Counters) : Type 0 where
  pub at : (user : String) (w : Window) → FitIfLive policy now w (live now (counters user w))

lived :
    (now next : ℕ) (c : Counter) (e : ℕ)
    → now ≤ next
    → ltb next e ≡ true
    → unexpired now c (some e) ≡ some c
lived now next c e le h = ground arith

aged :
    (policy : QuotaPolicy) (now next : ℕ) (w : Window) (c : Counter) (expiry : Option ℕ)
    → now ≤ next
    → c.expires_at ≡ expiry
    → FitIfLive policy now w (unexpired now c expiry)
    → FitIfLive policy next w (unexpired next c expiry)
aged policy now next w c none le same h = cc
aged policy now next w c (some e) le same h = elim (Bool-cases (ltb next e)) [
  | inr gone ↦ rw gone tt
  | inl lives ↦ rw lives (
      let f : Fit policy now w c = subst (FitIfLive policy now w) (lived now next c e le lives) h in
      record {
        within = f.within;
        expiry = e;
        expires = same;
        later = ltb→lt next e lives;
        soon = ground (arith, f.soon, f.expires);
      })
]

aged_if_there :
    (policy : QuotaPolicy) (now next : ℕ) (w : Window) (c : Option Counter)
    → now ≤ next
    → FitIfLive policy now w (live now c)
    → FitIfLive policy next w (live next c)
aged_if_there policy now next w none le h = tt
aged_if_there policy now next w (some c) le h = aged policy now next w c c.expires_at le refl h

pub incremented-Fit :
    (policy : QuotaPolicy) (now cost : ℕ) (w : Window) (c : Option Counter)
    → 1 ≤ cost
    → 1 ≤ seconds_of policy w
    → value_of (live now c) + cost ≤ limit_of policy w
    → FitIfLive policy now w (live now c)
    → Fit policy now w (incremented now (seconds_of policy w) cost (live now c))
incremented-Fit policy now cost w c one long room h = go (live now c) room h
  where
    go :
        (c : Option Counter)
        → value_of c + cost ≤ limit_of policy w
        → FitIfLive policy now w c
        → Fit policy now w (incremented now (seconds_of policy w) cost c)
    go none room h = record {
      within = omega (arith, room);
      expiry = now + seconds_of policy w;
      expires = refl;
      later = omega arith;
      soon = omega arith;
    }
    go (some c) room h = elim (Bool-cases (c.value + cost == cost)) [
      | inl new ↦ rw new (record {
        within = room;
        expiry = now + seconds_of policy w;
        expires = refl;
        later = omega arith;
        soon = omega arith;
      })
      | inr old ↦ rw old (record {
        within = room;
        expiry = h.expiry;
        expires = h.expires;
        later = h.later;
        soon = h.soon;
      })
    ]

pub live-Fit :
    (policy : QuotaPolicy) (now : ℕ) (w : Window) (c : Counter)
    → Fit policy now w c
    → live now (some c) ≡ some c
live-Fit policy now w c f = rw f.expires (ground (arith, f.later))

module _ (policy : QuotaPolicy) where
  -- What fits now fits later.
  pub later-Fits :
      (now next : ℕ) (counters : Counters)
      → now ≤ next
      → Fits policy now counters
      → Fits policy next counters
  later-Fits now next counters le fits = record {
    at = λ user w. aged_if_there policy now next w (counters user w) le (fits.at user w);
  }

  pub no_room :
      (now cost : ℕ) (user : String) (counters : Counters) (w : Window)
      → (over policy now cost user counters daily || over policy now cost user counters weekly)
        ≡ false
      → current now counters user w + cost ≤ limit_of policy w
  no_room now cost user counters daily h = ground arith
  no_room now cost user counters weekly h = ground arith

  spent-Fits :
      (now cost : ℕ) (user : String) (counters : Counters)
      → 1 ≤ cost
      → ((w : Window) → 1 ≤ seconds_of policy w)
      → ((w : Window) → current now counters user w + cost ≤ limit_of policy w)
      → Fits policy now counters
      → Fits policy now (spent policy now cost user counters)
  unfolding spent
  spent-Fits now cost user counters one long room fits = record { at = fit_at }
    where
      fit_at :
          (other : String) (w : Window)
          → FitIfLive policy now w (
              live now (
                if str_eq user other
                then some (incremented now (seconds_of policy w) cost (live now (counters other w)))
                else counters other w))
      fit_at other w = elim (Bool-cases (str_eq user other)) [
        | inr different ↦ rw different (fits.at other w)
        | inl same ↦ rw same (
            let f : Fit policy now w
                (incremented now (seconds_of policy w) cost (live now (counters other w))) =
              incremented-Fit policy now cost w (counters other w) one (long w)
                (subst (λ u. current now counters u w + cost ≤ limit_of policy w)
                  (ground (arith, eq_iff user other)) (room w))
                (fits.at other w) in
            subst (FitIfLive policy now w) (sym (live-Fit policy now w _ f)) f)
      ]

  -- In a store whose counters fit, a reservation leaves counters that fit, whatever its outcome: no
  -- window ever holds more than its limit, and every counter expires within its window.
  pub reserve-Fits :
      (now cost : ℕ) (user : String) (counters : Counters)
      → ((w : Window) → 1 ≤ seconds_of policy w)
      → Fits policy now counters
      → Fits policy now (reserve policy now cost user counters).1
  unfolding reserve reserve_script
  reserve-Fits now cost user counters long fits = elim (Bool-cases (ltb cost 1)) [
    | inl bad ↦ rw bad fits
    | inr good ↦
        rw good
          (elim (Bool-cases (
            over policy now cost user counters daily
            || over policy now cost user counters weekly)) [
              | inl refused ↦ rw refused fits
              | inr allowed ↦ rw allowed (
                  spent-Fits now cost user counters (ground arith) long
                    (λ w. no_room now cost user counters w allowed) fits)
            ])
  ]

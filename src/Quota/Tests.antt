-- ===== src/Quota/Tests.antt =====
-- A store in which every user has one unit used in both windows.
use hll.Prelude.{◌≤◌, refl, some, arith}
use hll.Quota.{
  Reading, Window, daily, weekly, Counters, QuotaPolicy, seconds_of, live, get_summary, reserve,
}
use hll.Quota.Windows.{FitIfLive, Fits, reserve-Fits}
use hll.Quota.Summary.{Summary, get_summary_outcome}
use hll.Quota.Outcome.{Outcome}

abbrev policy : QuotaPolicy
policy = record {
  user_daily_limit = 2;
  user_daily_window_seconds = 86400;
  user_weekly_limit = 5;
  user_weekly_window_seconds = 604800;
}

abbrev counters : Counters
counters user w = some (record { value = 1; expires_at = some 50 })

fit_at : (w : Window) → FitIfLive policy 10 w (live 10 (counters "ann" w))
fit_at daily = record {
  within = omega arith;
  expiry = 50;
  expires = refl;
  later = omega arith;
  soon = omega arith;
}
fit_at weekly = record {
  within = omega arith;
  expiry = 50;
  expires = refl;
  later = omega arith;
  soon = omega arith;
}

counters-Fits : Fits policy 10 counters
counters-Fits = record { at = λ user w. fit_at w }

long : (w : Window) → 1 ≤ seconds_of policy w
long daily = omega arith
long weekly = omega arith

reserve-Fits_example : Fits policy 10 (reserve policy 10 1 "ann" counters).1
reserve-Fits_example = reserve-Fits policy 10 1 "ann" counters long counters-Fits

abbrev reading : Reading
reading = record {
  get = record { counters = counters; time = 10 };
  ttl = record { counters = counters; time = 10 };
  clock = 10;
}

get_summary_outcome_example :
    Summary policy
      (λ left. left)
      reading
      reading
      "ann"
      (get_summary policy (λ left. left) reading reading "ann")
get_summary_outcome_example =
    get_summary_outcome policy (λ left. left) "ann" reading reading counters-Fits counters-Fits
      counters-Fits counters-Fits

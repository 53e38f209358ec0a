-- ===== src/Tests/Burn.antt =====
-- An org with nine runs done and one failed within an hour.
use claude_struct.Prelude.{ℕ, zero, suc, ◌≡◌, ◌↔◌, refl, inl, List, [], ◌∷◌, In, length, arith}
use claude_struct.Calendar.{is_since, instant}
use claude_struct.Models.{Run, done, failed, is_terminal, is_failed, Org, Db}
use claude_struct.Slo.{in_window}
use claude_struct.Alerts.{critical}
use claude_struct.Alerts.BurnRate.{
  BurnRateFinding, burn_runs, failures, compute_burn_rate_alerts, burn_severity,
}
use claude_struct.Alerts.BurnRate.Burning.{IsBurning, burn_rate-IsBurning, single_failure_pages}
use claude_struct.Tests.Data.{march, a_run, a_db}

abbrev done_runs : ℕ → List Run
done_runs zero = []
done_runs (suc n) = a_run (suc n) "r" 2 done (march 5 8) ∷ done_runs n

abbrev acme : Org
acme = record { id = 2; slug = "acme" }

abbrev burn_db : Db
burn_db = record a_db {
  orgs = acme ∷ [];
  runs = a_run 10 "r-10" 2 failed (march 5 8) ∷ done_runs 9;
}

abbrev a_burn : BurnRateFinding
a_burn = record {
  org_id = 2;
  org_slug = "acme";
  window = "1h";
  window_seconds = 3600;
  total_runs = 10;
  failed = 1;
  threshold = 144;
}

burn_rate-IsBurning_example :
    In a_burn (compute_burn_rate_alerts burn_db (march 5 8)) ↔ IsBurning burn_db (march 5 8) a_burn
burn_rate-IsBurning_example = burn_rate-IsBurning burn_db (march 5 8) a_burn

ten_runs : length (burn_runs burn_db acme (march 5 8) 3600) ≡ 10
unfolding burn_runs in_window is_since instant is_terminal is_failed
ten_runs = refl

one_failure : failures (burn_runs burn_db acme (march 5 8) 3600) ≡ 1
unfolding burn_runs in_window is_since instant is_terminal is_failed
one_failure = refl

single_failure_pages_example :
    (f : BurnRateFinding) × In f (compute_burn_rate_alerts burn_db (march 5 8))
    × (f.org_id ≡ 2)
    × (burn_severity f ≡ critical)
single_failure_pages_example =
    single_failure_pages burn_db (march 5 8) acme (inl refl) (omega (arith, ten_runs))
      (omega (arith, ten_runs)) (omega (arith, one_failure))

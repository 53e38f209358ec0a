-- ===== src/Alerts/BurnRate.antt =====
-- src/claudestruct/server/alerts.py, the alerts on the error budget. A burn rate is the failed runs by
-- the terminal ones, times a thousand, and thresholds are in tenths. `TARGET_ERROR_RATE` is the float
-- `1.0 - 0.999`, which is 0.0010000000000000009, so that a rate of exactly the threshold comes out
-- below it: with fewer than a thousand million runs in a window the test of the code is the strict one.
pub mod Burning
use claude_struct.Prelude.{
  ℕ, ◌*◌, Bool, ◌&&◌, String, Option, none, some, List, [], ◌∷◌, ◌++◌, ◌==◌, leb, ltb,
  if◌then◌else◌, keep, count_if, length,
}
use claude_struct.Calendar.{DateTime}
use claude_struct.Models.{Run, is_failed, Org, Db}
use claude_struct.Slo.{in_window}
use claude_struct.Alerts.{sort_by, Severity, critical, warning}

-- `BurnRateFinding`; its error rate is `failed / total_runs`.
pub record BurnRateFinding : Type 0 where
  pub org_id : ℕ
  pub org_slug : String
  pub window : String
  pub window_seconds : ℕ
  pub total_runs : ℕ
  pub failed : ℕ
  pub threshold : ℕ

-- `FAST_BURN_THRESHOLD`, `SLOW_BURN_THRESHOLD` and `BURN_RATE_MIN_RUNS`.
abbrev pub fast_burn_threshold : ℕ
fast_burn_threshold = 144

abbrev pub slow_burn_threshold : ℕ
slow_burn_threshold = 60

abbrev pub burn_rate_min_runs : ℕ
burn_rate_min_runs = 10

-- A window: its label, its seconds and its threshold.
pub record BurnWindow : Type 0 where
  pub label : String
  pub seconds : ℕ
  pub limit : ℕ

abbrev pub burn_windows : List BurnWindow
burn_windows =
    record { label = "1h"; seconds = 60 * 60; limit = fast_burn_threshold }
    ∷ record { label = "6h"; seconds = 6 * 60 * 60; limit = slow_burn_threshold }
    ∷ []

-- The terminal runs of an org in a window.
unfoldable pub burn_runs : Db → Org → DateTime → ℕ → List Run
burn_runs db org now seconds = keep (λ r. (r.org_id == org.id) && in_window now seconds r) db.runs

abbrev pub failures : List Run → ℕ
failures rs = count_if (λ r. is_failed r.status) rs

-- Not `burn_rate < threshold`, as the floats decide it: the failed runs are more than the threshold
-- allows.
abbrev pub burns : ℕ → ℕ → ℕ → Bool
burns total failed threshold = ltb (threshold * total) (failed * 10000)

abbrev pub burn_finding : Org → BurnWindow → ℕ → ℕ → BurnRateFinding
burn_finding org w total failed = record {
  org_id = org.id;
  org_slug = org.slug;
  window = w.label;
  window_seconds = w.seconds;
  total_runs = total;
  failed = failed;
  threshold = w.limit;
}

abbrev pub burn_of : Org → BurnWindow → List Run → Option BurnRateFinding
burn_of org w rows =
    if ltb (length rows) burn_rate_min_runs
    then none
    else if burns (length rows) (failures rows) w.limit
    then some (burn_finding org w (length rows) (failures rows))
    else none

-- `_compute_burn_for_window`.
unfoldable pub compute_burn_for_window : Db → Org → DateTime → BurnWindow → Option BurnRateFinding
unfolding burn_runs
compute_burn_for_window db org now w = burn_of org w (burn_runs db org now w.seconds)

abbrev pub append_found : Option BurnRateFinding → List BurnRateFinding → List BurnRateFinding
append_found none rest = rest
append_found (some f) rest = f ∷ rest

-- The two loops.
unfoldable pub burn_org : Db → Org → DateTime → List BurnWindow → List BurnRateFinding
unfolding compute_burn_for_window
burn_org db org now [] = []
burn_org db org now (w ∷ ws) =
    append_found (compute_burn_for_window db org now w) (burn_org db org now ws)

unfoldable pub burn_orgs : Db → DateTime → List Org → List BurnRateFinding
unfolding burn_org
burn_orgs db now [] = []
burn_orgs db now (o ∷ os) = burn_org db o now burn_windows ++ burn_orgs db now os

abbrev pub burns_as_much : BurnRateFinding → BurnRateFinding → Bool
burns_as_much f g = leb (g.failed * f.total_runs) (f.failed * g.total_runs)

-- `compute_burn_rate_alerts`.
unfoldable pub compute_burn_rate_alerts : Db → DateTime → List BurnRateFinding
unfolding burn_orgs
compute_burn_rate_alerts db now = sort_by burns_as_much (burn_orgs db now db.orgs)

-- The severity that `burn_rate_finding_to_alert` gives.
unfoldable pub burn_severity : BurnRateFinding → Severity
burn_severity f = if leb fast_burn_threshold f.threshold then critical else warning

-- ===== src/Slo.antt =====
-- src/claudestruct/server/slo.py: the service-level snapshot over rolling windows of the runs table.
-- Percentages are whole numbers, as every call passes them, and the code's float arithmetic is
-- done exactly; a rate is the pair of its numerator and its denominator.
pub mod Percentile
pub mod Windows
use claude_struct.Prelude.{
  ℕ, suc, ◌+◌, ◌-◌, ◌*◌, ◌/◌, ◌%◌, Bool, true, false, ◌&&◌, String, Option, none, some, List, [],
  ◌∷◌, ◌==◌, leb, ltb, if◌then◌else◌, length, get_or, keep, count_if, map,
}
unfoldable use claude_struct.Prelude.{sort_up}
use claude_struct.Calendar.{DateTime, instant, is_since}
use claude_struct.Models.{Run, is_terminal, is_done, Db}

-- `round(n / 100)`: to the nearest, and to the even one between two.
unfoldable pub round_hundredths : ℕ → ℕ
round_hundredths n =
    let q = n / 100 in
    let r = n % 100 in if ltb r 50 then q else if ltb 50 r then q + 1 else q + q % 2

-- The value at a rank of a sorted list; the rank is counted in hundredths.
unfoldable pub interpolate : List ℕ → ℕ → ℕ
interpolate s rank =
    let lo = rank / 100 in
    let frac = rank % 100 in
    if frac == 0
    then get_or s lo 0
    else round_hundredths (get_or s lo 0 * 100 + (get_or s (lo + 1) 0 - get_or s lo 0) * frac)

-- `_percentile`.
unfoldable pub percentile : List ℕ → ℕ → Option ℕ
percentile [] pct = none
percentile (x ∷ xs) pct =
    if pct == 0
    then some x
    else if leb 100 pct
    then some (get_or (x ∷ xs) (length xs) 0)
    else some (interpolate (sort_up (λ v. v) (x ∷ xs)) (pct * length xs))

-- `WindowSnapshot`.
pub record WindowSnapshot : Type 0 where
  pub window : String
  pub total_runs : ℕ
  pub succeeded : ℕ
  pub failed : ℕ
  pub success_rate : Option (ℕ × ℕ)
  pub error_rate : Option (ℕ × ℕ)
  pub p50_run_start_ms : Option ℕ
  pub p95_run_start_ms : Option ℕ
  pub p99_run_start_ms : Option ℕ
  pub p50_duration_ms : Option ℕ
  pub p95_duration_ms : Option ℕ
  pub p99_duration_ms : Option ℕ

-- `SloTargets`; the rate is in thousandths.
pub record SloTargets : Type 0 where
  pub success_rate : ℕ
  pub p95_run_start_ms : ℕ
  pub p95_duration_ms : ℕ

-- `SloSnapshot`.
pub record SloSnapshot : Type 0 where
  pub generated_at : DateTime
  pub targets : SloTargets
  pub windows : List WindowSnapshot

abbrev pub slo_targets : SloTargets
slo_targets = record { success_rate = 999; p95_run_start_ms = 5000; p95_duration_ms = 600000 }

-- `WINDOWS_SECONDS`.
abbrev pub windows_seconds : List (String × ℕ)
windows_seconds = ("24h", 86400) ∷ ("7d", 604800) ∷ ("30d", 2592000) ∷ []

-- `Run.org_id == org_id`, where an org is asked for.
abbrev pub of_org : Option ℕ → Run → Bool
of_org none r = true
of_org (some org) r = r.org_id == org

-- The terminal runs that a window counts.
unfoldable pub in_window : DateTime → ℕ → Run → Bool
in_window now seconds r = is_terminal r.status && is_since now (seconds * 1000000) r.created_at

-- The queue times of the runs that were started; a negative one counts as 0.
unfoldable pub starts_ms : List Run → List ℕ
starts_ms [] = []
starts_ms (r ∷ rs) =
    let rest = starts_ms rs in
    elim r.started_at [ none ↦ rest | some t ↦ ((instant t - instant r.created_at) / 1000) ∷ rest ]

-- The execution times of the runs that succeeded.
unfoldable pub durations_ms : List Run → List ℕ
durations_ms [] = []
durations_ms (r ∷ rs) =
    let rest = durations_ms rs in
    if is_done r.status
    then (elim r.outcome.duration_ms [ none ↦ rest | some ms ↦ ms ∷ rest ])
    else rest

unfoldable pub rate : ℕ → ℕ → Option (ℕ × ℕ)
rate part total = if total == 0 then none else some (part, total)

-- The figures of a window, over the rows that its query gives.
unfoldable pub figures : String → List Run → WindowSnapshot
figures name rows =
    let total = length rows in
    let succeeded = count_if (λ r. is_done r.status) rows in
    let failed = total - succeeded in
    record {
      window = name;
      total_runs = total;
      succeeded = succeeded;
      failed = failed;
      success_rate = rate succeeded total;
      error_rate = rate failed total;
      p50_run_start_ms = percentile (starts_ms rows) 50;
      p95_run_start_ms = percentile (starts_ms rows) 95;
      p99_run_start_ms = percentile (starts_ms rows) 99;
      p50_duration_ms = percentile (durations_ms rows) 50;
      p95_duration_ms = percentile (durations_ms rows) 95;
      p99_duration_ms = percentile (durations_ms rows) 99;
    }

-- `_window_snapshot`.
unfoldable pub window_snapshot : Db → String → DateTime → ℕ → Option ℕ → WindowSnapshot
window_snapshot db name now seconds org =
    figures name (keep (λ r. of_org org r && in_window now seconds r) db.runs)

abbrev pub snapshot : Db → DateTime → Option ℕ → SloSnapshot
snapshot db now org = record {
  generated_at = now;
  targets = slo_targets;
  windows = map (λ (name, seconds). window_snapshot db name now seconds org) windows_seconds;
}

-- `compute_snapshot` and `compute_tenant_snapshot`.
unfoldable pub compute_snapshot : Db → DateTime → SloSnapshot
compute_snapshot db now = snapshot db now none

unfoldable pub compute_tenant_snapshot : Db → ℕ → DateTime → SloSnapshot
compute_tenant_snapshot db org now = snapshot db now (some org)

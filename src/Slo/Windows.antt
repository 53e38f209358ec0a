-- ===== src/Slo/Windows.antt =====
-- The windows of src/claudestruct/server/slo.py and a tenant's snapshot.
use claude_struct.Prelude.{
  ℕ, ◌+◌, ◌≡◌, refl, ap, Bool, true, Bool-cases, inl, inr, ◌&&◌, String, Option, none, some, List,
  [], ◌∷◌, ◌==◌, if◌then◌else◌, length, keep, count_if, arith,
}
use claude_struct.Calendar.{DateTime}
use claude_struct.Models.{
  RunStatus, queued, running, done, failed, Run, is_terminal, is_done, is_failed, Db,
}
use claude_struct.Slo.{
  WindowSnapshot, window_snapshot, figures, in_window, of_org, starts_ms, durations_ms,
  compute_snapshot, compute_tenant_snapshot,
}
use claude_struct.Slo.Percentile.{AtMost, percentile_mono}

-- The rows of a window.
abbrev pub rows_in : Db → DateTime → ℕ → Option ℕ → List Run
rows_in db now seconds org = keep (λ r. of_org org r && in_window now seconds r) db.runs

terminal_counts :
    (s : RunStatus)
    → is_terminal s ≡ true
    → (if is_done s then 1 else 0) + (if is_failed s then 1 else 0) ≡ 1
unfolding is_terminal is_done is_failed
terminal_counts done h = refl
terminal_counts failed h = refl
terminal_counts queued h = cc
terminal_counts running h = cc

window_terminal :
    (now : DateTime) (seconds : ℕ) (a : Bool) (r : Run)
    → (a && in_window now seconds r) ≡ true
    → is_terminal r.status ≡ true
unfolding in_window
window_terminal now seconds a r h = ground arith

failed_rest :
    (now : DateTime) (seconds : ℕ) (org : Option ℕ) (rs : List Run)
    → count_if (λ r. is_done r.status) (keep (λ r. of_org org r && in_window now seconds r) rs)
        + count_if
            (λ r. is_failed r.status)
            (keep (λ r. of_org org r && in_window now seconds r) rs)
      ≡ length (keep (λ r. of_org org r && in_window now seconds r) rs)
failed_rest now seconds org [] = refl
failed_rest now seconds org (r ∷ rs) = elim (Bool-cases (of_org org r && in_window now seconds r)) [
  | inl e ↦
      let one = terminal_counts r.status (window_terminal now seconds (of_org org r) r e) in
      rw e (omega (arith, failed_rest now seconds org rs, one))
  | inr e ↦ rw e (failed_rest now seconds org rs)
]

-- What a window reports of its rows.
pub record Reported (rows : List Run) (w : WindowSnapshot) : Type 0 where
  pub total : w.total_runs ≡ length rows
  pub succeeded : w.succeeded ≡ count_if (λ r. is_done r.status) rows
  pub failed : w.failed ≡ count_if (λ r. is_failed r.status) rows
  pub starts_50_95 : AtMost w.p50_run_start_ms w.p95_run_start_ms
  pub starts_95_99 : AtMost w.p95_run_start_ms w.p99_run_start_ms
  pub durations_50_95 : AtMost w.p50_duration_ms w.p95_duration_ms
  pub durations_95_99 : AtMost w.p95_duration_ms w.p99_duration_ms

-- A window counts its rows, the done and the failed among them, which are all of them, and its
-- percentiles of start and of duration are in their order or absent together.
pub window_snapshot-Reported :
    (db : Db) (name : String) (now : DateTime) (seconds : ℕ) (org : Option ℕ)
    → Reported (rows_in db now seconds org) (window_snapshot db name now seconds org)
unfolding window_snapshot figures
window_snapshot-Reported db name now seconds org =
    let rows = rows_in db now seconds org in
    let split = failed_rest now seconds org db.runs in
    record {
      total = refl;
      succeeded = refl;
      failed = omega (arith, split);
      starts_50_95 =
          percentile_mono (starts_ms rows) 50 95 (omega arith) (omega arith) (omega arith);
      starts_95_99 =
          percentile_mono (starts_ms rows) 95 99 (omega arith) (omega arith) (omega arith);
      durations_50_95 =
          percentile_mono (durations_ms rows) 50 95 (omega arith) (omega arith) (omega arith);
      durations_95_99 =
          percentile_mono (durations_ms rows) 95 99 (omega arith) (omega arith) (omega arith);
    }

-- The database as an org sees it.
abbrev pub own_rows : Db → ℕ → Db
own_rows db org = record db { runs = keep (λ r. r.org_id == org) db.runs }

keep-own :
    (p : Run → Bool) (org : ℕ) (rs : List Run)
    → keep (λ r. (r.org_id == org) && p r) rs ≡ keep p (keep (λ r. r.org_id == org) rs)
keep-own p org [] = refl
keep-own p org (r ∷ rs) = elim (Bool-cases (r.org_id == org)) [
  | inl e ↦ rw e (ground (arith, keep-own p org rs))
  | inr e ↦ rw e (keep-own p org rs)
]

window-own_rows :
    (db : Db) (name : String) (now : DateTime) (seconds org : ℕ)
    → window_snapshot db name now seconds (some org)
      ≡ window_snapshot (own_rows db org) name now seconds none
unfolding window_snapshot
window-own_rows db name now seconds org =
    ap (figures name) (keep-own (in_window now seconds) org db.runs)

-- An org's snapshot is the fleet's of a database that holds no other org's runs.
pub tenant_snapshot-own_rows :
    (db : Db) (org : ℕ) (now : DateTime)
    → compute_tenant_snapshot db org now ≡ compute_snapshot (own_rows db org) now
unfolding compute_tenant_snapshot compute_snapshot
tenant_snapshot-own_rows db org now =
    rw
      (
        window-own_rows db "24h" now 86400 org,
        window-own_rows db "7d" now 604800 org,
        window-own_rows db "30d" now 2592000 org,
      )
      refl

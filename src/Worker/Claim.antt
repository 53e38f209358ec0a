-- ===== src/Worker/Claim.antt =====
-- `_claim_one` of src/claudestruct/server/worker.py: the next queued run to execute, under each tier's
-- concurrency cap.
pub mod Eligible
pub mod Choice
pub mod Capacity
use claude_struct.Prelude.{
  ℕ, Bool, ◌&&◌, not, String, Option, none, some, List, [], ◌∷◌, ◌++◌, ◌==◌, leb, if◌then◌else◌,
  keep, length, sort_up, sort_down,
}
use claude_struct.Calendar.{DateTime, instant}
use claude_struct.Models.{Run, RunStatus, running, is_queued, is_running, Db, save_run}
use claude_struct.Billing.{get_or_default, sandbox_limits_for_tier, tier_priority_for}

unfoldable pub is_running_of : ℕ → Run → Bool
is_running_of org r = (r.org_id == org) && is_running r.status

-- `_org_concurrency`.
unfoldable pub org_concurrency : Db → ℕ → ℕ
org_concurrency db org = length (keep (is_running_of org) db.runs)

-- `select(Run).where(status == queued).order_by(Run.created_at)`.
unfoldable pub queued_runs : Db → List Run
queued_runs db = sort_up (λ r. instant r.created_at) (keep (λ r. is_queued r.status) db.runs)

-- A dictionary with org ids for keys.
abbrev pub cached : {V : Type 0} → ℕ → List (ℕ × V) → Option V
cached org [] = none
cached org ((k, v) ∷ d) = if k == org then some v else cached org d

-- The variables of the loop over the queue: the session's database, `org_to_tier`,
-- `org_concurrency` and `eligible`, whose runs stand beside their priority.
pub record Scan : Type 0 where
  pub db : Db
  pub org_to_tier : List (ℕ × String)
  pub org_concurrency : List (ℕ × ℕ)
  pub eligible : List (ℕ × Run)

-- `if run.org_id not in org_to_tier: …`.
abbrev pub resolve_cached : ℕ → Scan → Option String → Scan
resolve_cached org s (some _) = s
resolve_cached org s none =
    let (sub, db') = get_or_default s.db org in
    record s {
      db = db';
      org_to_tier = (org, sub.tier) ∷ s.org_to_tier;
      org_concurrency = (org, org_concurrency db' org) ∷ s.org_concurrency;
    }

unfoldable pub resolve_org : ℕ → Scan → Scan
resolve_org org s = resolve_cached org s (cached org s.org_to_tier)

-- A missing key would be a `KeyError`; the entry was written just before.
abbrev pub or_default : {V : Type 0} → V → Option V → V
or_default d none = d
or_default d (some v) = v

unfoldable pub offer_run : Run → Scan → Scan
offer_run r s =
    let tier = or_default "free" (cached r.org_id s.org_to_tier) in
    let limit = (sandbox_limits_for_tier tier).max_concurrent_runs in
    if leb limit (or_default 0 (cached r.org_id s.org_concurrency))
    then s
    else record s { eligible = s.eligible ++ (tier_priority_for tier, r) ∷ [] }

unfoldable pub scan_queue : List Run → Scan → Scan
scan_queue [] s = s
scan_queue (r ∷ rs) s = scan_queue rs (offer_run r (resolve_org r.org_id s))

abbrev pub scan_start : Db → Scan
scan_start db = record { db = db; org_to_tier = []; org_concurrency = []; eligible = [] }

abbrev pub first_run : List (ℕ × Run) → Option Run
first_run [] = none
first_run ((_, r) ∷ _) = some r

-- `eligible.sort(key=lambda x: -x[0])` and its first run.
unfoldable pub choose : List (ℕ × Run) → Option Run
choose eligible = first_run (sort_down (λ e. e.0) eligible)

abbrev pub claimed : Run → DateTime → Run
claimed r now = record r { status = running; started_at = some now }

abbrev pub claim_choice : DateTime → Db → Option Run → Option Run × Db
claim_choice now db none = (none, db)
claim_choice now db (some r) = (some (claimed r now), save_run (claimed r now) db)

abbrev pub claim_scanned : DateTime → Scan → Option Run × Db
claim_scanned now s = claim_choice now s.db (choose s.eligible)

-- The run that is claimed, and what the session then holds.
unfoldable pub claim_one : Db → DateTime → Option Run × Db
claim_one db now = claim_scanned now (scan_queue (queued_runs db) (scan_start db))

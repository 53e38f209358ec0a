-- ===== src/Worker/Claim/Capacity.antt =====
-- `_claim_one` of src/claudestruct/server/worker.py and the concurrency caps.
use claude_struct.Prelude.{
  ℕ, ◌+◌, ◌≤◌, ◌≡◌, ap, true, arith, length-keep, count_if, ◌==◌, In, Option, if◌then◌else◌, refl,
}
use claude_struct.Calendar.{DateTime}
use claude_struct.Models.{Run, Db, is_queued, is_running, put_run}
use claude_struct.Models.Rows.{HasUniqueIds, count_if-put_run}
use claude_struct.Billing.{sandbox_limits_for_tier}
use claude_struct.Worker.Claim.{is_running_of, org_concurrency, claimed, claim_one}
use claude_struct.Worker.Claim.Eligible.{tier_of, limit_of}
use claude_struct.Worker.Claim.Choice.{
  Claim, idle, pick, claim_one-Claim, In-candidates, candidate_row,
}

-- No org runs more at a time than its tier allows.
pub record IsCapped (db : Db) : Type 0 where
  pub at : (org : ℕ) → org_concurrency db org ≤ limit_of db org

org_concurrency-eq :
    (db : Db) (org : ℕ) → org_concurrency db org ≡ count_if (is_running_of org) db.runs
unfolding org_concurrency
org_concurrency-eq db org = length-keep (is_running_of org) db.runs

-- Claiming a queued run adds one to the count of its own org.
org_concurrency-claimed :
    (db : Db) (now : DateTime) (r : Run) (org : ℕ)
    → HasUniqueIds db.runs
    → In r db.runs
    → is_queued r.status ≡ true
    → count_if (is_running_of org) (put_run (claimed r now) db.runs)
      ≡ org_concurrency db org + (if r.org_id == org then 1 else 0)
unfolding is_running_of is_queued is_running
org_concurrency-claimed db now r org u m q = ground (
  arith,
  org_concurrency-eq db org,
  count_if-put_run (is_running_of org) r (claimed r now) db.runs u m refl,
)

limit_of-eq : (a b : Db) (org : ℕ) → tier_of a org ≡ tier_of b org → limit_of a org ≡ limit_of b org
limit_of-eq a b org e = ap (λ t. (sandbox_limits_for_tier t).max_concurrent_runs) e

Claim-IsCapped :
    (db : Db) (now : DateTime) (result : Option Run × Db)
    → HasUniqueIds db.runs
    → IsCapped db
    → Claim db now result
    → IsCapped result.1
Claim-IsCapped db now result u c (idle d e same tiers) = record {
  at = λ org. omega (
    arith,
    c.at org,
    org_concurrency-eq d org,
    org_concurrency-eq db org,
    ap (count_if (is_running_of org)) same,
    limit_of-eq d db org (tiers org),
  );
}
Claim-IsCapped db now result u c (pick r d b runs tiers) =
    let (row, waiting, slot) = candidate_row db r (In-candidates db r b) in
    record {
      at = λ org. ground (
        arith,
        c.at org,
        slot,
        org_concurrency-eq d org,
        limit_of-eq d db org (tiers org),
        ap (count_if (is_running_of org)) runs,
        org_concurrency-claimed db now r org u row waiting,
      );
    }

-- Where primary keys are unique and no org is above its cap, none is after a claim.
pub claim_one-IsCapped :
    (db : Db) (now : DateTime) → HasUniqueIds db.runs → IsCapped db → IsCapped (claim_one db now).1
claim_one-IsCapped db now u c =
    Claim-IsCapped db now (claim_one db now) u c (claim_one-Claim db now)

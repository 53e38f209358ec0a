-- ===== src/Billing/Usage.antt =====
-- What a billing period counts.
use claude_struct.Prelude.{
  ℕ, ◌+◌, ◌≡◌, Bool, List, [], ◌∷◌, ◌++◌, arith, if◌then◌else◌, keep, sum_of,
}
use claude_struct.Calendar.{DateTime}
use claude_struct.Models.{Run, Db}
use claude_struct.Billing.{
  get_or_default, current_period_bounds, is_org_run_in, is_billed_run_in, tokens_of, cost_of,
  current_period_token_usage, current_period_cost,
}
use claude_struct.Billing.Subscriptions.{runs-get_or_default, get_or_default-runs}

sum_of-keep-add {ℓ} :
    {A : Type ℓ} (f : A → ℕ) (p : A → Bool) (xs : List A) (r : A)
    → sum_of f (keep p (xs ++ r ∷ [])) ≡ sum_of f (keep p xs) + (if p r then f r else 0)
sum_of-keep-add f p [] r = ground arith
sum_of-keep-add f p (x ∷ xs) r = ground (arith, sum_of-keep-add f p xs r)

-- The period that usage is counted over for an org.
abbrev pub usage_period : Db → ℕ → DateTime → DateTime × DateTime
usage_period db org now = current_period_bounds (get_or_default db org).0 now

abbrev pub with_run : Db → Run → Db
with_run db r = record db { runs = db.runs ++ r ∷ [] }

-- A new run row adds its tokens to the usage of its own org if it was created in the org's period,
-- and changes no other usage.
pub token_usage-add :
    (db : Db) (org : ℕ) (now : DateTime) (r : Run)
    → (current_period_token_usage (with_run db r) org now).0
      ≡ (current_period_token_usage db org now).0
        + (if is_org_run_in org (usage_period db org now) r then tokens_of r else 0)
unfolding current_period_token_usage
token_usage-add db org now r =
    rw (get_or_default-runs db org (db.runs ++ r ∷ []), runs-get_or_default db org)
      (sum_of-keep-add tokens_of (is_org_run_in org (usage_period db org now)) db.runs r)

-- A new run row adds its cost to the cost of its own org if it has ended and was created in the
-- org's period, and changes no other cost.
pub cost-add :
    (db : Db) (org : ℕ) (now : DateTime) (r : Run)
    → (current_period_cost (with_run db r) org now).0
      ≡ (current_period_cost db org now).0
        + (if is_billed_run_in org (usage_period db org now) r then cost_of r else 0)
unfolding current_period_cost
cost-add db org now r =
    rw (get_or_default-runs db org (db.runs ++ r ∷ []), runs-get_or_default db org)
      (sum_of-keep-add cost_of (is_billed_run_in org (usage_period db org now)) db.runs r)

-- ===== src/Billing/Caps.antt =====
-- The caps by tier of src/claudestruct/server/billing.py.
use claude_struct.Prelude.{◌≤◌, ◌≡◌, refl, ◌≢◌, ◌↔◌, ◌⊎◌, String, none, some, arith, eq_iff}
use claude_struct.Billing.{
  Tier, free, tier_value, parse_tier, SandboxLimits, sandbox_limits, tier_priority,
  sandbox_limits_for_tier, tier_priority_for, tier_token_cap, tier_usd_cap, tier_token_caps,
  tier_usd_caps,
}

-- A tier is the one that its value names.
pub parse_tier-tier_value : (t : Tier) → parse_tier (tier_value t) ≡ some t
unfolding parse_tier tier_value
parse_tier-tier_value free = refl
parse_tier-tier_value _ = refl

-- The caps in order: `a` grants no more than `b`.
pub record IsWithin (a b : SandboxLimits) : Type 0 where
  pub concurrent : a.max_concurrent_runs ≤ b.max_concurrent_runs
  pub runtime : a.max_runtime_seconds ≤ b.max_runtime_seconds
  pub cost : a.max_cost_usd ≤ b.max_cost_usd

-- A string that is neither paid tier's value has the free tier's sandbox, priority and monthly caps.
pub unknown_tier_is_free :
    (s : String)
    → s ≢ "team"
    → s ≢ "business"
    → (sandbox_limits_for_tier s ≡ sandbox_limits free)
      × (tier_priority_for s ≡ tier_priority free)
      × (tier_token_cap (some s) ≡ tier_token_caps free)
      × (tier_usd_cap (some s) ≡ tier_usd_caps free)
unfolding sandbox_limits_for_tier tier_priority_for tier_token_cap tier_usd_cap
unknown_tier_is_free s nt nb = ground (arith, eq_iff s "team", eq_iff s "business")

-- A tier string is free of a monthly token cap exactly if it is free of a dollar cap, and only the
-- two paid tiers are.
pub uncapped_iff :
    (s : String)
    → ((tier_token_cap (some s) ≡ none) ↔ (tier_usd_cap (some s) ≡ none))
      × ((tier_token_cap (some s) ≡ none) ↔ ((s ≡ "team") ⊎ (s ≡ "business")))
unfolding tier_token_cap tier_usd_cap
uncapped_iff s = ground (
  arith,
  eq_iff s "free",
  eq_iff s "team",
  eq_iff s "business",
  eq_iff "team" "free",
  eq_iff "business" "free",
  eq_iff "business" "team",
)

-- A tier string with at least the priority of another has sandbox limits at least as high.
pub priority_mono :
    (s t : String)
    → tier_priority_for s ≤ tier_priority_for t
    → IsWithin (sandbox_limits_for_tier s) (sandbox_limits_for_tier t)
unfolding sandbox_limits_for_tier tier_priority_for
priority_mono s t h = ground arith

-- No tier string stops an org from running: at least one run may run at a time.
pub one_run_allowed : (s : String) → 1 ≤ (sandbox_limits_for_tier s).max_concurrent_runs
unfolding sandbox_limits_for_tier
one_run_allowed s = ground arith

-- ===== src/Billing.antt =====
-- src/claudestruct/server/billing.py: tiers and their caps, subscriptions, and the usage of the current
-- billing period. Dollar amounts are in micro-dollars.
pub mod Subscriptions
pub mod Caps
pub mod Usage
use claude_struct.Prelude.{
  ℕ, ◌+◌, ◌*◌, Bool, ◌&&◌, String, Option, none, some, List, [], ◌∷◌, ◌++◌, str_eq, ◌==◌,
  if◌then◌else◌, keep, find?, sum_of,
}
use claude_struct.Calendar.{DateTime, in_period, month_bounds}
use claude_struct.Models.{Run, RunStatus, is_terminal, Subscription, Db}

pub data Tier : Type 0 where
  free team business : Tier

-- `Tier.value`.
unfoldable pub tier_value : Tier → String
tier_value free = "free"
tier_value team = "team"
tier_value business = "business"

-- `Tier(tier)`; `none` is the `ValueError`.
unfoldable pub parse_tier : String → Option Tier
parse_tier s =
    if str_eq s "free"
    then some free
    else if str_eq s "team"
    then some team
    else if str_eq s "business"
    then some business
    else none

-- `AUDIT_RETENTION_DAYS`.
unfoldable pub audit_retention_days : Tier → ℕ
audit_retention_days free = 90
audit_retention_days team = 365 * 7
audit_retention_days business = 365 * 7

pub record SandboxLimits : Type 0 where
  pub max_concurrent_runs : ℕ
  pub max_runtime_seconds : ℕ
  pub max_cost_usd : ℕ

-- `SANDBOX_LIMITS`.
unfoldable pub sandbox_limits : Tier → SandboxLimits
sandbox_limits free = record {
  max_concurrent_runs = 1;
  max_runtime_seconds = 300;
  max_cost_usd = 500000;
}
sandbox_limits team = record {
  max_concurrent_runs = 4;
  max_runtime_seconds = 900;
  max_cost_usd = 5000000;
}
sandbox_limits business = record {
  max_concurrent_runs = 16;
  max_runtime_seconds = 3600;
  max_cost_usd = 50000000;
}

-- `TIER_PRIORITY`.
unfoldable pub tier_priority : Tier → ℕ
tier_priority business = 30
tier_priority team = 20
tier_priority free = 10

-- `except ValueError: t = Tier.free`.
abbrev or_free : Option Tier → Tier
or_free none = free
or_free (some t) = t

unfoldable pub sandbox_limits_for_tier : String → SandboxLimits
unfolding sandbox_limits parse_tier
sandbox_limits_for_tier s = sandbox_limits (or_free (parse_tier s))

unfoldable pub tier_priority_for : String → ℕ
unfolding tier_priority parse_tier
tier_priority_for s = tier_priority (or_free (parse_tier s))

-- The row that an org with no subscription gets.
unfoldable pub placeholder : ℕ → Subscription
unfolding tier_value
placeholder org = record {
  org_id = org;
  tier = tier_value free;
  stripe_customer_id = none;
  stripe_subscription_id = none;
  status = none;
  current_period_start = none;
  current_period_end = none;
  region = none;
  wrapped_dek_b64 = none;
  wrapped_dek_provider = none;
  wrapped_dek_key_id = none;
}

-- `select(Subscription).where(Subscription.org_id == org_id)`.
unfoldable pub find_subscription : ℕ → List Subscription → Option Subscription
find_subscription org [] = none
find_subscription org (s ∷ ss) = if s.org_id == org then some s else find_subscription org ss

abbrev found_or_added : ℕ → Db → Option Subscription → Subscription × Db
found_or_added org db (some s) = (s, db)
found_or_added org db none =
    (placeholder org, record db { subscriptions = db.subscriptions ++ placeholder org ∷ [] })

unfoldable pub get_or_default : Db → ℕ → Subscription × Db
get_or_default db org = found_or_added org db (find_subscription org db.subscriptions)

abbrev stripe_period : DateTime → Option DateTime → Option DateTime → DateTime × DateTime
stripe_period now (some start) (some end) = (start, end)
stripe_period now _ _ = month_bounds now

-- The Stripe period when both ends are set, otherwise the calendar month of `now`.
unfoldable pub current_period_bounds : Subscription → DateTime → DateTime × DateTime
current_period_bounds sub now = stripe_period now sub.current_period_start sub.current_period_end

-- `TIER_TOKEN_CAPS` and `TIER_USD_CAPS`; `none` is no cap.
unfoldable pub tier_token_caps : Tier → Option ℕ
tier_token_caps free = some 100000
tier_token_caps team = none
tier_token_caps business = none

unfoldable pub tier_usd_caps : Tier → Option ℕ
tier_usd_caps free = some 10000000
tier_usd_caps team = none
tier_usd_caps business = none

unfoldable pub tier_token_cap : Option String → Option ℕ
unfolding tier_token_caps parse_tier
tier_token_cap none = tier_token_caps free
tier_token_cap (some s) = tier_token_caps (or_free (parse_tier s))

unfoldable pub tier_usd_cap : Option String → Option ℕ
unfolding tier_usd_caps parse_tier
tier_usd_cap none = tier_usd_caps free
tier_usd_cap (some s) = tier_usd_caps (or_free (parse_tier s))

-- The rows of an org created in a period.
unfoldable pub is_org_run_in : ℕ → DateTime × DateTime → Run → Bool
is_org_run_in org period r = (r.org_id == org) && in_period period r.created_at

abbrev pub tokens_of : Run → ℕ
tokens_of r = r.outcome.input_tokens + r.outcome.output_tokens

unfoldable pub current_period_token_usage : Db → ℕ → DateTime → ℕ × Db
current_period_token_usage db org now =
    let (sub, db') = get_or_default db org in
    let period = current_period_bounds sub now in
    (sum_of tokens_of (keep (is_org_run_in org period) db'.runs), db')

unfoldable pub is_billed_run_in : ℕ → DateTime × DateTime → Run → Bool
unfolding is_org_run_in
is_billed_run_in org period r = is_org_run_in org period r && is_terminal r.status

abbrev pub cost_of : Run → ℕ
cost_of r = r.outcome.cost_usd

unfoldable pub current_period_cost : Db → ℕ → DateTime → ℕ × Db
current_period_cost db org now =
    let (sub, db') = get_or_default db org in
    let period = current_period_bounds sub now in
    (sum_of cost_of (keep (is_billed_run_in org period) db'.runs), db')

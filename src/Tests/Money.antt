-- ===== src/Tests/Money.antt =====
-- Subscriptions, tiers and the usage of a month.
use claude_struct.Prelude.{ℕ, ◌≤◌, arith}
use claude_struct.Calendar.{IsDate, days_in_month}
use claude_struct.Billing.{tier_priority, tier_priority_for, parse_tier}
use claude_struct.Tests.Data.{march}

free_before_team : tier_priority_for "free" ≤ tier_priority_for "team"
unfolding tier_priority_for tier_priority parse_tier
free_before_team = omega arith

march-IsDate : (day hour : ℕ) → 1 ≤ day → day ≤ 31 → hour ≤ 23 → IsDate (march day hour)
unfolding days_in_month
march-IsDate day hour low high top = record {
  year_low = omega arith;
  month_low = omega arith;
  month_high = omega arith;
  day_low = low;
  day_high = high;
  hour_high = omega arith;
  minute_high = omega arith;
  second_high = omega arith;
  microsecond_high = omega arith;
}

-- ===== src/Tests/Spending.antt =====
-- A team of the free tier that has spent most of its org's cap.
use claude_struct.Prelude.{◌*◌, ◌≤◌, ◌≡◌, ◌↔◌, refl, inl, [], ◌∷◌, In}
use claude_struct.Calendar.{
  in_period, month_bounds, month_start, instant, ordinal, days_before_year, days_before_month,
  days_before_common, is_leap, before, not_after,
}
use claude_struct.Models.{done, Db}
use claude_struct.Billing.{
  get_or_default, find_subscription, placeholder, tier_value, tier_usd_cap, tier_usd_caps,
  parse_tier, current_period_bounds,
}
use claude_struct.Alerts.{
  TeamBudgetFinding, insert_by, sort_by, team_users, is_team_run, flag_teams, flag_org, flag_orgs,
  compute_team_budget_alerts,
}
use claude_struct.Alerts.Sorted.{InOrder}
use claude_struct.Alerts.TeamBudget.{IsFlagged}
use claude_struct.Alerts.TeamBudget.Flagged.{team_budget_findings}
use claude_struct.Tests.Data.{march, a_run, spent, a_db}

abbrev team_db : Db
team_db = record a_db {
  orgs = record { id = 1; slug = "solo" } ∷ record { id = 2; slug = "acme" } ∷ [];
  teams = record { id = 5; org_id = 1; slug = "core" } ∷ [];
  team_memberships = record { team_id = 5; user_id = 3 } ∷ [];
  runs = record (a_run 9 "r-9" 1 done (march 1 8)) { outcome = spent 9000000 } ∷ [];
}

team_budget_findings_example :
    ((f : TeamBudgetFinding)
      → In f (compute_team_budget_alerts team_db (march 5 8)).0 ↔ IsFlagged team_db (march 5 8) f)
    × InOrder
        (λ f g. g.team_cost_usd * f.org_cap_usd ≤ f.team_cost_usd * g.org_cap_usd)
        (compute_team_budget_alerts team_db (march 5 8)).0
team_budget_findings_example = team_budget_findings team_db (march 5 8)

abbrev the_finding : TeamBudgetFinding
the_finding = record {
  org_id = 1;
  org_slug = "solo";
  team_id = 5;
  team_slug = "core";
  team_cost_usd = 9000000;
  org_cap_usd = 10000000;
  period = month_bounds (march 5 8);
}

the_findings : (compute_team_budget_alerts team_db (march 5 8)).0 ≡ the_finding ∷ []
unfolding compute_team_budget_alerts flag_orgs flag_org flag_teams team_users is_team_run sort_by
    insert_by get_or_default find_subscription placeholder tier_value tier_usd_cap tier_usd_caps
    parse_tier current_period_bounds in_period month_bounds month_start instant ordinal
    days_before_year days_before_month days_before_common is_leap before not_after
the_findings = refl

flagged : In the_finding (compute_team_budget_alerts team_db (march 5 8)).0
flagged = rw the_findings (inl refl)

-- ===== src/Alerts.antt =====
-- src/claudestruct/server/alerts.py: the teams that use up their org's monthly cap; the orgs that burn
-- their error budget too fast are in a child module. Ratios are compared exactly, by their numerators
-- and denominators.
pub mod BurnRate
pub mod Sorted
pub mod TeamBudget
use claude_struct.Prelude.{
  ℕ, ◌+◌, ◌*◌, Bool, true, false, ◌&&◌, String, Option, none, some, List, [], ◌∷◌, ◌++◌, map, ◌==◌,
  leb, ltb, if◌then◌else◌, keep, any, sum_of,
}
use claude_struct.Calendar.{DateTime, in_period}
use claude_struct.Models.{Run, Subscription, Org, Team, TeamMembership, Db}
use claude_struct.Billing.{get_or_default, current_period_bounds, tier_usd_cap, cost_of}

-- `findings.sort(key=…, reverse=True)`, where `a` may stand before `b` if `at_least a b`.
module _ {A : Type 0} (at_least : A → A → Bool) where
  unfoldable pub insert_by : A → List A → List A
  insert_by x [] = x ∷ []
  insert_by x (y ∷ ys) = if at_least x y then x ∷ y ∷ ys else y ∷ insert_by x ys

  unfoldable pub sort_by : List A → List A
  unfolding insert_by
  sort_by [] = []
  sort_by (x ∷ xs) = insert_by x (sort_by xs)

-- `TeamBudgetFinding`; its ratio is `team_cost_usd / org_cap_usd`.
pub record TeamBudgetFinding : Type 0 where
  pub org_id : ℕ
  pub org_slug : String
  pub team_id : ℕ
  pub team_slug : String
  pub team_cost_usd : ℕ
  pub org_cap_usd : ℕ
  pub period : DateTime × DateTime

abbrev pub ratio_at_least : TeamBudgetFinding → TeamBudgetFinding → Bool
ratio_at_least f g = leb (g.team_cost_usd * f.org_cap_usd) (f.team_cost_usd * g.org_cap_usd)

-- The users of a team.
unfoldable pub team_users : List TeamMembership → ℕ → List ℕ
team_users ms team = map (λ m. m.user_id) (keep (λ m. m.team_id == team) ms)

unfoldable pub is_team_run : ℕ → List ℕ → DateTime × DateTime → Run → Bool
is_team_run org users period r =
    (r.org_id == org) && (any (λ u. u == r.user_id) users && in_period period r.created_at)

abbrev pub finding_of : Org → Team → ℕ → ℕ → DateTime × DateTime → TeamBudgetFinding
finding_of org team cost cap period = record {
  org_id = org.id;
  org_slug = org.slug;
  team_id = team.id;
  team_slug = team.slug;
  team_cost_usd = cost;
  org_cap_usd = cap;
  period = period;
}

-- `team_cost / cap >= 0.8`.
abbrev pub over_warning : ℕ → ℕ → Bool
over_warning cost cap = leb (8 * cap) (10 * cost)

abbrev pub flag_team :
    Org → Team → List ℕ → ℕ → DateTime × DateTime → List Run → List TeamBudgetFinding
flag_team org team [] cap period runs = []
flag_team org team (u ∷ users) cap period runs =
    let cost = sum_of cost_of (keep (is_team_run org.id (u ∷ users) period) runs) in
    if over_warning cost cap then finding_of org team cost cap period ∷ [] else []

-- The loop over the teams of an org.
unfoldable pub flag_teams : Db → Org → ℕ → DateTime × DateTime → List Team → List TeamBudgetFinding
flag_teams db org cap period [] = []
flag_teams db org cap period (t ∷ ts) =
    flag_team org t (team_users db.team_memberships t.id) cap period db.runs
    ++ flag_teams db org cap period ts

abbrev pub flag_capped : Db → Org → Subscription → DateTime → Option ℕ → List TeamBudgetFinding
flag_capped db org sub now none = []
flag_capped db org sub now (some cap) =
    if cap == 0
    then []
    else flag_teams db org cap (current_period_bounds sub now)
        (keep (λ t. t.org_id == org.id) db.teams)

unfoldable pub flag_org : Db → Org → Subscription → DateTime → List TeamBudgetFinding
flag_org db org sub now = flag_capped db org sub now (tier_usd_cap (some sub.tier))

-- The loop over the orgs, with the session's database.
unfoldable pub flag_orgs : List Org → DateTime → Db → List TeamBudgetFinding × Db
flag_orgs [] now db = ([], db)
flag_orgs (o ∷ os) now db =
    let (sub, db') = get_or_default db o.id in
    let (rest, last) = flag_orgs os now db' in (flag_org db' o sub now ++ rest, last)

-- `compute_team_budget_alerts`.
unfoldable pub compute_team_budget_alerts : Db → DateTime → List TeamBudgetFinding × Db
compute_team_budget_alerts db now =
    let (findings, last) = flag_orgs db.orgs now db in (sort_by ratio_at_least findings, last)

pub data Severity : Type 0 where
  critical warning : Severity

-- The severity that `team_budget_finding_to_alert` gives.
unfoldable pub team_severity : TeamBudgetFinding → Severity
team_severity f = if leb f.org_cap_usd f.team_cost_usd then critical else warning

-- ===== src/Alerts/TeamBudget/Flagged.antt =====
-- `compute_team_budget_alerts` of src/claudestruct/server/alerts.py: the findings and their order.
use claude_struct.Prelude.{
  ℕ, ◌*◌, ◌≤◌, ◌≡◌, ◌≢◌, ◌↔◌, refl, sym, ap, ◌∙◌, Bool, true, false, Bool-cases, inl, inr, List, [],
  ◌∷◌, ◌==◌, ==_iff, leb→le, le→leb, keep, sum_of, In, arith,
}
use claude_struct.Calendar.{DateTime}
use claude_struct.Models.{Run, Org, Team, Db}
use claude_struct.Billing.{get_or_default, current_period_bounds, cost_of}
use claude_struct.Alerts.{
  TeamBudgetFinding, ratio_at_least, team_users, is_team_run, finding_of, flag_team, flag_teams,
  flag_org, compute_team_budget_alerts,
}
use claude_struct.Alerts.Sorted.{
  In-left, In-right, In-sort_by, sort_by-In, InOrder, sort_by-InOrder,
}
use claude_struct.Alerts.TeamBudget.{
  IsFlagged, findings_of, all_findings, all_findings-IsFlagged, compute-all_findings,
}

flag_team-In :
    (org : Org) (team : Team) (users : List ℕ) (cap : ℕ) (period : DateTime × DateTime)
    (runs : List Run)
    → users ≢ []
    → 8 * cap ≤ 10 * sum_of cost_of (keep (is_team_run org.id users period) runs)
    → In
        (finding_of org team
          (sum_of cost_of (keep (is_team_run org.id users period) runs))
          cap
          period)
        (flag_team org team users cap period runs)
flag_team-In org team [] cap period runs members enough = absurd (members refl)
flag_team-In org team (u ∷ users) cap period runs members enough =
    rw
      (le→leb (8 * cap) (10 * sum_of cost_of (keep (is_team_run org.id (u ∷ users) period) runs))
        enough)
      (inl refl)

keep-In :
    {A : Type 0} (p : A → Bool) (a : A) (xs : List A) → p a ≡ true → In a xs → In a (keep p xs)
keep-In p a [] h m = m
keep-In p a (x ∷ xs) h (inl q) = let e : p x ≡ true = ap p (sym q) ∙ h in rw e (inl q)
keep-In p a (x ∷ xs) h (inr m) = elim (Bool-cases (p x)) [
  | inl e ↦ rw e (inr (keep-In p a xs h m))
  | inr e ↦ rw e (keep-In p a xs h m)
]

In-flag_teams :
    (db : Db) (org : Org) (cap : ℕ) (period : DateTime × DateTime) (ts : List Team) (t : Team)
    (f : TeamBudgetFinding)
    → In t ts
    → In f (flag_team org t (team_users db.team_memberships t.id) cap period db.runs)
    → In f (flag_teams db org cap period ts)
unfolding flag_teams
In-flag_teams db org cap period [] t f m i = absurd m
In-flag_teams db org cap period (u ∷ ts) t f (inl q) i = In-left f _ _ (rw q at i)
In-flag_teams db org cap period (u ∷ ts) t f (inr m) i =
    In-right f _ _ (In-flag_teams db org cap period ts t f m i)

In-all_findings :
    (db : Db) (now : DateTime) (os : List Org) (o : Org) (f : TeamBudgetFinding)
    → In o os
    → In f (findings_of db now o)
    → In f (all_findings db now os)
In-all_findings db now [] o f m i = absurd m
In-all_findings db now (x ∷ os) o f (inl q) i = In-left f _ _ (rw q at i)
In-all_findings db now (x ∷ os) o f (inr m) i = In-right f _ _ (In-all_findings db now os o f m i)

module _ (db : Db) (now : DateTime) where
  flagged_here : (f : TeamBudgetFinding) (g : IsFlagged db now f) → In f (findings_of db now g.org)
  unfolding flag_org
  flagged_here f g =
      let period = current_period_bounds (get_or_default db g.org.id).0 now in
      let positive : (g.cap_usd == 0) ≡ false = ground (arith, g.capped, ==_iff g.cap_usd 0) in
      let own : (g.team.org_id == g.org.id) ≡ true = (==_iff g.team.org_id g.org.id).1 g.own in
      let made =
        flag_team-In g.org g.team (team_users db.team_memberships g.team.id) g.cap_usd period
          db.runs g.members g.enough in
      rw (g.cap, positive)
        (In-flag_teams db g.org g.cap_usd period (keep (λ t. t.org_id == g.org.id) db.teams) g.team
          f (keep-In (λ t. t.org_id == g.org.id) g.team db.teams own g.listed.1) (rw (g.is) made))

  -- A pass reports exactly the teams, of the listed orgs whose tier has a dollar cap above zero,
  -- that have members, and whose members' runs in the org's period have cost at least 80 percent of
  -- the cap, each with that cost, cap and period; and no finding's share of its cap is less than
  -- that of the one after it.
  pub team_budget_findings :
      ((f : TeamBudgetFinding) → In f (compute_team_budget_alerts db now).0 ↔ IsFlagged db now f)
      × InOrder
          (λ f g. g.team_cost_usd * f.org_cap_usd ≤ f.team_cost_usd * g.org_cap_usd)
          (compute_team_budget_alerts db now).0
  team_budget_findings = rw (compute-all_findings db now) (
    λ f. (
      λ m. all_findings-IsFlagged db now db.orgs f (λ o i. i) (In-sort_by ratio_at_least f _ m),
      λ g.
          sort_by-In ratio_at_least f _
            (In-all_findings db now db.orgs g.org f g.listed.0 (flagged_here f g)),
    ),
    sort_by-InOrder ratio_at_least
        (λ f g. g.team_cost_usd * f.org_cap_usd ≤ f.team_cost_usd * g.org_cap_usd)
        (λ f g h. leb→le _ _ h) (λ f g h. ground (arith, h)) (all_findings db now db.orgs),
  )

-- ===== src/Alerts/TeamBudget.antt =====
-- `compute_team_budget_alerts` of src/claudestruct/server/alerts.py: the orgs and teams it walks over.
pub mod Flagged
use claude_struct.Prelude.{
  ℕ, ◌*◌, ◌≤◌, ◌<◌, ◌≡◌, ◌≢◌, refl, sym, ap, ap₂, ◌∙◌, Bool, Bool-cases, inl, inr, Option, none,
  some, List, [], ◌∷◌, ◌++◌, ◌==◌, ==_iff, leb→le, if◌then◌else◌, keep, sum_of, In, In-keep,
  In-append, arith,
}
use claude_struct.Calendar.{DateTime}
use claude_struct.Models.{Run, Subscription, Org, Team, Db}
use claude_struct.Billing.{get_or_default, current_period_bounds, tier_usd_cap, cost_of}
use claude_struct.Billing.Subscriptions.{get_or_default-get_or_default}
use claude_struct.Alerts.{
  insert_by, sort_by, TeamBudgetFinding, ratio_at_least, team_users, is_team_run, finding_of,
  over_warning, flag_team, flag_teams, flag_capped, flag_org, flag_orgs, compute_team_budget_alerts,
}

-- Why a team is flagged.
pub record IsFlagged (db : Db) (now : DateTime) (f : TeamBudgetFinding) : Type 0 where
  pub org : Org
  pub team : Team
  pub cap_usd : ℕ
  pub listed : In org db.orgs × In team db.teams
  pub own : team.org_id ≡ org.id
  pub members : team_users db.team_memberships team.id ≢ []
  pub cap : tier_usd_cap (some (get_or_default db org.id).0.tier) ≡ some cap_usd
  pub capped : 0 < cap_usd
  pub enough :
      8 * cap_usd
      ≤ 10
        * sum_of cost_of (
            keep
              (is_team_run org.id
                (team_users db.team_memberships team.id)
                (current_period_bounds (get_or_default db org.id).0 now))
              db.runs)
  pub is : f ≡ record {
    org_id = org.id;
    org_slug = org.slug;
    team_id = team.id;
    team_slug = team.slug;
    team_cost_usd = sum_of cost_of (
        keep
          (is_team_run org.id
            (team_users db.team_memberships team.id)
            (current_period_bounds (get_or_default db org.id).0 now))
          db.runs);
    org_cap_usd = cap_usd;
    period = current_period_bounds (get_or_default db org.id).0 now;
  }

flag_team-cost :
    (org : Org) (team : Team) (users : List ℕ) (cap : ℕ) (period : DateTime × DateTime)
    (runs : List Run) (f : TeamBudgetFinding)
    → In f (flag_team org team users cap period runs)
    → (f
        ≡ finding_of org team
            (sum_of cost_of (keep (is_team_run org.id users period) runs))
            cap
            period)
      × (users ≢ [])
      × (8 * cap ≤ 10 * sum_of cost_of (keep (is_team_run org.id users period) runs))
flag_team-cost org team [] cap period runs f m = absurd m
flag_team-cost org team (u ∷ users) cap period runs f m =
    let cost = sum_of cost_of (keep (is_team_run org.id (u ∷ users) period) runs) in
    elim (Bool-cases (over_warning cost cap)) [
      | inl e ↦ (only (rw e at m), λ no. cc, leb→le (8 * cap) (10 * cost) e)
      | inr e ↦ absurd (rw e at m)
    ]
  where
    only : {g : TeamBudgetFinding} → In f (g ∷ []) → f ≡ g
    only (inl q) = q
    only (inr i) = absurd i

-- The team that a finding is about.
flag_teams-In :
    (db : Db) (org : Org) (cap : ℕ) (period : DateTime × DateTime) (ts : List Team)
    (f : TeamBudgetFinding)
    → In f (flag_teams db org cap period ts)
    → (t : Team) × In t ts
      × In f (flag_team org t (team_users db.team_memberships t.id) cap period db.runs)
unfolding flag_teams
flag_teams-In db org cap period [] f m = absurd m
flag_teams-In db org cap period (t ∷ ts) f m =
    elim (In-append f (flag_team org t (team_users db.team_memberships t.id) cap period db.runs)
      (flag_teams db org cap period ts) m) [
        | inl i ↦ (t, inl refl, i)
        | inr i ↦ let (u, j, k) = flag_teams-In db org cap period ts f i in (u, inr j, k)
      ]

-- A database that differs in placeholder subscriptions only.
record IsLike (db d : Db) : Type 0 where
  runs : d.runs ≡ db.runs
  teams : d.teams ≡ db.teams
  memberships : d.team_memberships ≡ db.team_memberships
  subscription : (key : ℕ) → (get_or_default d key).0 ≡ (get_or_default db key).0

IsLike-get_or_default : (db d : Db) (org : ℕ) → IsLike db d → IsLike db (get_or_default d org).1
IsLike-get_or_default db d org k =
    let (r, t, m) = kept in
    record {
      runs = r ∙ k.runs;
      teams = t ∙ k.teams;
      memberships = m ∙ k.memberships;
      subscription = λ key. get_or_default-get_or_default d org key ∙ k.subscription key;
    }
  where
    kept :
        ((get_or_default d org).1.runs ≡ d.runs)
        × ((get_or_default d org).1.teams ≡ d.teams)
        × ((get_or_default d org).1.team_memberships ≡ d.team_memberships)
    kept = unfold get_or_default in ground arith

flag_teams-same :
    (db d : Db) (org : Org) (cap : ℕ) (period : DateTime × DateTime) (ts : List Team)
    → IsLike db d
    → flag_teams d org cap period ts ≡ flag_teams db org cap period ts
unfolding flag_teams
flag_teams-same db d org cap period [] k = refl
flag_teams-same db d org cap period (t ∷ ts) k =
    ap₂ ◌++◌ (rw (k.memberships, k.runs) refl) (flag_teams-same db d org cap period ts k)

flag_capped-same :
    (db d : Db) (org : Org) (sub : Subscription) (now : DateTime) (cap : Option ℕ)
    → IsLike db d
    → flag_capped d org sub now cap ≡ flag_capped db org sub now cap
flag_capped-same db d org sub now none k = refl
flag_capped-same db d org sub now (some cap) k =
    let period = current_period_bounds sub now in
    ap (λ l. if cap == 0 then [] else l)
      (ap (λ ts. flag_teams d org cap period (keep (λ t. t.org_id == org.id) ts)) k.teams
        ∙ flag_teams-same db d org cap period (keep (λ t. t.org_id == org.id) db.teams) k)

-- The findings of an org, with the database as it was at first.
abbrev pub findings_of : Db → DateTime → Org → List TeamBudgetFinding
findings_of db now org = flag_org db org (get_or_default db org.id).0 now

abbrev pub all_findings : Db → DateTime → List Org → List TeamBudgetFinding
all_findings db now [] = []
all_findings db now (o ∷ os) = findings_of db now o ++ all_findings db now os

flag_orgs-all_findings :
    (db d : Db) (now : DateTime) (os : List Org)
    → IsLike db d
    → (flag_orgs os now d).0 ≡ all_findings db now os
unfolding flag_orgs flag_org
flag_orgs-all_findings db d now [] k = refl
flag_orgs-all_findings db d now (o ∷ os) k =
    let k' = IsLike-get_or_default db d o.id k in
    let first : flag_org (get_or_default d o.id).1 o (get_or_default d o.id).0 now
        ≡ findings_of db now o =
      rw (k.subscription o.id) (
        flag_capped-same db (get_or_default d o.id).1 o (get_or_default db o.id).0 now
          (tier_usd_cap (some (get_or_default db o.id).0.tier)) k') in
    ap₂ ◌++◌ first (flag_orgs-all_findings db (get_or_default d o.id).1 now os k')

capped-IsFlagged :
    (db : Db) (now : DateTime) (o : Org) (f : TeamBudgetFinding) (c : Option ℕ)
    → In o db.orgs
    → tier_usd_cap (some (get_or_default db o.id).0.tier) ≡ c
    → In f (flag_capped db o (get_or_default db o.id).0 now c)
    → IsFlagged db now f
capped-IsFlagged db now o f none l e m = absurd m
capped-IsFlagged db now o f (some cap) l e m = elim (Bool-cases (cap == 0)) [
  | inl z ↦ absurd (rw z at m)
  | inr z ↦
      let period = current_period_bounds (get_or_default db o.id).0 now in
      let (t, i, j) =
        flag_teams-In db o cap period (keep (λ t. t.org_id == o.id) db.teams) f (rw z at m) in
      let (row, own) = In-keep (λ t. t.org_id == o.id) t db.teams i in
      let (q, members, enough) =
        flag_team-cost o t (team_users db.team_memberships t.id) cap period db.runs f j in
      record {
        org = o;
        team = t;
        cap_usd = cap;
        listed = (l, row);
        own = (==_iff t.org_id o.id).0 own;
        members = members;
        cap = e;
        capped = ground (arith, ==_iff cap 0);
        enough = enough;
        is = q;
      }
]

pub all_findings-IsFlagged :
    (db : Db) (now : DateTime) (os : List Org) (f : TeamBudgetFinding)
    → ((o : Org) → In o os → In o db.orgs)
    → In f (all_findings db now os)
    → IsFlagged db now f
unfolding flag_org
all_findings-IsFlagged db now [] f listed m = absurd m
all_findings-IsFlagged db now (o ∷ os) f listed m =
    elim (In-append f (findings_of db now o) (all_findings db now os) m) [
      | inl i ↦ capped-IsFlagged db now o f _ (listed o (inl refl)) refl i
      | inr i ↦ all_findings-IsFlagged db now os f (λ p n. listed p (inr n)) i
    ]

-- The placeholder rows that the pass writes change no finding: it sorts what each org's teams give
-- by the database as it was.
pub compute-all_findings :
    (db : Db) (now : DateTime)
    → (compute_team_budget_alerts db now).0 ≡ sort_by ratio_at_least (all_findings db now db.orgs)
unfolding compute_team_budget_alerts
compute-all_findings db now = ap (sort_by ratio_at_least) (
    flag_orgs-all_findings db db now db.orgs
      (record { runs = refl; teams = refl; memberships = refl; subscription = λ key. refl }))

-- ===== src/Submission/Cap.antt =====
-- The monthly token cap at submission, in src/claudestruct/server/routers/runs.py.
use claude_struct.Prelude.{
  ℕ, ◌≤◌, ◌<◌, ◌≡◌, ◌⊎◌, refl, Bool-cases, inl, inr, String, Option, none, some, Option-cases,
  arith, ltb, if◌then◌else◌,
}
use claude_struct.Calendar.{DateTime}
use claude_struct.Models.{Db}
use claude_struct.Billing.{
  get_or_default, tier_token_cap, current_period_token_usage, current_period_bounds,
}
use claude_struct.Billing.Subscriptions.{get_or_default_idem, runs-get_or_default}
use claude_struct.Audit.{Codec}
use claude_struct.Submission.{
  Server, CapExceeded, payment_required, ok, err, enforce_token_cap, CreateRunRequest, Call,
  create_run,
}
use claude_struct.Auth.{Principal}

-- The cap of an org, and what it has used.
abbrev pub cap_of : Db → ℕ → Option ℕ
cap_of db org = tier_token_cap (some (get_or_default db org).0.tier)

abbrev pub used_of : Db → ℕ → DateTime → ℕ
used_of db org now = (current_period_token_usage db org now).0

usage_again :
    (db : Db) (org : ℕ) (now : DateTime)
    → current_period_token_usage (get_or_default db org).1 org now
      ≡ current_period_token_usage db org now
unfolding current_period_token_usage
usage_again db org now = rw (get_or_default_idem db org)

abbrev refusal : Db → ℕ → DateTime → ℕ → CapExceeded
refusal db org now cap = record {
  used_tokens = used_of db org now;
  cap_tokens = cap;
  period_end = (current_period_bounds (get_or_default db org).0 now).1;
  tier = (get_or_default db org).0.tier;
}

usage_writes :
    (db : Db) (org : ℕ) (now : DateTime)
    → (current_period_token_usage db org now).1 ≡ (get_or_default db org).1
unfolding current_period_token_usage
usage_writes db org now = refl

-- The three ways in which the cap is checked.
pub enforce_token_cap_lem :
    (db : Db) (org : ℕ) (now : DateTime)
    → enforce_token_cap db org now ≡ (elim (cap_of db org) [
      | none ↦ ok (get_or_default db org).1
      | some cap ↦
          if ltb (used_of db org now) cap
          then ok (get_or_default db org).1
          else err (payment_required (refusal db org now cap))
    ])
unfolding enforce_token_cap
enforce_token_cap_lem db org now = elim (Option-cases (cap_of db org)) [
  | inl e ↦ rw e
  | inr (cap, e) ↦ rw (e, usage_again db org now, usage_writes db org now)
]

-- From the cap on a submission is refused, with the usage, the cap, the end of the period and the
-- tier, and nothing is written.
pub capped_submit_refused :
    {Payload : Type 0} (c : Codec Payload) (call : Call) (p : Principal)
    (body : CreateRunRequest Payload) (header : Option String) (s : Server) (cap : ℕ)
    → tier_token_cap (some (get_or_default s.db p.org_id).0.tier) ≡ some cap
    → cap ≤ (current_period_token_usage s.db p.org_id call.now).0
    → create_run c call p body header s ≡ (
      err (
          payment_required (record {
            used_tokens = (current_period_token_usage s.db p.org_id call.now).0;
            cap_tokens = cap;
            period_end = (current_period_bounds (get_or_default s.db p.org_id).0 call.now).1;
            tier = (get_or_default s.db p.org_id).0.tier;
          })),
      s,
    )
unfolding create_run
capped_submit_refused c call p body header s cap e h =
    rw (enforce_token_cap_lem s.db p.org_id call.now, e)
      (elim (Bool-cases (ltb (used_of s.db p.org_id call.now) cap)) [
        | inl low ↦ absurd (ground arith)
        | inr high ↦ rw high
      ])

-- Below the cap, or with no cap, the check passes and no run is touched.
pub enforce_token_cap_passes :
    (db : Db) (org : ℕ) (now : DateTime)
    → (cap_of db org ≡ none) ⊎ ((cap : ℕ) × (cap_of db org ≡ some cap) × (used_of db org now < cap))
    → enforce_token_cap db org now ≡ ok (get_or_default db org).1
enforce_token_cap_passes db org now (inl e) = rw (enforce_token_cap_lem db org now, e)
enforce_token_cap_passes db org now (inr (cap, e, low)) =
    rw (enforce_token_cap_lem db org now, e) (ground arith)

-- What passes has the same runs.
pub runs-enforce_token_cap :
    (db session : Db) (org : ℕ) (now : DateTime)
    → enforce_token_cap db org now ≡ ok session
    → session.runs ≡ db.runs
runs-enforce_token_cap db session org now h =
    ground (arith, enforce_token_cap_lem db org now, runs-get_or_default db org)

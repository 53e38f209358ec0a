-- ===== src/Tests/Queue.antt =====
-- The worker on two queued runs.
use claude_struct.Prelude.{ℕ, ◌+◌, ◌≤◌, ◌<◌, ◌≡◌, refl, inl, [], ◌∷◌, In, IsFirstBest, arith}
unfoldable use claude_struct.Prelude.{sort_up, insert_up}
use claude_struct.Calendar.{
  instant, ordinal, days_before_year, days_before_month, days_before_common, is_leap,
}
use claude_struct.Models.{is_queued, is_running}
use claude_struct.Models.Rows.{HasUniqueIds}
use claude_struct.Billing.{
  sandbox_limits_for_tier, sandbox_limits, parse_tier, get_or_default, find_subscription,
  placeholder, tier_value, tier_priority_for, tier_priority,
}
use claude_struct.Billing.Caps.{one_run_allowed}
use claude_struct.Worker.Claim.{queued_runs, claim_one, org_concurrency, is_running_of}
use claude_struct.Worker.Claim.Eligible.{tier_of, limit_of}
use claude_struct.Worker.Claim.Choice.{candidates, priority_of, Claim, claim_one-Claim}
use claude_struct.Worker.Claim.Capacity.{IsCapped, claim_one-IsCapped}
use claude_struct.Worker.Process.{execute_run, drain_queue}
use claude_struct.Worker.Process.Lifecycle.{Executed, execute_run-Executed}
use claude_struct.Worker.Process.Drain.{waiting, drain_queue_exhausts}
use claude_struct.Worker.Process.Reports.{Reported, execute_run-Reported}
use claude_struct.Tests.Data.{march, run_two, run_three, a_db, an_env, a_world}

a_db-HasUniqueIds : HasUniqueIds a_db.runs
a_db-HasUniqueIds = ((omega arith, (omega arith, tt)), ((omega arith, tt), (tt, tt)))

within_limits : (org : ℕ) → org_concurrency a_db org ≤ limit_of a_db org
unfolding org_concurrency is_running_of is_running
within_limits org = ground (arith, one_run_allowed (tier_of a_db org))

a_db-IsCapped : IsCapped a_db
a_db-IsCapped = record { at = within_limits }

claim_one-IsCapped_example : IsCapped (claim_one a_db (march 4 8)).1
claim_one-IsCapped_example = claim_one-IsCapped a_db (march 4 8) a_db-HasUniqueIds a_db-IsCapped

claim_one-Claim_example : Claim a_db (march 4 8) (claim_one a_db (march 4 8))
claim_one-Claim_example = claim_one-Claim a_db (march 4 8)

the_candidates : candidates a_db ≡ run_two ∷ run_three ∷ []
unfolding queued_runs is_queued sort_up insert_up instant ordinal days_before_year days_before_month
    days_before_common is_leap org_concurrency is_running_of is_running sandbox_limits_for_tier
    sandbox_limits parse_tier get_or_default find_subscription placeholder tier_value
the_candidates = refl

-- The run of the team tier goes first, though it was submitted later.
outranked : priority_of a_db run_two < priority_of a_db run_three
unfolding tier_priority_for tier_priority parse_tier get_or_default find_subscription placeholder
    tier_value
outranked = omega arith

run_three-IsFirstBest : IsFirstBest (priority_of a_db) run_three (candidates a_db)
run_three-IsFirstBest = rw the_candidates (record {
  before = run_two ∷ [];
  behind = [];
  split = refl;
  smaller = (outranked, tt);
  no_greater = tt;
})

run_two_waits : In run_two (candidates a_db)
run_two_waits = rw the_candidates (inl refl)

execute_run-Executed_example : Executed an_env run_two a_world (execute_run an_env run_two a_world)
execute_run-Executed_example = execute_run-Executed an_env run_two a_world

execute_run-Reported_example :
    Reported an_env run_two a_world (execute_run an_env run_two a_world).1
execute_run-Reported_example = execute_run-Reported an_env run_two a_world

two_wait : waiting a_world.db < 3
unfolding is_queued
two_wait = omega arith

drain_queue_exhausts_example :
    (candidates (drain_queue (λ _. an_env) 3 a_world).1.db ≡ [])
    × ((drain_queue (λ _. an_env) 3 a_world).0 + waiting (drain_queue (λ _. an_env) 3 a_world).1.db
        ≡ waiting a_world.db)
drain_queue_exhausts_example =
    drain_queue_exhausts (λ _. an_env) 3 a_world a_db-HasUniqueIds two_wait

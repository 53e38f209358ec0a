-- ===== src/Worker/Process/Drain.antt =====
-- `process_pending_run` and `drain_queue` of src/claudestruct/server/worker.py.
use claude_struct.Prelude.{
  ℕ, zero, suc, ◌+◌, ◌<◌, ◌≡◌, refl, ap, ◌∙◌, true, false, Option, none, some, [], arith, count_if,
  In,
}
use claude_struct.Models.{Run, RunStatus, is_queued, is_terminal, Db, put_run}
use claude_struct.Models.Rows.{
  HasUniqueIds, count_if-put_run, put_run-put_run, put_run-HasUniqueIds,
}
use claude_struct.Worker.Claim.{claimed}
use claude_struct.Worker.Claim.Choice.{
  candidates, Claim, idle, pick, claim_one-Claim, In-candidates, candidate_row,
}
use claude_struct.Worker.Process.{
  Env, World, RunnerResult, finished, Gatherer, gatherer_for, execute_run, process_claimed,
  process_pending_run, drain_next, drain_from, drain_queue, runner_call,
}
use claude_struct.Worker.Process.Lifecycle.{runner_verdict, task_verdict, execute_run-Executed}

-- How many runs wait in the queue.
abbrev pub waiting : Db → ℕ
waiting db = count_if (λ r. is_queued r.status) db.runs

runner_verdict_ends : (r : Run) (a : RunnerResult) → is_terminal (runner_verdict r a).0 ≡ true
unfolding is_terminal
runner_verdict_ends r (finished o) = refl
runner_verdict_ends r _ = refl

task_verdict_ends :
    (env : Env) (r : Run) (k : Option Gatherer) → is_terminal (task_verdict env r k).0 ≡ true
unfolding is_terminal
task_verdict_ends env r none = refl
task_verdict_ends env r (some g) = runner_verdict_ends r (env.runner (runner_call env r g))

ended_not_queued : (s : RunStatus) → is_terminal s ≡ true → is_queued s ≡ false
unfolding is_terminal is_queued
ended_not_queued s h = ground arith

-- A round of the worker: it finds nothing to claim, or it ends one queued run for good, writing
-- that row alone.
pub data Round (w : World) : Option Run × World → Type 0 where
  stopped : (v : World) → candidates w.db ≡ [] → Round w (none, v)
  ran :
      (old new : Run) (v : World)
      → In old (candidates w.db)
      → new.id ≡ old.id
      → is_terminal new.status ≡ true
      → v.db.runs ≡ put_run new w.db.runs
      → Round w (some new, v)

claimed-Round :
    (env : Env) (w : World) (result : Option Run × Db)
    → Claim w.db env.started result
    → Round w (process_claimed env w result)
claimed-Round env w result (idle d e same tiers) = stopped _ e
claimed-Round env w result (pick r d b runs tiers) =
    let c = claimed r env.started in
    let x = execute_run-Executed env c (record w { db = d }) in
    let same_id = ap (λ (q : Run). q.id) x.rest_kept in
    ran r (execute_run env c (record w { db = d })).0 _ (In-candidates w.db r b) same_id
      (ap (λ q. is_terminal q.0) x.verdict ∙ task_verdict_ends env c (gatherer_for c.request.task))
      (x.stored ∙ ap (put_run _) runs ∙ put_run-put_run _ c w.db.runs same_id)

-- Every call of `process_pending_run` either returns nothing, and then there was no candidate, or
-- it returns a run that was one: the row returned has its primary key and a terminal status, and
-- it is the one row of the runs table that was written.
pub process_pending_run-Round : (env : Env) (w : World) → Round w (process_pending_run env w)
unfolding process_pending_run
process_pending_run-Round env w = claimed-Round env w _ (claim_one-Claim w.db env.started)

ran_one_less :
    (w v : World) (old new : Run)
    → HasUniqueIds w.db.runs
    → In old (candidates w.db)
    → new.id ≡ old.id
    → is_terminal new.status ≡ true
    → v.db.runs ≡ put_run new w.db.runs
    → waiting v.db + 1 ≡ waiting w.db
ran_one_less w v old new u m s t e =
    let (row, queued, slot) = candidate_row w.db old m in
    rw e (
      ground (
        arith,
        queued,
        ended_not_queued new.status t,
        count_if-put_run (λ r. is_queued r.status) old new w.db.runs u row s,
      ))

-- What a loop that began at `w`, with `done` runs behind it, ends with.
abbrev Drained : ℕ → World → ℕ × World → Type 0
Drained done w (n, v) = (candidates v.db ≡ []) × (n + waiting v.db ≡ done + waiting w.db)

next-Drained :
    (done : ℕ) (w : World) (rest : World → ℕ × World) (result : Option Run × World)
    → HasUniqueIds w.db.runs
    → Round w result
    → ((v : World)
        → HasUniqueIds v.db.runs
        → waiting v.db + 1 ≡ waiting w.db
        → Drained (done + 1) v (rest v))
    → Drained done w (drain_next done w rest result)
next-Drained done w rest result u (stopped v e) ih = (e, refl)
next-Drained done w rest result u (ran old new v m s t e) ih =
    let less = ran_one_less w v old new u m s t e in
    let (none_left, count) = ih v (rw e (put_run-HasUniqueIds new w.db.runs u)) less in
    (none_left, omega (arith, count, less))

drain_from-Drained :
    (env : ℕ → Env) (left done : ℕ) (w : World)
    → HasUniqueIds w.db.runs
    → waiting w.db < left
    → Drained done w (drain_from env left done w)
unfolding drain_from
drain_from-Drained env zero done w u h = absurd (omega arith)
drain_from-Drained env (suc left) done w u h =
    next-Drained done w (drain_from env left (done + 1)) _ u
      (process_pending_run-Round (env done) w)
      (λ v u' less. drain_from-Drained env left (done + 1) v u' (omega (arith, less)))

-- Where primary keys are unique and fewer runs wait than iterations are allowed, `drain_queue` ends
-- with no run left that could be claimed, and its count is how many left the queue.
pub drain_queue_exhausts :
    (env : ℕ → Env) (max_iterations : ℕ) (w : World)
    → HasUniqueIds w.db.runs
    → waiting w.db < max_iterations
    → (candidates (drain_queue env max_iterations w).1.db ≡ [])
      × ((drain_queue env max_iterations w).0 + waiting (drain_queue env max_iterations w).1.db
          ≡ waiting w.db)
unfolding drain_queue
drain_queue_exhausts env max w u h =
    let (none_left, count) = drain_from-Drained env max 0 w u h in (none_left, omega (arith, count))

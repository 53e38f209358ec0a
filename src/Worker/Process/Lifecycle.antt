-- ===== src/Worker/Process/Lifecycle.antt =====
-- `process_pending_run` of src/claudestruct/server/worker.py: a claimed run, its row and the table.
use mathlib.Core.Path.{subst}
use claude_struct.Prelude.{◌≡◌, refl, sym, ap, ◌∙◌, Option, none, some, arith, String, text_append}
use claude_struct.Calendar.{DateTime}
use claude_struct.Models.{Run, RunStatus, done, failed, Outcome, GithubRef, put_run, save_run}
use claude_struct.Worker.Process.{
  Env, World, RunnerResult, finished, claudestruct_error, crashed, Gatherer, gatherer_for, truncate,
  error_limit, runner_call, end_failed, end_done, fail_run, finish_run, end_run, run_gathered,
  execute_run, post_in_progress_check_run_safe,
}
use claude_struct.Worker.Process.Hooks.{
  db-post_verdict_comment_safe, db-post_completed_check_run_safe, post_in_progress-Rewrites,
  open_pr-Rewrites,
}

-- The status, the error and the outcome that a run should end with: they depend on its request and
-- on the runner, and on no answer of the GitHub API.
abbrev pub runner_verdict : Run → RunnerResult → RunStatus × Option String × Outcome
runner_verdict r (finished o) = (done, r.error, o)
runner_verdict r (claudestruct_error e) = (failed, some (truncate error_limit e), r.outcome)
runner_verdict r (crashed type e) =
    (failed, some (truncate error_limit (text_append type (text_append ": " e))), r.outcome)

abbrev pub task_verdict : Env → Run → Option Gatherer → RunStatus × Option String × Outcome
task_verdict env r none =
    (failed, some (text_append "unknown task type: " (env.repr r.request.task)), r.outcome)
task_verdict env r (some g) = runner_verdict r (env.runner (runner_call env r g))

pub record Executed (env : Env) (r : Run) (w : World) (result : Run × World) : Type 0 where
  pub verdict :
      (result.0.status, result.0.error, result.0.outcome)
      ≡ task_verdict env r (gatherer_for r.request.task)
  pub ended : result.0.ended_at ≡ some env.ended
  pub rest_kept : result.0 ≡ record r {
    status = result.0.status;
    error = result.0.error;
    outcome = result.0.outcome;
    ended_at = result.0.ended_at;
    github = result.0.github;
  }
  pub stored : result.1.db.runs ≡ put_run result.0 w.db.runs

module _ (env : Env) (r : Run) (w : World) (g : GithubRef) (v : World) where
  abbrev held : Run
  held = record r { github = g }

  module _ (same : (x : Run) → x.id ≡ r.id → put_run x v.db.runs ≡ put_run x w.db.runs) where
    runs-fail_run :
        (e : String) → (fail_run env e held v).1.db.runs ≡ put_run (end_failed env held e) w.db.runs
    unfolding fail_run save_run
    runs-fail_run e =
        ap (λ d. d.runs)
          (db-post_completed_check_run_safe env _ _ ∙ db-post_verdict_comment_safe env _ _)
        ∙ same (end_failed env held e) refl

    runs-finish_run :
        (o : Outcome)
        → (finish_run env o held v).1.db.runs ≡ put_run (finish_run env o held v).0 w.db.runs
    unfolding finish_run save_run
    runs-finish_run o = (open_pr-Rewrites env (end_done env held o) _).kept w.db.runs (
        ap (λ d. d.runs)
          (db-post_completed_check_run_safe env _ _ ∙ db-post_verdict_comment_safe env _ _)
        ∙ same (end_done env held o) refl)

    only_github-finish_run :
        (o : Outcome)
        → (finish_run env o held v).0
          ≡ record (end_done env held o) { github = (finish_run env o held v).0.github }
    unfolding finish_run
    only_github-finish_run o = (open_pr-Rewrites env (end_done env held o) _).only_github

    rest_of :
        (x : Run) (s : RunStatus) (o : Outcome) (t : Option DateTime)
        → x ≡ record r { status = s; outcome = o; ended_at = t; github = x.github }
        → x ≡ record r {
          status = x.status;
          error = x.error;
          outcome = x.outcome;
          ended_at = x.ended_at;
          github = x.github;
        }
    rest_of x s o t e = ground arith

    fail-Executed :
        (e : String)
        → task_verdict env r (gatherer_for r.request.task) ≡ (failed, some e, r.outcome)
        → Executed env r w (fail_run env e held v)
    fail-Executed e is = record {
      verdict = unfold fail_run in sym is;
      ended = unfold fail_run in refl;
      rest_kept = unfold fail_run in refl;
      stored = unfold fail_run in runs-fail_run e;
    }

    finish-Executed :
        (o : Outcome)
        → task_verdict env r (gatherer_for r.request.task) ≡ (done, r.error, o)
        → Executed env r w (finish_run env o held v)
    finish-Executed o is =
        let e = only_github-finish_run o in
        record {
          verdict = ap (λ (x : Run). (x.status, x.error, x.outcome)) e ∙ sym is;
          ended = ap (λ (x : Run). x.ended_at) e;
          rest_kept =
              rest_of (finish_run env o held v).0 (end_done env held o).status o (some env.ended) e;
          stored = runs-finish_run o;
        }

    run-Executed :
        (k : Option Gatherer)
        → k ≡ gatherer_for r.request.task
        → Executed env r w (run_gathered env k held v)
    run-Executed none is = fail-Executed _ (ap (task_verdict env r) (sym is))
    run-Executed (some k) is =
        end-Executed (env.runner (runner_call env held k)) (ap (task_verdict env r) (sym is))
      where
        end-Executed :
            (a : RunnerResult)
            → task_verdict env r (gatherer_for r.request.task) ≡ runner_verdict r a
            → Executed env r w (end_run env a held v)
        end-Executed (finished o) e = finish-Executed o e
        end-Executed (claudestruct_error t) e = fail-Executed _ e
        end-Executed (crashed type t) e = fail-Executed _ e

-- Executing a run, whatever the GitHub API answers: the run ends with the status, the error and
-- the outcome that its task and the runner decide, at the closing time; nothing else of the row
-- changes but its GitHub columns; and the table then differs in that one row, which is the row
-- returned.
pub execute_run-Executed :
    (env : Env) (r : Run) (w : World) → Executed env r w (execute_run env r w)
unfolding execute_run
execute_run-Executed env r w =
    let k = post_in_progress-Rewrites env r w in
    subst
      (λ (q : Run). Executed env r w (
        run_gathered env (gatherer_for q.request.task) q
          (post_in_progress_check_run_safe env r w).1))
      (sym k.only_github)
      (run-Executed env r w (post_in_progress_check_run_safe env r w).0.github
        (post_in_progress_check_run_safe env r w).1 k.overwritten (gatherer_for r.request.task)
        refl)

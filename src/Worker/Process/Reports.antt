-- ===== src/Worker/Process/Reports.antt =====
-- The reports of src/claudestruct/server/worker.py to GitHub about a run.
use claude_struct.Prelude.{
  ℕ, ◌+◌, ◌≡◌, refl, ◌∙◌, Bool, true, false, ◌&&◌, Option, none, some, [], ◌∷◌, arith,
  if◌then◌else◌, String, count_if, count_if-append,
}
use claude_struct.Models.{Run, Outcome, save_run}
use claude_struct.Worker.Process.{
  Env, World, ApiCall, commented, opened_check, created_check, opened_pr, patched_check, called,
  wants_comment, wants_check, wants_pr, Gatherer, gatherer_for, RunnerResult, finished,
  claudestruct_error, crashed, runner_call, post_verdict_comment_safe,
  post_in_progress_check_run_safe, complete_check, end_failed, end_done,
  post_completed_check_run_safe, open_pr_as_bot_safe, fail_run, finish_run, end_run, run_gathered,
  execute_run,
}

unfoldable pub is_comment : ApiCall → Bool
is_comment (commented _) = true
is_comment _ = false

-- A request that puts a finished check on the pull request.
unfoldable pub is_completion : ApiCall → Bool
is_completion (created_check _) = true
is_completion (patched_check _ _) = true
is_completion _ = false

abbrev one : Bool → ℕ
one b = if b then 1 else 0

abbrev sent : (ApiCall → Bool) → World → ℕ
sent p w = count_if p w.calls

abbrev completion_call : Run → Option ℕ → ApiCall
completion_call r none = created_check r
completion_call r (some id) = patched_check id r

module _ (p : ApiCall → Bool) (env : Env) (r : Run) (w : World) where
  sent-called : (c : ApiCall) → sent p (called c w) ≡ sent p w + one (p c)
  sent-called c = count_if-append p w.calls (c ∷ []) ∙ omega arith

  sent-post_verdict_comment :
      sent p (post_verdict_comment_safe env r w)
      ≡ sent p w + (if wants_comment r && env.configured then one (p (commented r)) else 0)
  unfolding post_verdict_comment_safe
  sent-post_verdict_comment = ground (arith, sent-called (commented r))

  sent-post_in_progress :
      sent p (post_in_progress_check_run_safe env r w).1
      ≡ sent p w + (if wants_check r && env.configured then one (p (opened_check r)) else 0)
  unfolding post_in_progress_check_run_safe
  sent-post_in_progress = ground (arith, sent-called (opened_check r))

  sent-open_pr :
      sent p (open_pr_as_bot_safe env r w).1
      ≡ sent p w + (if wants_pr r && env.configured then one (p (opened_pr r)) else 0)
  unfolding open_pr_as_bot_safe
  sent-open_pr = ground (arith, sent-called (opened_pr r))

  sent-complete_check :
      (id : Option ℕ)
      → sent p (complete_check env r id w) ≡ sent p w + one (p (completion_call r id))
  sent-complete_check none = ground (arith, sent-called (created_check r))
  sent-complete_check (some id) = ground (arith, sent-called (patched_check id r))

  sent-post_completed :
      sent p (post_completed_check_run_safe env r w)
      ≡ sent p w
        + (if wants_check r && env.configured
            then one (p (completion_call r r.github.check_run_id))
            else 0)
  unfolding post_completed_check_run_safe
  sent-post_completed = ground (arith, sent-complete_check r.github.check_run_id)

-- What is sent from `w` to `v`: one comment if the run wants one, and one completion if it wants
-- a check.
pub record Reported (env : Env) (r : Run) (w v : World) : Type 0 where
  pub comments : sent is_comment v ≡ sent is_comment w + one (wants_comment r && env.configured)
  pub completions :
      sent is_completion v ≡ sent is_completion w + one (wants_check r && env.configured)

completion_kind :
    (r : Run) (id : Option ℕ)
    → (is_comment (completion_call r id) ≡ false) × (is_completion (completion_call r id) ≡ true)
unfolding is_comment is_completion
completion_kind r none = (refl, refl)
completion_kind r (some id) = (refl, refl)

module _ (env : Env) (r : Run) (w : World) where
  pair-Reported :
      Reported env r w (post_completed_check_run_safe env r (post_verdict_comment_safe env r w))
  unfolding is_comment is_completion
  pair-Reported =
      let v = post_verdict_comment_safe env r w in
      let k = completion_kind r r.github.check_run_id in
      record {
        comments = ground (
          arith,
          k,
          sent-post_completed is_comment env r v,
          sent-post_verdict_comment is_comment env r w,
        );
        completions = ground (
          arith,
          k,
          sent-post_completed is_completion env r v,
          sent-post_verdict_comment is_completion env r w,
        );
      }

fail-Reported :
    (env : Env) (r : Run) (w : World) (e : String) → Reported env r w (fail_run env e r w).1
unfolding fail_run wants_comment wants_check
fail-Reported env r w e =
    let k =
      pair-Reported env (end_failed env r e)
        (record w { db = save_run (end_failed env r e) w.db }) in
    record { comments = k.comments; completions = k.completions }

finish-Reported :
    (env : Env) (r : Run) (w : World) (o : Outcome) → Reported env r w (finish_run env o r w).1
unfolding finish_run wants_comment wants_check is_comment is_completion
finish-Reported env r w o =
    let r' = end_done env r o in
    let saved = record w { db = save_run r' w.db } in
    let v = post_completed_check_run_safe env r' (post_verdict_comment_safe env r' saved) in
    let k = pair-Reported env r' saved in
    record {
      comments = ground (arith, sent-open_pr is_comment env r' v, k.comments);
      completions = ground (arith, sent-open_pr is_completion env r' v, k.completions);
    }

run-Reported :
    (env : Env) (r : Run) (w : World) (k : Option Gatherer)
    → Reported env r w (run_gathered env k r w).1
run-Reported env r w none = fail-Reported env r w _
run-Reported env r w (some g) = end-Reported (env.runner (runner_call env r g))
  where
    end-Reported : (a : RunnerResult) → Reported env r w (end_run env a r w).1
    end-Reported (finished o) = finish-Reported env r w o
    end-Reported (claudestruct_error e) = fail-Reported env r w _
    end-Reported (crashed type e) = fail-Reported env r w _

opened_wants :
    (env : Env) (r : Run) (w : World)
    → (wants_comment (post_in_progress_check_run_safe env r w).0 ≡ wants_comment r)
      × (wants_check (post_in_progress_check_run_safe env r w).0 ≡ wants_check r)
unfolding post_in_progress_check_run_safe wants_comment wants_check
opened_wants env r w = ground arith

-- Executing a run sends exactly one verdict comment if the run came from a pull request and the
-- GitHub App is configured, and none otherwise; likewise it completes exactly one check if the run
-- has a head commit. It does so on every branch, however the runner and the API end.
pub execute_run-Reported :
    (env : Env) (r : Run) (w : World) → Reported env r w (execute_run env r w).1
unfolding execute_run is_comment is_completion
execute_run-Reported env r w =
    let (r', w') = post_in_progress_check_run_safe env r w in
    let k = run-Reported env r' w' (gatherer_for r'.request.task) in
    let same = opened_wants env r w in
    record {
      comments = ground (arith, same, k.comments, sent-post_in_progress is_comment env r w);
      completions =
          ground (arith, same, k.completions, sent-post_in_progress is_completion env r w);
    }

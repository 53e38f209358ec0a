-- ===== src/Worker/Process.antt =====
-- `process_pending_run` of src/claudestruct/server/worker.py with its GitHub hooks, and `drain_queue`.
pub mod Hooks
pub mod Lifecycle
pub mod Drain
pub mod Reports
use claude_struct.Prelude.{
  ℕ, zero, suc, ◌+◌, Bool, true, false, ◌&&◌, String, text_append, Option, none, some, List, [],
  ◌∷◌, ◌++◌, str_eq, if◌then◌else◌,
}
use claude_struct.Calendar.{DateTime}
use claude_struct.Models.{Run, RunStatus, done, failed, Outcome, GithubRef, Db, save_run}
use claude_struct.WebhookMetrics.{Label, Counter, bump}
use claude_struct.Worker.Claim.{claim_one}

-- How a call of the GitHub App's HTTP helpers ends.
pub data ApiResult (A : Type 0) : Type 0 where
  ok : A → ApiResult A
  github_app_error : ApiResult A
  unexpected : ApiResult A

-- How the runner ends: an outcome, a `ClaudestructError`, or another exception with its type's name.
pub data RunnerResult : Type 0 where
  finished : Outcome → RunnerResult
  claudestruct_error : String → RunnerResult
  crashed : String → String → RunnerResult

pub data Gatherer : Type 0 where
  dev review plan debug : Gatherer

-- A decoded JSON text as the worker tells it apart: a list, each element a string or not, or
-- something else.
pub data Loaded : Type 0 where
  a_list : List (Option String) → Loaded
  other : Loaded

pub record RunnerCall : Type 0 where
  pub task : String
  pub description : String
  pub paths : Option (List String)
  pub gatherer : Gatherer
  pub model : String
  pub effort : Option String

-- What the worker does not implement: the clock at the claim and at the end, `json.loads` (`none`
-- is a decode error), `repr` of a text, the runner, whether the GitHub App is configured, and the
-- answers of its API.
pub record Env : Type 0 where
  pub started : DateTime
  pub ended : DateTime
  pub loads : String → Option Loaded
  pub repr : String → String
  pub runner : RunnerCall → RunnerResult
  pub configured : Bool
  pub post_comment : Run → ApiResult String
  pub open_check : Run → ApiResult (Option ℕ)
  pub create_check : Run → ApiResult String
  pub patch_check : ℕ → Run → ApiResult String
  pub open_pr : Run → ApiResult (Option ℕ)

-- The requests that the hooks send, in order.
pub data ApiCall : Type 0 where
  commented opened_check created_check opened_pr : Run → ApiCall
  patched_check : ℕ → Run → ApiCall

pub record World : Type 0 where
  pub db : Db
  pub webhook_errors : Counter
  pub calls : List ApiCall

abbrev is_set : {A : Type 0} → Option A → Bool
is_set none = false
is_set (some _) = true

-- The two `except` clauses, and what success does.
abbrev pub settle : {A : Type 0} → String → ApiResult A → (A → World → World) → World → World
settle path (ok a) k w = k a w
settle path github_app_error k w = record w {
  webhook_errors = bump (record { path = path; reason = "github_app_error" }) 1 w.webhook_errors;
}
settle path unexpected k w = record w {
  webhook_errors = bump (record { path = path; reason = "unexpected" }) 1 w.webhook_errors;
}

abbrev pub called : ApiCall → World → World
called c w = record w { calls = w.calls ++ c ∷ [] }

unfoldable pub wants_comment : Run → Bool
wants_comment r =
    is_set r.github.installation_id && (is_set r.github.repo_full_name && is_set r.github.pr_number)

unfoldable pub wants_check : Run → Bool
wants_check r =
    is_set r.github.installation_id && (is_set r.github.repo_full_name && is_set r.github.head_sha)

unfoldable pub wants_pr : Run → Bool
wants_pr r =
    is_set r.github.installation_id
    && (is_set r.github.repo_full_name && is_set r.github.base_branch)

-- `_post_verdict_comment_safe`.
unfoldable pub post_verdict_comment_safe : Env → Run → World → World
post_verdict_comment_safe env r w =
    if wants_comment r && env.configured
    then settle "github.verdict_comment" (env.post_comment r) (λ url v. v) (called (commented r) w)
    else w

abbrev pub with_check_id : Run → Option ℕ → Run
with_check_id r id = record r { github = record (r.github) { check_run_id = id } }

-- The row as the hook leaves it in memory.
abbrev pub opened : Run → ApiResult (Option ℕ) → Run
opened r (ok id) = with_check_id r id
opened r _ = r

-- `_post_in_progress_check_run_safe`: the row with the check's id, and the world.
unfoldable pub post_in_progress_check_run_safe : Env → Run → World → Run × World
post_in_progress_check_run_safe env r w =
    if wants_check r && env.configured
    then (
      opened r (env.open_check r),
      settle "github.check_run_open" (env.open_check r)
          (λ id v. record v { db = save_run (with_check_id r id) v.db })
          (called (opened_check r) w),
    )
    else (r, w)

abbrev pub complete_check : Env → Run → Option ℕ → World → World
complete_check env r (some id) w =
    settle "github.check_run_complete" (env.patch_check id r) (λ _ v. v)
      (called (patched_check id r) w)
complete_check env r none w =
    settle "github.check_run_complete" (env.create_check r) (λ _ v. v) (called (created_check r) w)

-- `_post_completed_check_run_safe`.
unfoldable pub post_completed_check_run_safe : Env → Run → World → World
post_completed_check_run_safe env r w =
    if wants_check r && env.configured then complete_check env r r.github.check_run_id w else w

abbrev pub with_pr_number : Run → Option ℕ → Run
with_pr_number r n = record r { github = record (r.github) { pr_number = n } }

abbrev pub pr_opened : Run → ApiResult (Option ℕ) → Run
pr_opened r (ok n) = with_pr_number r n
pr_opened r _ = r

-- `_open_pr_as_bot_safe`.
unfoldable pub open_pr_as_bot_safe : Env → Run → World → Run × World
open_pr_as_bot_safe env r w =
    if wants_pr r && env.configured
    then (
      pr_opened r (env.open_pr r),
      settle "github.pr_open" (env.open_pr r)
          (λ n v. record v { db = save_run (with_pr_number r n) v.db }) (called (opened_pr r) w),
    )
    else (r, w)

-- `_GATHERERS.get(task)`.
unfoldable pub gatherer_for : String → Option Gatherer
gatherer_for task =
    if str_eq task "dev"
    then some dev
    else if str_eq task "review"
    then some review
    else if str_eq task "plan"
    then some plan
    else if str_eq task "debug"
    then some debug
    else none

abbrev texts : List (Option String) → List String
texts [] = []
texts (none ∷ l) = texts l
texts (some s ∷ l) = s ∷ texts l

abbrev loaded_paths : Option Loaded → Option (List String)
loaded_paths (some (a_list l)) = some (texts l)
loaded_paths _ = none

-- The paths of the request; an empty or malformed text has none.
unfoldable pub paths_of : Env → Option String → Option (List String)
paths_of env none = none
paths_of env (some json) = if str_eq json "" then none else loaded_paths (env.loads json)

-- `run.model or "claude-opus-4-7"`.
unfoldable pub model_or_default : Option String → String
model_or_default none = "claude-opus-4-7"
model_or_default (some m) = if str_eq m "" then "claude-opus-4-7" else m

-- `text[:n]`.
unfoldable pub truncate : ℕ → String → String
truncate zero s = ""
truncate (suc n) String.[] = ""
truncate (suc n) (String.◌∷◌ c s) = String.◌∷◌ c (truncate n s)

abbrev pub error_limit : ℕ
error_limit = 4096

abbrev pub end_failed : Env → Run → String → Run
end_failed env r e = record r { status = failed; error = some e; ended_at = some env.ended }

-- The common end of the three failing branches.
unfoldable pub fail_run : Env → String → Run → World → Run × World
fail_run env e r w =
    let r' = end_failed env r e in
    let saved = record w { db = save_run r' w.db } in
    (r', post_completed_check_run_safe env r' (post_verdict_comment_safe env r' saved))

abbrev pub end_done : Env → Run → Outcome → Run
end_done env r o = record r { status = done; outcome = o; ended_at = some env.ended }

unfoldable pub finish_run : Env → Outcome → Run → World → Run × World
finish_run env o r w =
    let r' = end_done env r o in
    let saved = record w { db = save_run r' w.db } in
    open_pr_as_bot_safe env r'
      (post_completed_check_run_safe env r' (post_verdict_comment_safe env r' saved))

abbrev pub end_run : Env → RunnerResult → Run → World → Run × World
end_run env (finished o) r w = finish_run env o r w
end_run env (claudestruct_error e) r w = fail_run env (truncate error_limit e) r w
end_run env (crashed type e) r w =
    fail_run env (truncate error_limit (text_append type (text_append ": " e))) r w

abbrev pub runner_call : Env → Run → Gatherer → RunnerCall
runner_call env r g = record {
  task = r.request.task;
  description = r.request.description;
  paths = paths_of env r.request.paths_json;
  gatherer = g;
  model = model_or_default r.request.model;
  effort = r.request.effort;
}

abbrev pub run_gathered : Env → Option Gatherer → Run → World → Run × World
run_gathered env none r w =
    fail_run env (text_append "unknown task type: " (env.repr r.request.task)) r w
run_gathered env (some g) r w = end_run env (env.runner (runner_call env r g)) r w

-- What follows the claim.
unfoldable pub execute_run : Env → Run → World → Run × World
execute_run env r w =
    let (r', w') = post_in_progress_check_run_safe env r w in
    run_gathered env (gatherer_for r'.request.task) r' w'

abbrev pub process_claimed : Env → World → Option Run × Db → Option Run × World
process_claimed env w (none, db) = (none, record w { db = db })
process_claimed env w (some r, db) =
    let (r', w') = execute_run env r (record w { db = db }) in (some r', w')

unfoldable pub process_pending_run : Env → World → Option Run × World
process_pending_run env w = process_claimed env w (claim_one w.db env.started)

-- `drain_queue`, with the environment of each iteration; a session that is closed without a commit
-- leaves no trace.
abbrev pub drain_next : ℕ → World → (World → ℕ × World) → Option Run × World → ℕ × World
drain_next processed w rest (none, _) = (processed, w)
drain_next processed w rest (some _, w') = rest w'

unfoldable pub drain_from : (ℕ → Env) → ℕ → ℕ → World → ℕ × World
drain_from env zero processed w = (processed, w)
drain_from env (suc left) processed w =
    drain_next processed w (drain_from env left (processed + 1))
      (process_pending_run (env processed) w)

unfoldable pub drain_queue : (ℕ → Env) → ℕ → World → ℕ × World
unfolding drain_from
drain_queue env max_iterations w = drain_from env max_iterations 0 w

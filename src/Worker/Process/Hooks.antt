-- ===== src/Worker/Process/Hooks.antt =====
-- The GitHub hooks of src/claudestruct/server/worker.py and the rows that they write.
use claude_struct.Prelude.{ℕ, ◌≡◌, refl, ap, ◌∙◌, ◌&&◌, Bool-cases, inl, inr, Option, List, arith}
use claude_struct.Models.{Run, GithubRef, put_run, save_run}
use claude_struct.Models.Rows.{put_run-put_run}
use claude_struct.Worker.Process.{
  Env, World, ApiResult, ok, github_app_error, unexpected, ApiCall, settle, called, wants_check,
  wants_pr, post_verdict_comment_safe, with_check_id, opened, post_in_progress_check_run_safe,
  post_completed_check_run_safe, with_pr_number, pr_opened, open_pr_as_bot_safe,
}

pub db-post_verdict_comment_safe :
    (env : Env) (r : Run) (w : World) → (post_verdict_comment_safe env r w).db ≡ w.db
unfolding post_verdict_comment_safe
db-post_verdict_comment_safe env r w = ground arith

pub db-post_completed_check_run_safe :
    (env : Env) (r : Run) (w : World) → (post_completed_check_run_safe env r w).db ≡ w.db
unfolding post_completed_check_run_safe
db-post_completed_check_run_safe env r w = ground arith

-- A hook that may write the row hands back a row that differs in the GitHub columns alone, and
-- the table differs in that row alone.
pub record Rewrites (r : Run) (w : World) (result : Run × World) : Type 0 where
  pub only_github : result.0 ≡ record r { github = result.0.github }
  pub overwritten : (x : Run) → x.id ≡ r.id → put_run x result.1.db.runs ≡ put_run x w.db.runs
  pub kept : (xs : List Run) → w.db.runs ≡ put_run r xs → result.1.db.runs ≡ put_run result.0 xs

unchanged : (r : Run) (w v : World) → v.db ≡ w.db → Rewrites r w (r, v)
unchanged r w v e = record {
  only_github = refl;
  overwritten = λ x s. ap (λ d. put_run x d.runs) e;
  kept = λ xs h. ap (λ d. d.runs) e ∙ h;
}

rewritten :
    (r : Run) (w v : World) (g : GithubRef)
    → v.db ≡ save_run (record r { github = g }) w.db
    → Rewrites r w (record r { github = g }, v)
unfolding save_run
rewritten r w v g e = record {
  only_github = refl;
  overwritten =
      λ x s. ap (λ d. put_run x d.runs) e ∙ put_run-put_run x (record r { github = g }) w.db.runs s;
  kept = λ xs h.
      ap (λ d. d.runs) e
      ∙ ap (put_run (record r { github = g })) h
      ∙ put_run-put_run (record r { github = g }) r xs refl;
}

module _ (env : Env) (r : Run) (w : World) where
  settled_check :
      (a : ApiResult (Option ℕ))
      → Rewrites r w (
        opened r a,
        settle "github.check_run_open" a
            (λ id v. record v { db = save_run (with_check_id r id) v.db })
            (called (ApiCall.opened_check r) w),
      )
  settled_check (ok id) = rewritten r w _ _ refl
  settled_check github_app_error = unchanged r w _ refl
  settled_check unexpected = unchanged r w _ refl

  pub post_in_progress-Rewrites : Rewrites r w (post_in_progress_check_run_safe env r w)
  unfolding post_in_progress_check_run_safe
  post_in_progress-Rewrites = elim (Bool-cases (wants_check r && env.configured)) [
    | inl e ↦ rw e (settled_check (env.open_check r))
    | inr e ↦ rw e (unchanged r w w refl)
  ]

  settled_pr :
      (a : ApiResult (Option ℕ))
      → Rewrites r w (
        pr_opened r a,
        settle "github.pr_open" a
            (λ n v. record v { db = save_run (with_pr_number r n) v.db })
            (called (ApiCall.opened_pr r) w),
      )
  settled_pr (ok n) = rewritten r w _ _ refl
  settled_pr github_app_error = unchanged r w _ refl
  settled_pr unexpected = unchanged r w _ refl

  pub open_pr-Rewrites : Rewrites r w (open_pr_as_bot_safe env r w)
  unfolding open_pr_as_bot_safe
  open_pr-Rewrites = elim (Bool-cases (wants_pr r && env.configured)) [
    | inl e ↦ rw e (settled_pr (env.open_pr r))
    | inr e ↦ rw e (unchanged r w w refl)
  ]

-- ===== src/Github.antt =====
-- src/claudestruct/server/routers/github.py: the receiver of GitHub's webhooks, and the installations
-- of src/claudestruct/server/models.py. Integers in a payload are natural numbers; a negative one is
-- taken for a number that is no integer, and a repository's name that is truthy and no text for an
-- error.
pub mod Receive
pub mod Gate
pub mod Refusals
use Prim.Native.Char.{code}
use claude_struct.Prelude.{
  ℕ, Bool, true, false, not, ◌&&◌, ◌||◌, String, text_append, Option, none, some, List, [], ◌∷◌,
  ◌++◌, ◌==◌, str_eq, ltb, if◌then◌else◌, keep,
}
use claude_struct.Calendar.{DateTime}
use claude_struct.Models.{Run, RunRequest, queued, GithubRef, Db, no_outcome}
use claude_struct.Submission.{strip, violates_unique}
use claude_struct.Auth.{Lookup, missing, one, several, one_or_none, drop_prefix}
use claude_struct.WebhookMetrics.{Counter, bump}
use claude_struct.Json.{
  Json, null, bool, int, str, obj, end, Got, got, raised, ◌>>=◌, truthy, or_else, get_default, get,
  get_or_empty, contains, has_key, as_int, as_str, sliced,
}

-- `GitHubInstallation`.
pub record GithubInstallation : Type 0 where
  pub installation_id : ℕ
  pub org_id : ℕ
  pub webhook_secret : String
  pub repo_filter : Option String
  pub bot_user_id : ℕ
  pub revoked_at : Option DateTime

unfoldable pub is_active : GithubInstallation → Bool
is_active i = elim i.revoked_at [ none ↦ true | some _ ↦ false ]

pub record AckCall : Type 0 where
  pub installation_id : ℕ
  pub repo_full_name : String
  pub pr_number : ℕ
  pub body : String

-- What `post_ack_comment` does: it posts, or raises a `GitHubAppError` or something else.
pub data AckResult : Type 0 where
  posted github_app_error unexpected : AckResult

-- Python's library and GitHub: the JSON reader (`none` is a body that is no JSON), HMAC-SHA256 as a
-- hex text, `str.lower`, `str` of a JSON value, whether the App is configured, and its comments.
pub record Services : Type 0 where
  pub loads : List ℕ → Option Json
  pub hmac_sha256_hex : String → List ℕ → String
  pub lower : String → String
  pub text_of : Json → String
  pub configured : Bool
  pub post_ack_comment : AckCall → AckResult

-- The dictionary that `detect_trigger` returns.
pub record Decision : Type 0 where
  pub task : String
  pub description : String
  pub repo_full_name : Json
  pub pr_number : Json
  pub head_sha : Option Json
  pub base_branch : Option Json
  pub trigger : String

-- `v or None`.
abbrev pub or_none : Json → Option Json
or_none v = if truthy v then some v else none

-- `action in _PR_TRIGGER_ACTIONS`: an action that cannot be hashed is an error.
unfoldable pub is_pr_action : Json → Got Bool
is_pr_action (str a) = got (str_eq a "opened" || (str_eq a "synchronize" || str_eq a "reopened"))
is_pr_action (Json.arr _) = raised
is_pr_action (obj _) = raised
is_pr_action _ = got false

module _ (services : Services) where
  abbrev pub joined_text : List String → String
  joined_text [] = ""
  joined_text (s ∷ ss) = text_append s (joined_text ss)

  abbrev pub pr_decision : Json → Json → Json → Got (Option Decision)
  pr_decision payload action repo = do
    pr ← get_or_empty "pull_request" payload
    title ← get "title" pr
    body ← get "body" pr
    head ← get_or_empty "head" pr
    head_sha ← get "sha" head
    base ← get_or_empty "base" pr
    base_branch ← get "ref" base
    shown ← get_default (str "?") "number" pr
    cut ← sliced 1500 (or_else body (str ""))
    pr_number ← get "number" pr
    got (
        some (record {
          task = "review";
          description = strip (
              joined_text (
                "Review PR #"
                ∷ services.text_of shown
                ∷ " in "
                ∷ services.text_of repo
                ∷ ": "
                ∷ services.text_of (or_else title (str "(no title)"))
                ∷ "\n\n"
                ∷ services.text_of cut
                ∷ []));
          repo_full_name = repo;
          pr_number = pr_number;
          head_sha = or_none head_sha;
          base_branch = or_none base_branch;
          trigger = text_append "pull_request." (services.text_of action);
        }))

  -- The name of the repository, and nothing where there is none.
  abbrev pub with_repo : Json → (Json → Got (Option Decision)) → Got (Option Decision)
  with_repo payload f = do
    repository ← get_or_empty "repository" payload
    repo ← get "full_name" repository
    if truthy repo then f repo else got none

  abbrev pub detect_pr : Json → Got (Option Decision)
  detect_pr payload = do
    action ← get "action" payload
    fires ← is_pr_action action
    if fires then with_repo payload (pr_decision payload action) else got none

  abbrev pub comment_decision : Json → Json → Json → Got (Option Decision)
  comment_decision comment issue repo = do
    shown ← get_default (str "?") "number" issue
    user ← get_or_empty "user" comment
    login ← get_default (str "?") "login" user
    pr_number ← get "number" issue
    got (
        some (record {
          task = "review";
          description = strip (
              joined_text (
                "Review PR #"
                ∷ services.text_of shown
                ∷ " in "
                ∷ services.text_of repo
                ∷ " (triggered by `/cs review` comment from @"
                ∷ services.text_of login
                ∷ ")"
                ∷ []));
          repo_full_name = repo;
          pr_number = pr_number;
          head_sha = none;
          base_branch = none;
          trigger = "issue_comment.cs-review";
        }))

  -- `_REVIEW_COMMAND in comment_body.lower()`.
  abbrev pub asks_review : Json → Got Bool
  asks_review (str s) = got (contains "/cs review" (services.lower s))
  asks_review _ = raised

  abbrev pub is_created : Json → Bool
  is_created (str s) = str_eq s "created"
  is_created _ = false

  abbrev pub detect_review : Json → Json → Got (Option Decision)
  detect_review payload comment = do
    issue ← get_or_empty "issue" payload
    on_pr ← has_key "pull_request" issue
    if on_pr then with_repo payload (comment_decision comment issue) else got none

  abbrev pub detect_created : Json → Got (Option Decision)
  detect_created payload = do
    comment ← get_or_empty "comment" payload
    body ← get "body" comment
    asks ← asks_review (or_else body (str ""))
    if asks then detect_review payload comment else got none

  abbrev pub detect_comment : Json → Got (Option Decision)
  detect_comment payload = do
    action ← get "action" payload
    if is_created action then detect_created payload else got none

  -- `detect_trigger`.
  unfoldable pub detect_trigger : String → Json → Got (Option Decision)
  unfolding is_pr_action
  detect_trigger event payload =
      if str_eq event "pull_request"
      then detect_pr payload
      else if str_eq event "issue_comment"
      then detect_comment payload
      else got none

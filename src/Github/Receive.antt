-- ===== src/Github/Receive.antt =====
-- `verify_signature`, `receive_webhook` and the acknowledgement of
-- src/claudestruct/server/routers/github.py.
use Prim.Native.Char.{code}
use claude_struct.Prelude.{
  ℕ, Bool, true, false, ◌&&◌, String, Option, none, some, List, [], ◌∷◌, ◌++◌, ◌==◌, str_eq, ltb,
  if◌then◌else◌, keep,
}
use claude_struct.Calendar.{DateTime}
use claude_struct.Models.{Run, queued, Db, no_outcome}
use claude_struct.Submission.{violates_unique}
use claude_struct.Auth.{Lookup, missing, one, several, one_or_none, drop_prefix}
use claude_struct.WebhookMetrics.{Counter, bump}
use claude_struct.Json.{
  Json, obj, Got, got, raised, ◌>>=◌, get, get_or_empty, contains, as_int, as_str,
}
use claude_struct.Github.{
  AckResult, Decision, GithubInstallation, Services, detect_trigger, github_app_error, is_active,
  joined_text, posted, unexpected,
}

unfoldable pub is_ascii : String → Bool
is_ascii String.[] = true
is_ascii (String.◌∷◌ c s) = ltb (code c) 128 && is_ascii s

-- What the database holds for the receiver, and the counter of webhook errors.
pub record GithubServer : Type 0 where
  pub db : Db
  pub installations : List GithubInstallation
  pub webhook_errors : Counter

-- The clock, the fresh run id, and the primary key that the database gives.
pub record Delivery : Type 0 where
  pub now : DateTime
  pub fresh_run_id : String
  pub fresh_id : ℕ

-- The body of a 200 or 202: a ping, an event with no trigger, a repository that the filter leaves
-- out, or a queued run; and the errors 400, 401 and 500.
pub data HookReply : Type 0 where
  pong : HookReply
  no_trigger : Option String → HookReply
  filtered : String → HookReply
  queued_run : String → String → String → HookReply
  bad_request unauthorized server_error : HookReply

-- The comparison in constant time takes ASCII texts; for others it raises a `TypeError`. A hex
-- text is ASCII.
abbrev pub compare_digest : String → String → Got Bool
compare_digest expected given = if is_ascii given then got (str_eq expected given) else raised

abbrev pub str_or_none : Option Json → Option String
str_or_none none = none
str_or_none (some v) = as_str v

abbrev pub after_ack : AckResult → Counter → Counter
after_ack posted n = n
after_ack github_app_error n =
    bump (record { path = "github.ack_comment"; reason = "github_app_error" }) 1 n
after_ack unexpected n = bump (record { path = "github.ack_comment"; reason = "unexpected" }) 1 n

abbrev pub event_or_empty : Option String → String
event_or_empty none = ""
event_or_empty (some e) = e

unfoldable pub installation : ℕ → List GithubInstallation → Lookup GithubInstallation
installation n is = one_or_none (keep (λ i. i.installation_id == n) is)

-- `(payload.get("installation") or {}).get("id")`.
abbrev pub install_id_of : Json → Got Json
install_id_of payload = do i ← get_or_empty "installation" payload; get "id" i

abbrev pub is_object : Json → Bool
is_object (obj _) = true
is_object _ = false

module _ (services : Services) where
  abbrev pub verify_hex : String → List ℕ → Option String → Got Bool
  verify_hex secret raw none = got false
  verify_hex secret raw (some hex) = compare_digest (services.hmac_sha256_hex secret raw) hex

  -- `verify_signature`; an empty header does not start with "sha256=".
  unfoldable pub verify_signature : String → List ℕ → Option String → Got Bool
  unfolding is_ascii drop_prefix
  verify_signature secret raw none = got false
  verify_signature secret raw (some header) = verify_hex secret raw (drop_prefix "sha256=" header)

  -- `install.repo_filter and install.repo_filter.lower() not in repo.lower()`, negated.
  unfoldable pub matches_filter : Option String → String → Bool
  matches_filter none repo = true
  matches_filter (some f) repo =
      if str_eq f "" then true else contains (services.lower f) (services.lower repo)

  unfoldable pub webhook_run : Delivery → GithubInstallation → ℕ → Decision → String → Run
  webhook_run d i install_id decision repo = record {
    id = d.fresh_id;
    run_id = d.fresh_run_id;
    org_id = i.org_id;
    user_id = i.bot_user_id;
    status = queued;
    idempotency_key = none;
    request = record {
      task = decision.task;
      description = decision.description;
      model = none;
      effort = none;
      paths_json = none;
    };
    outcome = no_outcome;
    error = none;
    created_at = d.now;
    started_at = none;
    ended_at = none;
    github = record {
      installation_id = some install_id;
      repo_full_name = some repo;
      pr_number = as_int decision.pr_number;
      head_sha = str_or_none decision.head_sha;
      check_run_id = none;
      base_branch = str_or_none decision.base_branch;
    };
  }

  -- `_ack_comment_body`.
  unfoldable pub ack_comment_body : String → String → String
  ack_comment_body run_id trigger = joined_text services (
      ":robot_face: claudeStruct queued review run `" ∷ run_id ∷ "` (trigger: `" ∷ trigger
      ∷ "`). Verdict will be posted when the run completes." ∷ [])

  -- `_post_ack_comment_safe`, where the pull request has a number.
  unfoldable pub post_ack_comment_safe : ℕ → String → Option ℕ → String → String → Counter → Counter
  unfolding ack_comment_body
  post_ack_comment_safe install_id repo none run_id trigger n = n
  post_ack_comment_safe install_id repo (some pr) run_id trigger n =
      if services.configured
      then after_ack
          (services.post_ack_comment (record {
            installation_id = install_id;
            repo_full_name = repo;
            pr_number = pr;
            body = ack_comment_body run_id trigger;
          }))
          n
      else n

  -- The row is added; a run id that is taken is an `IntegrityError`.
  unfoldable pub enqueue :
      Delivery
      → GithubInstallation
      → ℕ
      → Decision
      → String
      → GithubServer
      → HookReply × GithubServer
  enqueue d i install_id decision repo s =
      let r = webhook_run d i install_id decision repo in
      if violates_unique r s.db.runs then (server_error, s) else (
        queued_run d.fresh_run_id decision.trigger repo,
        record s {
          db = record (s.db) { runs = s.db.runs ++ r ∷ [] };
          webhook_errors =
              post_ack_comment_safe install_id repo (as_int decision.pr_number) d.fresh_run_id
                decision.trigger s.webhook_errors;
        },
      )

  abbrev pub enqueue_in :
      Delivery
      → GithubInstallation
      → ℕ
      → Decision
      → Option String
      → GithubServer
      → HookReply × GithubServer
  enqueue_in d i install_id decision none s = (server_error, s)
  enqueue_in d i install_id decision (some repo) s =
      if matches_filter i.repo_filter repo
      then enqueue d i install_id decision repo s
      else (filtered repo, s)

  abbrev pub decide :
      Delivery
      → GithubInstallation
      → ℕ
      → Option String
      → GithubServer
      → Got (Option Decision)
      → HookReply × GithubServer
  decide d i install_id event s raised = (server_error, s)
  decide d i install_id event s (got none) = (no_trigger event, s)
  decide d i install_id event s (got (some decision)) =
      enqueue_in d i install_id decision (as_str decision.repo_full_name) s

  abbrev pub authentic :
      Delivery
      → GithubInstallation
      → ℕ
      → Option String
      → Json
      → GithubServer
      → Got Bool
      → HookReply × GithubServer
  authentic d i install_id event payload s raised = (server_error, s)
  authentic d i install_id event payload s (got false) = (unauthorized, s)
  authentic d i install_id event payload s (got true) =
      if str_eq (event_or_empty event) "ping"
      then (pong, s)
      else decide d i install_id event s (detect_trigger services (event_or_empty event) payload)

  -- An unknown installation and a revoked one are refused like a bad signature.
  abbrev pub with_installation :
      Delivery
      → ℕ
      → Option String
      → Option String
      → List ℕ
      → Json
      → GithubServer
      → Lookup GithubInstallation
      → HookReply × GithubServer
  with_installation d n event signature raw payload s missing = (unauthorized, s)
  with_installation d n event signature raw payload s several = (server_error, s)
  with_installation d n event signature raw payload s (one i) =
      if is_active i
      then authentic d i n event payload s (verify_signature i.webhook_secret raw signature)
      else (unauthorized, s)

  -- `isinstance(install_id, int)`, and the row.
  abbrev pub looked_up :
      Delivery
      → Option String
      → Option String
      → List ℕ
      → Json
      → GithubServer
      → Option ℕ
      → HookReply × GithubServer
  looked_up d event signature raw payload s none = (bad_request, s)
  looked_up d event signature raw payload s (some n) =
      with_installation d n event signature raw payload s (installation n s.installations)

  abbrev pub routed :
      Delivery
      → Option String
      → Option String
      → List ℕ
      → Json
      → GithubServer
      → Got Json
      → HookReply × GithubServer
  routed d event signature raw payload s raised = (server_error, s)
  routed d event signature raw payload s (got v) =
      looked_up d event signature raw payload s (as_int v)

  abbrev pub parsed :
      Delivery
      → Option String
      → Option String
      → List ℕ
      → GithubServer
      → Option Json
      → HookReply × GithubServer
  parsed d event signature raw s none = (bad_request, s)
  parsed d event signature raw s (some payload) =
      if is_object payload
      then routed d event signature raw payload s (install_id_of payload)
      else (bad_request, s)

  -- `receive_webhook`: the event, the signature and the body.
  unfoldable pub receive_webhook :
      Delivery → Option String → Option String → List ℕ → GithubServer → HookReply × GithubServer
  receive_webhook d event signature raw s = parsed d event signature raw s (services.loads raw)

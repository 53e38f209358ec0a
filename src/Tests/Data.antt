-- ===== src/Tests/Data.antt =====
-- The rows and the services that the examples use.
use Prim.Native.String.{count}
use mathlib.Core.Bool.{true}
use text.Mathlib.TextLemmas.{length-cons}
use claude_struct.Prelude.{
  ℕ, zero, suc, ◌≡◌, refl, ap, ◌∙◌, String, none, some, [], ◌∷◌, ◌==◌, if◌then◌else◌,
}
use claude_struct.Calendar.{DateTime}
use claude_struct.Models.{
  Run, RunStatus, queued, running, no_outcome, no_github, Subscription, Db, GithubRef, Outcome,
}
use claude_struct.Worker.Process.{Env, World, finished, ok, github_app_error}
use claude_struct.Audit.{Codec, Event}
use claude_struct.Submission.{Server, CreateRunRequest, Call}
use claude_struct.Auth.{Principal, admin, ApiKey, Accounts}

abbrev pub march : ℕ → ℕ → DateTime
march day hour = record {
  year = 2026;
  month = 3;
  day = day;
  hour = hour;
  minute = 0;
  second = 0;
  microsecond = 0;
}

abbrev pub pull_request : GithubRef
pull_request = record {
  installation_id = some 7;
  repo_full_name = some "acme/app";
  pr_number = some 12;
  head_sha = some "abc";
  check_run_id = none;
  base_branch = none;
}

abbrev pub spent : ℕ → Outcome
spent n = record no_outcome {
  cost_usd = n;
  input_tokens = n;
  output_tokens = 5;
  duration_ms = some 900;
}

abbrev pub a_run : ℕ → String → ℕ → RunStatus → DateTime → Run
a_run id name org status at = record {
  id = id;
  run_id = name;
  org_id = org;
  user_id = 3;
  status = status;
  idempotency_key = none;
  request = record {
    task = "review";
    description = "look";
    model = none;
    effort = none;
    paths_json = none;
  };
  outcome = no_outcome;
  error = none;
  created_at = at;
  started_at = none;
  ended_at = none;
  github = no_github;
}

-- A run of org 1 is queued after one of org 2, which has another one running.
abbrev pub run_one : Run
run_one = record (a_run 1 "r-1" 2 running (march 1 8)) {
  outcome = spent 300;
  started_at = some (march 1 9);
}

abbrev pub run_two : Run
run_two = record (a_run 2 "r-2" 1 queued (march 2 8)) { github = pull_request }

abbrev pub run_three : Run
run_three = record (a_run 3 "r-3" 2 queued (march 3 8)) { idempotency_key = some "k" }

abbrev pub team_plan : Subscription
team_plan = record {
  org_id = 2;
  tier = "team";
  stripe_customer_id = none;
  stripe_subscription_id = none;
  status = none;
  current_period_start = none;
  current_period_end = none;
  region = none;
  wrapped_dek_b64 = none;
  wrapped_dek_provider = none;
  wrapped_dek_key_id = none;
}

abbrev pub a_db : Db
a_db = record {
  orgs = [];
  teams = [];
  team_memberships = [];
  subscriptions = team_plan ∷ [];
  runs = run_one ∷ run_two ∷ run_three ∷ [];
}

-- A runner that succeeds, and a GitHub that refuses comments and opens checks.
abbrev pub an_env : Env
an_env = record {
  started = march 4 8;
  ended = march 4 9;
  loads = λ s. none;
  repr = λ s. s;
  runner = λ call. finished (spent 100);
  configured = true;
  post_comment = λ r. github_app_error;
  open_check = λ r. ok (some 55);
  create_check = λ r. ok "url";
  patch_check = λ id r. ok "url";
  open_pr = λ r. ok none;
}

abbrev pub a_world : World
a_world = record { db = a_db; webhook_errors = []; calls = [] }

-- The first characters of a text, filled up with zeros.
abbrev pub padded : ℕ → String → String
padded zero s = ""
padded (suc n) String.[] = String.◌∷◌ "0" (padded n "")
padded (suc n) (String.◌∷◌ c s) = String.◌∷◌ c (padded n s)

pub count-padded : (n : ℕ) (s : String) → count (padded n s) ≡ n
count-padded zero s = refl
count-padded (suc n) String.[] = length-cons "0" (padded n "") ∙ ap suc (count-padded n "")
count-padded (suc n) (String.◌∷◌ c s) = length-cons c (padded n s) ∙ ap suc (count-padded n s)

abbrev pub a_codec : Codec String
a_codec = record {
  canonical_json = λ p. p;
  loads = λ s. some s;
  sha256_hex = padded 64;
  iso = λ t. "2026-03-01";
  decimal = λ n. if n == 1 then "1" else "2";
}

abbrev pub an_event : ℕ → String → Event String
an_event org action = record {
  org_id = org;
  actor_user_id = some 1;
  action = action;
  resource_type = "run";
  resource_id = "r-1";
  payload = "{}";
}

abbrev pub a_principal : Principal
a_principal = record {
  user_id = 3;
  user_email = "ann@acme.test";
  org_id = 2;
  org_slug = "acme";
  role = admin;
}

abbrev pub a_request : CreateRunRequest String
a_request = record {
  request = record {
    task = "plan";
    description = "think";
    model = none;
    effort = none;
    paths_json = none;
  };
  audit_payload = "{}";
}

abbrev pub a_call : String → ℕ → Call
a_call name id = record { now = march 5 8; fresh_run_id = name; fresh_id = id; others = λ d. d }

abbrev pub a_server : Server
a_server = record { db = a_db; audit = [] }

-- An org with one member, who has a key with the secret "s".
abbrev pub a_key : ApiKey
a_key = record {
  user_id = 3;
  org_id = 2;
  key_id = "ab";
  hashed_secret = padded 64 "s";
  name = none;
  created_at = march 1 8;
  last_used_at = none;
  revoked_at = none;
}

abbrev pub some_accounts : Accounts
some_accounts = record {
  users = record { id = 3; email = "ann@acme.test" } ∷ [];
  orgs = record { id = 2; slug = "acme" } ∷ [];
  memberships = record { user_id = 3; org_id = 2; role = "admin"; created_at = march 1 8 } ∷ [];
  api_keys = a_key ∷ [];
  sessions = [];
  audit = [];
}

-- ===== src/Models.antt =====
-- The rows of src/claudestruct/server/models.py and of the subscriptions table, and the database that
-- a session reads and writes. Amounts of money are counted in micro-dollars.
pub mod Rows
use claude_struct.Prelude.{
  ℕ, ◌+◌, Bool, true, false, String, Option, none, some, List, [], ◌∷◌, ◌==◌, if◌then◌else◌, arith,
  ◌≡◌,
}
use claude_struct.Calendar.{DateTime}

-- `RunStatus`.
pub data RunStatus : Type 0 where
  queued running done failed : RunStatus

unfoldable pub is_queued : RunStatus → Bool
is_queued queued = true
is_queued _ = false

unfoldable pub is_running : RunStatus → Bool
is_running running = true
is_running _ = false

unfoldable pub is_done : RunStatus → Bool
is_done done = true
is_done _ = false

unfoldable pub is_failed : RunStatus → Bool
is_failed failed = true
is_failed _ = false

-- `status.in_((done, failed))`.
unfoldable pub is_terminal : RunStatus → Bool
is_terminal done = true
is_terminal failed = true
is_terminal _ = false

-- The columns of `Run` that describe the request.
pub record RunRequest : Type 0 where
  pub task : String
  pub description : String
  pub model : Option String
  pub effort : Option String
  pub paths_json : Option String

-- The columns of `Run` that the worker fills in.
pub record Outcome : Type 0 where
  pub cost_usd : ℕ
  pub input_tokens : ℕ
  pub output_tokens : ℕ
  pub cache_read_tokens : ℕ
  pub cache_creation_tokens : ℕ
  pub duration_ms : Option ℕ

-- The columns of `Run` that the GitHub webhook fills in.
pub record GithubRef : Type 0 where
  pub installation_id : Option ℕ
  pub repo_full_name : Option String
  pub pr_number : Option ℕ
  pub head_sha : Option String
  pub check_run_id : Option ℕ
  pub base_branch : Option String

-- `Run`; `id` is the primary key.
pub record Run : Type 0 where
  pub id : ℕ
  pub run_id : String
  pub org_id : ℕ
  pub user_id : ℕ
  pub status : RunStatus
  pub idempotency_key : Option String
  pub request : RunRequest
  pub outcome : Outcome
  pub error : Option String
  pub created_at : DateTime
  pub started_at : Option DateTime
  pub ended_at : Option DateTime
  pub github : GithubRef

-- The defaults of the outcome columns.
abbrev pub no_outcome : Outcome
no_outcome = record {
  cost_usd = 0;
  input_tokens = 0;
  output_tokens = 0;
  cache_read_tokens = 0;
  cache_creation_tokens = 0;
  duration_ms = none;
}

-- The GitHub columns of a run that no webhook created.
abbrev pub no_github : GithubRef
no_github = record {
  installation_id = none;
  repo_full_name = none;
  pr_number = none;
  head_sha = none;
  check_run_id = none;
  base_branch = none;
}

-- `Subscription` of src/claudestruct/server/billing.py: one row for an org at most.
pub record Subscription : Type 0 where
  pub org_id : ℕ
  pub tier : String
  pub stripe_customer_id : Option String
  pub stripe_subscription_id : Option String
  pub status : Option String
  pub current_period_start : Option DateTime
  pub current_period_end : Option DateTime
  pub region : Option String
  pub wrapped_dek_b64 : Option String
  pub wrapped_dek_provider : Option String
  pub wrapped_dek_key_id : Option String

-- `Org`, `Team` and `TeamMembership`, the columns that the server's rules read.
pub record Org : Type 0 where
  pub id : ℕ
  pub slug : String

pub record Team : Type 0 where
  pub id : ℕ
  pub org_id : ℕ
  pub slug : String

pub record TeamMembership : Type 0 where
  pub team_id : ℕ
  pub user_id : ℕ

-- The tables, each in the order of its primary key.
pub record Db : Type 0 where
  pub orgs : List Org
  pub teams : List Team
  pub team_memberships : List TeamMembership
  pub subscriptions : List Subscription
  pub runs : List Run

-- Writing back a row: the row with its primary key is replaced.
unfoldable pub put_run : Run → List Run → List Run
put_run r [] = []
put_run r (x ∷ xs) = (if x.id == r.id then r else x) ∷ put_run r xs

unfoldable pub save_run : Run → Db → Db
unfolding put_run
save_run r db = record db { runs = put_run r db.runs }

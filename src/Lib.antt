-- ===== src/Lib.antt =====
-- claudeStruct: the multi-tenant server behind `cs`. A client logs in with an API key or a session
-- cookie (src/claudestruct/server/auth.py), submits a run
-- (src/claudestruct/server/routers/runs.py) and polls it. Submission checks the org's monthly
-- token cap (src/claudestruct/server/billing.py) and writes a row to the audit chain of the org
-- (src/claudestruct/server/audit.py). A worker (src/claudestruct/server/worker.py) claims queued
-- runs under each tier's concurrency cap, executes them and reports to GitHub; failures to report
-- are counted (src/claudestruct/server/webhook_metrics.py). Runs come from pull requests too, by
-- GitHub's webhook (src/claudestruct/server/routers/github.py), and Stripe's webhook moves the tiers
-- of the orgs (src/claudestruct/server/routers/billing.py). A token bucket limits each caller
-- (src/claudestruct/server/rate_limit.py), two modules measure the service
-- (src/claudestruct/server/slo.py, src/claudestruct/server/latency.py), and fields are encrypted
-- under data keys (src/claudestruct/server/crypto.py). The local program looks up its secrets along a
-- chain of stores (src/claudestruct/secrets.py), keeps responses on disk
-- (src/claudestruct/local_cache.py) and warns of prompt-cache misses
-- (src/claudestruct/cache_state.py).
--
-- The files:
--   Prelude: the names that all modules share, Boolean tests, lists by native numbers, stable
--     sorts.
--   Calendar: date-times and calendar months (src/claudestruct/budget.py, `month_bounds`).
--   Models: the rows of src/claudestruct/server/models.py and the tables that a session holds.
--   Billing: tiers, caps, subscriptions (`get_or_default`), the usage of a period.
--   Worker.Claim: `_claim_one`. Worker.Process: `process_pending_run` with its four GitHub hooks,
--     and `drain_queue`.
--   Audit: `record`, `verify_chain`, `head_for_org`, `prune_audit`.
--   Auth: `authenticate`, `authenticate_session_cookie`, `current_principal`, `require_role`;
--     Auth.Endpoints: src/claudestruct/server/routers/keys.py.
--   OAuth: `exchange_code_for_token`, `fetch_github_user`, `github_callback` and `logout` of
--     src/claudestruct/server/oauth.py and src/claudestruct/server/routers/oauth.py.
--   Submission: `_enforce_token_cap`, `create_run`, `get_run`.
--   RateLimit: `_Bucket`, `TokenBucketRateLimiter`, `RateLimitMiddleware`.
--   Slo: `_percentile`, `_window_snapshot`, the two snapshots. Latency: `_RouteLatency`.
--   WebhookMetrics: `WebhookErrorCounter`.
--   Alerts: the team-budget alerts of src/claudestruct/server/alerts.py; Alerts.BurnRate: the alerts
--     on the error budget.
--   Plugins: `is_plugin` and `merge_plugins` of src/claudestruct/plugin_sdk/__init__.py.
--   Stripe: events and rows; Stripe.Handlers: the handlers and `stripe_webhook`; Invoices: `get_subscription`,
--     `create_checkout`, `get_invoice_pdf` and `stub_checkout_url`.
--   Github: `detect_trigger`; Github.Receive: `verify_signature`, `receive_webhook` and the
--     acknowledgement.
--   Json: the values that `json.loads` returns, for the parts that walk them.
--   Crypto: the key providers, `encrypt_field`, `decrypt_field`, `default_provider`;
--     Crypto.Base64: `encode_b64` and `decode_b64`, with the standard library's base64.
--   Secrets: the providers, `get` and `require`; Secrets.Configured: `default_chain`.
--   LocalCache: src/claudestruct/local_cache.py. CacheState: src/claudestruct/cache_state.py.
--   Tests: concrete rows, and the theorems at them.
--
-- How the code is read:
--   A table is a list of rows in the order of the primary key; a SELECT keeps the rows that pass
--   its test, and ORDER BY is a stable sort. `scalar_one_or_none` on a column with a UNIQUE
--   constraint is the first row that fits; where the tables do not exclude a second row, in Auth,
--   that is an error. A handler takes the principal that `current_principal` and `require_role`
--   let in; the key endpoints have their role test with them. A session is the database that it
--   sees: what it has not committed when it ends is dropped. In `create_run` the writes of other
--   sessions between the lookup and the insert are a function, on which the theorems put their
--   hypotheses. A handler that reads the clock more than once reads one moment here. Date-times
--   are UTC, and their years lie below the last of Python's range. Money is counted in whole
--   micro-dollars. The rate limiter, the percentiles and the rates are computed exactly where the
--   code uses floats: a token is 60 million units, a rate is a pair of numbers. The burn rate's
--   float budget lies just above a thousandth, so that its test is read as the strict one. The
--   limiter's clock does not go back. A file system is a list of files, and a write to a temporary file and
--   its renaming are two steps. Times of the caches are natural numbers. An exception that a
--   handler lets through is a value, and the session is then as it was. Tokens, costs, durations and
--   the amount of a `bump` are natural numbers, as the code produces them. Locked methods are one step each.
--
-- Parameters: the runner, the answers of the GitHub API and of Stripe, `json.loads`, `json.dumps`,
-- `repr`, SHA-256, HMAC, ISO and decimal texts, random texts and bytes, the clock, AES-GCM, PBKDF2,
-- the clients of the key services and of the secret stores, the keychain and the environment. What a
-- theorem needs of them it says: that JSON which was written reads back, that a SHA-256 text has 64
-- characters, that random hex has no underscore, that AES-GCM decrypts what it encrypted and nothing
-- else to the same text, that a key service gives back the key that it wrapped.
--
-- Loops: the worker's loop over the queue, the audit log's loop over the rows and the base64 reader
-- are structural. `drain_queue` has the bound of its own parameter `max_iterations`, and with more
-- iterations than waiting runs it ends with nothing left to claim.
--
-- Not modelled: `WorkerThread` and `wait_until_empty` (threads and sleep), Prometheus texts, log
-- lines and messages for people, `get_usage` with its floating-point costs, `cache_key`, the URLs
-- and cookies of the login redirect and `whoami`, the other alerts, notifications, the HTTP calls
-- of the GitHub App, and the local command line with its model providers, indexes and prompts.
pub mod Prelude
pub mod Calendar
pub mod Models
pub mod Billing
pub mod WebhookMetrics
pub mod Worker
pub mod Audit
pub mod Submission
pub mod RateLimit
pub mod Slo
mod Tests
pub mod Auth
pub mod Latency
pub mod OAuth
pub mod Plugins
pub mod Alerts
pub mod Stripe
pub mod Json
pub mod Github
pub mod Crypto
pub mod Secrets
pub mod LocalCache
pub mod CacheState
pub mod Invoices

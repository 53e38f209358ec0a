-- ===== src/RateLimit.antt =====
-- src/claudestruct/server/rate_limit.py: a token bucket for each caller. Times are microseconds of a
-- clock that never goes back, and tokens are counted in units of which a token has 60 million, so
-- that `elapsed * refill_per_s` is the whole number `elapsed * per_minute`: what the code does in
-- floats is done exactly.
pub mod Bucket
pub mod Limiter
use claude_struct.Prelude.{
  ℕ, ◌+◌, ◌-◌, ◌*◌, ◌/◌, min, max, Bool, true, false, String, Option, none, some, List, [], ◌∷◌,
  ◌==◌, leb, str_eq, if◌then◌else◌, any,
}

abbrev pub token : ℕ
token = 60000000

abbrev pub microseconds : ℕ
microseconds = 1000000

-- `_Bucket`; `rate` is requests a minute, so units a microsecond.
pub record BucketState : Type 0 where
  pub capacity : ℕ
  pub rate : ℕ
  pub tokens : ℕ
  pub last_refill : ℕ

-- `_Bucket(per_minute, per_minute / 60, now=now)`.
unfoldable pub new_bucket : ℕ → ℕ → BucketState
new_bucket per_minute now = record {
  capacity = per_minute * token;
  rate = per_minute;
  tokens = per_minute * token;
  last_refill = now;
}

-- The bucket with what has flowed in.
unfoldable pub refilled : ℕ → BucketState → BucketState
refilled now b = record b {
  tokens = min b.capacity (b.tokens + (now - b.last_refill) * b.rate);
  last_refill = now;
}

-- Allowed, or the missing units, which flow in at `rate`.
pub data Decision : Type 0 where
  allowed : Decision
  denied : ℕ → Decision

unfoldable pub consume : ℕ → BucketState → Decision × BucketState
consume now b =
    let r = refilled now b in
    if leb token r.tokens
    then (allowed, record r { tokens = r.tokens - token })
    else (denied (token - r.tokens), r)

-- `max(1, int(retry_after + 0.999))`, for `retry_after` the missing units over the rate, in
-- seconds; with no rate it is a minute.
unfoldable pub retry_after_seconds : ℕ → ℕ → ℕ
retry_after_seconds rate deficit =
    if rate == 0
    then 60
    else max 1 ((deficit * 1000 + 999 * (rate * microseconds)) / (1000 * (rate * microseconds)))

-- `_buckets`.
abbrev pub Buckets : Type 0
Buckets = List (String × BucketState)

unfoldable pub find_bucket : String → Buckets → Option BucketState
find_bucket k [] = none
find_bucket k ((j, b) ∷ bs) = if str_eq j k then some b else find_bucket k bs

unfoldable pub put_bucket : String → BucketState → Buckets → Buckets
put_bucket k b [] = (k, b) ∷ []
put_bucket k b ((j, a) ∷ bs) = if str_eq j k then (j, b) ∷ bs else (j, a) ∷ put_bucket k b bs

abbrev pub or_new : ℕ → ℕ → Option BucketState → BucketState
or_new per_minute now none = new_bucket per_minute now
or_new per_minute now (some b) = b

-- The bucket of a key: a full one where there is none yet.
unfoldable pub bucket_of : ℕ → ℕ → String → Buckets → BucketState
bucket_of per_minute now k bs = or_new per_minute now (find_bucket k bs)

-- `TokenBucketRateLimiter.check`, which holds the lock throughout.
unfoldable pub check : ℕ → ℕ → String → Buckets → Decision × Buckets
check per_minute now k bs =
    let (d, b) = consume now (bucket_of per_minute now k bs) in (d, put_bucket k b bs)

unfoldable pub exempt_paths : List String
exempt_paths =
    "/healthz" ∷ "/readyz" ∷ "/status" ∷ "/v1/slo" ∷ "/v1/slo/latency" ∷ "/v1/slo/webhook_errors"
    ∷ []

-- The response of the middleware: the handler's, or 429 with `Retry-After`.
pub data Dispatch : Type 0 where
  passed : Dispatch
  too_many : ℕ → Dispatch

abbrev pub respond : ℕ → Decision → Dispatch
respond per_minute allowed = passed
respond per_minute (denied d) = too_many (retry_after_seconds per_minute d)

-- `RateLimitMiddleware.dispatch`.
unfoldable pub dispatch : ℕ → ℕ → String → String → Buckets → Dispatch × Buckets
dispatch per_minute now path k bs =
    if any (λ p. str_eq path p) exempt_paths
    then (passed, bs)
    else (let (d, bs') = check per_minute now k bs in (respond per_minute d, bs'))

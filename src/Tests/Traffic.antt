-- ===== src/Tests/Traffic.antt =====
-- Requests, counters and service levels.
use claude_struct.Prelude.{◌+◌, ◌-◌, ◌*◌, ◌≡◌, ◌≤◌, ◌<◌, refl, some, [], ◌∷◌, arith}
use claude_struct.RateLimit.{
  token, microseconds, BucketState, new_bucket, allowed, denied, consume, refilled,
  retry_after_seconds, Buckets, find_bucket,
}
use claude_struct.RateLimit.Bucket.{serve, serve_bound, retry_after_suffices}
use claude_struct.WebhookMetrics.{Label}
use claude_struct.Slo.{percentile}
use claude_struct.Latency.{
  latency_buckets, count_in, record_latency, first_reached, latency_percentile,
}
use claude_struct.Latency.Percentile.{
  record_all, least_bucket, IsReached, latency_percentile-IsReached,
}

serve_bound_example :
    (serve (900000000 ∷ 900000000 ∷ 900000100 ∷ []) (serve (100 ∷ 200 ∷ []) (new_bucket 2 50)).1).0
      * token
    ≤ 2 * token
      + ((serve
            (900000000 ∷ 900000000 ∷ 900000100 ∷ [])
            (serve (100 ∷ 200 ∷ []) (new_bucket 2 50)).1).1.last_refill
          - 900000000)
        * 2
serve_bound_example =
    serve_bound 2 50 900000000 (100 ∷ 200 ∷ []) (900000000 ∷ 900000100 ∷ [])
      (omega arith, (omega arith, tt))

-- A bucket that holds nothing.
abbrev drained : BucketState
drained = record (new_bucket 2 50) { tokens = 0 }

drained_denies : (consume 50 drained).0 ≡ denied token
unfolding consume refilled new_bucket
drained_denies = refl

drained_room : token ≤ drained.capacity
unfolding new_bucket
drained_room = omega arith

drained_flows : 0 < drained.rate
unfolding new_bucket
drained_flows = omega arith

retry_after_suffices_example :
    (consume
      (50 + (retry_after_seconds drained.rate token * microseconds + 1000))
      (consume 50 drained).1).0
    ≡ allowed
retry_after_suffices_example =
    retry_after_suffices 50 token drained drained_room drained_flows drained_denies

abbrev two_buckets : Buckets
two_buckets = ("a", new_bucket 2 50) ∷ ("b", new_bucket 1 50) ∷ []

found_a : find_bucket "a" two_buckets ≡ some (new_bucket 2 50)
unfolding find_bucket
found_a = refl

abbrev a_label : Label
a_label = record { path = "github.pr_open"; reason = "unexpected" }

the_median : percentile (7 ∷ 3 ∷ []) 100 ≡ some 3
unfolding percentile
the_median = refl

-- The 95th percentile of 10 seconds and 5 milliseconds.
percentile_too_low : latency_percentile 95 (record_all (10000000 ∷ 5000 ∷ [])) ≡ some 10000
unfolding latency_percentile record_all record_latency count_in first_reached
percentile_too_low = refl

latency_percentile-IsReached_example :
    IsReached 95 (10000000 ∷ 5000 ∷ []) 10000
    × (10000 ≤ least_bucket 95 (10000000 ∷ 5000 ∷ []) latency_buckets)
latency_percentile-IsReached_example =
    latency_percentile-IsReached 95 (10000000 ∷ 5000 ∷ []) 10000 percentile_too_low

-- ===== src/Latency.antt =====
-- `_RouteLatency` of src/claudestruct/server/latency.py: the request times of a route in cumulative
-- buckets. Times are in microseconds, percentages whole numbers; the lock makes each method one step.
pub mod Percentile
use claude_struct.Prelude.{
  ℕ, ◌+◌, ◌*◌, Option, none, some, List, [], ◌∷◌, map, ◌==◌, leb, if◌then◌else◌,
}

-- `LATENCY_BUCKETS`, which is sorted.
abbrev pub latency_buckets : List ℕ
latency_buckets =
    5000 ∷ 10000 ∷ 25000 ∷ 50000 ∷ 100000 ∷ 250000 ∷ 500000 ∷ 1000000 ∷ 2500000 ∷ 5000000 ∷ 10000000
    ∷ []

abbrev pub top_bucket : ℕ
top_bucket = 10000000

-- `counts` has an entry for each bucket; one that a `defaultdict` lacks is 0.
pub record RouteLatency : Type 0 where
  pub counts : List (ℕ × ℕ)
  pub total : ℕ
  pub n : ℕ

abbrev pub new_latency : RouteLatency
new_latency = record { counts = map (λ b. (b, 0)) latency_buckets; total = 0; n = 0 }

unfoldable pub count_in : ℕ → List (ℕ × ℕ) → List (ℕ × ℕ)
count_in t [] = []
count_in t ((b, c) ∷ bs) = (b, if leb t b then c + 1 else c) ∷ count_in t bs

unfoldable pub record_latency : ℕ → RouteLatency → RouteLatency
record_latency t l = record { counts = count_in t l.counts; total = l.total + t; n = l.n + 1 }

-- The loop over the buckets: the first at which the running sum reaches the percentage.
unfoldable pub first_reached : ℕ → ℕ → ℕ → List (ℕ × ℕ) → ℕ
first_reached n p cum [] = top_bucket
first_reached n p cum ((b, c) ∷ bs) =
    let rest = first_reached n p (cum + c) bs in if leb (p * n) (100 * (cum + c)) then b else rest

unfoldable pub latency_percentile : ℕ → RouteLatency → Option ℕ
latency_percentile p l = if l.n == 0 then none else some (first_reached l.n p 0 l.counts)

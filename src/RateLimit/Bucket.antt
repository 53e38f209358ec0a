-- ===== src/RateLimit/Bucket.antt =====
-- One bucket of src/claudestruct/server/rate_limit.py, and its state over a sequence of requests.
use native.Mathlib.Nat.{div-add-mod, mod-lt}
use claude_struct.Prelude.{
  ℕ, ◌+◌, ◌-◌, ◌*◌, ◌/◌, ◌%◌, ◌≤◌, ◌<◌, ◌≡◌, refl, ap, ap₂, ◌∙◌, max, false, List, [], ◌∷◌, ◌==◌,
  arith,
}
use claude_struct.RateLimit.{
  token, microseconds, BucketState, new_bucket, refilled, Decision, allowed, denied, consume,
  retry_after_seconds,
}

-- No more than the burst is saved up.
pub record IsFilled (b : BucketState) : Type 0 where
  pub within : b.tokens ≤ b.capacity

abbrev pub granted : Decision → ℕ
granted allowed = 1
granted (denied _) = 0

-- One request: it keeps the capacity and the rate, and what it takes was saved or has flowed in.
pub consume_accounts :
    (now : ℕ) (b : BucketState)
    → ((consume now b).1.tokens + granted (consume now b).0 * token
        ≤ b.tokens + (now - b.last_refill) * b.rate)
      × ((consume now b).1.rate ≡ b.rate)
      × ((consume now b).1.capacity ≡ b.capacity)
      × ((consume now b).1.last_refill ≡ now)
unfolding consume refilled
consume_accounts now b = ground arith

consume-IsFilled : (now : ℕ) (b : BucketState) → IsFilled (consume now b).1
unfolding consume refilled
consume-IsFilled now b = ground arith

-- Requests at times that do not go back: how many are let through, and the bucket after them.
unfoldable pub serve : List ℕ → BucketState → ℕ × BucketState
serve [] b = (0, b)
serve (now ∷ times) b =
    let (d, b') = consume now b in let (n, last) = serve times b' in (granted d + n, last)

abbrev pub NotBefore : ℕ → List ℕ → Type 0
NotBefore t [] = Unit {0}
NotBefore t (now ∷ times) = (t ≤ now) × NotBefore now times

-- What flows in over two spans is what flows in over both.
flow_add :
    (rate start now last : ℕ)
    → start ≤ now
    → now ≤ last
    → (last - now) * rate + (now - start) * rate ≡ (last - start) * rate
flow_add rate start now last h k =
    let e : (last - now) + (now - start) ≡ last - start = omega arith in
    grind (arith, ap (λ x. x * rate) e)

serve_accounts :
    (times : List ℕ) (b : BucketState)
    → NotBefore b.last_refill times
    → ((serve times b).1.tokens + (serve times b).0 * token
        ≤ b.tokens + ((serve times b).1.last_refill - b.last_refill) * b.rate)
      × (b.last_refill ≤ (serve times b).1.last_refill)
unfolding serve
serve_accounts [] b h = (omega arith, omega arith)
serve_accounts (now ∷ times) b h =
    let (paid, rate, capacity, time) = consume_accounts now b in
    let (ih, later) = serve_accounts times (consume now b).1 (rw time h.1) in
    let after : now ≤ (serve times (consume now b).1).1.last_refill = omega (arith, time, later) in
    let flow =
      flow_add b.rate b.last_refill now (serve times (consume now b).1).1.last_refill h.0 after in
    let same : ((serve times (consume now b).1).1.last_refill - (consume now b).1.last_refill)
          * (consume now b).1.rate
        ≡ ((serve times (consume now b).1).1.last_refill - now) * b.rate =
      ap₂ (λ x y. ((serve times (consume now b).1).1.last_refill - x) * y) time rate in
    (omega (arith, paid, ih, flow, same), omega (arith, h.0, after))

serve_keeps :
    (times : List ℕ) (b : BucketState)
    → ((serve times b).1.rate ≡ b.rate) × ((serve times b).1.capacity ≡ b.capacity)
unfolding serve
serve_keeps [] b = (refl, refl)
serve_keeps (now ∷ times) b =
    let (paid, rate, capacity, time) = consume_accounts now b in
    let (rates, capacities) = serve_keeps times (consume now b).1 in
    (rates ∙ rate, capacities ∙ capacity)

-- However long a bucket has filled, a request takes from no more than the burst.
consume_capped :
    (now : ℕ) (b : BucketState)
    → (consume now b).1.tokens + granted (consume now b).0 * token ≤ b.capacity
unfolding consume refilled
consume_capped now b = ground arith

stretch_bound :
    (now : ℕ) (times : List ℕ) (b : BucketState)
    → NotBefore now times
    → (serve (now ∷ times) b).0 * token
      ≤ b.capacity + ((serve (now ∷ times) b).1.last_refill - now) * b.rate
unfolding serve
stretch_bound now times b h =
    let (paid, rate, capacity, time) = consume_accounts now b in
    let (ih, later) = serve_accounts times (consume now b).1 (rw time h) in
    let same : ((serve times (consume now b).1).1.last_refill - (consume now b).1.last_refill)
          * (consume now b).1.rate
        ≡ ((serve times (consume now b).1).1.last_refill - now) * b.rate =
      ap₂ (λ x y. ((serve times (consume now b).1).1.last_refill - x) * y) time rate in
    omega (arith, consume_capped now b, ih, same)

-- Of any stretch of requests to a bucket that was new once, whatever came before the stretch and
-- however long the bucket lay idle, no more are let through than its burst and its rate allow:
-- `per_minute` at once, and `per_minute` for each minute from the first request of the stretch to
-- its last; where time does not go back within the stretch.
pub serve_bound :
    (per_minute start now : ℕ) (earlier times : List ℕ)
    → NotBefore now times
    → (serve (now ∷ times) (serve earlier (new_bucket per_minute start)).1).0 * token
      ≤ per_minute * token
        + ((serve (now ∷ times) (serve earlier (new_bucket per_minute start)).1).1.last_refill
            - now)
          * per_minute
unfolding new_bucket
serve_bound per_minute start now earlier times h =
    let (rate, capacity) = serve_keeps earlier (new_bucket per_minute start) in
    let bound = stretch_bound now times (serve earlier (new_bucket per_minute start)).1 h in
    rw (rate, capacity) at bound

-- Rounded up to milliseconds and then down to seconds, a millisecond more covers the fraction.
wait_covers :
    (d p q : ℕ) → 0 < p → q ≡ (d * 1000 + 999 * p) / (1000 * p) → d * 1000 ≤ 1000 * (q * p) + p
wait_covers d p q pos e =
    let split = div-add-mod (d * 1000 + 999 * p) (1000 * p) in
    let rest : (d * 1000 + 999 * p) % (1000 * p) < 1000 * p =
      mod-lt (d * 1000 + 999 * p) (omega (arith, pos)) in
    let same = ap (λ x. 1000 * p * x) e in grind (arith, split, rest, same)

-- Waiting for the time in `Retry-After` and 1000 microseconds lets at least the deficit flow in.
wait_pays :
    (rate deficit : ℕ)
    → 0 < rate
    → deficit ≤ (retry_after_seconds rate deficit * microseconds + 1000) * rate
unfolding retry_after_seconds
wait_pays rate deficit flows =
    let q = (deficit * 1000 + 999 * (rate * microseconds)) / (1000 * (rate * microseconds)) in
    let pos : 0 < rate * microseconds = omega (arith, flows) in
    let known : (rate == 0) ≡ false = ground (arith, flows) in
    let least : q ≤ max 1 q = omega arith in
    let enough : q * rate ≤ max 1 q * rate = grind (arith, least) in
    let covered = wait_covers deficit (rate * microseconds) q pos refl in
    rw known (grind (arith, covered, enough))

denied_leaves :
    (now deficit : ℕ) (b : BucketState)
    → (consume now b).0 ≡ denied deficit
    → (consume now b).1.tokens + deficit ≡ token
unfolding consume refilled
denied_leaves now deficit b h = ground (arith, h)

consume_allowed :
    (now : ℕ) (b : BucketState)
    → token ≤ b.capacity
    → token ≤ b.tokens + (now - b.last_refill) * b.rate
    → (consume now b).0 ≡ allowed
unfolding consume refilled
consume_allowed now b room saved = ground (arith, room, saved)

-- Where a bucket has room for a token and fills at all, a caller who is refused and waits for the
-- time in `Retry-After` and a thousandth of a second more is let through, if nobody else has used
-- the bucket.
pub retry_after_suffices :
    (now deficit : ℕ) (b : BucketState)
    → token ≤ b.capacity
    → 0 < b.rate
    → (consume now b).0 ≡ denied deficit
    → (consume
        (now + (retry_after_seconds b.rate deficit * microseconds + 1000))
        (consume now b).1).0
      ≡ allowed
retry_after_suffices now deficit b room flows refused =
    let (paid, rate, capacity, time) = consume_accounts now b in
    let w = retry_after_seconds b.rate deficit * microseconds + 1000 in
    let flow : (now + w - (consume now b).1.last_refill) * (consume now b).1.rate ≡ w * b.rate =
      ap₂ (λ x y. x * y) (omega (arith, time)) rate in
    let left = denied_leaves now deficit b refused in
    consume_allowed (now + (retry_after_seconds b.rate deficit * microseconds + 1000))
      (consume now b).1 (omega (arith, capacity, room))
      (omega (arith, flow, left, wait_pays b.rate deficit flows))

-- ===== src/Latency/Percentile.antt =====
-- `record` and `percentile` of `_RouteLatency` in src/claudestruct/server/latency.py.
use claude_struct.Prelude.{
  ℕ, ◌+◌, ◌*◌, ◌≤◌, ◌<◌, ◌≡◌, ◌⊎◌, true, ◌++◌, sum_of, leb→le, refl, sym, ap, ap₂, ◌∙◌, Bool-cases,
  inl, inr, some, List, [], ◌∷◌, map, ◌==◌, leb, if◌then◌else◌, length, count_if, All, IsAscending,
  sort_up-IsAscending, arith,
}
unfoldable use claude_struct.Prelude.{sort_up, insert_up}
use claude_struct.Latency.{
  latency_buckets, top_bucket, RouteLatency, new_latency, count_in, record_latency, first_reached,
  latency_percentile,
}

-- The samples, the last first, recorded one after the other.
unfoldable pub record_all : List ℕ → RouteLatency
record_all [] = new_latency
record_all (t ∷ ts) = record_latency t (record_all ts)

-- The true counts: how many samples lie at or below a bucket.
abbrev pub at_most : ℕ → List ℕ → ℕ
at_most b ts = count_if (λ t. leb t b) ts

abbrev counted : List ℕ → List ℕ → List (ℕ × ℕ)
counted ts bs = map (λ b. (b, at_most b ts)) bs

count_in-counted : (t : ℕ) (ts bs : List ℕ) → count_in t (counted ts bs) ≡ counted (t ∷ ts) bs
unfolding count_in
count_in-counted t ts [] = refl
count_in-counted t ts (b ∷ bs) =
    ap₂ ◌∷◌ (ap (λ c. (b, c)) (ground arith)) (count_in-counted t ts bs)

-- After any samples each bucket counts the samples at or below it, and `n` counts them all.
pub record_all_counts :
    (ts : List ℕ)
    → ((record_all ts).counts ≡ map (λ b. (b, at_most b ts)) latency_buckets)
      × ((record_all ts).n ≡ length ts)
unfolding record_all record_latency
record_all_counts [] = (refl, refl)
record_all_counts (t ∷ ts) =
    let (c, n) = record_all_counts ts in
    (ap (count_in t) c ∙ count_in-counted t ts latency_buckets, omega (arith, n))

-- The least bucket that has the percentage of the samples at or below it, or the last.
abbrev pub least_bucket : ℕ → List ℕ → List ℕ → ℕ
least_bucket p ts [] = top_bucket
least_bucket p ts (b ∷ bs) =
    let rest = least_bucket p ts bs in if leb (p * length ts) (100 * at_most b ts) then b else rest

least_bucket_above :
    (p b : ℕ) (ts bs : List ℕ) → b ≤ top_bucket → All (λ x. b ≤ x) bs → b ≤ least_bucket p ts bs
least_bucket_above p b ts [] h a = h
least_bucket_above p b ts (x ∷ bs) h a = ground (arith, a.0, least_bucket_above p b ts bs h a.1)

first_reached_early :
    (p cum : ℕ) (ts bs : List ℕ)
    → All (λ x. x ≤ top_bucket) bs
    → IsAscending (λ x. x) bs
    → first_reached (length ts) p cum (counted ts bs) ≤ least_bucket p ts bs
unfolding first_reached
first_reached_early p cum ts [] top asc = omega arith
first_reached_early p cum ts (b ∷ bs) top asc = ground (
  arith,
  least_bucket_above p b ts bs top.0 asc.0,
  first_reached_early p (cum + at_most b ts) ts bs top.1 asc.1,
)

buckets_sorted : sort_up (λ x. x) latency_buckets ≡ latency_buckets
unfolding sort_up insert_up
buckets_sorted = refl

buckets_under : All (λ x. x ≤ top_bucket) latency_buckets
buckets_under = ground arith

latency_percentile_low :
    (p : ℕ) (ts : List ℕ)
    → first_reached (length ts) p 0 (counted ts latency_buckets) ≤ least_bucket p ts latency_buckets
latency_percentile_low p ts =
    first_reached_early p 0 ts latency_buckets buckets_under
      (rw buckets_sorted at (sort_up-IsAscending (λ x. x) latency_buckets))

-- The counts of some buckets, added up: each sample counts once for every one of them at or above it.
abbrev pub summed : List ℕ → List ℕ → ℕ
summed ts bs = sum_of (λ b. at_most b ts) bs

-- The first bucket at which the counts so far, added up, reach the percentage of the samples; or the
-- last.
pub record IsReached (p : ℕ) (ts : List ℕ) (v : ℕ) : Type 0 where
  pub before : List ℕ
  pub behind : List ℕ
  pub split : latency_buckets ≡ before ++ v ∷ behind
  pub reaches : (p * length ts ≤ 100 * summed ts (before ++ v ∷ [])) ⊎ (behind ≡ [])
  pub not_before : (before ≡ []) ⊎ (100 * summed ts before < p * length ts)

abbrev EndsAtTop : List ℕ → Type 0
EndsAtTop [] = Unit {0}
EndsAtTop (b ∷ []) = b ≡ top_bucket
EndsAtTop (b ∷ c ∷ bs) = EndsAtTop (c ∷ bs)

append_one : (xs ys : List ℕ) (b : ℕ) → (xs ++ b ∷ []) ++ ys ≡ xs ++ b ∷ ys
append_one [] ys b = refl
append_one (x ∷ xs) ys b = ap (λ zs. x ∷ zs) (append_one xs ys b)

summed-append_one :
    (ts xs : List ℕ) (b : ℕ) → summed ts (xs ++ b ∷ []) ≡ summed ts xs + at_most b ts
summed-append_one ts [] b = omega arith
summed-append_one ts (x ∷ xs) b = omega (arith, summed-append_one ts xs b)

stops_here :
    (p : ℕ) (ts before : List ℕ) (b : ℕ) (bs : List ℕ)
    → latency_buckets ≡ before ++ b ∷ bs
    → (before ≡ []) ⊎ (100 * summed ts before < p * length ts)
    → (leb (p * length ts) (100 * (summed ts before + at_most b ts)) ≡ true) ⊎ (bs ≡ [])
    → IsReached p ts b
stops_here p ts before b bs split low how = record {
  before = before;
  behind = bs;
  split = split;
  reaches = elim how [
    | inl e ↦ inl (omega (arith, summed-append_one ts before b, leb→le _ _ e))
    | inr end ↦ inr end
  ];
  not_before = low;
}

first_reached-IsReached :
    (p : ℕ) (ts before : List ℕ) (b : ℕ) (bs : List ℕ)
    → latency_buckets ≡ before ++ b ∷ bs
    → EndsAtTop (b ∷ bs)
    → (before ≡ []) ⊎ (100 * summed ts before < p * length ts)
    → IsReached p ts (first_reached (length ts) p (summed ts before) (counted ts (b ∷ bs)))
unfolding first_reached
first_reached-IsReached p ts before b [] split end low =
    elim (Bool-cases (leb (p * length ts) (100 * (summed ts before + at_most b ts)))) [
      | inl e ↦ rw e (stops_here p ts before b [] split low (inl e))
      | inr e ↦ rw (e, ← end) (stops_here p ts before b [] split low (inr refl))
    ]
first_reached-IsReached p ts before b (c ∷ bs) split end low =
    let sum = summed-append_one ts before b in
    elim (Bool-cases (leb (p * length ts) (100 * (summed ts before + at_most b ts)))) [
      | inl e ↦ rw e (stops_here p ts before b (c ∷ bs) split low (inl e))
      | inr e ↦
          (let later =
              first_reached-IsReached p ts (before ++ b ∷ []) c bs
                (split ∙ sym (append_one before (c ∷ bs) b)) end (inr (ground (arith, sum))) in
            rw e (rw sum at later))
    ]

-- The percentile reported after any samples is the first bucket, in rising order, at which the
-- buckets' counts of samples at or below them, added up so far, reach that share of the samples, or
-- the last bucket where none does. Each sample counts once for every bucket so far at or above it,
-- so that the bucket reported is never above the least one with that share at or below it, or the
-- last where there is none.
pub latency_percentile-IsReached :
    (p : ℕ) (ts : List ℕ) (v : ℕ)
    → latency_percentile p (record_all ts) ≡ some v
    → IsReached p ts v × (v ≤ least_bucket p ts latency_buckets)
unfolding latency_percentile
latency_percentile-IsReached p ts v h =
    let (c, n) = record_all_counts ts in
    let reached : IsReached p ts (first_reached (length ts) p 0 (counted ts latency_buckets)) =
      first_reached-IsReached p ts [] _ _ refl refl (inl refl) in
    elim (Bool-cases ((record_all ts).n == 0)) [
      | inl e ↦ cc (rw e at h)
      | inr e ↦
          (let q : first_reached (record_all ts).n p 0 (record_all ts).counts ≡ v =
              cc (rw e at h) in
            rw (← q) (rw (c, n) (reached, latency_percentile_low p ts)))
    ]

-- ===== src/RateLimit/Limiter.antt =====
-- The limiter of src/claudestruct/server/rate_limit.py: the buckets of all callers.
use claude_struct.Prelude.{
  ℕ, ◌≡◌, ◌+◌, refl, ap, ◌∙◌, false, Bool-cases, inl, inr, String, some, List, [], ◌∷◌, str_eq,
  eq_iff, eq_refl, if◌then◌else◌, arith,
}
use claude_struct.RateLimit.{
  BucketState, Buckets, find_bucket, put_bucket, bucket_of, consume, check,
}
use claude_struct.RateLimit.Bucket.{granted, serve}

find_bucket-put_bucket :
    (k : String) (b : BucketState) (bs : Buckets) → find_bucket k (put_bucket k b bs) ≡ some b
unfolding find_bucket put_bucket
find_bucket-put_bucket k b [] = rw (eq_refl k) refl
find_bucket-put_bucket k b ((j, a) ∷ bs) = elim (Bool-cases (str_eq j k)) [
  | inl e ↦ rw (e, e) refl
  | inr e ↦ rw (e, e) (find_bucket-put_bucket k b bs)
]

put_bucket_other :
    (k j : String) (b : BucketState) (bs : Buckets)
    → str_eq k j ≡ false
    → find_bucket j (put_bucket k b bs) ≡ find_bucket j bs
unfolding find_bucket put_bucket
put_bucket_other k j b [] ne = rw ne refl
put_bucket_other k j b ((i, a) ∷ bs) ne = elim (Bool-cases (str_eq i k)) [
  | inl e ↦ let q = (eq_iff i k).0 e in rw e (rw q (rw ne refl))
  | inr e ↦ rw e (ground (arith, put_bucket_other k j b bs ne))
]

-- A request: when, and by whom.
pub data Request : Type 0 where
  at : ℕ → String → Request

-- How many requests of caller `j` a limiter lets through.
pub granted_to : ℕ → String → List Request → Buckets → ℕ
granted_to per_minute j [] bs = 0
granted_to per_minute j (at now k ∷ rs) bs =
    let (d, bs') = check per_minute now k bs in
    let rest = granted_to per_minute j rs bs' in if str_eq k j then granted d + rest else rest

-- When caller `j` makes its requests.
abbrev pub times_of : String → List Request → List ℕ
times_of j [] = []
times_of j (at now k ∷ rs) = let rest = times_of j rs in if str_eq k j then now ∷ rest else rest

bucket_found :
    (per_minute now : ℕ) (j : String) (bs : Buckets) (b : BucketState)
    → find_bucket j bs ≡ some b
    → bucket_of per_minute now j bs ≡ b
unfolding bucket_of
bucket_found per_minute now j bs b e = rw e refl

check-find_bucket :
    (per_minute now : ℕ) (j : String) (bs : Buckets) (b : BucketState)
    → find_bucket j bs ≡ some b
    → find_bucket j (check per_minute now j bs).1 ≡ some (consume now b).1
unfolding check
check-find_bucket per_minute now j bs b e =
    find_bucket-put_bucket j (consume now (bucket_of per_minute now j bs)).1 bs
    ∙ ap (λ x. some (consume now x).1) (bucket_found per_minute now j bs b e)

check_decides :
    (per_minute now : ℕ) (j : String) (bs : Buckets) (b : BucketState)
    → find_bucket j bs ≡ some b
    → (check per_minute now j bs).0 ≡ (consume now b).0
unfolding check
check_decides per_minute now j bs b e =
    ap (λ x. (consume now x).0) (bucket_found per_minute now j bs b e)

-- Whatever requests of other callers stand between its own, the limiter grants a caller that has a
-- bucket as many requests as that bucket alone grants at those times.
pub granted_to-serve :
    (per_minute : ℕ) (j : String) (rs : List Request) (bs : Buckets) (b : BucketState)
    → find_bucket j bs ≡ some b
    → granted_to per_minute j rs bs ≡ (serve (times_of j rs) b).0
unfolding granted_to serve check
granted_to-serve per_minute j [] bs b e = refl
granted_to-serve per_minute j (at now k ∷ rs) bs b e = elim (Bool-cases (str_eq k j)) [
  | inl t ↦
      let q : k ≡ j = (eq_iff k j).0 t in
      let ih =
        granted_to-serve per_minute j rs (check per_minute now j bs).1 (consume now b).1
          (check-find_bucket per_minute now j bs b e) in
      rw t (rw q (omega (arith, ap granted (check_decides per_minute now j bs b e), ih)))
  | inr n ↦ rw n (
      granted_to-serve per_minute j rs (check per_minute now k bs).1 b
        (put_bucket_other k j (consume now (bucket_of per_minute now k bs)).1 bs n ∙ e))
]

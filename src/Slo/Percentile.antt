-- ===== src/Slo/Percentile.antt =====
-- `_percentile` of src/claudestruct/server/slo.py.
use native.Mathlib.Nat.{mul-le-mul_right}
use claude_struct.Prelude.{
  ℕ, zero, suc, ◌+◌, ◌-◌, ◌*◌, ◌/◌, ◌%◌, ◌≤◌, ◌<◌, ◌≡◌, refl, sym, ap, ◌∙◌, true, false, Bool-cases,
  inl, inr, Option, none, some, List, [], ◌∷◌, ◌==◌, ==_iff, leb, length, get_or, All, count_if,
  count_if-sort_up, All-sort_up, IsAscending, sort_up-IsAscending, arith,
}
unfoldable use claude_struct.Prelude.{sort_up}
use claude_struct.Slo.{round_hundredths, interpolate, percentile}

-- Rounding keeps the order, and is exact on whole numbers.
round_mono : (m n : ℕ) → m ≤ n → round_hundredths m ≤ round_hundredths n
unfolding round_hundredths
round_mono m n h = ground arith

round_exact : (q : ℕ) → round_hundredths (q * 100) ≡ q
unfolding round_hundredths
round_exact q = ground arith

abbrev blend : List ℕ → ℕ → ℕ
blend s rank =
    get_or s (rank / 100) 0 * 100
    + (get_or s (rank / 100 + 1) 0 - get_or s (rank / 100) 0) * (rank % 100)

interpolate-blend : (s : List ℕ) (rank : ℕ) → interpolate s rank ≡ round_hundredths (blend s rank)
unfolding interpolate
interpolate-blend s rank = elim (Bool-cases (rank % 100 == 0)) [
  | inl e ↦
      let whole : blend s rank ≡ get_or s (rank / 100) 0 * 100 =
        rw ((==_iff (rank % 100) 0).0 e) (omega arith) in
      rw e (sym (ap round_hundredths whole ∙ round_exact (get_or s (rank / 100) 0)))
  | inr e ↦ rw e refl
]

get_or_above : (x : ℕ) (s : List ℕ) (j : ℕ) → All (λ y. x ≤ y) s → j < length s → x ≤ get_or s j 0
get_or_above x [] j a h = omega arith
get_or_above x (y ∷ s) zero a h = a.0
get_or_above x (y ∷ s) (suc j) a h = get_or_above x s j a.1 (omega arith)

get_or_below : (x : ℕ) (s : List ℕ) (j : ℕ) → All (λ y. y ≤ x) s → get_or s j 0 ≤ x
get_or_below x [] j a = omega arith
get_or_below x (y ∷ s) zero a = a.0
get_or_below x (y ∷ s) (suc j) a = get_or_below x s j a.1

get_or_mono :
    (s : List ℕ) (i j : ℕ)
    → IsAscending (λ v. v) s
    → i ≤ j
    → j < length s
    → get_or s i 0 ≤ get_or s j 0
get_or_mono [] i j asc h k = omega arith
get_or_mono (x ∷ s) zero zero asc h k = omega arith
get_or_mono (x ∷ s) zero (suc j) asc h k = get_or_above x s j asc.0 (omega arith)
get_or_mono (x ∷ s) (suc i) zero asc h k = omega arith
get_or_mono (x ∷ s) (suc i) (suc j) asc h k = get_or_mono s i j asc.1 (omega arith) (omega arith)

blend_same : (a d f g : ℕ) → f ≤ g → a * 100 + d * f ≤ a * 100 + d * g
blend_same a d f g h = grind (arith, h)

-- Between two values, an interpolated one is at most whatever both are at most.
blend_under : (a b c f : ℕ) → f ≤ 100 → a ≤ c → b ≤ c → a * 100 + (b - a) * f ≤ c * 100
blend_under a b c f hf ha hb =
    let most : (b - a) * f ≤ (b - a) * 100 = grind (arith, hf) in omega (arith, most)

-- Interpolated values are ordered by the rank, up to the last element.
blend_mono :
    (s : List ℕ) (x y : ℕ)
    → IsAscending (λ v. v) s
    → x ≤ y
    → y / 100 < length s
    → blend s x ≤ blend s y
blend_mono s x y asc h k = elim (Bool-cases (x / 100 == y / 100)) [
  | inl e ↦
      let q : x / 100 ≡ y / 100 = (==_iff (x / 100) (y / 100)).0 e in
      rw q (
        blend_same (get_or s (y / 100) 0) (get_or s (y / 100 + 1) 0 - get_or s (y / 100) 0)
          (x % 100) (y % 100) (omega arith))
  | inr e ↦
      let n : x / 100 + 1 ≤ y / 100 = ground (arith, h) in
      let step : blend s x ≤ get_or s (y / 100) 0 * 100 =
        blend_under (get_or s (x / 100) 0) (get_or s (x / 100 + 1) 0) (get_or s (y / 100) 0)
          (x % 100) (omega arith) (get_or_mono s (x / 100) (y / 100) asc (omega arith) k)
          (get_or_mono s (x / 100 + 1) (y / 100) asc n k) in
      omega (arith, step)
]

count_if-true : (xs : List ℕ) → count_if (λ v. true) xs ≡ length xs
count_if-true [] = refl
count_if-true (x ∷ xs) = omega (arith, count_if-true xs)

length-sort_up : (xs : List ℕ) → length (sort_up (λ v. v) xs) ≡ length xs
length-sort_up xs =
    sym (count_if-true (sort_up (λ v. v) xs))
    ∙ count_if-sort_up (λ v. v) (λ v. true) xs
    ∙ count_if-true xs

-- Both are absent, or the first is at most the second.
abbrev pub AtMost : Option ℕ → Option ℕ → Type 0
AtMost none none = Unit {0}
AtMost none (some b) = ⊥
AtMost (some a) none = ⊥
AtMost (some a) (some b) = a ≤ b

-- The rank stays within the list.
rank_within : (n p : ℕ) → p < 100 → p * n / 100 < suc n
rank_within n p h = let most : p * n ≤ 99 * n = grind (arith, h) in omega (arith, most)

percentile-blend :
    (x : ℕ) (xs : List ℕ) (pct : ℕ)
    → 0 < pct
    → pct < 100
    → percentile (x ∷ xs) pct
      ≡ some (round_hundredths (blend (sort_up (λ v. v) (x ∷ xs)) (pct * length xs)))
unfolding percentile
percentile-blend x xs pct pos top =
    let some_rank : (pct == 0) ≡ false = ground (arith, pos) in
    let not_all : leb 100 pct ≡ false = ground (arith, top) in
    rw some_rank
      (rw not_all (ap some (interpolate-blend (sort_up (λ v. v) (x ∷ xs)) (pct * length xs))))

-- Percentiles of the same samples are ordered by their percentages, if these lie strictly between
-- 0 and 100.
pub percentile_mono :
    (samples : List ℕ) (p q : ℕ)
    → 0 < p
    → p ≤ q
    → q < 100
    → AtMost (percentile samples p) (percentile samples q)
percentile_mono [] p q pos h top = unfold percentile in tt
percentile_mono (x ∷ xs) p q pos h top =
    let s = sort_up (λ v. v) (x ∷ xs) in
    let order : p * length xs ≤ q * length xs = mul-le-mul_right (length xs) h in
    let room : q * length xs / 100 < length s =
      omega (arith, rank_within (length xs) q top, length-sort_up (x ∷ xs)) in
    let mono = round_mono (blend s (p * length xs)) (blend s (q * length xs)) (
      blend_mono s (p * length xs) (q * length xs) (sort_up-IsAscending (λ v. v) (x ∷ xs)) order
        room) in
    rw (percentile-blend x xs p pos (omega arith))
      (rw (percentile-blend x xs q (omega arith) top) mono)

blend_low : (low a b f : ℕ) → low ≤ a → low * 100 ≤ a * 100 + (b - a) * f
blend_low low a b f h = omega arith

round_between :
    (low high n : ℕ)
    → low * 100 ≤ n
    → n ≤ high * 100
    → (low ≤ round_hundredths n) × (round_hundredths n ≤ high)
round_between low high n h k = (
  rw (← round_exact low) (round_mono (low * 100) n h),
  rw (← round_exact high) (round_mono n (high * 100) k),
)

All-lows :
    (low high : ℕ) (xs : List ℕ) → All (λ s. (low ≤ s) × (s ≤ high)) xs → All (λ s. low ≤ s) xs
All-lows low high [] a = tt
All-lows low high (x ∷ xs) a = (a.0.0, All-lows low high xs a.1)

All-highs :
    (low high : ℕ) (xs : List ℕ) → All (λ s. (low ≤ s) × (s ≤ high)) xs → All (λ s. s ≤ high) xs
All-highs low high [] a = tt
All-highs low high (x ∷ xs) a = (a.0.1, All-highs low high xs a.1)

get_or_between :
    (low high : ℕ) (xs : List ℕ) (i : ℕ)
    → All (λ s. (low ≤ s) × (s ≤ high)) xs
    → i < length xs
    → (low ≤ get_or xs i 0) × (get_or xs i 0 ≤ high)
get_or_between low high xs i a h = (
  get_or_above low xs i (All-lows low high xs a) h,
  get_or_below high xs i (All-highs low high xs a),
)

blend_between :
    (low high : ℕ) (s : List ℕ) (rank : ℕ)
    → All (λ v. (low ≤ v) × (v ≤ high)) s
    → rank / 100 < length s
    → (low * 100 ≤ blend s rank) × (blend s rank ≤ high * 100)
blend_between low high s rank a h =
    let (above, below) = get_or_between low high s (rank / 100) a h in
    (
      blend_low low (get_or s (rank / 100) 0) (get_or s (rank / 100 + 1) 0) (rank % 100) above,
      blend_under (get_or s (rank / 100) 0) (get_or s (rank / 100 + 1) 0) high (rank % 100)
          (omega arith) below (get_or_below high s (rank / 100 + 1) (All-highs low high s a)),
    )

-- A percentile lies within whatever bounds its samples lie in, whatever the percentage.
pub percentile_bounds :
    (low high : ℕ) (samples : List ℕ) (pct v : ℕ)
    → All (λ s. (low ≤ s) × (s ≤ high)) samples
    → percentile samples pct ≡ some v
    → (low ≤ v) × (v ≤ high)
unfolding percentile
percentile_bounds low high [] pct v a h = cc
percentile_bounds low high (x ∷ xs) pct v a h = elim (Bool-cases (pct == 0)) [
  | inl none_below ↦ let q : x ≡ v = cc (rw none_below at h) in rw (← q) a.0
  | inr some_rank ↦ elim (Bool-cases (leb 100 pct)) [
    | inl e ↦
        let q : get_or (x ∷ xs) (length xs) 0 ≡ v = cc (rw (some_rank, e) at h) in
        rw (← q) (get_or_between low high (x ∷ xs) (length xs) a (omega arith))
    | inr e ↦
        let s = sort_up (λ v. v) (x ∷ xs) in
        let q : round_hundredths (blend s (pct * length xs)) ≡ v =
          cc (percentile-blend x xs pct (ground arith) (ground arith), h) in
        let room : pct * length xs / 100 < length s =
          omega (arith, rank_within (length xs) pct (ground arith), length-sort_up (x ∷ xs)) in
        let (above, below) =
          blend_between low high s (pct * length xs)
            (All-sort_up (λ v. v) (λ s. (low ≤ s) × (s ≤ high)) (x ∷ xs) a) room in
        rw (← q) (round_between low high (blend s (pct * length xs)) above below)
  ]
]

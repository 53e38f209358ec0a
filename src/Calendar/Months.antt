-- ===== src/Calendar/Months.antt =====
-- The calendar month that `month_bounds` returns.
use claude_struct.Prelude.{
  ℕ, ◌+◌, ◌*◌, ◌≤◌, ◌<◌, ◌≡◌, ◌↔◌, ◌⊎◌, inl, inr, refl, true, arith, ==_iff, Bool-cases, ltb,
  lt→ltb, sym, ◌==◌, if◌then◌else◌,
}
use native.Mathlib.Decide.{dec_lt}
use claude_struct.Calendar.{
  DateTime, IsDate, is_leap, days_before_year, days_before_common, days_before_month, days_in_month,
  instant, in_period, month_bounds,
}

-- A year has 365 days, and one more if it is a leap year.
days_before_year-next :
    (y : ℕ)
    → 1 ≤ y
    → days_before_year (y + 1) ≡ days_before_year y + 365 + (if is_leap y then 1 else 0)
unfolding days_before_year is_leap
days_before_year-next y h = ground arith

days_before_year_mono : (a b : ℕ) → a ≤ b → days_before_year a ≤ days_before_year b
unfolding days_before_year
days_before_year_mono a b h = omega arith

days_before_month-next :
    (y m : ℕ)
    → 1 ≤ m
    → m < 12
    → days_before_month y (m + 1) ≡ days_before_month y m + days_in_month y m
unfolding days_before_month days_in_month
days_before_month-next y m h k = ground arith

-- The day number of the first of the month.
abbrev first_day : ℕ → ℕ → ℕ
first_day y m = days_before_year y + days_before_month y m + 1

-- Within a year the next month begins when this one ends, and January follows December.
first_day-next :
    (y m : ℕ) → 1 ≤ m → m < 12 → first_day y (m + 1) ≡ first_day y m + days_in_month y m
first_day-next y m h k = omega (arith, days_before_month-next y m h k)

first_day-new_year : (y : ℕ) → 1 ≤ y → first_day (y + 1) 1 ≡ first_day y 12 + 31
unfolding days_before_month
first_day-new_year y h = ground (arith, days_before_year-next y h)

december_days : (y : ℕ) → days_in_month y 12 ≡ 31
unfolding days_in_month
december_days y = refl

-- The first day after the month, as `month_bounds` finds it.
abbrev end_day : ℕ → ℕ → ℕ
end_day y m = if m == 12 then first_day (y + 1) 1 else first_day y (m + 1)

end_day-eq : (y m : ℕ) → 1 ≤ y → 1 ≤ m → m ≤ 12 → end_day y m ≡ first_day y m + days_in_month y m
end_day-eq y m hy h k = elim (Bool-cases (m == 12)) [
  | inl e ↦ rw ((==_iff m 12).0 e) (omega (arith, first_day-new_year y hy, december_days y))
  | inr e ↦ rw e (first_day-next y m h (ground arith))
]

days_in_month_pos : (y m : ℕ) → 1 ≤ days_in_month y m
unfolding days_in_month
days_in_month_pos y m = ground arith

-- Midnight of a day.
abbrev midnight : ℕ → ℕ
midnight d = d * 86400000000

instant-start : (n : DateTime) → instant (month_bounds n).0 ≡ midnight (first_day n.year n.month)
unfolding instant month_bounds
instant-start n = ground arith

instant-end : (n : DateTime) → instant (month_bounds n).1 ≡ midnight (end_day n.year n.month)
unfolding instant month_bounds
instant-end n = ground arith

-- A valid moment lies between the midnights of its month.
within_month :
    (t : DateTime)
    → IsDate t
    → (midnight (first_day t.year t.month) ≤ instant t)
      × (instant t < midnight (end_day t.year t.month))
unfolding instant
within_month t v =
    let e = end_day-eq t.year t.month v.year_low v.month_low v.month_high in
    (omega arith, rw e (omega arith))

days_before_common_mono : (a b : ℕ) → a ≤ b → 1 ≤ a → days_before_common a ≤ days_before_common b
unfolding days_before_common
days_before_common_mono a b h k = ground arith

days_before_month_mono : (y a b : ℕ) → 1 ≤ a → a ≤ b → days_before_month y a ≤ days_before_month y b
unfolding days_before_month
days_before_month_mono y a b k h = elim (Bool-cases (ltb 2 a)) [
  | inl e ↦ rw (e, lt→ltb 2 b (ground arith)) (omega (arith, days_before_common_mono a b h k))
  | inr e ↦ rw e (omega (arith, days_before_common_mono a b h k))
]

days_before_january : (y : ℕ) → days_before_month y 1 ≡ 0
unfolding days_before_month
days_before_january y = refl

-- A month ends in its year, or with it.
end_day_in_year : (y m : ℕ) → 1 ≤ y → 1 ≤ m → m ≤ 12 → end_day y m ≤ first_day (y + 1) 1
end_day_in_year y m hy h k = elim (Bool-cases (m == 12)) [
  | inl e ↦ rw e (omega arith)
  | inr e ↦ rw e (
      omega (
        arith,
        first_day-new_year y hy,
        days_before_month_mono y (m + 1) 12 (omega arith) (ground arith),
      ))
]

-- Months do not overlap: a later month begins no sooner than an earlier one ends.
end_day_mono :
    (y m y' m' : ℕ)
    → 1 ≤ y
    → 1 ≤ m
    → m ≤ 12
    → 1 ≤ m'
    → m' ≤ 12
    → (y < y') ⊎ ((y ≡ y') × (m < m'))
    → end_day y m ≤ first_day y' m'
end_day_mono y m y' m' hy h k h' k' (inl lt) = omega (
  arith,
  end_day-eq y m hy h k,
  end_day_in_year y m hy h k,
  days_before_january (y + 1),
  days_before_year_mono (y + 1) y' (omega arith),
)
end_day_mono y m y' m' hy h k h' k' (inr (e, lt)) = rw (sym e) (
    omega (
      arith,
      end_day-eq y m hy h k,
      first_day-next y m h (omega arith),
      days_before_month_mono y (m + 1) m' (omega arith) (omega arith),
    ))

abbrev Later : ℕ → ℕ → ℕ → ℕ → Type 0
Later y m y' m' = (y < y') ⊎ ((y ≡ y') × (m < m'))

data Order (y m y' m' : ℕ) : Type 0 where
  later : Later y m y' m' → Order y m y' m'
  earlier : Later y' m' y m → Order y m y' m'
  same : y' ≡ y → m' ≡ m → Order y m y' m'

order : (y m y' m' : ℕ) → Order y m y' m'
order y m y' m' = elim (dec_lt y y') [
  | yes p ↦ later (inl p)
  | no p ↦ elim (dec_lt y' y) [
    | yes q ↦ earlier (inl q)
    | no q ↦ elim (dec_lt m m') [
      | yes r ↦ later (inr (omega arith, r))
      | no r ↦ elim (dec_lt m' m) [
        | yes s ↦ earlier (inr (omega arith, s))
        | no s ↦ same (omega arith) (omega arith)
      ]
    ]
  ]
]

in_period_iff :
    (p : DateTime × DateTime) (t : DateTime)
    → (in_period p t ≡ true) ↔ ((instant p.0 ≤ instant t) × (instant t < instant p.1))
unfolding in_period
in_period_iff p t = ground arith

same_month :
    (n t : DateTime)
    → IsDate n
    → IsDate t
    → midnight (first_day n.year n.month) ≤ instant t
    → instant t < midnight (end_day n.year n.month)
    → Order n.year n.month t.year t.month
    → (t.year ≡ n.year) × (t.month ≡ n.month)
same_month n t vn vt lo hi (later l) =
    let b =
      end_day_mono n.year n.month t.year t.month vn.year_low vn.month_low vn.month_high vt.month_low
        vt.month_high l in
    let w = within_month t vt in absurd (omega arith)
same_month n t vn vt lo hi (earlier l) =
    let b =
      end_day_mono t.year t.month n.year n.month vt.year_low vt.month_low vt.month_high vn.month_low
        vn.month_high l in
    let w = within_month t vt in absurd (omega arith)
same_month n t vn vt lo hi (same e f) = (e, f)

-- For valid dates, a moment is in the period of `month_bounds n` exactly if it has the year and
-- the month of `n`.
pub in_period-month_bounds :
    (n t : DateTime)
    → IsDate n
    → IsDate t
    → (in_period (month_bounds n) t ≡ true) ↔ ((t.year ≡ n.year) × (t.month ≡ n.month))
in_period-month_bounds n t vn vt = (outward, inward)
  where
    outward : in_period (month_bounds n) t ≡ true → (t.year ≡ n.year) × (t.month ≡ n.month)
    outward h =
        let b = (in_period_iff (month_bounds n) t).0 h in
        same_month n t vn vt (rw (← instant-start n) b.0) (rw (← instant-end n) b.1)
          (order n.year n.month t.year t.month)

    inward : (t.year ≡ n.year) × (t.month ≡ n.month) → in_period (month_bounds n) t ≡ true
    inward h = (in_period_iff (month_bounds n) t).1 (
      rw (instant-start n, ← h.0, ← h.1) (within_month t vt).0,
      rw (instant-end n, ← h.0, ← h.1) (within_month t vt).1,
    )

-- ===== src/Stripe/Customers.antt =====
-- Writing back a row of the subscriptions table.
use claude_struct.Prelude.{
  ℕ, ◌≡◌, ◌≢◌, refl, sym, ap, ◌∙◌, Bool, true, false, inl, inr, Bool-cases, Option-cases, Option,
  none, some, List, [], ◌∷◌, ◌++◌, ◌==◌, ==_iff, if◌then◌else◌, keep, In, All, All-In, arith,
}
use claude_struct.Models.{Subscription, Db}
use claude_struct.Billing.{placeholder, find_subscription, get_or_default}
use claude_struct.Auth.{one, one_or_none}
use claude_struct.Stripe.{put_subscription, by_customer, same_text}

-- The UNIQUE constraint on the org.
abbrev pub HasOneRow : List Subscription → Type 0
HasOneRow [] = Unit {0}
HasOneRow (x ∷ xs) = All (λ y. y.org_id ≢ x.org_id) xs × HasOneRow xs

abbrev pub replaced : Subscription → Option Subscription → Option Subscription
replaced s none = none
replaced s (some _) = some s

pub find_subscription-put :
    (s : Subscription) (key : ℕ) (xs : List Subscription)
    → find_subscription key (put_subscription s xs) ≡ (
        if s.org_id == key then replaced s (find_subscription key xs) else find_subscription key xs)
unfolding find_subscription put_subscription
find_subscription-put s key [] = ground arith
find_subscription-put s key (x ∷ xs) = ground (arith, find_subscription-put s key xs)

pub find_subscription_of_In :
    (s : Subscription) (xs : List Subscription)
    → HasOneRow xs
    → In s xs
    → find_subscription s.org_id xs ≡ some s
unfolding find_subscription
find_subscription_of_In s [] u m = elim m [ ]
find_subscription_of_In s (x ∷ xs) u (inl e) = rw (← e, (==_iff s.org_id s.org_id).1 refl)
find_subscription_of_In s (x ∷ xs) u (inr m) =
    let ne : s.org_id ≢ x.org_id = All-In (λ y. y.org_id ≢ x.org_id) s xs u.0 m in
    ground (arith, find_subscription_of_In s xs u.1 m)

others_stay :
    (s : Subscription) (n : ℕ) (xs : List Subscription)
    → All (λ y. y.org_id ≢ n) xs
    → All (λ y. y.org_id ≢ n) (put_subscription s xs)
unfolding put_subscription
others_stay s n [] h = tt
others_stay s n (x ∷ xs) h = (ground (arith, h.0), others_stay s n xs h.1)

pub put_subscription-HasOneRow :
    (s : Subscription) (xs : List Subscription) → HasOneRow xs → HasOneRow (put_subscription s xs)
unfolding put_subscription
put_subscription-HasOneRow s [] u = tt
put_subscription-HasOneRow s (x ∷ xs) u = (
  elim (Bool-cases (x.org_id == s.org_id)) [
    | inl e ↦ rw e (rw ((==_iff x.org_id s.org_id).0 e) at (others_stay s x.org_id xs u.0))
    | inr e ↦ rw e (others_stay s x.org_id xs u.0)
  ],
  put_subscription-HasOneRow s xs u.1,
)

absent_org :
    (org : ℕ) (xs : List Subscription)
    → find_subscription org xs ≡ none
    → All (λ y. y.org_id ≢ org) xs
unfolding find_subscription
absent_org org [] h = tt
absent_org org (x ∷ xs) h = elim (Bool-cases (x.org_id == org)) [
  | inl e ↦ cc (rw e at h)
  | inr e ↦ (ground arith, absent_org org xs (rw e at h))
]

All-append_one :
    (n : ℕ) (xs : List Subscription) (s : Subscription)
    → All (λ y. y.org_id ≢ n) xs
    → s.org_id ≢ n
    → All (λ y. y.org_id ≢ n) (xs ++ s ∷ [])
All-append_one n [] s h k = (k, tt)
All-append_one n (x ∷ xs) s h k = (h.0, All-append_one n xs s h.1 k)

append-HasOneRow :
    (xs : List Subscription) (s : Subscription)
    → HasOneRow xs
    → All (λ y. y.org_id ≢ s.org_id) xs
    → HasOneRow (xs ++ s ∷ [])
append-HasOneRow [] s u h = (tt, tt)
append-HasOneRow (x ∷ xs) s u h =
    (All-append_one x.org_id xs s u.0 (λ e. h.0 (sym e)), append-HasOneRow xs s u.1 h.1)

pub get_or_default-HasOneRow :
    (db : Db) (org : ℕ)
    → HasOneRow db.subscriptions
    → HasOneRow (get_or_default db org).1.subscriptions
unfolding get_or_default placeholder
get_or_default-HasOneRow db org u = elim (Option-cases (find_subscription org db.subscriptions)) [
  | inl e ↦
      rw e
        (append-HasOneRow db.subscriptions (placeholder org) u (absent_org org db.subscriptions e))
  | inr (s, e) ↦ rw e u
]

-- A lookup with one answer found a row of the table that passes its test.
pub one_or_none-keep :
    (p : Subscription → Bool) (s : Subscription) (xs : List Subscription)
    → one_or_none (keep p xs) ≡ one s
    → keep p xs ≡ s ∷ []
one_or_none-keep p s xs h = of_list (keep p xs) h
  where
    of_list : (ys : List Subscription) → one_or_none ys ≡ one s → ys ≡ s ∷ []
    of_list [] k = cc
    of_list (y ∷ []) k = cc
    of_list (y ∷ z ∷ ys) k = cc

pub kept_one :
    (p : Subscription → Bool) (s : Subscription) (xs : List Subscription)
    → keep p xs ≡ s ∷ []
    → In s xs × (p s ≡ true)
kept_one p s [] h = cc
kept_one p s (x ∷ xs) h = elim (Bool-cases (p x)) [
  | inl e ↦ (let same : x ≡ s = cc (rw e at h) in (inl (sym same), rw (← same) e))
  | inr e ↦ let (m, q) = kept_one p s xs (rw e at h) in (inr m, q)
]

put_absent :
    (s : Subscription) (xs : List Subscription)
    → All (λ y. y.org_id ≢ s.org_id) xs
    → put_subscription s xs ≡ xs
unfolding put_subscription
put_absent s [] h = refl
put_absent s (x ∷ xs) h = ground (arith, put_absent s xs h.1)

-- The one row that passes a test, written back so that it still does, is still the one.
pub keep-put_subscription :
    (p : Subscription → Bool) (old new : Subscription) (xs : List Subscription)
    → HasOneRow xs
    → keep p xs ≡ old ∷ []
    → new.org_id ≡ old.org_id
    → p new ≡ true
    → keep p (put_subscription new xs) ≡ new ∷ []
unfolding put_subscription
keep-put_subscription p old new [] u h o q = cc
keep-put_subscription p old new (x ∷ xs) u h o q = elim (Bool-cases (p x)) [
  | inl e ↦
      (let both : x ∷ keep p xs ≡ old ∷ [] = rw e at h in
        let same : x ≡ old = cc both in
        let none_left : keep p xs ≡ [] = cc both in
        let org : new.org_id ≡ x.org_id = o ∙ ap (λ s. s.org_id) (sym same) in
        rw ((==_iff x.org_id new.org_id).1 (sym org), q, put_absent new xs (rw org u.0), none_left))
  | inr e ↦
      (let left : keep p xs ≡ old ∷ [] = rw e at h in
        let ne : old.org_id ≢ x.org_id =
          All-In (λ y. y.org_id ≢ x.org_id) old xs u.0 (kept_one p old xs left).0 in
        let other : (x.org_id == new.org_id) ≡ false = ground arith in
        rw (other, e) (keep-put_subscription p old new xs u.1 left o q))
]

pub by_customer_found :
    (customer : Option _) (db : Db) (s : Subscription)
    → by_customer customer db ≡ one s
    → In s db.subscriptions × (same_text s.stripe_customer_id customer ≡ true)
unfolding by_customer
by_customer_found customer db s h =
    kept_one _ s db.subscriptions (one_or_none-keep _ s db.subscriptions h)

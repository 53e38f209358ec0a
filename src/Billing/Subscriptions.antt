-- ===== src/Billing/Subscriptions.antt =====
-- `get_or_default`: one subscription for an org, found or made.
use claude_struct.Prelude.{
  ℕ, ◌≡◌, ◌∙◌, refl, Option-cases, inl, inr, Option, none, some, List, [], ◌∷◌, ◌++◌, arith, ◌==◌,
  if◌then◌else◌,
}
use claude_struct.Models.{Run, Subscription, Db}
use claude_struct.Billing.{placeholder, find_subscription, get_or_default}

-- The org of a row that is found.
pub find_subscription-org :
    (org : ℕ) (s : Subscription) (ss : List Subscription)
    → find_subscription org ss ≡ some s
    → s.org_id ≡ org
unfolding find_subscription
find_subscription-org org s [] h = cc
find_subscription-org org s (x ∷ ss) h = ground (arith, find_subscription-org org s ss)

find_subscription-append :
    (org key : ℕ) (ss : List Subscription)
    → find_subscription org ss ≡ none
    → find_subscription key (ss ++ placeholder org ∷ [])
      ≡ (if org == key then some (placeholder org) else find_subscription key ss)
unfolding find_subscription placeholder
find_subscription-append org key [] h = refl
find_subscription-append org key (s ∷ ss) h = ground (arith, find_subscription-append org key ss)

-- What `get_or_default` returns is the row that the table then holds for the org, and every other
-- org's row is as it was.
pub find_subscription-get_or_default :
    (db : Db) (org key : ℕ)
    → find_subscription key (get_or_default db org).1.subscriptions ≡ (
        if org == key
        then some (get_or_default db org).0
        else find_subscription key db.subscriptions)
unfolding get_or_default
find_subscription-get_or_default db org key =
    elim (Option-cases (find_subscription org db.subscriptions)) [
      | inl e ↦ rw e (find_subscription-append org key db.subscriptions e)
      | inr (s, e) ↦ rw e (ground (arith, e))
    ]

pub get_or_default_found :
    (db : Db) (org : ℕ) (s : Subscription)
    → find_subscription org db.subscriptions ≡ some s
    → get_or_default db org ≡ (s, db)
unfolding get_or_default
get_or_default_found db org s e = rw e

-- Reading an org twice finds the row of the first time, and the second reading writes nothing.
pub get_or_default_idem :
    (db : Db) (org : ℕ)
    → get_or_default (get_or_default db org).1 org
      ≡ ((get_or_default db org).0, (get_or_default db org).1)
get_or_default_idem db org = rw (
    get_or_default_found (get_or_default db org).1 org (get_or_default db org).0
      (find_subscription-get_or_default db org org ∙ ground arith))

-- Only the subscriptions are written.
pub runs-get_or_default : (db : Db) (org : ℕ) → (get_or_default db org).1.runs ≡ db.runs
unfolding get_or_default
runs-get_or_default db org = ground arith

-- The runs play no part in it.
pub get_or_default-runs :
    (db : Db) (org : ℕ) (rs : List Run)
    → get_or_default (record db { runs = rs }) org
      ≡ ((get_or_default db org).0, record ((get_or_default db org).1) { runs = rs })
unfolding get_or_default
get_or_default-runs db org rs = ground arith

abbrev pub or_placeholder : ℕ → Option Subscription → Subscription
or_placeholder org none = placeholder org
or_placeholder org (some s) = s

pub get_or_default-eq-find :
    (db : Db) (org : ℕ)
    → (get_or_default db org).0 ≡ or_placeholder org (find_subscription org db.subscriptions)
unfolding get_or_default
get_or_default-eq-find db org = ground arith

-- Reading one org's subscription changes no other reading.
pub get_or_default-get_or_default :
    (db : Db) (org key : ℕ)
    → (get_or_default (get_or_default db org).1 key).0 ≡ (get_or_default db key).0
get_or_default-get_or_default db org key = ground (
  arith,
  get_or_default-eq-find (get_or_default db org).1 key,
  get_or_default-eq-find db key,
  get_or_default-eq-find db org,
  find_subscription-get_or_default db org key,
)

-- ===== src/Stripe/Tiers.antt =====
-- What a delivery may do to an org's tier.
use claude_struct.Prelude.{
  ℕ, ◌≡◌, refl, sym, ap, ◌∙◌, ◌⊎◌, true, false, inl, inr, Bool-cases, String, Option, none, some,
  List, ◌==◌, ==_iff, if◌then◌else◌, ◌&&◌, arith,
}
use claude_struct.Calendar.{DateTime}
use claude_struct.Models.{Org, Subscription, Db}
use claude_struct.Billing.{find_subscription, get_or_default}
use claude_struct.Billing.Subscriptions.{
  find_subscription-get_or_default, get_or_default_found, get_or_default-eq-find,
  get_or_default-get_or_default, find_subscription-org,
}
use claude_struct.Audit.{Codec}
use claude_struct.Auth.{one}
use claude_struct.Stripe.{
  get_or, or_text, is_set, Metadata, StripeEvent, Stripe, Hook, Handled, done, crashed, org_by_slug,
  by_customer, save_subscription, is_type,
}
use claude_struct.Stripe.Handlers.{
  handle_stripe_event, answer, receive, receive_signed, stripe_webhook,
}
use claude_struct.Stripe.Customers.{
  HasOneRow, find_subscription-put, find_subscription_of_In, put_subscription-HasOneRow,
  get_or_default-HasOneRow, by_customer_found,
}
use claude_struct.Stripe.Changes.{
  Change, logged, renewed, canceled, purchased, handle_stripe_event-Change,
}

-- The subscription that an org is served under.
abbrev pub row_in : Db → ℕ → Subscription
row_in db org = (get_or_default db org).0

-- A row that a save replaces is found as it was saved, and other orgs' rows as they were.
pub row_in-save :
    (db : Db) (old new : Subscription) (org : ℕ)
    → find_subscription new.org_id db.subscriptions ≡ some old
    → row_in (save_subscription new db) org ≡ (if new.org_id == org then new else row_in db org)
row_in-save db old new org found = ground (
  arith,
  get_or_default-eq-find (save_subscription new db) org,
  get_or_default-eq-find db org,
  find_subscription-put new org db.subscriptions,
  found,
)

-- The row that an org is served under after `get_or_default` is one of the table.
pub found_after :
    (db : Db) (org : ℕ)
    → find_subscription org (get_or_default db org).1.subscriptions ≡ some (row_in db org)
found_after db org = ground (arith, find_subscription-get_or_default db org org)

pub row_in-org : (db : Db) (org : ℕ) → (row_in db org).org_id ≡ org
row_in-org db org =
    find_subscription-org org (row_in db org) (get_or_default db org).1.subscriptions
      (found_after db org)

-- The customer's row is the one that its org is served under.
pub customer_row :
    (customer : Option String) (db : Db) (s : Subscription)
    → HasOneRow db.subscriptions
    → by_customer customer db ≡ one s
    → find_subscription s.org_id db.subscriptions ≡ some s
customer_row customer db s u found =
    find_subscription_of_In s db.subscriptions u (by_customer_found customer db s found).0

-- A checkout paid for the org, or its customer's subscription was deleted.
abbrev pub IsPurchase : StripeEvent → Db → Db → ℕ → Type 0
IsPurchase e db db' org =
    (is_type e "checkout.session.completed" ≡ true)
    × ((m : Metadata) × (o : Org) × (get_or (record { org_slug = none; tier = none }) e.metadata
          ≡ some m)
        × (org_by_slug (or_text "" m.org_slug) db ≡ one o)
        × (o.id ≡ org)
        × (m.tier ≡ some (row_in db' org).tier))

abbrev pub IsDeletion : StripeEvent → Db → Db → ℕ → Type 0
IsDeletion e db db' org =
    (is_type e "customer.subscription.deleted" ≡ true)
    × ((s : Subscription) × (by_customer (get_or "" e.customer) db ≡ one s) × (s.org_id ≡ org))
    × ((row_in db' org).tier ≡ "free")

abbrev pub TierMoves : StripeEvent → Db → Db → ℕ → Type 0
TierMoves e db db' org =
    ((row_in db' org).tier ≡ (row_in db org).tier)
    ⊎ (IsPurchase e db db' org ⊎ IsDeletion e db db' org)

saved_elsewhere :
    (db : Db) (old new : Subscription) (org : ℕ)
    → find_subscription new.org_id db.subscriptions ≡ some old
    → (new.org_id == org) ≡ false
    → row_in (save_subscription new db) org ≡ row_in db org
saved_elsewhere db old new org found other = row_in-save db old new org found ∙ rw other

saved_here :
    (db : Db) (old new : Subscription) (org : ℕ)
    → find_subscription new.org_id db.subscriptions ≡ some old
    → (new.org_id == org) ≡ true
    → row_in (save_subscription new db) org ≡ new
saved_here db old new org found is = row_in-save db old new org found ∙ rw is

row_in-found :
    (db : Db) (s : Subscription) (org : ℕ)
    → find_subscription s.org_id db.subscriptions ≡ some s
    → (s.org_id == org) ≡ true
    → row_in db org ≡ s
row_in-found db s org found is =
    rw (← (==_iff s.org_id org).0 is) (ap (λ r. r.0) (get_or_default_found db s.org_id s found))

row_in-get_or_default :
    (db : Db) (key org : ℕ) → row_in (get_or_default db key).1 org ≡ row_in db org
row_in-get_or_default db key org = get_or_default-get_or_default db key org

TierMoves-Change :
    (e : StripeEvent) (db db' : Db) (org : ℕ)
    → HasOneRow db.subscriptions
    → Change e db db'
    → TierMoves e db db' org
TierMoves-Change e db db' org u (logged same) = inl (rw same)
TierMoves-Change e db db' org u (renewed old new found o t same) =
    let at_old = customer_row (get_or "" e.customer) db old u found in
    let at_new : find_subscription new.org_id db.subscriptions ≡ some old = rw o at_old in
    elim (Bool-cases (new.org_id == org)) [
      | inl is ↦ inl (
          rw
            (same, saved_here db old new org at_new is, row_in-found db old org at_old (rw o at is))
            t)
      | inr other ↦ inl (rw (same, saved_elsewhere db old new org at_new other))
    ]
TierMoves-Change e db db' org u (canceled old typed found same) =
    let at_old = customer_row (get_or "" e.customer) db old u found in
    let new = record old { tier = "free"; status = some "canceled" } in
    elim (Bool-cases (old.org_id == org)) [
      | inl is ↦ inr (
          inr (
            typed,
            (old, found, (==_iff old.org_id org).0 is),
            rw (same, saved_here db old new org at_old is),
          ))
      | inr other ↦ inl (rw (same, saved_elsewhere db old new org at_old other))
    ]
TierMoves-Change e db db' org u (purchased m o new typed meta found org_is tier_is active same) =
    let db0 = (get_or_default db o.id).1 in
    let of_org : new.org_id ≡ o.id = org_is ∙ row_in-org db o.id in
    let at_new : find_subscription new.org_id db0.subscriptions ≡ some (row_in db o.id) =
      rw of_org (found_after db o.id) in
    elim (Bool-cases (new.org_id == org)) [
      | inl is ↦ inr (
          inl (
            typed,
            (
              m,
              o,
              meta,
              found,
              sym of_org ∙ (==_iff new.org_id org).0 is,
              rw (same, saved_here db0 (row_in db o.id) new org at_new is) tier_is,
            ),
          ))
      | inr other ↦ inl (
          rw (
            same,
            saved_elsewhere db0 (row_in db o.id) new org at_new other,
            row_in-get_or_default db o.id org,
          ))
    ]

Change-HasOneRow :
    (e : StripeEvent) (db db' : Db)
    → HasOneRow db.subscriptions
    → Change e db db'
    → HasOneRow db'.subscriptions
Change-HasOneRow e db db' u (logged same) = rw same u
Change-HasOneRow e db db' u (renewed old new found o t same) =
    rw same (put_subscription-HasOneRow new db.subscriptions u)
Change-HasOneRow e db db' u (canceled old typed found same) =
    rw same (put_subscription-HasOneRow _ db.subscriptions u)
Change-HasOneRow e db db' u (purchased m o new typed meta found org_is tier_is active same) =
    rw same (put_subscription-HasOneRow new _ (get_or_default-HasOneRow db o.id u))

module _ {Payload : Type 0} (c : Codec Payload) (stripe : Stripe Payload) (now : DateTime) where
  -- The delivery is of an event that the Stripe library accepts under the configured secret.
  abbrev pub IsVerified : Option String → List ℕ → StripeEvent → Type 0
  IsVerified signature raw e =
      (stripe.available ≡ true)
      × ((secret : String) × (s : String) × (stripe.webhook_secret ≡ some secret)
          × (is_set (some secret) ≡ true)
          × (signature ≡ some s)
          × (stripe.construct_event raw s secret ≡ some e))

  module _ (h : Hook) where
    answer_cases :
        (o : Handled) → ((answer c stripe now h o).1 ≡ h) ⊎ (o ≡ done (answer c stripe now h o).1)
    answer_cases (done h') = inr refl
    answer_cases (crashed e) = inl refl

    receive_cases :
        (o : Option StripeEvent)
        → ((receive c stripe now h o).1 ≡ h)
          ⊎ ((e : StripeEvent) × (o ≡ some e)
              × (handle_stripe_event c stripe now e h ≡ done (receive c stripe now h o).1))
    receive_cases none = inl refl
    receive_cases (some e) = elim (answer_cases (handle_stripe_event c stripe now e h)) [
      | inl same ↦ inl same
      | inr handled ↦ inr (e, refl, handled)
    ]

    receive_signed_cases :
        (raw : List ℕ) (secret : String) (s : Option String)
        → ((receive_signed c stripe now h raw secret s).1 ≡ h)
          ⊎ ((e : StripeEvent) × (t : String) × (s ≡ some t)
              × (stripe.construct_event raw t secret ≡ some e)
              × (handle_stripe_event c stripe now e h
                  ≡ done (receive_signed c stripe now h raw secret s).1))
    receive_signed_cases raw secret none = inl refl
    receive_signed_cases raw secret (some t) =
        elim (receive_cases (stripe.construct_event raw t secret)) [
          | inl same ↦ inl same
          | inr (e, accepted, handled) ↦ inr (e, t, refl, accepted, handled)
        ]

    secret_set : (o : Option String) → is_set o ≡ true → (t : String) × (o ≡ some t)
    secret_set none q = cc
    secret_set (some t) q = (t, refl)

    -- A delivery leaves the server and the counters alone, or a verified event was handled to its
    -- end.
    pub stripe_webhook_cases :
        (signature : Option String) (raw : List ℕ)
        → ((stripe_webhook c stripe now signature raw h).1 ≡ h)
          ⊎ ((e : StripeEvent) × IsVerified signature raw e
              × (handle_stripe_event c stripe now e h
                  ≡ done (stripe_webhook c stripe now signature raw h).1))
    unfolding stripe_webhook
    stripe_webhook_cases signature raw =
        elim (Bool-cases (stripe.available && is_set stripe.webhook_secret)) [
          | inr off ↦ inl (rw off)
          | inl on ↦
              (let set : is_set stripe.webhook_secret ≡ true = ground arith in
                let (secret, is) = secret_set stripe.webhook_secret set in
                elim (receive_signed_cases raw (or_text "" stripe.webhook_secret) signature) [
                  | inl same ↦ inl (rw on same)
                  | inr (e, t, signed, accepted, handled) ↦ inr (
                    e,
                    (ground arith, (secret, t, is, rw is at set, signed, rw is at accepted)),
                    rw on handled,
                  )
                ])
        ]

  -- A delivery leaves an org's tier as it is, unless it is of a verified event that is a checkout
  -- whose metadata name the org, which sets the tier that they name, or the deletion of the
  -- subscription of the org's Stripe customer, which sets the free tier; given that no two rows of
  -- the table are of one org, which still holds afterwards.
  pub stripe_webhook-TierMoves :
      (signature : Option String) (raw : List ℕ) (h : Hook)
      → HasOneRow h.server.db.subscriptions
      → HasOneRow (stripe_webhook c stripe now signature raw h).1.server.db.subscriptions
        × ((org : ℕ)
            → ((row_in (stripe_webhook c stripe now signature raw h).1.server.db org).tier
                ≡ (row_in h.server.db org).tier)
              ⊎ ((e : StripeEvent) × IsVerified signature raw e
                  × (IsPurchase e h.server.db
                        (stripe_webhook c stripe now signature raw h).1.server.db
                        org
                      ⊎ IsDeletion e h.server.db
                          (stripe_webhook c stripe now signature raw h).1.server.db
                          org)))
  stripe_webhook-TierMoves signature raw h u = elim (stripe_webhook_cases h signature raw) [
    | inl same ↦ (rw same u, λ org. inl (rw same))
    | inr (e, verified, handled) ↦
        (let change = handle_stripe_event-Change c stripe now e h _ handled in
          (
            Change-HasOneRow e h.server.db _ u change,
            λ org. elim (TierMoves-Change e h.server.db _ org u change) [
              | inl same ↦ inl same
              | inr moved ↦ inr (e, verified, moved)
            ],
          ))
  ]

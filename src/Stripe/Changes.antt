-- ===== src/Stripe/Changes.antt =====
-- What an event may do to the subscriptions.
use claude_struct.Prelude.{
  ◌≡◌, refl, sym, ap, ◌∙◌, true, ◌⊎◌, inl, inr, Bool-cases, String, Option, none, some, List,
  if◌then◌else◌, str_eq, ◌&&◌, arith,
}
use claude_struct.Calendar.{DateTime}
use claude_struct.Models.{Org, Subscription, Db}
use claude_struct.Billing.{get_or_default, tier_value}
use claude_struct.Audit.{Codec}
use claude_struct.Auth.{Lookup, missing, one, several}
use claude_struct.WebhookMetrics.{Counter}
use claude_struct.Stripe.{
  get_or, or_text, is_set, Metadata, StripeEvent, Stripe, Hook, Handled, done, org_by_slug,
  by_customer, save_subscription, period_bound, Updated, updated, failed, with_bounds,
  with_retrieved, stripe_error, retrieved, Retrieved, paid, only_for, with_subscription,
  customers_row, is_type,
}
use claude_struct.Stripe.Handlers.{
  update_subscription_period, record_stripe, finish, renew_period, check_out, check_out_org,
  check_out_with, handle_checkout_completed, handle_subscription_updated,
  handle_subscription_deleted, handle_invoice_payment_succeeded, handle_invoice_payment_failed,
  log_unhandled, handle_stripe_event,
}

-- What one event may have done to the database.
pub data Change (e : StripeEvent) (db db' : Db) : Type 0 where
  -- Nothing.
  logged : db' ≡ db → Change e db db'
  -- The customer's row has a new status or period, and its tier as before.
  renewed :
      (old new : Subscription)
      → by_customer (get_or "" e.customer) db ≡ one old
      → new.org_id ≡ old.org_id
      → new.tier ≡ old.tier
      → db' ≡ save_subscription new db
      → Change e db db'
  -- A deletion: the customer's row is canceled and free.
  canceled :
      (old : Subscription)
      → is_type e "customer.subscription.deleted" ≡ true
      → by_customer (get_or "" e.customer) db ≡ one old
      → db' ≡ save_subscription (record old { tier = "free"; status = some "canceled" }) db
      → Change e db db'
  -- A checkout: the row of the org that the metadata names has the tier that they name.
  purchased :
      (m : Metadata) (org : Org) (new : Subscription)
      → is_type e "checkout.session.completed" ≡ true
      → get_or (record { org_slug = none; tier = none }) e.metadata ≡ some m
      → org_by_slug (or_text "" m.org_slug) db ≡ one org
      → new.org_id ≡ (get_or_default db org.id).0.org_id
      → m.tier ≡ some new.tier
      → new.status ≡ some "active"
      → db' ≡ save_subscription new (get_or_default db org.id).1
      → Change e db db'

-- Fetching the period keeps the row's org, tier and status.
pub record Kept (old new : Subscription) : Type 0 where
  pub org : new.org_id ≡ old.org_id
  pub tier : new.tier ≡ old.tier
  pub status : new.status ≡ old.status

with_bounds-Kept :
    (sub new : Subscription) (n n' : Counter) (a b : Option (Option _))
    → with_bounds sub n a b ≡ updated new n'
    → Kept sub new
with_bounds-Kept sub new n n' (some a) (some b) h = record {
  org = cc h;
  tier = cc h;
  status = cc h;
}
with_bounds-Kept sub new n n' (some a) none h = cc
with_bounds-Kept sub new n n' none b h = cc

with_retrieved-Kept :
    (sub new : Subscription) (n n' : Counter) (r : Retrieved)
    → with_retrieved sub n r ≡ updated new n'
    → Kept sub new
with_retrieved-Kept sub new n n' stripe_error h = record { org = cc h; tier = cc h; status = cc h }
with_retrieved-Kept sub new n n' (retrieved a b) h =
    with_bounds-Kept sub new n n' (period_bound a) (period_bound b) h

pub done_inj : {h h' : Hook} → done h ≡ done h' → h ≡ h'
done_inj k = cc

pub only_for_cases :
    (kind : String) (e : StripeEvent) (h h' : Hook) (rest : Handled)
    → only_for kind e h rest ≡ done h'
    → (h' ≡ h) ⊎ (rest ≡ done h')
only_for_cases kind e h h' rest k = elim (Bool-cases (str_eq (or_text "" e.object) kind)) [
  | inl is ↦ inr (rw is at k)
  | inr other ↦ inl (sym (done_inj (rw other at k)))
]

with_subscription_cases :
    (h h' : Hook) (l : Lookup Subscription) (f : Subscription → Handled)
    → with_subscription h l f ≡ done h'
    → (h' ≡ h) ⊎ ((s : Subscription) × (l ≡ one s) × (f s ≡ done h'))
with_subscription_cases h h' missing f k = inl (sym (done_inj k))
with_subscription_cases h h' several f k = cc
with_subscription_cases h h' (one s) f k = inr (s, refl, k)

same_db : {h h' : Hook} → h' ≡ h → h'.server.db ≡ h.server.db
same_db k = ap (λ h. h.server.db) k

-- A handler that looks the customer's row up works on that row, or does nothing.
pub row_handler_cases :
    (kind : String) (e : StripeEvent) (h h' : Hook) (f : Subscription → Handled)
    → only_for kind e h (with_subscription h (customers_row e h) f) ≡ done h'
    → (h' ≡ h) ⊎ ((s : Subscription) × (customers_row e h ≡ one s) × (f s ≡ done h'))
row_handler_cases kind e h h' f k = elim (only_for_cases kind e h h' _ k) [
  | inl same ↦ inl same
  | inr k' ↦ with_subscription_cases h h' (customers_row e h) f k'
]

row_handler-Change :
    (kind : String) (e : StripeEvent) (h h' : Hook) (f : Subscription → Handled)
    → ((s : Subscription)
        → customers_row e h ≡ one s
        → f s ≡ done h'
        → Change e h.server.db h'.server.db)
    → only_for kind e h (with_subscription h (customers_row e h) f) ≡ done h'
    → Change e h.server.db h'.server.db
row_handler-Change kind e h h' f work k = elim (row_handler_cases kind e h h' f k) [
  | inl same ↦ logged (same_db same)
  | inr (s, found, k') ↦ work s found k'
]

module _ {Payload : Type 0} (c : Codec Payload) (stripe : Stripe Payload) (now : DateTime) where
  update-Kept :
      (sub new : Subscription) (id : String) (n n' : Counter)
      → update_subscription_period c stripe now sub id n ≡ updated new n'
      → Kept sub new
  unfolding update_subscription_period
  update-Kept sub new id n n' h = with_retrieved-Kept sub new n n' (stripe.retrieve id) h

  -- A handler that finishes has written back the row that it was given.
  finish_writes :
      (action resource_id : String) (payload : Subscription → List (String × Option String))
      (h h' : Hook) (u : Updated)
      → finish c stripe now action resource_id payload h u ≡ done h'
      → (new : Subscription) × (n : Counter) × (u ≡ updated new n)
        × (h'.server.db ≡ save_subscription new h.server.db)
  unfolding finish
  finish_writes action resource_id payload h h' (failed e) k = cc
  finish_writes action resource_id payload h h' (updated new n) k =
      (new, n, refl, sym (ap (λ h. h.server.db) (done_inj k)))

  module _ (e : StripeEvent) (h h' : Hook) where
    finish-renewed :
        (action resource_id : String) (payload : Subscription → List (String × Option String))
        (old sub : Subscription) (u : Updated)
        → sub.org_id ≡ old.org_id
        → sub.tier ≡ old.tier
        → ((new : Subscription) (n : Counter) → u ≡ updated new n → Kept sub new)
        → customers_row e h ≡ one old
        → finish c stripe now action resource_id payload h u ≡ done h'
        → Change e h.server.db h'.server.db
    finish-renewed action resource_id payload old sub u o t keeps found k =
        let (new, n, is, db) = finish_writes action resource_id payload h h' u k in
        let kept = keeps new n is in renewed old new found (kept.org ∙ o) (kept.tier ∙ t) db

    update-Change :
        handle_subscription_updated c stripe now e h ≡ done h' → Change e h.server.db h'.server.db
    unfolding handle_subscription_updated
    update-Change = row_handler-Change "customer.subscription" e h h' _ (λ s found k.
        finish-renewed _ _ _ s (record s { status = e.status }) _ refl refl
          (λ new n is. update-Kept _ new _ _ n is) found k)

    succeeded-Change :
        handle_invoice_payment_succeeded c stripe now e h ≡ done h'
        → Change e h.server.db h'.server.db
    unfolding handle_invoice_payment_succeeded
    succeeded-Change =
        row_handler-Change "invoice" e h h' (renew_period c stripe now e h) (λ s found k.
          elim (Bool-cases (is_set e.subscription)) [
            | inl is ↦
                finish-renewed _ _ _ s s _ refl refl (λ new n is. update-Kept _ new _ _ n is) found
                  (rw is at k)
            | inr not_set ↦ logged (same_db (sym (done_inj (rw not_set at k))))
          ])

    updated-Kept :
        (sub new : Subscription) (n n' : Counter) → updated sub n ≡ updated new n' → Kept sub new
    updated-Kept sub new n n' is = record { org = cc is; tier = cc is; status = cc is }

    failed-Change :
        handle_invoice_payment_failed c stripe now e h ≡ done h' → Change e h.server.db h'.server.db
    unfolding handle_invoice_payment_failed
    failed-Change = row_handler-Change "invoice" e h h' _ (λ s found k.
        finish-renewed _ _ _ s (record s { status = some "past_due" }) _ refl refl
          (λ new n is. updated-Kept _ new _ n is) found k)

    deleted-Change :
        is_type e "customer.subscription.deleted" ≡ true
        → handle_subscription_deleted c stripe now e h ≡ done h'
        → Change e h.server.db h'.server.db
    unfolding handle_subscription_deleted tier_value
    deleted-Change is = row_handler-Change "customer.subscription" e h h' _ (λ s found k.
        let (new, n, written, db) = finish_writes _ _ _ h h' _ k in
        let row : record s { tier = "free"; status = some "canceled" } ≡ new = cc written in
        canceled s is found (rw row db))

    log-Change : log_unhandled c stripe now e h ≡ done h' → Change e h.server.db h'.server.db
    unfolding log_unhandled record_stripe
    log-Change k = logged (sym (ap (λ h. h.server.db) (done_inj k)))

    period_if_set :
        (sub new : Subscription) (n : Counter)
        → (if is_set e.subscription
            then update_subscription_period c stripe now sub
                (or_text "" e.subscription)
                h.webhook_errors
            else updated sub h.webhook_errors)
          ≡ updated new n
        → Kept sub new
    period_if_set sub new n is = elim (Bool-cases (is_set e.subscription)) [
      | inl fetched ↦ update-Kept sub new _ h.webhook_errors n (rw fetched at is)
      | inr without ↦ updated-Kept sub new h.webhook_errors n (rw without at is)
    ]

    check_out-Change :
        (m : Metadata) (org : Org)
        → is_type e "checkout.session.completed" ≡ true
        → get_or (record { org_slug = none; tier = none }) e.metadata ≡ some m
        → is_set m.tier ≡ true
        → org_by_slug (or_text "" m.org_slug) h.server.db ≡ one org
        → check_out c stripe now e (or_text "" m.tier) (get_or_default h.server.db org.id) h
          ≡ done h'
        → Change e h.server.db h'.server.db
    check_out-Change m org is meta set found k =
        let sub = (get_or_default h.server.db org.id).0 in
        let (new, n, written, db) = finish_writes _ _ _ _ h' _ k in
        let kept = period_if_set (paid e (or_text "" m.tier) sub) new n written in
        purchased m org new is meta found kept.org (named m.tier set ∙ ap some (sym kept.tier))
          kept.status db
      where
        named : (t : Option String) → is_set t ≡ true → t ≡ some (or_text "" t)
        named none q = cc
        named (some t) q = refl

    checkout_org-Change :
        (m : Metadata) (l : Lookup Org)
        → is_type e "checkout.session.completed" ≡ true
        → get_or (record { org_slug = none; tier = none }) e.metadata ≡ some m
        → is_set m.tier ≡ true
        → org_by_slug (or_text "" m.org_slug) h.server.db ≡ l
        → check_out_org c stripe now e (or_text "" m.tier) h l ≡ done h'
        → Change e h.server.db h'.server.db
    checkout_org-Change m missing is meta set found k = logged (same_db (sym (done_inj k)))
    checkout_org-Change m several is meta set found k = cc
    checkout_org-Change m (one org) is meta set found k = check_out-Change m org is meta set found k

    checkout_meta-Change :
        (o : Option Metadata)
        → is_type e "checkout.session.completed" ≡ true
        → get_or (record { org_slug = none; tier = none }) e.metadata ≡ o
        → check_out_with c stripe now e h o ≡ done h'
        → Change e h.server.db h'.server.db
    unfolding record_stripe
    checkout_meta-Change none is meta k = cc
    checkout_meta-Change (some m) is meta k =
        elim (Bool-cases (is_set m.org_slug && is_set m.tier)) [
          | inl named ↦
              checkout_org-Change m (org_by_slug (or_text "" m.org_slug) h.server.db) is meta
                (ground arith) refl (rw named at k)
          | inr unnamed ↦ logged (sym (ap (λ h. h.server.db) (done_inj (rw unnamed at k))))
        ]

    checkout-Change :
        is_type e "checkout.session.completed" ≡ true
        → handle_checkout_completed c stripe now e h ≡ done h'
        → Change e h.server.db h'.server.db
    unfolding handle_checkout_completed
    checkout-Change is k = elim (only_for_cases "checkout.session" e h h' _ k) [
      | inl same ↦ logged (same_db same)
      | inr k' ↦
          checkout_meta-Change (get_or (record { org_slug = none; tier = none }) e.metadata) is refl
            k'
    ]

    -- Whatever an event is, a handler that ends without a crash has made one of the changes of
    -- `Change` to the database, or none.
    pub handle_stripe_event-Change :
        handle_stripe_event c stripe now e h ≡ done h' → Change e h.server.db h'.server.db
    unfolding handle_stripe_event
    handle_stripe_event-Change k = elim (Bool-cases (is_type e "checkout.session.completed")) [
      | inl is ↦ checkout-Change is (rw is at k)
      | inr a ↦ elim (Bool-cases (is_type e "customer.subscription.updated")) [
        | inl is ↦ update-Change (rw (a, is) at k)
        | inr b ↦ elim (Bool-cases (is_type e "customer.subscription.deleted")) [
          | inl is ↦ deleted-Change is (rw (a, b, is) at k)
          | inr d ↦ elim (Bool-cases (is_type e "invoice.payment_succeeded")) [
            | inl is ↦ succeeded-Change (rw (a, b, d, is) at k)
            | inr f ↦ elim (Bool-cases (is_type e "invoice.payment_failed")) [
              | inl is ↦ failed-Change (rw (a, b, d, f, is) at k)
              | inr g ↦ log-Change (rw (a, b, d, f, g) at k)
            ]
          ]
        ]
      ]
    ]

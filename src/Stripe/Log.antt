-- ===== src/Stripe/Log.antt =====
-- Deliveries to src/claudestruct/server/routers/billing.py and the audit log.
use claude_struct.Prelude.{
  ℕ, ◌≡◌, sym, ap, ◌⊎◌, true, inl, inr, Bool-cases, String, Option, none, some, List, ◌==◌, ==_iff,
  ◌&&◌, arith,
}
use claude_struct.Calendar.{DateTime}
use claude_struct.Models.{Org, Subscription}
use claude_struct.Billing.{get_or_default}
use claude_struct.Audit.{Codec, AuditEntry, Event, record_event, verify_chain}
use claude_struct.Audit.Append.{JsonRoundTrip, record_event-verifies, record_event_other}
use claude_struct.Auth.{Lookup, missing, one, several}
use claude_struct.Stripe.{
  get_or, or_text, is_set, Metadata, StripeEvent, Stripe, Hook, Handled, done, org_by_slug, Updated,
  updated, failed, only_for, is_type,
}
use claude_struct.Stripe.Handlers.{
  record_stripe, finish, check_out_org, check_out_with, handle_checkout_completed,
  handle_subscription_updated, renew_period, handle_subscription_deleted,
  handle_invoice_payment_succeeded, handle_invoice_payment_failed, log_unhandled,
  handle_stripe_event, stripe_webhook,
}
use claude_struct.Stripe.Changes.{done_inj, only_for_cases, row_handler_cases}
use claude_struct.Stripe.Tiers.{stripe_webhook_cases}

module _ {Payload : Type 0} (c : Codec Payload) (stripe : Stripe Payload) (now : DateTime) where
  -- The log is as it was, or has one event more.
  abbrev Appended : List AuditEntry → List AuditEntry → Type 0
  Appended a a' = (a' ≡ a) ⊎ ((v : Event Payload) × (a' ≡ (record_event c a v now).1))

  module _ (e : StripeEvent) (h h' : Hook) where
    abbrev Logs : Type 0
    Logs = Appended h.server.audit h'.server.audit

    no_log : h' ≡ h → Logs
    no_log same = inl (rw same)

    record-Logs :
        (org : ℕ) (action resource_type resource_id : String)
        (payload : List (String × Option String))
        → done (record_stripe c stripe now org action resource_type resource_id payload h) ≡ done h'
        → Logs
    unfolding record_stripe
    record-Logs org action resource_type resource_id payload k =
        inr (_, sym (ap (λ h. h.server.audit) (done_inj k)))

    finish-Logs :
        (action resource_id : String) (payload : Subscription → List (String × Option String))
        (db : _) (u : Updated)
        → finish c stripe now action resource_id payload
            (record h { server = record (h.server) { db = db } })
            u
          ≡ done h'
        → Logs
    unfolding finish record_stripe
    finish-Logs action resource_id payload db (failed x) k = cc
    finish-Logs action resource_id payload db (updated new n) k =
        inr (_, sym (ap (λ h. h.server.audit) (done_inj k)))

    row-Logs :
        (kind : String) (f : Subscription → Handled)
        → ((s : Subscription) → f s ≡ done h' → Logs)
        → only_for kind e h
            (claude_struct.Stripe.with_subscription h (claude_struct.Stripe.customers_row e h) f)
          ≡ done h'
        → Logs
    row-Logs kind f work k = elim (row_handler_cases kind e h h' f k) [
      | inl same ↦ no_log same
      | inr (s, found, k') ↦ work s k'
    ]

    updated-Logs : handle_subscription_updated c stripe now e h ≡ done h' → Logs
    unfolding handle_subscription_updated
    updated-Logs = row-Logs _ _ (λ s k. finish-Logs _ _ _ h.server.db _ k)

    deleted-Logs : handle_subscription_deleted c stripe now e h ≡ done h' → Logs
    unfolding handle_subscription_deleted
    deleted-Logs = row-Logs _ _ (λ s k. finish-Logs _ _ _ h.server.db _ k)

    failed-Logs : handle_invoice_payment_failed c stripe now e h ≡ done h' → Logs
    unfolding handle_invoice_payment_failed
    failed-Logs = row-Logs _ _ (λ s k. finish-Logs _ _ _ h.server.db _ k)

    succeeded-Logs : handle_invoice_payment_succeeded c stripe now e h ≡ done h' → Logs
    unfolding handle_invoice_payment_succeeded
    succeeded-Logs = row-Logs _ (renew_period c stripe now e h) (λ s k.
        elim (Bool-cases (is_set e.subscription)) [
          | inl is ↦ finish-Logs _ _ _ h.server.db _ (rw is at k)
          | inr not_set ↦ no_log (sym (done_inj (rw not_set at k)))
        ])

    checkout_org-Logs :
        (tier : String) (l : Lookup Org) → check_out_org c stripe now e tier h l ≡ done h' → Logs
    checkout_org-Logs tier missing k = no_log (sym (done_inj k))
    checkout_org-Logs tier several k = cc
    checkout_org-Logs tier (one org) k = finish-Logs _ _ _ (get_or_default h.server.db org.id).1 _ k

    checkout_meta-Logs : (o : Option Metadata) → check_out_with c stripe now e h o ≡ done h' → Logs
    checkout_meta-Logs none k = cc
    checkout_meta-Logs (some m) k = elim (Bool-cases (is_set m.org_slug && is_set m.tier)) [
      | inl named ↦
          checkout_org-Logs _ (org_by_slug (or_text "" m.org_slug) h.server.db) (rw named at k)
      | inr unnamed ↦ record-Logs _ _ _ _ _ (rw unnamed at k)
    ]

    checkout-Logs : handle_checkout_completed c stripe now e h ≡ done h' → Logs
    unfolding handle_checkout_completed
    checkout-Logs k = elim (only_for_cases "checkout.session" e h h' _ k) [
      | inl same ↦ no_log same
      | inr k' ↦ checkout_meta-Logs (get_or (record { org_slug = none; tier = none }) e.metadata) k'
    ]

    unhandled-Logs : log_unhandled c stripe now e h ≡ done h' → Logs
    unfolding log_unhandled
    unhandled-Logs k = record-Logs _ _ _ _ _ k

    handle_stripe_event-Logs : handle_stripe_event c stripe now e h ≡ done h' → Logs
    unfolding handle_stripe_event
    handle_stripe_event-Logs k = elim (Bool-cases (is_type e "checkout.session.completed")) [
      | inl is ↦ checkout-Logs (rw is at k)
      | inr a ↦ elim (Bool-cases (is_type e "customer.subscription.updated")) [
        | inl is ↦ updated-Logs (rw (a, is) at k)
        | inr b ↦ elim (Bool-cases (is_type e "customer.subscription.deleted")) [
          | inl is ↦ deleted-Logs (rw (a, b, is) at k)
          | inr d ↦ elim (Bool-cases (is_type e "invoice.payment_succeeded")) [
            | inl is ↦ succeeded-Logs (rw (a, b, d, is) at k)
            | inr f ↦ elim (Bool-cases (is_type e "invoice.payment_failed")) [
              | inl is ↦ failed-Logs (rw (a, b, d, f, is) at k)
              | inr g ↦ unhandled-Logs (rw (a, b, d, f, g) at k)
            ]
          ]
        ]
      ]
    ]

  Appended-verifies :
      (a a' : List AuditEntry) (org : ℕ)
      → JsonRoundTrip c
      → Appended a a'
      → (verify_chain c a org).ok ≡ true
      → (verify_chain c a' org).ok ≡ true
  Appended-verifies a a' org law (inl same) ok = rw same ok
  Appended-verifies a a' org law (inr (v, same)) ok = elim (Bool-cases (v.org_id == org)) [
    | inl is ↦
        (let own : v.org_id ≡ org = (==_iff v.org_id org).0 is in
          rw (same, ← own) (record_event-verifies c a v now law (rw (← own) at ok)).0)
    | inr other ↦ rw (same, record_event_other c a v now org (ground arith)) ok
  ]

  -- Where JSON that was written reads back, every org's log that verifies still verifies after a
  -- delivery, whatever it holds.
  pub stripe_webhook-verifies :
      (signature : Option String) (raw : List ℕ) (h : Hook) (org : ℕ)
      → JsonRoundTrip c
      → (verify_chain c h.server.audit org).ok ≡ true
      → (verify_chain c (stripe_webhook c stripe now signature raw h).1.server.audit org).ok ≡ true
  stripe_webhook-verifies signature raw h org law ok =
      elim (stripe_webhook_cases c stripe now h signature raw) [
        | inl same ↦ rw same ok
        | inr (e, verified, handled) ↦
            Appended-verifies h.server.audit _ org law (handle_stripe_event-Logs e h _ handled) ok
      ]

-- ===== src/Stripe/Handlers.antt =====
-- The handlers of Stripe's events, and `stripe_webhook`, of
-- src/claudestruct/server/routers/billing.py.
use claude_struct.Prelude.{
  ℕ, ◌&&◌, String, text_append, Option, none, some, List, [], ◌∷◌, if◌then◌else◌,
}
use claude_struct.Calendar.{DateTime}
use claude_struct.Models.{Org, Subscription, Db}
use claude_struct.Billing.{tier_value, free, get_or_default}
use claude_struct.Audit.{Codec, record_event}
use claude_struct.Auth.{Lookup, missing, one, several}
use claude_struct.WebhookMetrics.{Counter}
use claude_struct.Stripe.{
  Crash, Handled, Hook, Metadata, Stripe, StripeEvent, Updated, attribute_error, crashed,
  customers_row, done, failed, get_or, is_set, is_type, multiple_results, only_for, or_text,
  org_by_slug, paid, save_subscription, updated, with_retrieved, with_subscription,
}

module _ {Payload : Type 0} (c : Codec Payload) (stripe : Stripe Payload) (now : DateTime) where
  -- `_update_subscription_period`.
  unfoldable pub update_subscription_period : Subscription → String → Counter → Updated
  update_subscription_period sub subscription_id n =
      with_retrieved sub n (stripe.retrieve subscription_id)

  -- `audit_mod.record` with no actor.
  unfoldable pub record_stripe :
      ℕ → String → String → String → List (String × Option String) → Hook → Hook
  record_stripe org action resource_type resource_id payload h = record h {
    server = record (h.server) {
      audit =
          (record_event c h.server.audit
            (record {
              org_id = org;
              actor_user_id = none;
              action = action;
              resource_type = resource_type;
              resource_id = resource_id;
              payload = stripe.dict payload;
            })
            now).1;
    };
  }

  abbrev pub saved : Subscription → Counter → Hook → Hook
  saved sub n h = record {
    server = record (h.server) { db = save_subscription sub h.server.db };
    webhook_errors = n;
  }

  -- The row is written back and the event logged under its org.
  unfoldable pub finish :
      String → String → (Subscription → List (String × Option String)) → Hook → Updated → Handled
  unfolding record_stripe
  finish action resource_id payload h (failed e) = crashed e
  finish action resource_id payload h (updated sub n) =
      done
        (record_stripe sub.org_id action "subscription" resource_id (payload sub) (saved sub n h))

  abbrev pub check_out : StripeEvent → String → Subscription × Db → Hook → Handled
  check_out e tier (sub, db) h =
      finish "stripe.checkout.session.completed" (or_text "" e.subscription)
        (λ _. ("tier", some tier) ∷ []) (record h { server = record (h.server) { db = db } })
        (if is_set e.subscription
          then update_subscription_period (paid e tier sub) (or_text "" e.subscription)
              h.webhook_errors
          else updated (paid e tier sub) h.webhook_errors)

  abbrev pub check_out_org : StripeEvent → String → Hook → Lookup Org → Handled
  check_out_org e tier h missing = done h
  check_out_org e tier h several = crashed multiple_results
  check_out_org e tier h (one org) = check_out e tier (get_or_default h.server.db org.id) h

  abbrev pub check_out_named : StripeEvent → Metadata → Hook → Handled
  check_out_named e m h =
      if is_set m.org_slug && is_set m.tier
      then check_out_org e (or_text "" m.tier) h (org_by_slug (or_text "" m.org_slug) h.server.db)
      else done (
          record_stripe 0 "stripe.checkout.session.completed.invalid_metadata" "stripe_event"
            (or_text "" e.id) (("org_slug", m.org_slug) ∷ ("tier", m.tier) ∷ []) h)

  abbrev pub check_out_with : StripeEvent → Hook → Option Metadata → Handled
  check_out_with e h none = crashed attribute_error
  check_out_with e h (some m) = check_out_named e m h

  -- `_handle_checkout_completed`.
  unfoldable pub handle_checkout_completed : StripeEvent → Hook → Handled
  handle_checkout_completed e h =
      only_for "checkout.session" e h
        (check_out_with e h (get_or (record { org_slug = none; tier = none }) e.metadata))

  -- `_handle_subscription_updated`.
  unfoldable pub handle_subscription_updated : StripeEvent → Hook → Handled
  handle_subscription_updated e h = only_for "customer.subscription" e h (
      with_subscription h (customers_row e h) (λ sub.
        finish "stripe.customer.subscription.updated" (or_text "" e.id)
          (λ _. ("status", e.status) ∷ []) h
          (update_subscription_period (record sub { status = e.status }) (or_text "" e.id)
            h.webhook_errors)))

  -- `_handle_subscription_deleted`.
  unfoldable pub handle_subscription_deleted : StripeEvent → Hook → Handled
  handle_subscription_deleted e h = only_for "customer.subscription" e h (
      with_subscription h (customers_row e h) (λ sub.
        finish "stripe.customer.subscription.deleted" (or_text "" e.id)
          (λ _. ("tier", some "free") ∷ []) h
          (updated (record sub { tier = tier_value free; status = some "canceled" })
            h.webhook_errors)))

  abbrev pub period_end_text : Subscription → List (String × Option String)
  period_end_text sub =
      (
        "period_end",
        elim sub.current_period_end [ none ↦ none | some d ↦ some (stripe.str_time d) ],
      )
      ∷ []

  -- `if sub is None or not subscription_id`, after the test of `sub`.
  abbrev pub renew_period : StripeEvent → Hook → Subscription → Handled
  renew_period e h sub =
      if is_set e.subscription
      then finish "stripe.invoice.payment_succeeded" (or_text "" e.subscription) period_end_text h
          (update_subscription_period sub (or_text "" e.subscription) h.webhook_errors)
      else done h

  -- `_handle_invoice_payment_succeeded`.
  unfoldable pub handle_invoice_payment_succeeded : StripeEvent → Hook → Handled
  handle_invoice_payment_succeeded e h =
      only_for "invoice" e h (with_subscription h (customers_row e h) (renew_period e h))

  -- `_handle_invoice_payment_failed`.
  unfoldable pub handle_invoice_payment_failed : StripeEvent → Hook → Handled
  handle_invoice_payment_failed e h = only_for "invoice" e h (
      with_subscription h (customers_row e h) (λ sub.
        finish "stripe.invoice.payment_failed" (or_text "" e.id) (λ _. []) h
          (updated (record sub { status = some "past_due" }) h.webhook_errors)))

  -- An event that no handler takes is logged, under org 0.
  unfoldable pub log_unhandled : StripeEvent → Hook → Handled
  log_unhandled e h = done (
      record_stripe 0 (text_append "stripe." (or_text "unknown" e.type)) "stripe_event"
        (or_text "" e.id) (("type", e.type) ∷ []) h)

  -- `_handle_stripe_event`.
  unfoldable pub handle_stripe_event : StripeEvent → Hook → Handled
  handle_stripe_event e h =
      if is_type e "checkout.session.completed"
      then handle_checkout_completed e h
      else if is_type e "customer.subscription.updated"
      then handle_subscription_updated e h
      else if is_type e "customer.subscription.deleted"
      then handle_subscription_deleted e h
      else if is_type e "invoice.payment_succeeded"
      then handle_invoice_payment_succeeded e h
      else if is_type e "invoice.payment_failed"
      then handle_invoice_payment_failed e h
      else log_unhandled e h

-- 204, 503, 400, and 500 after a crash.
pub data WebhookReply : Type 0 where
  no_content service_unavailable bad_request : WebhookReply
  server_error : Crash → WebhookReply

module _ {Payload : Type 0} (c : Codec Payload) (stripe : Stripe Payload) (now : DateTime) where
  abbrev pub answer : Hook → Handled → WebhookReply × Hook
  answer h (done h') = (no_content, h')
  answer h (crashed e) = (server_error e, h)

  abbrev pub receive : Hook → Option StripeEvent → WebhookReply × Hook
  receive h none = (bad_request, h)
  receive h (some e) = answer h (handle_stripe_event c stripe now e h)

  abbrev pub receive_signed : Hook → List ℕ → String → Option String → WebhookReply × Hook
  receive_signed h raw secret none = (bad_request, h)
  receive_signed h raw secret (some signature) =
      receive h (stripe.construct_event raw signature secret)

  -- `stripe_webhook`.
  unfoldable pub stripe_webhook : Option String → List ℕ → Hook → WebhookReply × Hook
  stripe_webhook signature raw h =
      if stripe.available && is_set stripe.webhook_secret
      then receive_signed h raw (or_text "" stripe.webhook_secret) signature
      else (service_unavailable, h)

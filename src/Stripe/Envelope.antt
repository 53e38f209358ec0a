-- ===== src/Stripe/Envelope.antt =====
-- Events whose `object` is not the kind of thing that their handler is for.
use claude_struct.Prelude.{◌≡◌, Bool, true, ◌||◌, String, some, List, ℕ, arith}
use claude_struct.Calendar.{DateTime}
use claude_struct.Audit.{Codec}
use claude_struct.Stripe.{is_set, StripeEvent, Stripe, Hook, done, is_type}
use claude_struct.Stripe.Handlers.{
  handle_checkout_completed, handle_subscription_updated, handle_subscription_deleted,
  handle_invoice_payment_succeeded, handle_invoice_payment_failed, handle_stripe_event, no_content,
  stripe_webhook,
}

-- The types of event that have a handler.
abbrev pub has_handler : StripeEvent → Bool
has_handler e =
    is_type e "checkout.session.completed"
    || (is_type e "customer.subscription.updated"
        || (is_type e "customer.subscription.deleted"
            || (is_type e "invoice.payment_succeeded" || is_type e "invoice.payment_failed")))

module _ {Payload : Type 0} (c : Codec Payload) (stripe : Stripe Payload) (now : DateTime) where
  envelope-ignored :
      (e : StripeEvent) (h : Hook)
      → has_handler e ≡ true
      → e.object ≡ some "event"
      → handle_stripe_event c stripe now e h ≡ done h
  unfolding handle_stripe_event handle_checkout_completed handle_subscription_updated
      handle_subscription_deleted handle_invoice_payment_succeeded handle_invoice_payment_failed
  envelope-ignored e h k o = rw o (ground (arith, k))

  -- A delivery in Stripe's envelope, whose `object` is "event", of any type that has a handler, is
  -- answered with 204 and changes nothing: no subscription, no log and no counter.
  pub envelope_changes_nothing :
      (signature secret : String) (raw : List ℕ) (e : StripeEvent) (h : Hook)
      → stripe.available ≡ true
      → stripe.webhook_secret ≡ some secret
      → is_set (some secret) ≡ true
      → stripe.construct_event raw signature secret ≡ some e
      → has_handler e ≡ true
      → e.object ≡ some "event"
      → stripe_webhook c stripe now (some signature) raw h ≡ (no_content, h)
  unfolding stripe_webhook
  envelope_changes_nothing signature secret raw e h on is set accepted k o =
      ground (arith, envelope-ignored e h k o)

-- ===== src/Tests/Payments.antt =====
-- Deliveries of Stripe and calls of the billing endpoints.
use claude_struct.Prelude.{ℕ, ◌≡◌, ◌≢◌, ◌⊎◌, ◌↔◌, refl, true, String, some, none, [], ◌∷◌, str_eq}
unfoldable use claude_struct.Prelude.{sort_up}
use claude_struct.Models.{Subscription}
use claude_struct.Billing.{tier_token_cap, get_or_default}
use claude_struct.Audit.{verify_chain, chain_of, rows_of}
use claude_struct.Auth.{one}
use claude_struct.Stripe.{
  absent, value, StripeEvent, Stripe, retrieved, unset, date, Hook, done, by_customer,
  customers_row,
}
use claude_struct.Stripe.Handlers.{handle_stripe_event, no_content, stripe_webhook}
use claude_struct.Stripe.Customers.{HasOneRow}
use claude_struct.Stripe.Tiers.{
  row_in, IsVerified, IsPurchase, IsDeletion, stripe_webhook-TierMoves,
}
use claude_struct.Stripe.Deletion.{canceled_row, deletion_delivered}
use claude_struct.Stripe.Envelope.{envelope_changes_nothing}
use claude_struct.Invoices.{
  Invoice, InvoiceLookup, found, invalid_request, InvoicePdfResponse, ok, get_invoice_pdf,
}
use claude_struct.Invoices.Tenancy.{OwnsPdf, get_invoice_pdf-OwnsPdf}
use claude_struct.Tests.Data.{march, a_codec, a_db, a_server, a_principal, team_plan}

-- The team plan of org 2, bought by a customer.
abbrev bought : Subscription
bought = record team_plan {
  stripe_customer_id = some "cus_1";
  stripe_subscription_id = some "sub_1";
  status = some "active";
}

abbrev a_hook : Hook
a_hook = record {
  server = record a_server { db = record a_db { subscriptions = bought ∷ [] } };
  webhook_errors = [];
}

abbrev a_deletion : StripeEvent
a_deletion = record {
  type = some "customer.subscription.deleted";
  object = some "customer.subscription";
  id = some "sub_1";
  customer = value "cus_1";
  subscription = none;
  status = some "canceled";
  metadata = absent;
}

-- The same event in the envelope of Stripe's API.
abbrev an_envelope : StripeEvent
an_envelope = record a_deletion { object = some "event"; id = some "evt_1"; customer = absent }

abbrev a_stripe : Stripe String
a_stripe = record {
  available = true;
  webhook_secret = some "whsec";
  construct_event =
      λ raw signature secret. elim raw [ [] ↦ some an_envelope | _ ↦ some a_deletion ];
  retrieve = λ id. retrieved unset (date (march 31 0));
  dict = λ d. "{}";
  str_time = λ t. "2026-03-31";
}

stripe_webhook-TierMoves_example :
    HasOneRow
      (stripe_webhook a_codec a_stripe
        (march 9 9)
        (some "t=1")
        (1 ∷ [])
        a_hook).1.server.db.subscriptions
    × ((org : ℕ)
        → ((row_in
              (stripe_webhook a_codec a_stripe (march 9 9) (some "t=1") (1 ∷ []) a_hook).1.server.db
              org).tier
            ≡ (row_in a_hook.server.db org).tier)
          ⊎ ((e : StripeEvent) × IsVerified a_codec a_stripe (march 9 9) (some "t=1") (1 ∷ []) e
              × (IsPurchase e a_hook.server.db
                    (stripe_webhook a_codec a_stripe
                      (march 9 9)
                      (some "t=1")
                      (1 ∷ [])
                      a_hook).1.server.db
                    org
                  ⊎ IsDeletion e a_hook.server.db
                      (stripe_webhook a_codec a_stripe
                        (march 9 9)
                        (some "t=1")
                        (1 ∷ [])
                        a_hook).1.server.db
                      org)))
stripe_webhook-TierMoves_example =
    stripe_webhook-TierMoves a_codec a_stripe (march 9 9) (some "t=1") (1 ∷ []) a_hook (tt, tt)

empty_verifies : (verify_chain a_codec [] 2).ok ≡ true
unfolding verify_chain chain_of rows_of sort_up
empty_verifies = refl

customer_is_known : customers_row a_deletion a_hook ≡ one bought
unfolding by_customer
customer_is_known = refl

deletion_delivered_example :
    (h' : Hook) × (handle_stripe_event a_codec a_stripe (march 9 9) a_deletion a_hook ≡ done h')
    × (row_in h'.server.db 2 ≡ canceled_row bought)
    × (tier_token_cap (some (row_in h'.server.db 2).tier) ≡ some 100000)
    × ((org : ℕ) → org ≢ 2 → row_in h'.server.db org ≡ row_in a_hook.server.db org)
    × ((h'' : Hook) × (handle_stripe_event a_codec a_stripe (march 9 9) a_deletion h' ≡ done h'')
        × (h''.server.db ≡ h'.server.db))
deletion_delivered_example =
    deletion_delivered a_codec a_stripe (march 9 9) a_deletion a_hook bought (tt, tt) refl refl
      customer_is_known

envelope_changes_nothing_example :
    stripe_webhook a_codec a_stripe (march 9 9) (some "t=1") [] a_hook ≡ (no_content, a_hook)
envelope_changes_nothing_example =
    envelope_changes_nothing a_codec a_stripe (march 9 9) "t=1" "whsec" [] an_envelope a_hook refl
      refl refl refl refl refl

abbrev an_invoice : Invoice
an_invoice = record {
  customer = some "cus_1";
  invoice_pdf = some "https://pdf";
  hosted_invoice_url = none;
}

abbrev invoices : String → InvoiceLookup
invoices id = elim (str_eq id "in_1") [ true ↦ found an_invoice | _ ↦ invalid_request ]

get_invoice_pdf-OwnsPdf_example :
    ((r : InvoicePdfResponse)
      → (get_invoice_pdf true invoices a_hook.server.db a_principal "in_1" ≡ ok r)
        ↔ OwnsPdf invoices (get_or_default a_hook.server.db 2).0 "in_1" r)
    × ((i : Invoice)
        → invoices "in_1" ≡ found i
        → i.customer ≢ (get_or_default a_hook.server.db 2).0.stripe_customer_id
        → get_invoice_pdf true invoices a_hook.server.db a_principal "in_1"
          ≡ get_invoice_pdf true (λ _. invalid_request) a_hook.server.db a_principal "in_1")
get_invoice_pdf-OwnsPdf_example =
    get_invoice_pdf-OwnsPdf invoices a_hook.server.db a_principal "in_1"

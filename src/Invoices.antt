-- ===== src/Invoices.antt =====
-- src/claudestruct/server/routers/billing.py, the endpoints that a member of an org calls: the
-- subscription, the checkout and the PDF of an invoice; and `stub_checkout_url` of
-- src/claudestruct/server/billing.py. The caller is a principal that `require_role` let through.
pub mod Tenancy
use claude_struct.Prelude.{
  ℕ, Bool, String, text_append, Option, none, some, List, [], ◌∷◌, if◌then◌else◌, str_eq,
}
use claude_struct.Calendar.{DateTime}
use claude_struct.Models.{Subscription, Db}
use claude_struct.Billing.{
  Tier, tier_value, parse_tier, SandboxLimits, sandbox_limits_for_tier, get_or_default,
}
use claude_struct.Audit.{Codec, Event, record_event}
use claude_struct.Submission.{Server}
use claude_struct.Auth.{Principal}
use claude_struct.Stripe.{is_set, same_text}

-- The errors that the endpoints answer with: 404, 409, 502, 503, and 500 after a `ValueError` or an
-- `AttributeError`.
pub data ApiError : Type 0 where
  not_found conflict bad_gateway service_unavailable : ApiError
  value_error attribute_error : ApiError

pub data ApiReply (A : Type 0) : Type 0 where
  ok : A → ApiReply A
  err : ApiError → ApiReply A

pub record SubscriptionResponse : Type 0 where
  pub org_slug : String
  pub tier : String
  pub status : Option String
  pub stripe_customer_id : Option String
  pub current_period_end : Option DateTime
  pub limits : SandboxLimits

abbrev subscription_response :
    Principal → Subscription → Option Tier → ApiReply SubscriptionResponse
subscription_response p sub none = err value_error
subscription_response p sub (some t) = ok (record {
  org_slug = p.org_slug;
  tier = tier_value t;
  status = sub.status;
  stripe_customer_id = sub.stripe_customer_id;
  current_period_end = sub.current_period_end;
  limits = sandbox_limits_for_tier sub.tier;
})

-- `get_subscription`; the placeholder row is committed before the answer is made.
unfoldable pub get_subscription : Server → Principal → ApiReply SubscriptionResponse × Server
unfolding parse_tier tier_value
get_subscription s p =
    let (sub, db) = get_or_default s.db p.org_id in
    (subscription_response p sub (parse_tier sub.tier), record s { db = db })

-- `stub_checkout_url`: the id of the session and its URL.
unfoldable pub stub_checkout_url : String → Tier → String × String
unfolding tier_value
stub_checkout_url org_slug tier =
    let session_id =
      text_append "cs_test_" (text_append org_slug (text_append "_" (tier_value tier))) in
    (session_id, text_append "https://checkout.example.invalid/" session_id)

pub record CheckoutResponse : Type 0 where
  pub checkout_session_id : String
  pub url : String

module _ {Payload : Type 0} (c : Codec Payload) (dict : List (String × Option String) → Payload)
    (stripe_available : Bool) (now : DateTime) where
  -- `create_checkout`. With the Stripe library there, it calls a function that `billing` does not
  -- have.
  unfoldable pub create_checkout : Server → Principal → Tier → ApiReply CheckoutResponse × Server
  create_checkout s p tier =
      let (session_id, url) = stub_checkout_url p.org_slug tier in
      if stripe_available then (err attribute_error, s) else (
        ok (record { checkout_session_id = session_id; url = url }),
        record s {
          audit =
              (record_event c s.audit
                (record {
                  org_id = p.org_id;
                  actor_user_id = some p.user_id;
                  action = "billing.checkout.create";
                  resource_type = "checkout_session";
                  resource_id = session_id;
                  payload = dict (("tier", some (tier_value tier)) ∷ []);
                })
                now).1;
        },
      )

-- The fields of an invoice that the endpoint reads.
pub record Invoice : Type 0 where
  pub customer : Option String
  pub invoice_pdf : Option String
  pub hosted_invoice_url : Option String

-- `stripe.Invoice.retrieve`: an `InvalidRequestError`, another `StripeError`, or an invoice.
pub data InvoiceLookup : Type 0 where
  invalid_request stripe_error : InvoiceLookup
  found : Invoice → InvoiceLookup

pub record InvoicePdfResponse : Type 0 where
  pub invoice_id : String
  pub invoice_pdf_url : String
  pub hosted_invoice_url : Option String

abbrev pdf_response : String → Invoice → Option String → ApiReply InvoicePdfResponse
pdf_response id i none = err conflict
pdf_response id i (some url) =
    if str_eq url ""
    then err conflict
    else ok (record {
      invoice_id = id;
      invoice_pdf_url = url;
      hosted_invoice_url = i.hosted_invoice_url;
    })

-- The tenant check, and what follows it.
abbrev own_invoice : String → Subscription → InvoiceLookup → ApiReply InvoicePdfResponse
own_invoice id sub invalid_request = err not_found
own_invoice id sub stripe_error = err bad_gateway
own_invoice id sub (found i) =
    if same_text i.customer sub.stripe_customer_id
    then pdf_response id i i.invoice_pdf
    else err not_found

-- `get_invoice_pdf`; the session is not committed, so nothing is written.
unfoldable pub get_invoice_pdf :
    Bool → (String → InvoiceLookup) → Db → Principal → String → ApiReply InvoicePdfResponse
get_invoice_pdf stripe_available retrieve db p id =
    let sub = (get_or_default db p.org_id).0 in
    if stripe_available
    then (if is_set sub.stripe_customer_id then own_invoice id sub (retrieve id) else err not_found)
    else err service_unavailable

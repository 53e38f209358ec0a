-- ===== src/Stripe.antt =====
-- src/claudestruct/server/routers/billing.py: the receiver of Stripe's webhooks. A delivery is handled
-- in one session, which a crash rolls back; the counter of webhook errors is the process's own.
pub mod Handlers
pub mod Customers
pub mod Changes
pub mod Tiers
pub mod Log
pub mod Deletion
pub mod Envelope
use claude_struct.Prelude.{
  ℕ, Bool, true, false, not, ◌&&◌, ◌||◌, String, text_append, Option, none, some, List, [], ◌∷◌,
  ◌==◌, str_eq, if◌then◌else◌, keep,
}
use claude_struct.Calendar.{DateTime}
use claude_struct.Models.{Org, Subscription, Db}
use claude_struct.Billing.{tier_value, free, get_or_default}
use claude_struct.Audit.{Codec, Event, record_event}
use claude_struct.Submission.{Server}
use claude_struct.Auth.{Lookup, missing, one, several, one_or_none}
use claude_struct.WebhookMetrics.{Counter, bump}

-- A value of a dictionary: absent, `None`, or there.
pub data Field (A : Type 0) : Type 0 where
  absent : Field A
  null : Field A
  value : A → Field A

-- `d.get(key, default)`; `none` is `None`.
abbrev pub get_or : {A : Type 0} → A → Field A → Option A
get_or d absent = some d
get_or d null = none
get_or d (value a) = some a

-- `d.get(key)`.
abbrev pub get_field : {A : Type 0} → Field A → Option A
get_field absent = none
get_field null = none
get_field (value a) = some a

-- `x or default` for an optional text that may not be `None`.
abbrev pub or_text : String → Option String → String
or_text d none = d
or_text d (some s) = s

abbrev pub is_set : Option String → Bool
is_set none = false
is_set (some s) = not (str_eq s "")

pub record Metadata : Type 0 where
  pub org_slug : Option String
  pub tier : Option String

-- The fields of an event that the handlers read. `type`, `object` and `id` are texts where they
-- are there; `subscription` and `status` are read without a default, so absent is `None`.
pub record StripeEvent : Type 0 where
  pub type : Option String
  pub object : Option String
  pub id : Option String
  pub customer : Field String
  pub subscription : Option String
  pub status : Option String
  pub metadata : Field Metadata

-- A bound of a period as the Stripe library returns it.
pub data StripeTime : Type 0 where
  unset : StripeTime
  timestamp : ℕ → StripeTime
  date : DateTime → StripeTime

-- `stripe.Subscription.retrieve`: any exception, or a subscription.
pub data Retrieved : Type 0 where
  stripe_error : Retrieved
  retrieved : StripeTime → StripeTime → Retrieved

-- The Stripe library and the configuration. `construct_event` takes the body, the signature and the
-- secret; `none` is a bad signature or a body that is no JSON. `dict` is a dictionary of texts as an
-- audit payload, and `str_time` is `str` of a date-time.
pub record Stripe (Payload : Type 0) : Type 0 where
  pub available : Bool
  pub webhook_secret : Option String
  pub construct_event : List ℕ → String → String → Option StripeEvent
  pub retrieve : String → Retrieved
  pub dict : List (String × Option String) → Payload
  pub str_time : DateTime → String

-- The exceptions that a handler lets through: `MultipleResultsFound`, and an `AttributeError`.
pub data Crash : Type 0 where
  multiple_results attribute_error : Crash

pub record Hook : Type 0 where
  pub server : Server
  pub webhook_errors : Counter

pub data Handled : Type 0 where
  done : Hook → Handled
  crashed : Crash → Handled

-- `select(Org).where(Org.slug == slug)`, and the subscriptions of a Stripe customer; comparing with
-- `None` asks for NULL.
unfoldable pub org_by_slug : String → Db → Lookup Org
org_by_slug slug db = one_or_none (keep (λ o. str_eq o.slug slug) db.orgs)

abbrev pub same_text : Option String → Option String → Bool
same_text none none = true
same_text (some a) (some b) = str_eq a b
same_text _ _ = false

unfoldable pub by_customer : Option String → Db → Lookup Subscription
by_customer customer db =
    one_or_none (keep (λ s. same_text s.stripe_customer_id customer) db.subscriptions)

-- Writing back a row of the subscriptions; an org has one at most.
unfoldable pub put_subscription : Subscription → List Subscription → List Subscription
put_subscription s [] = []
put_subscription s (x ∷ xs) = (if x.org_id == s.org_id then s else x) ∷ put_subscription s xs

abbrev pub save_subscription : Subscription → Db → Db
save_subscription s db = record db { subscriptions = put_subscription s db.subscriptions }

-- `datetime.fromisoformat(t.isoformat()) if t else None`; an integer has no `isoformat`.
abbrev pub period_bound : StripeTime → Option (Option DateTime)
period_bound unset = some none
period_bound (timestamp n) = if n == 0 then some none else none
period_bound (date d) = some (some d)

pub data Updated : Type 0 where
  updated : Subscription → Counter → Updated
  failed : Crash → Updated

abbrev pub with_bounds :
    Subscription → Counter → Option (Option DateTime) → Option (Option DateTime) → Updated
with_bounds sub n (some start) (some end) =
    updated (record sub { current_period_start = start; current_period_end = end }) n
with_bounds sub n _ _ = failed attribute_error

abbrev pub with_retrieved : Subscription → Counter → Retrieved → Updated
with_retrieved sub n stripe_error =
    updated sub
      (bump (record { path = "stripe.subscription_retrieve"; reason = "stripe_error" }) 1 n)
with_retrieved sub n (retrieved start end) =
    with_bounds sub n (period_bound start) (period_bound end)

abbrev pub paid : StripeEvent → String → Subscription → Subscription
paid e tier sub = record sub {
  stripe_customer_id = get_field e.customer;
  stripe_subscription_id = e.subscription;
  tier = tier;
  status = some "active";
}

-- `event.get("object", "") != kind` returns at once.
abbrev pub only_for : String → StripeEvent → Hook → Handled → Handled
only_for kind e h rest = if str_eq (or_text "" e.object) kind then rest else done h

abbrev pub with_subscription : Hook → Lookup Subscription → (Subscription → Handled) → Handled
with_subscription h missing f = done h
with_subscription h several f = crashed multiple_results
with_subscription h (one sub) f = f sub

abbrev pub customers_row : StripeEvent → Hook → Lookup Subscription
customers_row e h = by_customer (get_or "" e.customer) h.server.db

abbrev pub is_type : StripeEvent → String → Bool
is_type e t = str_eq (or_text "" e.type) t

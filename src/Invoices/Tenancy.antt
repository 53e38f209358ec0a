-- ===== src/Invoices/Tenancy.antt =====
-- Which invoices a caller can see.
use claude_struct.Prelude.{
  ◌≡◌, ◌≢◌, ◌↔◌, refl, ap, true, inl, inr, Bool-cases, String, Option, none, some, eq_iff, arith,
}
use claude_struct.Models.{Subscription, Db}
use claude_struct.Billing.{get_or_default}
use claude_struct.Auth.{Principal}
use claude_struct.Stripe.{is_set, same_text}
use claude_struct.Invoices.{
  ok, Invoice, InvoiceLookup, invalid_request, found, stripe_error, InvoicePdfResponse,
  pdf_response, own_invoice, get_invoice_pdf,
}

same_text_iff : (a b : Option String) → (same_text a b ≡ true) ↔ (a ≡ b)
same_text_iff none none = (λ h. refl, λ h. refl)
same_text_iff none (some b) = (λ h. cc, λ h. cc)
same_text_iff (some a) none = (λ h. cc, λ h. cc)
same_text_iff (some a) (some b) = (λ h. ap some ((eq_iff a b).0 h), λ h. ground (arith, eq_iff a b))

-- The invoice that an id stands for, if the org owns it and its PDF is there.
pub record OwnsPdf (retrieve : String → InvoiceLookup) (sub : Subscription) (id : String)
    (r : InvoicePdfResponse) : Type 0 where
  pub invoice : Invoice
  pub known : retrieve id ≡ found invoice
  pub set : is_set sub.stripe_customer_id ≡ true
  pub own : invoice.customer ≡ sub.stripe_customer_id
  pub pdf : invoice.invoice_pdf ≡ some r.invoice_pdf_url
  pub made : is_set (some r.invoice_pdf_url) ≡ true
  pub named : r.invoice_id ≡ id
  pub hosted : r.hosted_invoice_url ≡ invoice.hosted_invoice_url

pdf_response-ok :
    (id : String) (i : Invoice) (url : Option String) (r : InvoicePdfResponse)
    → pdf_response id i url ≡ ok r
    → (url ≡ some r.invoice_pdf_url)
      × (is_set (some r.invoice_pdf_url) ≡ true)
      × (r.invoice_id ≡ id)
      × (r.hosted_invoice_url ≡ i.hosted_invoice_url)
pdf_response-ok id i none r h = cc
pdf_response-ok id i (some url) r h = ground arith

own_invoice-ok :
    (id : String) (sub : Subscription) (l : InvoiceLookup) (r : InvoicePdfResponse)
    → own_invoice id sub l ≡ ok r
    → (i : Invoice) × (l ≡ found i)
      × (i.customer ≡ sub.stripe_customer_id)
      × (pdf_response id i i.invoice_pdf ≡ ok r)
own_invoice-ok id sub invalid_request r h = cc
own_invoice-ok id sub stripe_error r h = cc
own_invoice-ok id sub (found i) r h =
    elim (Bool-cases (same_text i.customer sub.stripe_customer_id)) [
      | inl same ↦ (i, refl, (same_text_iff _ _).0 same, rw same at h)
      | inr other ↦ cc (rw other at h)
    ]

module _ (retrieve : String → InvoiceLookup) (db : Db) (p : Principal) (id : String) where
  -- With the Stripe library there, a caller is given a PDF exactly if the id stands for an invoice
  -- of the Stripe customer of the caller's own org, with a PDF, and it is that invoice's; and for an
  -- invoice of any other customer the answer is the one for an id that Stripe does not know.
  pub get_invoice_pdf-OwnsPdf :
      ((r : InvoicePdfResponse)
        → (get_invoice_pdf true retrieve db p id ≡ ok r)
          ↔ OwnsPdf retrieve (get_or_default db p.org_id).0 id r)
      × ((i : Invoice)
          → retrieve id ≡ found i
          → i.customer ≢ (get_or_default db p.org_id).0.stripe_customer_id
          → get_invoice_pdf true retrieve db p id
            ≡ get_invoice_pdf true (λ _. invalid_request) db p id)
  unfolding get_invoice_pdf
  get_invoice_pdf-OwnsPdf =
      let sub = (get_or_default db p.org_id).0 in
      (
        λ r. (
          λ h. elim (Bool-cases (is_set sub.stripe_customer_id)) [
            | inl set ↦
                (let (i, known, own, response) =
                    own_invoice-ok id sub (retrieve id) r (rw set at h) in
                  let (pdf, made, named, hosted) = pdf_response-ok id i i.invoice_pdf r response in
                  record {
                    invoice = i;
                    known = known;
                    set = set;
                    own = own;
                    pdf = pdf;
                    made = made;
                    named = named;
                    hosted = hosted;
                  })
            | inr unset ↦ cc (rw unset at h)
          ],
          λ o.
              rw
                (
                  o.set,
                  o.known,
                  (same_text_iff o.invoice.customer sub.stripe_customer_id).1 o.own,
                  o.pdf,
                )
                (ground arith),
        ),
        λ i known other. ground (arith, same_text_iff i.customer sub.stripe_customer_id),
      )

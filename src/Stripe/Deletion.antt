-- ===== src/Stripe/Deletion.antt =====
-- The deletion of a customer's subscription, delivered once and again.
use claude_struct.Prelude.{ℕ, ◌≡◌, ◌≢◌, refl, ap, ◌∙◌, String, Option, some, List, [], ◌∷◌, arith}
use claude_struct.Calendar.{DateTime}
use claude_struct.Models.{Subscription, Db}
use claude_struct.Billing.{tier_token_cap, tier_value}
use claude_struct.Audit.{Codec}
use claude_struct.Auth.{one, one_or_none}
use claude_struct.Stripe.{
  get_or, StripeEvent, Stripe, Hook, done, by_customer, same_text, put_subscription,
  save_subscription, or_text, customers_row,
}
use claude_struct.Stripe.Handlers.{
  saved, record_stripe, finish, handle_subscription_deleted, handle_stripe_event,
}
use claude_struct.Stripe.Customers.{
  HasOneRow, one_or_none-keep, by_customer_found, keep-put_subscription,
}
use claude_struct.Stripe.Tiers.{row_in, row_in-save, customer_row}

put_subscription_twice :
    (s : Subscription) (xs : List Subscription)
    → put_subscription s (put_subscription s xs) ≡ put_subscription s xs
unfolding put_subscription
put_subscription_twice s [] = refl
put_subscription_twice s (x ∷ xs) = ground (arith, put_subscription_twice s xs)

abbrev pub canceled_row : Subscription → Subscription
canceled_row s = record s { tier = "free"; status = some "canceled" }

-- The customer is found again in the row as it was canceled.
by_customer-canceled :
    (customer : Option String) (db : Db) (s : Subscription)
    → HasOneRow db.subscriptions
    → by_customer customer db ≡ one s
    → by_customer customer (save_subscription (canceled_row s) db) ≡ one (canceled_row s)
by_customer-canceled customer db s u found =
    unfold by_customer in
    ap one_or_none (
      keep-put_subscription (λ r. same_text r.stripe_customer_id customer) s (canceled_row s)
        db.subscriptions u (one_or_none-keep _ s db.subscriptions found) refl
        (by_customer_found customer db s found).1)

module _ {Payload : Type 0} (c : Codec Payload) (stripe : Stripe Payload) (now : DateTime) where
  -- The state after a deletion of the row's customer.
  abbrev pub after_deletion : StripeEvent → Hook → Subscription → Hook
  after_deletion e h s =
      record_stripe c stripe now s.org_id "stripe.customer.subscription.deleted" "subscription"
        (or_text "" e.id) (("tier", some "free") ∷ [])
        (saved c stripe now (canceled_row s) h.webhook_errors h)

  deletes :
      (e : StripeEvent) (h : Hook) (s : Subscription)
      → e.type ≡ some "customer.subscription.deleted"
      → e.object ≡ some "customer.subscription"
      → customers_row e h ≡ one s
      → handle_stripe_event c stripe now e h ≡ done (after_deletion e h s)
  unfolding handle_stripe_event handle_subscription_deleted finish tier_value
  deletes e h s t o found = rw (t, o, found) refl

  db-after_deletion :
      (e : StripeEvent) (h : Hook) (s : Subscription)
      → (after_deletion e h s).server.db ≡ save_subscription (canceled_row s) h.server.db
  unfolding record_stripe
  db-after_deletion e h s = refl

  -- Where no two rows are of one org, a deletion that names the customer of one row ends without a
  -- crash; the row's org is then served under that row with the free tier and the status
  -- "canceled", and so under the free tier's cap of tokens, and every other org under the row it
  -- had; and delivering the event once more leaves the database as it then is.
  pub deletion_delivered :
      (e : StripeEvent) (h : Hook) (s : Subscription)
      → HasOneRow h.server.db.subscriptions
      → e.type ≡ some "customer.subscription.deleted"
      → e.object ≡ some "customer.subscription"
      → customers_row e h ≡ one s
      → (h' : Hook) × (handle_stripe_event c stripe now e h ≡ done h')
        × (row_in h'.server.db s.org_id ≡ canceled_row s)
        × (tier_token_cap (some (row_in h'.server.db s.org_id).tier) ≡ some 100000)
        × ((org : ℕ) → org ≢ s.org_id → row_in h'.server.db org ≡ row_in h.server.db org)
        × ((h'' : Hook) × (handle_stripe_event c stripe now e h' ≡ done h'')
            × (h''.server.db ≡ h'.server.db))
  unfolding tier_token_cap
  deletion_delivered e h s u t o found =
      let h' = after_deletion e h s in
      let at_s = customer_row (get_or "" e.customer) h.server.db s u found in
      let own : row_in h'.server.db s.org_id ≡ canceled_row s =
        rw (db-after_deletion e h s)
          (row_in-save h.server.db s (canceled_row s) s.org_id at_s ∙ ground arith) in
      let again : customers_row e h' ≡ one (canceled_row s) =
        rw (db-after_deletion e h s)
          (by_customer-canceled (get_or "" e.customer) h.server.db s u found) in
      (
        h',
        deletes e h s t o found,
        own,
        rw own refl,
        λ org other.
            rw (db-after_deletion e h s)
              (row_in-save h.server.db s (canceled_row s) org at_s ∙ ground arith),
        (
          after_deletion e h' (canceled_row s),
          deletes e h' (canceled_row s) t o again,
          rw (db-after_deletion e h' (canceled_row s), db-after_deletion e h s)
              (ap (λ ss. record (h.server.db) { subscriptions = ss })
                (put_subscription_twice (canceled_row s) h.server.db.subscriptions)),
        ),
      )

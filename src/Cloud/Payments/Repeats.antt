-- ===== src/Cloud/Payments/Repeats.antt =====
-- apps/cloud-api/src/main.rs: a payment webhook that is delivered again.
use ozon_rust_suite.Common.{
  ◌≡◌, refl, inl, inr, Bool, true, false, Option, none, some, Text, text, ok, err, arith,
  Bool-cases,
}
use ozon_rust_suite.Domain.Task.{Uuid}
use ozon_rust_suite.Domain.Account.{PaymentProvider}
use ozon_rust_suite.Cloud.Libraries.{Libraries}
use ozon_rust_suite.Cloud.Database.{Database, has_payment_event}
use ozon_rust_suite.Cloud.Payments.{
  StripeSession, StripeEvent, WebhookDraws, text_is, record_ignored_event, stripe_session_order_id,
  fulfill_stripe_checkout_session,
}
use ozon_rust_suite.Common.Rows.Laws.{any-append_left}
use ozon_rust_suite.Cloud.Service.{Calls}
use ozon_rust_suite.Cloud.Service.Safe.{IsStable}
use ozon_rust_suite.Cloud.Service.Runs.{Calls_keep}
use ozon_rust_suite.Cloud.Payments.Events.{fulfill-StripeOutcome, insert_payment_event_again}

-- The event is stored.
abbrev pub IsRecorded : PaymentProvider → Text → Database → Type 0
IsRecorded provider id db = has_payment_event db provider id ≡ true

-- No statement removes a payment event.
IsRecorded-IsStable : (provider : PaymentProvider) (id : Text) → IsStable (IsRecorded provider id)
IsRecorded-IsStable provider id = record {
  tenant = λ db tenant p. p;
  user = λ db u free p. p;
  profile = λ db linked old at profile named same alone p. p;
  order = λ db rows p. p;
  device = λ db rows p. p;
  entitlement = λ db rows p. p;
  audited = λ db rows p. p;
  key = λ db row p. p;
  redeemed = λ db key user_id at p. p;
  event = λ db e p. any-append_left _ db.payment_events _ p;
}

module _ (lib : Libraries) (parse_uuid : Text → Option Uuid) where
  -- An event of Stripe that is delivered again after it was accepted, with the same session and
  -- after any further calls of the service, is answered as not processed and changes nothing at all.
  pub fulfill_stripe_again :
      (c c' : WebhookDraws) (event : StripeEvent) (session : StripeSession) (hash hash' : Text)
      (db : Database) (b : Bool) (db' later : Database)
      → fulfill_stripe_checkout_session lib parse_uuid c event session hash db ≡ ok (b, db')
      → Calls lib parse_uuid db' later
      → fulfill_stripe_checkout_session lib parse_uuid c' event session hash' later
        ≡ ok (false, later)
  unfolding fulfill_stripe_checkout_session record_ignored_event
  fulfill_stripe_again c c' event session hash hash' db b db' later h calls =
      let (first, _) = fulfill-StripeOutcome lib parse_uuid c event session hash db b db' h in
      let there =
        Calls_keep lib parse_uuid (IsRecorded-IsStable PaymentProvider.stripe event.id) calls
          first in
      let repeated = λ (id : Option Uuid).
        insert_payment_event_again c'.received_at PaymentProvider.stripe event.id event.kind id
          hash' later refl there in
      elim (Bool-cases (text_is session.payment_status (text "paid"))) [
        | inr unpaid ↦ ground (arith, repeated none)
        | inl paid ↦
            elim (stripe_session_order_id lib parse_uuid session)
                as (λ r.
                  stripe_session_order_id lib parse_uuid session ≡ r
                  → fulfill_stripe_checkout_session lib parse_uuid c' event session hash' later
                    ≡ ok (false, later)) [
                      | err _ ↦ λ failed. absurd (ground arith)
                      | ok id ↦ λ named. ground (arith, repeated (some id))
                    ]
              refl
      ]

-- ===== src/Cloud/Payments/Refusals.antt =====
-- apps/cloud-api/src/main.rs and apps/cloud-api/migrations/0005_payment_providers.sql: requests that
-- a constraint of the tables refuses.
use ozon_rust_suite.Common.{
  ◌≡◌, refl, true, false, ◌&&◌, ◌∷◌, [], Option, Text, text, text_eq, ok, err, arith, leb,
}
use ozon_rust_suite.Common.Unicode.{ascii_upper, to_ascii_uppercase, trim}
use ozon_rust_suite.Domain.Task.{Uuid}
use ozon_rust_suite.Domain.Account.{PaymentProvider, standard_30d}
use ozon_rust_suite.Cloud.Errors.{internal}
use ozon_rust_suite.Cloud.Libraries.{Libraries}
use ozon_rust_suite.Cloud.Database.{
  Database, is_currency, has_order, has_payment_event, insert_order_row, insert_payment_event_row,
}
use ozon_rust_suite.Cloud.Tx.{commit, statement}
use ozon_rust_suite.Cloud.CardKeys.{AuthClaims}
use ozon_rust_suite.Cloud.Orders.{
  ConfiguredPaymentProvider, PaymentConfig, OrderDraws, plan_code_of, plan_prices, plan_definition,
  order_payment_provider, initial_status, create_order,
}
use ozon_rust_suite.Cloud.Payments.{
  StripeSession, StripeEvent, WebhookDraws, text_is, insert_payment_event, stripe_session_order_id,
  fulfill_stripe_checkout_session,
}

-- No capital letter is what the check on the currency of an order allows.
is_currency-to_ascii_uppercase : (s : Text) → is_currency (to_ascii_uppercase s) ≡ false
is_currency-to_ascii_uppercase [] = refl
is_currency-to_ascii_uppercase (c ∷ s) =
    let capital : (leb b'a' (ascii_upper c) && leb (ascii_upper c) b'z') ≡ false = ground arith in
    ground (arith, capital)

-- With WeChat Pay configured, every order for the standard plan is refused with an internal error
-- and leaves the database as it was, whatever currency is configured: the currency is turned into
-- capitals, and the table takes small letters only.
pub create_order_wechat :
    (lib : Libraries) (config : PaymentConfig) (c : OrderDraws) (claims : AuthClaims)
    (code : Option Text) (db : Database)
    → config.payment_provider ≡ ConfiguredPaymentProvider.wechat_pay
    → text_eq (plan_code_of code) standard_30d ≡ true
    → commit (create_order lib config c (ok claims) code) db
      ≡ (db, err (internal (text "database operation failed")))
unfolding create_order plan_definition plan_prices order_payment_provider initial_status statement
    insert_order_row
create_order_wechat lib config c claims code db wechat known =
    ground (arith, is_currency-to_ascii_uppercase (trim config.wechat_currency))

-- A paid Stripe session that names an order that is not stored is answered by an internal error, not
-- as not found: the event refers to the order before the order is looked up.
pub fulfill_stripe_unknown :
    (lib : Libraries) (parse_uuid : Text → Option Uuid) (c : WebhookDraws) (event : StripeEvent)
    (session : StripeSession) (hash : Text) (db : Database) (id : Uuid)
    → text_is session.payment_status (text "paid") ≡ true
    → stripe_session_order_id lib parse_uuid session ≡ ok id
    → has_payment_event db PaymentProvider.stripe event.id ≡ false
    → has_order db id ≡ false
    → commit (fulfill_stripe_checkout_session lib parse_uuid c event session hash) db
      ≡ (db, err (internal (text "database operation failed")))
unfolding fulfill_stripe_checkout_session insert_payment_event insert_payment_event_row
fulfill_stripe_unknown lib parse_uuid c event session hash db id paid named fresh missing =
    ground arith

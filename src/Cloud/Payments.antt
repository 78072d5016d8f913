-- ===== src/Cloud/Payments.antt =====
-- apps/cloud-api/src/main.rs: webhook events of Stripe and WeChat Pay.
pub mod Settlement
pub mod Events
pub mod Repeats
pub mod Wechat
pub mod Refusals
use ozon_rust_suite.Common.{
  ℕ, Bool, true, false, not, ◌&&◌, ◌||◌, ◌++◌, Option, none, some, Text, text, text_eq, Result, ok,
  err, ◌==◌, if◌then◌else◌, require, ok_or, ◌>>=◌ as bind, is_some,
}
use ozon_rust_suite.Common.Rows.{find}
use ozon_rust_suite.Common.Unicode.{trim, is_empty, to_ascii_lowercase, to_ascii_uppercase}
use ozon_rust_suite.Domain.Task.{Uuid, Instant}
use ozon_rust_suite.Domain.Account.{Order, OrderStatus, confirmed, PaymentProvider}
use ozon_rust_suite.Cloud.Errors.{ApiError, bad_request, not_found, conflict, service_unavailable}
use ozon_rust_suite.Cloud.Columns.{payment_provider_to_db}
use ozon_rust_suite.Cloud.Libraries.{Libraries}
use ozon_rust_suite.Cloud.Database.{Database, PaymentEvent, insert_payment_event_row}
use ozon_rust_suite.Cloud.Tx.{Tx, ◌>>=◌, ◌>>◌, pure, fail, lift, read, db_internal}
use ozon_rust_suite.Cloud.CardKeys.{get_or}
use ozon_rust_suite.Cloud.Orders.{
  PaymentConfig, ProvisionDraws, with_id, with_reference, is_pending_provider,
  confirm_provider_order, provision_paid_order_entitlement,
}

-- The part of a checkout session that the handler reads. The payment intent is its text, if the
-- JSON value is one.
pub record StripeSession : Type 0 where
  pub id : Text
  pub payment_status : Option Text
  pub client_reference_id : Option Text
  pub metadata_order_id : Option Text
  pub amount_total : Option ℕ
  pub currency : Option Text
  pub payment_intent : Option Text

pub record StripeEvent : Type 0 where
  pub id : Text
  pub kind : Text

pub record WechatEvent : Type 0 where
  pub id : Text
  pub event_type : Text

pub record WechatTransaction : Type 0 where
  pub appid : Text
  pub mchid : Text
  pub out_trade_no : Text
  pub transaction_id : Option Text
  pub trade_type : Option Text
  pub trade_state : Text
  -- `success_time`, where RFC 3339 reads it.
  pub success_time : Option Instant
  pub total : ℕ
  pub currency : Option Text

-- What a webhook draws: the time of arrival, and what a paid order draws.
pub record WebhookDraws : Type 0 where
  pub received_at : Instant
  pub paid_at : Instant
  pub provision : ProvisionDraws

abbrev pub is_confirmed : OrderStatus → Bool
is_confirmed confirmed = true
is_confirmed _ = false

abbrev pub text_is : Option Text → Text → Bool
text_is none s = false
text_is (some t) s = text_eq t s

abbrev pub amount_is : Option ℕ → ℕ → Bool
amount_is none n = false
amount_is (some m) n = m == n

abbrev pub option_map : (Text → Text) → Option Text → Option Text
option_map f none = none
option_map f (some s) = some (f s)

abbrev pub same_provider : PaymentProvider → PaymentProvider → Bool
same_provider p q = text_eq (payment_provider_to_db p) (payment_provider_to_db q)

-- `WHERE payment_provider = $1 AND payment_reference = $2`, for WeChat Pay.
abbrev pub wechat_order : Text → Order → Bool
wechat_order reference o =
    same_provider o.payment_provider PaymentProvider.wechat_pay && with_reference reference o

unfoldable pub insert_payment_event :
    Instant → PaymentProvider → Text → Text → Option Uuid → Text → Tx Bool
insert_payment_event at provider event_id event_type order_id payload_hash db =
    elim (insert_payment_event_row
      (record {
        provider = provider;
        event_id = event_id;
        event_type = event_type;
        order_id = order_id;
        payload_hash = payload_hash;
        received_at = at;
      })
      db) [ err e ↦ err (db_internal e) | ok r ↦ ok r ]

unfoldable pub validate_stripe_session_matches_order :
    StripeSession → Order → Result ApiError (Unit {0})
validate_stripe_session_matches_order session order =
    if not (same_provider order.payment_provider PaymentProvider.stripe)
    then err (bad_request (text "order is not a Stripe order"))
    else if not (text_is order.checkout_session_id session.id)
    then err (bad_request (text "Stripe session does not match order"))
    else if not (amount_is session.amount_total order.amount_minor)
    then err (bad_request (text "Stripe amount does not match order"))
    else if not (text_is (option_map to_ascii_lowercase session.currency) order.currency)
    then err (bad_request (text "Stripe currency does not match order"))
    else ok tt

-- `required_wechat_config`.
unfoldable pub required_wechat_config : Option Text → Text → Result ApiError Text
required_wechat_config none label = err (service_unavailable (label ++ text " is not configured"))
required_wechat_config (some value) label =
    if is_empty (trim value)
    then err (service_unavailable (label ++ text " is not configured"))
    else ok value

unfoldable pub check_wechat_transaction :
    Text → Text → Order → WechatTransaction → Result ApiError (Unit {0})
check_wechat_transaction app_id mch_id order t =
    if not (text_eq t.appid app_id)
    then err (bad_request (text "WeChat Pay app id does not match"))
    else if not (text_eq t.mchid mch_id)
    then err (bad_request (text "WeChat Pay merchant id does not match"))
    else if not (text_is t.trade_type (text "NATIVE"))
    then err (bad_request (text "WeChat Pay trade type is not NATIVE"))
    else if not (same_provider order.payment_provider PaymentProvider.wechat_pay)
    then err (bad_request (text "order is not a WeChat Pay order"))
    else if not (text_eq order.payment_reference t.out_trade_no)
    then err (bad_request (text "WeChat Pay out_trade_no does not match order"))
    else if not (t.total == order.amount_minor)
    then err (bad_request (text "WeChat Pay amount does not match order"))
    else if not (
        text_eq (to_ascii_uppercase (get_or (text "CNY") t.currency))
          (to_ascii_uppercase order.currency))
    then err (bad_request (text "WeChat Pay currency does not match order"))
    else ok tt

unfoldable pub validate_wechatpay_transaction_for_order :
    PaymentConfig → Order → WechatTransaction → Result ApiError (Unit {0})
validate_wechatpay_transaction_for_order config order t =
    bind (required_wechat_config config.wechat_app_id (text "WeChat app id")) λ app_id.
      bind (required_wechat_config config.wechat_mch_id (text "WeChat merchant id"))
        λ mch_id. check_wechat_transaction app_id mch_id order t

-- `record_ignored_stripe_event`: the event is kept, and nothing is processed.
unfoldable pub record_ignored_event : Instant → PaymentProvider → Text → Text → Text → Tx Bool
record_ignored_event at provider event_id event_type payload_hash = do
  inserted ← insert_payment_event at provider event_id event_type none payload_hash
  pure false

module _ (lib : Libraries) where
  open lib use {sha256_hex}

  -- What follows the lock of the order, in both webhooks.
  unfoldable pub settle_order : WebhookDraws → Order → Option Text → Instant → Text → Text → Tx Bool
  settle_order c order payment_intent_id paid_at actor summary =
      if is_confirmed order.status
      then pure false
      else if not (is_pending_provider order.status)
      then fail (conflict (text "order is not awaiting provider payment"))
      else do
        paid ← confirm_provider_order order.id payment_intent_id paid_at
        entitlement ← provision_paid_order_entitlement lib c.provision paid actor summary
        pure true

  -- `fulfill_stripe_checkout_session` from the lock of the order on.
  unfoldable pub settle_stripe_session : WebhookDraws → StripeSession → Uuid → Tx Bool
  settle_stripe_session c session order_id = do
    found ← read (λ db. find (with_id order_id) db.orders)
    order ← lift (ok_or found (not_found (text "order not found")))
    lift (validate_stripe_session_matches_order session order)
    settle_order c order session.payment_intent c.paid_at (text "stripe")
        (text "Stripe checkout paid and entitlement activated")

  -- `process_wechatpay_transaction` from the insertion of the event on.
  unfoldable pub settle_wechat_order :
      WebhookDraws → WechatEvent → WechatTransaction → Text → Order → Tx Bool
  settle_wechat_order c event t payload_hash order = do
    inserted ←
        insert_payment_event c.received_at PaymentProvider.wechat_pay event.id event.event_type
          (some order.id) payload_hash
    (if not inserted
        then pure false
        else settle_order c order (some (get_or t.out_trade_no t.transaction_id))
            (get_or c.paid_at t.success_time) (text "wechat_pay")
            (text "WeChat Pay native payment paid and entitlement activated"))

  unfoldable pub process_wechatpay_transaction :
      PaymentConfig → WebhookDraws → WechatEvent → WechatTransaction → Text → Tx Bool
  process_wechatpay_transaction config c event t body =
      let payload_hash = sha256_hex body in
      if not (text_eq event.event_type (text "TRANSACTION.SUCCESS"))
        || not (text_eq t.trade_state (text "SUCCESS"))
      then record_ignored_event c.received_at PaymentProvider.wechat_pay event.id event.event_type
          payload_hash
      else do
        found ← read (λ db. find (wechat_order t.out_trade_no) db.orders)
        order ← lift (ok_or found (not_found (text "WeChat Pay order not found")))
        lift (validate_wechatpay_transaction_for_order config order t)
        settle_wechat_order c event t payload_hash order

-- `Uuid::parse_str` is a parameter.
module _ (lib : Libraries) (parse_uuid : Text → Option Uuid) where
  unfoldable pub stripe_session_order_id : StripeSession → Result ApiError Uuid
  stripe_session_order_id session =
      bind
        (ok_or
          (elim session.metadata_order_id [
            | some raw ↦ some raw
            | none ↦ session.client_reference_id
          ])
          (bad_request (text "Stripe session missing order id")))
        λ raw. ok_or (parse_uuid raw) (bad_request (text "Stripe session order id is invalid"))

  unfoldable pub fulfill_stripe_checkout_session :
      WebhookDraws → StripeEvent → StripeSession → Text → Tx Bool
  fulfill_stripe_checkout_session c event session payload_hash =
      if not (text_is session.payment_status (text "paid"))
      then record_ignored_event c.received_at PaymentProvider.stripe event.id event.kind
          payload_hash
      else do
        order_id ← lift (stripe_session_order_id session)
        inserted ←
            insert_payment_event c.received_at PaymentProvider.stripe event.id event.kind
              (some order_id) payload_hash
        (if not inserted then pure false else settle_stripe_session lib c session order_id)

  -- The dispatch of `stripe_webhook` on the kind of the event, whose signature has been checked.
  unfoldable pub stripe_webhook : WebhookDraws → StripeEvent → Option StripeSession → Text → Tx Bool
  stripe_webhook c event session payload_hash =
      if text_eq event.kind (text "checkout.session.completed")
        || text_eq event.kind (text "checkout.session.async_payment_succeeded")
      then (do
        object ← lift (ok_or session (bad_request (text "invalid Stripe checkout session event")))
        fulfill_stripe_checkout_session c event object payload_hash)
      else record_ignored_event c.received_at PaymentProvider.stripe event.id event.kind
          payload_hash

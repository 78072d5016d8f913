-- ===== src/Cloud/Examples/Webhooks.antt =====
-- Runs of the cloud service on a small database: orders and payment webhooks.
use ozon_rust_suite.Common.{
  ◌≡◌, refl, true, false, none, some, ok, err, text, text_eq, [], Text, Option, Bool, if◌then◌else◌,
}
use ozon_rust_suite.Common.Rows.{find, update_where}
use ozon_rust_suite.Common.Unicode.{trim, is_whitespace}
use ozon_rust_suite.Domain.Task.{Uuid}
use ozon_rust_suite.Domain.Account.{standard_30d}
use ozon_rust_suite.Cloud.Errors.{internal}
use ozon_rust_suite.Cloud.Database.{
  Database, insert_audit_row, insert_entitlement, insert_card_key, insert_payment_event_row,
}
use ozon_rust_suite.Cloud.Tx.{statement, insert_audit, commit}
use ozon_rust_suite.Cloud.CardKeys.{mark_card_key_redeemed}
use ozon_rust_suite.Cloud.Columns.{payment_provider_to_db}
use ozon_rust_suite.Cloud.Orders.{
  ConfiguredPaymentProvider, PaymentConfig, OrderDraws, create_order, update_order,
  confirm_provider_order, provision_paid_order_entitlement, store_provision,
  fulfillment_terms_for_plan, plan_code_of,
}
use ozon_rust_suite.Cloud.CardKeys.{generate_card_key}
use ozon_rust_suite.Cloud.Payments.{
  StripeSession, StripeEvent, WechatEvent, WechatTransaction, WebhookDraws, insert_payment_event,
  validate_stripe_session_matches_order, required_wechat_config, check_wechat_transaction,
  validate_wechatpay_transaction_for_order, settle_order, settle_stripe_session,
  settle_wechat_order, process_wechatpay_transaction, stripe_session_order_id,
  fulfill_stripe_checkout_session,
}
use ozon_rust_suite.Cloud.Payments.Events.{StripeOutcome, fulfill-StripeOutcome}
use ozon_rust_suite.Cloud.Payments.Wechat.{WechatOutcome, process-WechatOutcome}
use ozon_rust_suite.Cloud.Payments.Repeats.{fulfill_stripe_again}
use ozon_rust_suite.Cloud.Payments.Refusals.{create_order_wechat, fulfill_stripe_unknown}
use ozon_rust_suite.Cloud.Service.{serve, attach, one, none_more}
use ozon_rust_suite.Cloud.Examples.{lib, bearer, db, stamp, after}

abbrev webhook : WebhookDraws
webhook = record {
  received_at = 20;
  paid_at = 21;
  provision = record {
    key = record { random = text "NEW"; id = 30; salt = []; created_at = 22 };
    redeemed_at = 23;
    entitlement_id = 31;
    stamp = stamp;
  };
}

abbrev stripe_event : StripeEvent
stripe_event = record { id = text "evt-1"; kind = text "checkout.session.completed" }

abbrev session : StripeSession
session = record {
  id = text "session";
  payment_status = some (text "paid");
  client_reference_id = none;
  metadata_order_id = some (text "order");
  amount_total = some 990;
  currency = some (text "CNY");
  payment_intent = some (text "intent");
}

-- The texts of two identifiers.
unfoldable parse_uuid : Text → Option Uuid
unfolding text_eq
parse_uuid s =
    if text_eq s (text "order") then some 3 else if text_eq s (text "lost") then some 77 else none

abbrev delivering : Database × Bool
delivering =
    after false (fulfill_stripe_checkout_session lib parse_uuid webhook stripe_event session [])

delivered :
    fulfill_stripe_checkout_session lib parse_uuid webhook stripe_event session [] db
    ≡ ok (true, delivering.0)
unfolding fulfill_stripe_checkout_session stripe_session_order_id insert_payment_event
    insert_payment_event_row settle_stripe_session validate_stripe_session_matches_order
    settle_order confirm_provider_order update_order provision_paid_order_entitlement
    fulfillment_terms_for_plan generate_card_key store_provision insert_card_key
    mark_card_key_redeemed statement insert_entitlement insert_audit insert_audit_row find
    update_where text_eq parse_uuid payment_provider_to_db
delivered = refl

fulfill-StripeOutcome_example :
    StripeOutcome lib parse_uuid webhook stripe_event session db true delivering.0
fulfill-StripeOutcome_example =
    fulfill-StripeOutcome lib parse_uuid webhook stripe_event session [] db true delivering.0
      delivered

-- The tables after a session was attached to another order.
abbrev later : Database
later = serve lib parse_uuid (attach 99 (text "other")) delivering.0

fulfill_stripe_again_example :
    fulfill_stripe_checkout_session lib parse_uuid webhook stripe_event session [] later
    ≡ ok (false, later)
fulfill_stripe_again_example =
    fulfill_stripe_again lib parse_uuid webhook webhook stripe_event session [] [] db true
      delivering.0 later delivered (one (attach 99 (text "other")) none_more)

abbrev lost_session : StripeSession
lost_session = record session { metadata_order_id = some (text "lost") }

lost_named : stripe_session_order_id lib parse_uuid lost_session ≡ ok 77
unfolding stripe_session_order_id text_eq parse_uuid
lost_named = refl

lost_paid : text_eq (text "paid") (text "paid") ≡ true
unfolding text_eq
lost_paid = refl

fulfill_stripe_unknown_example :
    commit (fulfill_stripe_checkout_session lib parse_uuid webhook stripe_event lost_session []) db
    ≡ (db, err (internal (text "database operation failed")))
fulfill_stripe_unknown_example =
    fulfill_stripe_unknown lib parse_uuid webhook stripe_event lost_session [] db 77 lost_paid
      lost_named refl refl

abbrev config : PaymentConfig
config = record {
  payment_provider = ConfiguredPaymentProvider.wechat_pay;
  stripe_currency = text "usd";
  stripe_standard_amount_minor = 990;
  wechat_currency = text "CNY";
  wechat_standard_amount_minor = 990;
  wechat_app_id = some (text "app");
  wechat_mch_id = some (text "merchant");
}

default_plan : text_eq (plan_code_of none) standard_30d ≡ true
unfolding plan_code_of text_eq
default_plan = refl

abbrev new_order : OrderDraws
new_order = record { order_id = 40; reference_id = 41; created_at = 24; stamp = stamp }

create_order_wechat_example :
    commit (create_order lib config new_order (ok bearer) none) db
    ≡ (db, err (internal (text "database operation failed")))
create_order_wechat_example =
    create_order_wechat lib config new_order bearer none db refl default_plan

abbrev wechat_event : WechatEvent
wechat_event = record { id = text "evt-2"; event_type = text "TRANSACTION.SUCCESS" }

abbrev transaction : WechatTransaction
transaction = record {
  appid = text "app";
  mchid = text "merchant";
  out_trade_no = text "trade";
  transaction_id = none;
  trade_type = some (text "NATIVE");
  trade_state = text "SUCCESS";
  success_time = none;
  total = 990;
  currency = none;
}

abbrev notifying : Database × Bool
notifying =
    after false (process_wechatpay_transaction lib config webhook wechat_event transaction [])

notified :
    process_wechatpay_transaction lib config webhook wechat_event transaction [] db
    ≡ ok (true, notifying.0)
unfolding process_wechatpay_transaction insert_payment_event insert_payment_event_row
    settle_wechat_order validate_wechatpay_transaction_for_order required_wechat_config
    check_wechat_transaction settle_order confirm_provider_order update_order
    provision_paid_order_entitlement fulfillment_terms_for_plan generate_card_key store_provision
    insert_card_key mark_card_key_redeemed statement insert_entitlement insert_audit
    insert_audit_row find update_where text_eq payment_provider_to_db trim is_whitespace
notified = refl

process-WechatOutcome_example :
    WechatOutcome config webhook wechat_event transaction db true notifying.0
process-WechatOutcome_example =
    process-WechatOutcome lib config webhook wechat_event transaction [] db true notifying.0
      notified

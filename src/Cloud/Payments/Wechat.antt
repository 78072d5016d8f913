-- ===== src/Cloud/Payments/Wechat.antt =====
-- apps/cloud-api/src/main.rs: what a WeChat Pay notification does.
use ozon_rust_suite.Common.{
  ◌≡◌, sym, ◌⊎◌, inl, inr, Bool, true, false, ◌&&◌, Option, none, some, Text, text, text_eq,
  text_eq_iff, bind-eq-ok, ok, arith, Bool-cases, Option-cases, any,
}
use mathlib.Core.Path.{subst}
use mathlib.Core.List.{Memᴰ}
use ozon_rust_suite.Common.Rows.{find}
use ozon_rust_suite.Common.Rows.Laws.{find-Memᴰ}
use ozon_rust_suite.Domain.Account.{Order, PaymentProvider}
use ozon_rust_suite.Cloud.Libraries.{Libraries}
use ozon_rust_suite.Cloud.Database.{Database, PaymentEvent, has_payment_event}
use ozon_rust_suite.Cloud.Tx.{lift, >>=-eq-ok, lift-eq-ok, lift-eq-ok_result}
use ozon_rust_suite.Cloud.CardKeys.{get_or}
use ozon_rust_suite.Cloud.Columns.{payment_provider_to_db}
use ozon_rust_suite.Cloud.Orders.{PaymentConfig}
use ozon_rust_suite.Cloud.Payments.{
  WechatEvent, WechatTransaction, WebhookDraws, same_provider, wechat_order, insert_payment_event,
  record_ignored_event, settle_wechat_order, process_wechatpay_transaction,
  check_wechat_transaction, required_wechat_config, validate_wechatpay_transaction_for_order,
}
use ozon_rust_suite.Cloud.Payments.Events.{insert_payment_event-eq-ok, SameButEvents}
use ozon_rust_suite.Cloud.Payments.Settlement.{Settles, settle_order-eq-ok}

abbrev pub IsRecorded : Database → WechatEvent → Type 0
IsRecorded db event = has_payment_event db PaymentProvider.wechat_pay event.id ≡ true

-- The notification is of this merchant's native payment of this order, in full.
pub record WechatMatches (config : PaymentConfig) (order : Order) (t : WechatTransaction)
    : Type 0 where
  pub app : config.wechat_app_id ≡ some t.appid
  pub merchant : config.wechat_mch_id ≡ some t.mchid
  pub provider : same_provider order.payment_provider PaymentProvider.wechat_pay ≡ true
  pub reference : order.payment_reference ≡ t.out_trade_no
  pub amount : t.total ≡ order.amount_minor

required_wechat_config-eq-ok :
    (value : Option Text) (label s : Text)
    → required_wechat_config value label ≡ ok s
    → value ≡ some s
unfolding required_wechat_config
required_wechat_config-eq-ok none label s h = cc
required_wechat_config-eq-ok (some v) label s h = ground arith

check_wechat-WechatMatches :
    (config : PaymentConfig) (app mch : Text) (order : Order) (t : WechatTransaction) {u : Unit {0}}
    → config.wechat_app_id ≡ some app
    → config.wechat_mch_id ≡ some mch
    → check_wechat_transaction app mch order t ≡ ok u
    → WechatMatches config order t
unfolding check_wechat_transaction
check_wechat-WechatMatches config app mch order t p q h = ground (
  arith,
  text_eq_iff t.appid app,
  text_eq_iff t.mchid mch,
  text_eq_iff order.payment_reference t.out_trade_no,
)

validate_wechat-WechatMatches :
    (config : PaymentConfig) (order : Order) (t : WechatTransaction) {u : Unit {0}}
    → validate_wechatpay_transaction_for_order config order t ≡ ok u
    → WechatMatches config order t
unfolding validate_wechatpay_transaction_for_order
validate_wechat-WechatMatches config order t h =
    let (app, has_app, h1) = bind-eq-ok (required_wechat_config config.wechat_app_id _) _ h in
    let (mch, has_mch, h2) = bind-eq-ok (required_wechat_config config.wechat_mch_id _) _ h1 in
    check_wechat-WechatMatches config app mch order t (required_wechat_config-eq-ok _ _ app has_app)
      (required_wechat_config-eq-ok _ _ mch has_mch) h2

settle_wechat_order-eq-ok :
    (lib : Libraries) (c : WebhookDraws) (event : WechatEvent) (t : WechatTransaction) (hash : Text)
    (order : Order) (db : Database) (b : Bool) (db' : Database)
    → settle_wechat_order lib c event t hash order db ≡ ok (b, db')
    → IsRecorded db' event
      × (((b ≡ false) × SameButEvents db db')
          ⊎ ((b ≡ true)
              × ((recorded : Database) × SameButEvents db recorded
                  × Settles c order.id
                      (some (get_or t.out_trade_no t.transaction_id))
                      (get_or c.paid_at t.success_time)
                      recorded
                      db')))
unfolding settle_wechat_order
settle_wechat_order-eq-ok lib c event t hash order db b db' h =
    let (inserted, db1, done, h1) =
      >>=-eq-ok
        (insert_payment_event c.received_at PaymentProvider.wechat_pay event.id event.event_type
          (some order.id) hash)
        _ db h in
    let (there, same) = insert_payment_event-eq-ok _ _ _ _ _ _ db inserted db1 done in
    elim (Bool-cases inserted) [
      | inr old ↦ (ground arith, inl (ground arith))
      | inl new ↦ elim (settle_order-eq-ok lib c order _ _ _ _ db1 b db' (rw new at h1)) [
        | inl (kept, left) ↦ (rw left there, inl (kept, subst (SameButEvents db) (sym left) same))
        | inr (paid, settles) ↦ (
          subst
              (λ es.
                any
                  (λ (x : PaymentEvent).
                    text_eq (payment_provider_to_db x.provider)
                      (payment_provider_to_db PaymentProvider.wechat_pay)
                    && text_eq x.event_id event.id)
                  es
                ≡ true)
              (sym settles.payment_events) there,
          inr (paid, (db1, same, settles)),
        )
      ]
    ]

-- A notification that pays for an order.
pub record WechatPays (config : PaymentConfig) (c : WebhookDraws) (event : WechatEvent)
    (t : WechatTransaction) (db db' : Database) : Type 0 where
  pub event_succeeded : text_eq event.event_type (text "TRANSACTION.SUCCESS") ≡ true
  pub trade_succeeded : text_eq t.trade_state (text "SUCCESS") ≡ true
  pub order : Order
  pub stored : Memᴰ order db.orders
  pub matches : WechatMatches config order t
  pub recorded : Database
  pub recorded_same : SameButEvents db recorded
  pub settles :
      Settles c order.id
        (some (get_or t.out_trade_no t.transaction_id))
        (get_or c.paid_at t.success_time)
        recorded
        db'

abbrev pub WechatOutcome :
    PaymentConfig
    → WebhookDraws
    → WechatEvent
    → WechatTransaction
    → Database
    → Bool
    → Database
    → Type 0
WechatOutcome config c event t db b db' =
    IsRecorded db' event
    × (((b ≡ false) × SameButEvents db db') ⊎ ((b ≡ true) × WechatPays config c event t db db'))

ignored_outcome :
    (config : PaymentConfig) (c : WebhookDraws) (event : WechatEvent) (t : WechatTransaction)
    (hash : Text) (db : Database) (b : Bool) (db' : Database)
    → record_ignored_event c.received_at PaymentProvider.wechat_pay event.id event.event_type hash
        db
      ≡ ok (b, db')
    → WechatOutcome config c event t db b db'
unfolding record_ignored_event
ignored_outcome config c event t hash db b db' h =
    let (inserted, db1, done, h1) =
      >>=-eq-ok
        (insert_payment_event c.received_at PaymentProvider.wechat_pay event.id event.event_type
          none hash)
        _ db h in
    let (there, same) = insert_payment_event-eq-ok _ _ _ _ _ _ db inserted db1 done in
    (ground arith, inl (ground arith))

module _ (lib : Libraries) (config : PaymentConfig) (c : WebhookDraws) (event : WechatEvent)
    (t : WechatTransaction) (body : Text) (db : Database) (b : Bool) (db' : Database)
    (h : process_wechatpay_transaction lib config c event t body db ≡ ok (b, db')) where
  -- A WeChat Pay notification that is accepted is recorded, and then either it is not reported as
  -- processed, and no table but that of events has changed; or it is reported as processed, the
  -- event and the trade succeeded, a stored WeChat order has the transaction's reference and amount,
  -- the application and the merchant are the configured ones, the order awaited its payment and is
  -- confirmed, its plan is the standard one, and exactly one entitlement is added, unrevoked, for
  -- the order's user.
  pub process-WechatOutcome : WechatOutcome config c event t db b db'
  unfolding process_wechatpay_transaction
  process-WechatOutcome =
      elim (Bool-cases (text_eq event.event_type (text "TRANSACTION.SUCCESS"))) [
        | inr other ↦
            ignored_outcome config c event t (lib.sha256_hex body) db b db' (rw other at h)
        | inl event_succeeded ↦ elim (Bool-cases (text_eq t.trade_state (text "SUCCESS"))) [
          | inr other ↦
              ignored_outcome config c event t (lib.sha256_hex body) db b db'
                (rw (event_succeeded, other) at h)
          | inl trade_succeeded ↦
              elim (Option-cases (find (wechat_order t.out_trade_no) db.orders)) [
                | inl missing ↦ absurd (ground arith)
                | inr (order, found) ↦
                    let (_, db1, valid, h1) =
                      >>=-eq-ok (lift (validate_wechatpay_transaction_for_order config order t)) _
                        db (rw (event_succeeded, trade_succeeded, found) at h) in
                    let same : db1 ≡ db = lift-eq-ok _ db db1 valid in
                    let matches =
                      validate_wechat-WechatMatches config order t
                        (lift-eq-ok_result _ db db1 valid) in
                    let (there, how) =
                      settle_wechat_order-eq-ok lib c event t (lib.sha256_hex body) order db b db'
                        (rw same at h1) in
                    (
                      there,
                      elim how [
                        | inl kept ↦ inl kept
                        | inr (paid, (recorded, recorded_same, settles)) ↦ inr (
                          paid,
                          record {
                            event_succeeded = event_succeeded;
                            trade_succeeded = trade_succeeded;
                            order = order;
                            stored = find-Memᴰ (wechat_order t.out_trade_no) db.orders found;
                            matches = matches;
                            recorded = recorded;
                            recorded_same = recorded_same;
                            settles = settles;
                          },
                        )
                      ],
                    )
              ]
        ]
      ]

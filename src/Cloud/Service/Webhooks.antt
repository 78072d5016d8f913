-- ===== src/Cloud/Service/Webhooks.antt =====
-- apps/cloud-api/src/main.rs: the transactions on orders and payments keep what statements keep.
use ozon_rust_suite.Common.{
  ℕ, ◌≡◌, inl, inr, Bool, [], ◌∷◌, ◌++◌, Option, Text, Result, ok, arith, Bool-cases, Result-cases,
}
use ozon_rust_suite.Domain.Task.{Uuid, Instant}
use ozon_rust_suite.Domain.Account.{Order, CardKey, PaymentProvider}
use ozon_rust_suite.Cloud.Errors.{ApiError}
use ozon_rust_suite.Cloud.Libraries.{Libraries}
use ozon_rust_suite.Cloud.Database.{
  Database, PaymentEvent, insert_payment_event_row, has_payment_event,
}
use ozon_rust_suite.Cloud.Tx.{Tx, Stamp}
use ozon_rust_suite.Cloud.CardKeys.{AuthClaims, KeyDraws}
use ozon_rust_suite.Cloud.Orders.{
  PaymentConfig, OrderDraws, ProvisionDraws, update_order, confirm_pending, confirm_pending_order,
  confirm_pending_order_by_reference, confirm_provider_order, attach_checkout_session, create_order,
  confirm_order_card_key, confirm_order, confirm_order_by_reference, store_provision,
  provision_paid_order_entitlement,
}
use ozon_rust_suite.Cloud.Payments.{
  StripeSession, StripeEvent, WechatEvent, WechatTransaction, WebhookDraws, insert_payment_event,
  record_ignored_event, settle_order, settle_stripe_session, settle_wechat_order,
  process_wechatpay_transaction, fulfill_stripe_checkout_session, stripe_webhook,
}
use ozon_rust_suite.Cloud.Service.Safe.{
  IsStable, stopped, went, Keeps, bind-Keeps, then-Keeps, read-Keeps, pure-Keeps, fail-Keeps,
  lift-Keeps, if_Keeps, key-Keeps, entitlement-Keeps, order-Keeps, redeemed-Keeps, audit-Keeps,
}

module _ {P : Database → Type 0} (st : IsStable P) where
  -- A transaction that changes the orders alone.
  orders_keep :
      {A : Type 0} (m : Tx A)
      → ((db : Database) (a : A) (db' : Database)
          → m db ≡ ok (a, db')
          → db' ≡ record db { orders = db'.orders })
      → Keeps P m
  orders_keep m only = record {
    from = λ db p. elim (Result-cases (m db)) [
      | inl ((a, db'), h) ↦ rw h (went (rw (only db a db' h) (st.order db db'.orders p)))
      | inr (x, h) ↦ rw h stopped
    ];
  }

  confirm_pending-Keeps : (p : Order → Bool) (at : Instant) → Keeps P (confirm_pending p at)
  unfolding confirm_pending update_order
  confirm_pending-Keeps p at = orders_keep (confirm_pending p at) λ db o db' h. ground arith

  confirm_provider_order-Keeps :
      (id : Uuid) (intent : Option Text) (at : Instant)
      → Keeps P (confirm_provider_order id intent at)
  unfolding confirm_provider_order update_order
  confirm_provider_order-Keeps id intent at =
      orders_keep (confirm_provider_order id intent at) λ db o db' h. ground arith

  pub attach_checkout_session-Keeps :
      (id : Uuid) (session : Text) → Keeps P (attach_checkout_session id session)
  unfolding attach_checkout_session update_order
  attach_checkout_session-Keeps id session =
      orders_keep (attach_checkout_session id session) λ db o db' h. ground arith

  insert_payment_event-Keeps :
      (at : Instant) (provider : PaymentProvider) (event_id event_type : Text)
      (order_id : Option Uuid) (hash : Text)
      → Keeps P (insert_payment_event at provider event_id event_type order_id hash)
  unfolding insert_payment_event insert_payment_event_row
  insert_payment_event-Keeps at provider event_id event_type order_id hash =
      let row : PaymentEvent = record {
        provider = provider;
        event_id = event_id;
        event_type = event_type;
        order_id = order_id;
        payload_hash = hash;
        received_at = at;
      } in
      record {
        from = λ db p.
            elim (Result-cases
              (insert_payment_event at provider event_id event_type order_id hash db)) [
                | inr (x, h) ↦ rw h stopped
                | inl ((b, db'), h) ↦ elim (Bool-cases (has_payment_event db provider event_id)) [
                  | inl there ↦ let same : db' ≡ db = ground arith in rw h (went (rw same p))
                  | inr new ↦
                      let same : db'
                          ≡ record db { payment_events = db.payment_events ++ row ∷ [] } =
                        ground arith in
                      rw h (went (rw same (st.event db row p)))
                ]
              ];
      }

  record_ignored_event-Keeps :
      (at : Instant) (provider : PaymentProvider) (event_id event_type hash : Text)
      → Keeps P (record_ignored_event at provider event_id event_type hash)
  unfolding record_ignored_event
  record_ignored_event-Keeps at provider event_id event_type hash =
      search (bind-Keeps, pure-Keeps, insert_payment_event-Keeps)

  module _ (lib : Libraries) where
    pub create_order-Keeps :
        (config : PaymentConfig) (c : OrderDraws) (auth : Result ApiError AuthClaims)
        (code : Option Text)
        → Keeps P (create_order lib config c auth code)
    unfolding create_order
    create_order-Keeps config c auth code =
        search (bind-Keeps, then-Keeps, lift-Keeps, pure-Keeps, order-Keeps st, audit-Keeps st)
          depth 14

    confirm_order_card_key-Keeps :
        (key : KeyDraws) (stamp : Stamp) (order : Order)
        → Keeps P (confirm_order_card_key lib key stamp order)
    unfolding confirm_order_card_key
    confirm_order_card_key-Keeps key stamp order =
        search (bind-Keeps, then-Keeps, lift-Keeps, pure-Keeps, key-Keeps st, audit-Keeps st) depth
          14

    pub confirm_order-Keeps :
        (at : Instant) (key : KeyDraws) (stamp : Stamp) (admin : Result ApiError (Unit {0}))
        (id : Uuid)
        → Keeps P (confirm_order lib at key stamp admin id)
    unfolding confirm_order confirm_pending_order
    confirm_order-Keeps at key stamp admin id =
        search
          (bind-Keeps, then-Keeps, lift-Keeps, confirm_pending-Keeps, confirm_order_card_key-Keeps)
          depth 14

    pub confirm_order_by_reference-Keeps :
        (at : Instant) (key : KeyDraws) (stamp : Stamp) (admin : Result ApiError (Unit {0}))
        (reference : Text)
        → Keeps P (confirm_order_by_reference lib at key stamp admin reference)
    unfolding confirm_order_by_reference confirm_pending_order_by_reference
    confirm_order_by_reference-Keeps at key stamp admin reference =
        search
          (bind-Keeps, then-Keeps, lift-Keeps, confirm_pending-Keeps, confirm_order_card_key-Keeps)
          depth 14

    store_provision-Keeps :
        (c : ProvisionDraws) (order : Order) (actor summary : Text) (card : CardKey) (n : ℕ)
        → Keeps P (store_provision lib c order actor summary card n)
    unfolding store_provision
    store_provision-Keeps c order actor summary card n =
        search
          (
            then-Keeps,
            pure-Keeps,
            key-Keeps st,
            redeemed-Keeps st,
            entitlement-Keeps st,
            audit-Keeps st,
          )
          depth 14

    provision-Keeps :
        (c : ProvisionDraws) (order : Order) (actor summary : Text)
        → Keeps P (provision_paid_order_entitlement lib c order actor summary)
    unfolding provision_paid_order_entitlement
    provision-Keeps c order actor summary =
        search (bind-Keeps, then-Keeps, lift-Keeps, store_provision-Keeps) depth 14

    settle_order-Keeps :
        (c : WebhookDraws) (order : Order) (intent : Option Text) (at : Instant)
        (actor summary : Text)
        → Keeps P (settle_order lib c order intent at actor summary)
    unfolding settle_order
    settle_order-Keeps c order intent at actor summary =
        search
          (
            if_Keeps, bind-Keeps, pure-Keeps, fail-Keeps, confirm_provider_order-Keeps,
            provision-Keeps,
          )
          depth 14

    settle_stripe_session-Keeps :
        (c : WebhookDraws) (session : StripeSession) (id : Uuid)
        → Keeps P (settle_stripe_session lib c session id)
    unfolding settle_stripe_session
    settle_stripe_session-Keeps c session id =
        search (bind-Keeps, then-Keeps, lift-Keeps, read-Keeps, settle_order-Keeps) depth 14

    settle_wechat_order-Keeps :
        (c : WebhookDraws) (event : WechatEvent) (t : WechatTransaction) (hash : Text)
        (order : Order)
        → Keeps P (settle_wechat_order lib c event t hash order)
    unfolding settle_wechat_order
    settle_wechat_order-Keeps c event t hash order =
        search (bind-Keeps, if_Keeps, pure-Keeps, insert_payment_event-Keeps, settle_order-Keeps)
          depth 14

    pub process_wechatpay_transaction-Keeps :
        (config : PaymentConfig) (c : WebhookDraws) (event : WechatEvent) (t : WechatTransaction)
        (body : Text)
        → Keeps P (process_wechatpay_transaction lib config c event t body)
    unfolding process_wechatpay_transaction
    process_wechatpay_transaction-Keeps config c event t body =
        search
          (
            bind-Keeps, then-Keeps, if_Keeps, lift-Keeps, read-Keeps, record_ignored_event-Keeps,
            settle_wechat_order-Keeps,
          )
          depth 14

    module _ (parse_uuid : Text → Option Uuid) where
      fulfill-Keeps :
          (c : WebhookDraws) (event : StripeEvent) (session : StripeSession) (hash : Text)
          → Keeps P (fulfill_stripe_checkout_session lib parse_uuid c event session hash)
      unfolding fulfill_stripe_checkout_session
      fulfill-Keeps c event session hash =
          search
            (
              bind-Keeps, if_Keeps, lift-Keeps, pure-Keeps, record_ignored_event-Keeps,
              insert_payment_event-Keeps, settle_stripe_session-Keeps,
            )
            depth 14

      pub stripe_webhook-Keeps :
          (c : WebhookDraws) (event : StripeEvent) (session : Option StripeSession) (hash : Text)
          → Keeps P (stripe_webhook lib parse_uuid c event session hash)
      unfolding stripe_webhook
      stripe_webhook-Keeps c event session hash =
          search (bind-Keeps, if_Keeps, lift-Keeps, record_ignored_event-Keeps, fulfill-Keeps) depth
            14

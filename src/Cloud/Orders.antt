-- ===== src/Cloud/Orders.antt =====
-- apps/cloud-api/src/main.rs: orders, their confirmation and the entitlement of a paid order.
pub mod Provision
use ozon_rust_suite.Common.{
  ℕ, ◌+◌, Bool, true, false, ◌&&◌, List, [], ◌∷◌, ◌++◌, Option, none, some, Text, text, text_eq,
  Result, ok, err, ◌==◌, ◌||◌, any, if◌then◌else◌, not,
}
use ozon_rust_suite.Common.Rows.{find, update_where}
use ozon_rust_suite.Common.Unicode.{trim, is_empty, to_ascii_lowercase, to_ascii_uppercase}
use ozon_rust_suite.Domain.Task.{Uuid, Instant}
use ozon_rust_suite.Domain.Account.{
  days, CardKey, Order, OrderStatus, pending_manual_payment, pending_provider_payment, confirmed,
  PaymentProvider, Entitlement, standard_30d,
}
use ozon_rust_suite.Cloud.Errors.{
  ApiError, bad_request, not_found, conflict, internal, service_unavailable,
}
use ozon_rust_suite.Cloud.Columns.{payment_provider_to_db}
use ozon_rust_suite.Cloud.Libraries.{Libraries}
use ozon_rust_suite.Cloud.Database.{
  Database, same_text, insert_order_row, insert_card_key, insert_entitlement,
}
use ozon_rust_suite.Cloud.Tx.{
  Tx, ◌>>=◌, ◌>>◌, pure, fail, lift, read, db_internal, map_unique_conflict, statement, Stamp,
  audit, insert_audit,
}
use ozon_rust_suite.Cloud.CardKeys.{
  AuthClaims, KeyDraws, GeneratedCardKey, default_features, validate_card_key_limits,
  generate_card_key, mark_card_key_redeemed,
}

pub data ConfiguredPaymentProvider : Type 0 where
  manual stripe alipay wechat_pay : ConfiguredPaymentProvider
  unknown : Text → ConfiguredPaymentProvider

-- The part of `AppConfig` that orders and payments read.
pub record PaymentConfig : Type 0 where
  pub payment_provider : ConfiguredPaymentProvider
  pub stripe_currency : Text
  pub stripe_standard_amount_minor : ℕ
  pub wechat_currency : Text
  pub wechat_standard_amount_minor : ℕ
  pub wechat_app_id : Option Text
  pub wechat_mch_id : Option Text

pub record PlanDefinition : Type 0 where
  pub code : Text
  pub display_name : Text
  pub amount_minor : ℕ
  pub currency : Text

-- `.map(str::trim).filter(|value| !value.is_empty()).unwrap_or("standard_30d")`
unfoldable pub plan_code_of : Option Text → Text
plan_code_of none = standard_30d
plan_code_of (some s) = let t = trim s in if is_empty t then standard_30d else t

unfoldable pub plan_prices : PaymentConfig → ConfiguredPaymentProvider → ℕ × Text
plan_prices config ConfiguredPaymentProvider.wechat_pay =
    (config.wechat_standard_amount_minor, to_ascii_uppercase (trim config.wechat_currency))
plan_prices config _ =
    (config.stripe_standard_amount_minor, to_ascii_lowercase (trim config.stripe_currency))

unfoldable pub plan_definition : PaymentConfig → Option Text → Result ApiError PlanDefinition
plan_definition config requested_code =
    if text_eq (plan_code_of requested_code) standard_30d
    then ok (record {
      code = standard_30d;
      display_name = text "Ozon Rust Suite Standard 30 days";
      amount_minor = (plan_prices config config.payment_provider).0;
      currency = (plan_prices config config.payment_provider).1;
    })
    else err (bad_request (text "unsupported plan code"))

unfoldable pub order_payment_provider : ConfiguredPaymentProvider → Result ApiError PaymentProvider
order_payment_provider ConfiguredPaymentProvider.manual = ok PaymentProvider.manual
order_payment_provider ConfiguredPaymentProvider.stripe = ok PaymentProvider.stripe
order_payment_provider ConfiguredPaymentProvider.alipay =
    err (service_unavailable (text "Alipay is not wired yet; configure Stripe or manual payments"))
order_payment_provider ConfiguredPaymentProvider.wechat_pay = ok PaymentProvider.wechat_pay
order_payment_provider (ConfiguredPaymentProvider.unknown provider) =
    err (service_unavailable (text "unknown payment provider: " ++ provider))

-- What a new order draws; `reference_id` is the UUID in its payment reference.
pub record OrderDraws : Type 0 where
  pub order_id : Uuid
  pub reference_id : Uuid
  pub created_at : Instant
  pub stamp : Stamp

-- The two `match provider` of `create_order`, with the early return for Alipay.
unfoldable pub initial_status : PaymentProvider → Result ApiError OrderStatus
initial_status PaymentProvider.manual = ok pending_manual_payment
initial_status PaymentProvider.stripe = ok pending_provider_payment
initial_status PaymentProvider.wechat_pay = ok pending_provider_payment
initial_status PaymentProvider.alipay =
    err (service_unavailable (text "selected payment provider is not wired yet"))

abbrev pub with_id : Uuid → Order → Bool
with_id id o = o.id == id

abbrev pub with_reference : Text → Order → Bool
with_reference reference o = text_eq o.payment_reference reference

abbrev pub is_pending_manual : OrderStatus → Bool
is_pending_manual pending_manual_payment = true
is_pending_manual _ = false

abbrev pub is_pending_provider : OrderStatus → Bool
is_pending_provider pending_provider_payment = true
is_pending_provider _ = false

-- `UPDATE orders SET … WHERE … RETURNING …` on at most one row.
unfoldable pub update_order :
    (Order → Bool) → (Order → Order) → Database → Option (Order × Database)
update_order p f db = elim (find p db.orders) [
  | none ↦ none
  | some o ↦ some (f o, record db { orders = update_where p f db.orders })
]

abbrev pub confirm_manually : Instant → Order → Order
confirm_manually at o = record o { status = confirmed; paid_at = some at; confirmed_at = some at }

-- Both `confirm_pending_order` and `confirm_pending_order_by_reference`, over their `WHERE`.
unfoldable pub confirm_pending : (Order → Bool) → Instant → Tx Order
confirm_pending p at db =
    elim (update_order (λ o. p o && is_pending_manual o.status) (confirm_manually at) db) [
      | some (o, db') ↦ ok (o, db')
      | none ↦ elim (find p db.orders) [
        | some _ ↦ err (conflict (text "order is not pending manual payment"))
        | none ↦ err (not_found (text "order not found"))
      ]
    ]

unfoldable pub confirm_pending_order : Uuid → Instant → Tx Order
confirm_pending_order order_id = confirm_pending (with_id order_id)

unfoldable pub confirm_pending_order_by_reference : Text → Instant → Tx Order
confirm_pending_order_by_reference reference = confirm_pending (with_reference reference)

-- `WHERE id = $1 AND status = 'pending_provider_payment'`
abbrev pub awaits : Uuid → Order → Bool
awaits id o = with_id id o && is_pending_provider o.status

abbrev pub pay : Option Text → Instant → Order → Order
pay payment_intent_id paid_at o = record o {
  status = confirmed;
  payment_intent_id = payment_intent_id;
  paid_at = some paid_at;
  confirmed_at = some paid_at;
}

unfoldable pub confirm_provider_order : Uuid → Option Text → Instant → Tx Order
confirm_provider_order order_id payment_intent_id paid_at db =
    elim (update_order (awaits order_id) (pay payment_intent_id paid_at) db) [
      | some (o, db') ↦ ok (o, db')
      | none ↦ err (conflict (text "order is not pending provider payment"))
    ]

-- Another order that already has the session would break a unique index.
abbrev pub takes_session : Uuid → Text → Order → Bool
takes_session order_id session_id o =
    not (with_id order_id o)
    && (with_reference session_id o || same_text o.checkout_session_id (some session_id))

unfoldable pub attach_checkout_session : Uuid → Text → Tx Order
attach_checkout_session order_id session_id db =
    elim (update_order (awaits order_id)
      (λ o. record o { checkout_session_id = some session_id; payment_reference = session_id })
      db) [
        | some (o, db') ↦
            if any (takes_session order_id session_id) db.orders
            then err (internal (text "database operation failed"))
            else ok (o, db')
        | none ↦ err (conflict (text "order cannot attach checkout session"))
      ]

unfoldable pub fulfillment_terms_for_plan : Text → Result ApiError (ℕ × ℕ)
fulfillment_terms_for_plan plan_code =
    if text_eq plan_code standard_30d
    then ok (30, 1)
    else err (bad_request (text "unsupported plan code"))

pub record ConfirmOrderResponse : Type 0 where
  pub order : Order
  pub card_key : Text

-- What the entitlement of a paid order draws.
pub record ProvisionDraws : Type 0 where
  pub key : KeyDraws
  pub redeemed_at : Instant
  pub entitlement_id : Uuid
  pub stamp : Stamp

module _ (lib : Libraries) where
  open lib use {uuid_debug, uuid_simple}

  abbrev pub order_debug : Uuid → Text
  order_debug id = text "OrderId(" ++ (uuid_debug id ++ text ")")

  -- `wechat_out_trade_no` is the simple form of the order's identifier.
  unfoldable pub payment_reference_for : OrderDraws → PaymentProvider → Text
  payment_reference_for c PaymentProvider.manual = text "OZON-" ++ uuid_simple c.reference_id
  payment_reference_for c PaymentProvider.stripe = text "stripe:" ++ uuid_simple c.reference_id
  payment_reference_for c _ = uuid_simple c.order_id

  -- `create_order` up to its `commit`; the call of the provider follows it.
  unfoldable pub create_order :
      PaymentConfig → OrderDraws → Result ApiError AuthClaims → Option Text → Tx Order
  create_order config c auth requested_code = do
    claims ← lift auth
    plan ← lift (plan_definition config requested_code)
    provider ← lift (order_payment_provider config.payment_provider)
    status ← lift (initial_status provider)
    let order : Order = record {
      id = c.order_id;
      tenant_id = claims.tenant_id;
      user_id = claims.sub;
      plan_code = plan.code;
      status = status;
      payment_provider = provider;
      payment_reference = payment_reference_for c provider;
      amount_minor = plan.amount_minor;
      currency = plan.currency;
      checkout_session_id = none;
      payment_intent_id = none;
      paid_at = none;
      created_at = c.created_at;
      confirmed_at = none;
    }
    statement db_internal (insert_order_row order)
    insert_audit (
        audit c.stamp (some order.tenant_id)
          (text "UserId(" ++ (uuid_debug order.user_id ++ text ")")) (text "order.created")
          (order_debug order.id) (payment_provider_to_db provider ++ text " order created"))
    pure order

  unfoldable pub confirm_order_card_key : KeyDraws → Stamp → Order → Tx ConfirmOrderResponse
  confirm_order_card_key key stamp order = do
    lift (validate_card_key_limits 30 1)
    generated ← lift (generate_card_key lib key order.plan_code order.tenant_id 30 1)
    statement
        (map_unique_conflict (text "uq_card_keys_order_id") (text "order already has a card key"))
        (insert_card_key generated.card_key (some order.id))
    insert_audit (
        audit stamp (some order.tenant_id) (text "admin") (text "order.confirmed")
          (order_debug order.id) (text "manual payment confirmed and card key generated"))
    pure (record { order = order; card_key = generated.plain_code })

  unfoldable pub confirm_order :
      Instant → KeyDraws → Stamp → Result ApiError (Unit {0}) → Uuid → Tx ConfirmOrderResponse
  confirm_order at key stamp admin id = do
    lift admin
    order ← confirm_pending_order id at
    confirm_order_card_key key stamp order

  unfoldable pub confirm_order_by_reference :
      Instant → KeyDraws → Stamp → Result ApiError (Unit {0}) → Text → Tx ConfirmOrderResponse
  confirm_order_by_reference at key stamp admin reference = do
    lift admin
    order ← confirm_pending_order_by_reference reference at
    confirm_order_card_key key stamp order

  -- The writes of `provision_paid_order_entitlement`, once the key is generated for `days_` days.
  unfoldable pub store_provision :
      ProvisionDraws → Order → Text → Text → CardKey → ℕ → Tx Entitlement
  store_provision c order actor summary card duration_days = do
    statement
        (map_unique_conflict (text "uq_card_keys_order_id") (text "order already has a card key"))
        (insert_card_key card (some order.id))
    mark_card_key_redeemed card.id order.user_id c.redeemed_at
    let entitlement : Entitlement = record {
      id = c.entitlement_id;
      tenant_id = order.tenant_id;
      user_id = order.user_id;
      plan_code = order.plan_code;
      source_card_key_id = card.id;
      features = default_features;
      expires_at = c.redeemed_at + days duration_days;
      revoked_at = none;
    }
    statement
        (map_unique_conflict (text "uq_entitlements_source_card_key")
          (text "order entitlement is already active"))
        (insert_entitlement entitlement)
    insert_audit (
        audit c.stamp (some order.tenant_id) actor (text "order.entitlement_activated")
          (order_debug order.id) summary)
    pure entitlement

  unfoldable pub provision_paid_order_entitlement :
      ProvisionDraws → Order → Text → Text → Tx Entitlement
  provision_paid_order_entitlement c order actor summary = do
    terms ← lift (fulfillment_terms_for_plan order.plan_code)
    lift (validate_card_key_limits terms.0 terms.1)
    generated ← lift (generate_card_key lib c.key order.plan_code order.tenant_id terms.0 terms.1)
    store_provision c order actor summary generated.card_key terms.0

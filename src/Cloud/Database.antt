-- ===== src/Cloud/Database.antt =====
-- apps/cloud-api/migrations: the tables, with the constraints that the inserts of
-- apps/cloud-api/src/main.rs can meet.
use ozon_rust_suite.Common.{
  Bool, true, false, not, ◌&&◌, List, [], ◌∷◌, ◌++◌, Option, none, some, Text, text, text_eq,
  Result, ok, ◌>>◌, require, any, all, length, leb, ltb, ◌==◌, if◌then◌else◌,
}
use ozon_rust_suite.Domain.Task.{Uuid, Instant, AuditEvent}
use ozon_rust_suite.Domain.Account.{
  User, Order, CardKey, Device, Entitlement, PaymentProvider, manual,
}
use ozon_rust_suite.Cloud.Columns.{payment_provider_to_db}

-- A row of `card_keys`: the key, and the order that it was generated for.
pub record CardRow : Type 0 where
  pub card : CardKey
  pub order_id : Option Uuid

pub record PaymentEvent : Type 0 where
  pub provider : PaymentProvider
  pub event_id : Text
  pub event_type : Text
  pub order_id : Option Uuid
  pub payload_hash : Text
  pub received_at : Instant

pub record Database : Type 0 where
  pub tenants : List Uuid
  pub users : List User
  pub orders : List Order
  pub card_keys : List CardRow
  pub devices : List Device
  pub entitlements : List Entitlement
  pub payment_events : List PaymentEvent
  pub audit_events : List AuditEvent

-- `sqlx::Error` of a refused statement: the constraint that it violates.
pub data SqlError : Type 0 where
  violates : Text → SqlError

abbrev pub holds : Bool → Text → Result SqlError (Unit {0})
holds b name = require b (violates name)

abbrev pub same_id : Option Uuid → Option Uuid → Bool
same_id (some a) (some b) = a == b
same_id _ _ = false

abbrev pub same_text : Option Text → Option Text → Bool
same_text (some a) (some b) = text_eq a b
same_text _ _ = false

abbrev pub has_tenant : Database → Uuid → Bool
has_tenant db id = any (λ t. t == id) db.tenants

abbrev pub has_user : Database → Uuid → Bool
has_user db id = any (λ (u : User). u.id == id) db.users

abbrev pub has_order : Database → Uuid → Bool
has_order db id = any (λ (o : Order). o.id == id) db.orders

abbrev pub has_card : Database → Uuid → Bool
has_card db id = any (λ (r : CardRow). r.card.id == id) db.card_keys

abbrev pub optionally : (Uuid → Bool) → Option Uuid → Bool
optionally p none = true
optionally p (some id) = p id

-- The statements follow Postgres: the checks of the row, then the unique indexes in the order of
-- their creation, then the foreign keys at the end of the statement.
-- `ON CONFLICT (id) DO NOTHING`: a tenant that is there stays as it is.
unfoldable pub insert_tenant : Uuid → Database → Result SqlError Database
insert_tenant id db =
    ok (if has_tenant db id then db else record db { tenants = db.tenants ++ id ∷ [] })

unfoldable pub insert_card_key : CardKey → Option Uuid → Database → Result SqlError Database
insert_card_key card order_id db = do
  holds (ltb 0 card.duration_days) (text "card_keys_duration_days_check")
  holds (ltb 0 card.max_devices) (text "card_keys_max_devices_check")
  holds (not (has_card db card.id)) (text "card_keys_pkey")
  holds (not (any (λ (r : CardRow). same_id r.order_id order_id) db.card_keys))
      (text "uq_card_keys_order_id")
  holds
      (not
        (any (λ (r : CardRow). text_eq r.card.code_fingerprint card.code_fingerprint) db.card_keys))
      (text "uq_card_keys_code_fingerprint")
  holds (has_tenant db card.tenant_id) (text "card_keys_tenant_id_fkey")
  holds (optionally (has_order db) order_id) (text "card_keys_order_id_fkey")
  ok (record db { card_keys = db.card_keys ++ record { card = card; order_id = order_id } ∷ [] })

unfoldable pub insert_entitlement : Entitlement → Database → Result SqlError Database
insert_entitlement e db = do
  holds (not (any (λ (x : Entitlement). x.id == e.id) db.entitlements)) (text "entitlements_pkey")
  holds
      (not
        (any (λ (x : Entitlement). x.source_card_key_id == e.source_card_key_id) db.entitlements))
      (text "uq_entitlements_source_card_key")
  holds (has_tenant db e.tenant_id) (text "entitlements_tenant_id_fkey")
  holds (has_user db e.user_id) (text "entitlements_user_id_fkey")
  holds (has_card db e.source_card_key_id) (text "entitlements_source_card_key_id_fkey")
  ok (record db { entitlements = db.entitlements ++ e ∷ [] })

-- `currency ~ '^[a-z]{3}$'`
abbrev pub is_currency : Text → Bool
is_currency s = (length s == 3) && all (λ c. leb b'a' c && leb c b'z') s

unfoldable pub insert_order_row : Order → Database → Result SqlError Database
insert_order_row o db = do
  holds (is_currency o.currency) (text "orders_currency_check")
  holds (not (has_order db o.id)) (text "orders_pkey")
  holds (not (any (λ (x : Order). text_eq x.payment_reference o.payment_reference) db.orders))
      (text "uq_orders_payment_reference")
  holds (not (any (λ (x : Order). same_text x.checkout_session_id o.checkout_session_id) db.orders))
      (text "uq_orders_checkout_session_id")
  holds (has_tenant db o.tenant_id) (text "orders_tenant_id_fkey")
  holds (has_user db o.user_id) (text "orders_user_id_fkey")
  ok (record db { orders = db.orders ++ o ∷ [] })

abbrev pub is_manual : PaymentProvider → Bool
is_manual manual = true
is_manual _ = false

abbrev pub has_payment_event : Database → PaymentProvider → Text → Bool
has_payment_event db provider event_id =
    any
      (λ (x : PaymentEvent).
        text_eq (payment_provider_to_db x.provider) (payment_provider_to_db provider)
        && text_eq x.event_id event_id)
      db.payment_events

-- `INSERT … ON CONFLICT (provider, event_id) DO NOTHING`: whether a row went in, and the table.
unfoldable pub insert_payment_event_row :
    PaymentEvent → Database → Result SqlError (Bool × Database)
insert_payment_event_row e db = do
  holds (not (is_manual e.provider)) (text "payment_events_provider_check")
  (if has_payment_event db e.provider e.event_id then ok (false, db) else do
    holds (optionally (has_order db) e.order_id) (text "payment_events_order_id_fkey")
    ok (true, record db { payment_events = db.payment_events ++ e ∷ [] }))

unfoldable pub insert_audit_row : AuditEvent → Database → Result SqlError Database
insert_audit_row e db = do
  holds (not (any (λ (x : AuditEvent). x.id == e.id) db.audit_events)) (text "audit_events_pkey")
  holds (optionally (has_tenant db) e.tenant_id) (text "audit_events_tenant_id_fkey")
  ok (record db { audit_events = db.audit_events ++ e ∷ [] })
